-- ===== src/Gate/Guarantees.antt =====
-- What the responses of `decide` in scripts/action_gate/action_gate.py guarantee.
use frankensteinz_hermes.Gate.Policy.{LoadedPolicy, decisions}
use frankensteinz_hermes.Gate.Policy.Loaded.{IsLoaded}
use frankensteinz_hermes.Gate.Request.{Request, validate_request}
use frankensteinz_hermes.Gate.Request.Normal.{validate_request-IsValid}
use frankensteinz_hermes.Gate.Decision.{Verdict, decision}
use frankensteinz_hermes.Gate.Decision.Total.{HasSections, decision_total}
use frankensteinz_hermes.Gate.Decide.{Hashes, Response, decide, respond, fail_closed, rescue}
use frankensteinz_hermes.Gate.Safety.{deny_ne_allow, Admitted, decision-allow}
use frankensteinz_hermes.Base.{
  ap, sym, contains, String, ◌∙◌, Result-cases, Bool, Result, arith, inr, inl, false, true, err, ok,
  refl, ◌≡◌,
}
use frankensteinz_hermes.Python.{gate_error, Exn, Value}
use frankensteinz_hermes.Gate.Request.Raised.{validate_request-err}

allowed : (v : Verdict) → v.0 ≡ "allow" → ◌≡◌ {A = Result Exn Verdict} (ok v) (ok ("allow", v.1))
allowed v e = rw (← e)

pub ok-injective : {a b : Response} → ◌≡◌ {A = Result Exn Response} (ok a) (ok b) → a ≡ b
ok-injective e = cc

rescue-deny :
    (f : String → Response)
    → ((m : String) → (f m).decision ≡ "deny")
    → (x : Exn) (response : Response) → rescue f (err x) ≡ ok response
    → response.decision ≡ "deny"
rescue-deny f denies (gate_error m) response e =
    ap (λ (q : Response). q.decision) (sym (ok-injective e)) ∙ denies m
rescue-deny f denies _ response e = cc

module _ (h : Hashes) (request : Value) (policy : LoadedPolicy) where
  -- A valid request gets the verdict of the policy.
  decide-valid :
      (r : Request) (kill : Bool) (v : Verdict)
      → validate_request request ≡ ok r
      → decision r policy.raw kill ≡ ok v
      → decide h request policy kill ≡ ok (respond h r policy kill v)
  unfolding decide
  decide-valid r kill v valid verdict = rw (valid, verdict)

  -- A malformed request is denied, whatever the policy and the kill switch say, and the response
  -- names the policy.
  pub decide-malformed :
      (kill : Bool) (e : Exn)
      → validate_request request ≡ err e
      → (response : Response) × (decide h request policy kill ≡ ok response)
        × (response.decision ≡ "deny")
        × (response.policy_sha256 ≡ policy.digest)
        × (response.kill_switch_active ≡ kill)
  unfolding decide fail_closed
  decide-malformed kill e bad =
      let (m, is_gate) = validate_request-err request e bad in
      (
        fail_closed h request policy kill m,
        rw bad (ap (rescue (fail_closed h request policy kill)) (ap err is_gate)),
        refl,
        refl,
        refl,
      )

  -- While the kill switch is on, every request is denied, valid or not, under every policy.
  pub decide-kill_switch :
      (response : Response) × (decide h request policy true ≡ ok response)
      × (response.decision ≡ "deny")
      × (response.kill_switch_active ≡ true)
  unfolding respond decision
  decide-kill_switch = elim (Result-cases (validate_request request)) [
    | inl (r, valid) ↦ (
      respond h r policy true ("deny", "kill_switch_active"),
      decide-valid r true _ valid refl,
      refl,
      refl,
    )
    | inr (e, bad) ↦
        let (response, e₁, e₂, e₃, e₄) = decide-malformed true e bad in (response, e₁, e₂, e₄)
  ]

  respond-injective :
      (r : Request) (kill : Bool) (v : Verdict) (response : Response)
      → ◌≡◌ {A = Result Exn Response} (ok (respond h r policy kill v)) (ok response)
      → response.decision ≡ v.0
  unfolding respond
  respond-injective r kill v response e = ground arith

  decide-raises :
      (r : Request) (kill : Bool) (x : Exn) (response : Response)
      → validate_request request ≡ ok r
      → decision r policy.raw kill ≡ err x
      → decide h request policy kill ≡ ok response
      → response.decision ≡ "deny"
  unfolding decide fail_closed
  decide-raises r kill x response valid raised e =
      rescue-deny (fail_closed h request policy kill) (λ m. refl) x response
        (rw (valid, raised) at e)

  -- A request that is let through is valid, the kill switch is off, and no rule of the policy
  -- stands against it.
  pub decide-allow :
      (kill : Bool) (response : Response)
      → decide h request policy kill ≡ ok response
      → response.decision ≡ "allow"
      → (kill ≡ false) × ((r : Request) × (validate_request request ≡ ok r) × Admitted r policy.raw)
  decide-allow kill response e allows = elim (Result-cases (validate_request request)) [
    | inl (r, valid) ↦ elim (Result-cases (decision r policy.raw kill)) [
      | inl (v, verdict) ↦
          let same =
            respond-injective r kill v response (sym (decide-valid r kill v valid verdict) ∙ e) in
          let (off, admitted) =
            decision-allow r policy.raw kill v.1 (verdict ∙ allowed v (sym same ∙ allows)) in
          (off, (r, valid, admitted))
      | inr (x, raised) ↦
          absurd (deny_ne_allow (sym (decide-raises r kill x response valid raised e) ∙ allows))
    ]
    | inr (x, bad) ↦
        let (denial, e₁, e₂, _, _) = decide-malformed kill x bad in
        absurd (
          deny_ne_allow
            (sym e₂ ∙ ap (λ (q : Response). q.decision) (ok-injective (sym e₁ ∙ e)) ∙ allows))
  ]

  -- With a loaded policy whose optional sections have the right types, every request at all gets a
  -- response: one of the three decisions, with the policy's digest and the kill switch.
  pub decide_total :
      (kill : Bool)
      → IsLoaded policy.raw
      → HasSections policy.raw
      → (response : Response) × (decide h request policy kill ≡ ok response)
        × (contains decisions response.decision ≡ true)
        × (response.policy_sha256 ≡ policy.digest)
        × (response.kill_switch_active ≡ kill)
  unfolding respond
  decide_total kill loaded sections = elim (Result-cases (validate_request request)) [
    | inl (r, valid) ↦
        let (fs, _, is_valid) = validate_request-IsValid request r valid in
        let (v, verdict, fine) =
          decision_total r policy.raw is_valid.known_risk loaded sections kill in
        (respond h r policy kill v, decide-valid r kill v valid verdict, fine, refl, refl)
    | inr (e, bad) ↦
        let (response, e₁, e₂, e₃, e₄) = decide-malformed kill e bad in
        (response, e₁, rw e₂ refl, e₃, e₄)
  ]
