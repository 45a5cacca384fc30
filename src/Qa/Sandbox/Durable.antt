-- ===== src/Qa/Sandbox/Durable.antt =====
-- What `durable_call_sandbox` of scripts/engineering_qa/worker.py guarantees of its calls.
use frankensteinz_hermes.Base.{
  Bool, subst, if◌then◌else◌, ok-injective, guard->>-eq-ok, >>=-eq-ok, Bool-cases, List, Result,
  String, sym, inr, inl, true, some, err, ok, refl, [], ◌≡◌, ◌&&◌, ◌∷◌,
}
use frankensteinz_hermes.Qa.Sandbox.{
  is_true, sandbox_run, commit_request, begin_request, ledger_call, began, confirm, Traced, Event,
  durable_call_sandbox, continue, commit, Context, World,
}
use frankensteinz_hermes.Python.{qa_error, lookup, truthy, same, Dict, Value, Exn}

module _ (world : World) where
  -- A profile runs at most once, and only after the ledger has recorded the start of its effect.
  pub data IsOrdered (c : Context) (profile_id : String) : List Event → Type 0 where
    untouched : IsOrdered c profile_id []
    refused : IsOrdered c profile_id (ledger_call (begin_request c profile_id) ∷ [])
    uncommitted :
        began world (world.ledger (begin_request c profile_id)) ≡ ok tt
        → IsOrdered c profile_id
            (ledger_call (begin_request c profile_id) ∷ sandbox_run profile_id ∷ [])
    committing :
        {result : Dict}
        → began world (world.ledger (begin_request c profile_id)) ≡ ok tt
        → world.sandbox profile_id ≡ ok result
        → IsOrdered c profile_id (
            ledger_call (begin_request c profile_id)
            ∷ sandbox_run profile_id
            ∷ ledger_call (commit_request c profile_id (world.digest result))
            ∷ [])

  -- The calls of a run that returned a result.
  pub record IsCommitted (c : Context) (profile_id : String) (t : Traced) (result : Dict)
      : Type 0 where
    pub began_first : began world (world.ledger (begin_request c profile_id)) ≡ ok tt
    pub ran : world.sandbox profile_id ≡ ok result
    pub committed : Dict
    pub answered : world.ledger (commit_request c profile_id (world.digest result)) ≡ ok committed
    pub confirmed : is_true (lookup "committed" committed) ≡ true
    pub calls : t.events ≡ (
        ledger_call (begin_request c profile_id)
        ∷ sandbox_run profile_id
        ∷ ledger_call (commit_request c profile_id (world.digest result))
        ∷ [])

  commit-IsOrdered :
      (c : Context) (profile_id : String) (r : Result Exn Dict)
      → began world (world.ledger (begin_request c profile_id)) ≡ ok tt
      → world.sandbox profile_id ≡ r
      → IsOrdered c profile_id
          (ledger_call (begin_request c profile_id) ∷ (commit world c profile_id r).events)
  unfolding commit
  commit-IsOrdered c profile_id (err e) b h = uncommitted b
  commit-IsOrdered c profile_id (ok result) b h = committing b h

  continue-IsOrdered :
      (c : Context) (profile_id : String) (r : Result Exn (Unit {0}))
      → began world (world.ledger (begin_request c profile_id)) ≡ r
      → IsOrdered c profile_id (continue world c profile_id r).events
  unfolding continue
  continue-IsOrdered c profile_id (err e) h = refused
  continue-IsOrdered c profile_id (ok u) h =
      commit-IsOrdered c profile_id (world.sandbox profile_id) h refl

  -- Whatever the ledger and the sandbox answer, the calls of a run stop at nothing, at the refused
  -- start of the effect, at the run that failed or at the commit: the sandbox runs once at most, and
  -- never before the ledger has confirmed the start.
  pub durable_call_sandbox-IsOrdered :
      (c : Context) (job_id : Value) (profile_id : String)
      → IsOrdered c profile_id (durable_call_sandbox world (some c) job_id profile_id).events
  unfolding durable_call_sandbox
  durable_call_sandbox-IsOrdered c job_id profile_id =
      elim (Bool-cases (same c.job_id job_id && truthy c.lease_token)) [
        | inl e ↦ rw e (
            continue-IsOrdered c profile_id
              (began world (world.ledger (begin_request c profile_id))) refl)
        | inr e ↦ rw e untouched
      ]

  continue-IsCommitted :
      (c : Context) (profile_id : String) (r : Result Exn (Unit {0})) (result : Dict)
      → began world (world.ledger (begin_request c profile_id)) ≡ r
      → (continue world c profile_id r).result ≡ ok result
      → IsCommitted c profile_id (continue world c profile_id r) result
  unfolding continue commit confirm
  continue-IsCommitted c profile_id (err e) result b h = cc
  continue-IsCommitted c profile_id (ok u) result b h = go (world.sandbox profile_id) refl h
    where
      go :
          (r : Result Exn Dict)
          → world.sandbox profile_id ≡ r
          → (commit world c profile_id r).result ≡ ok result
          → IsCommitted c profile_id
              (record {
                events =
                    ledger_call (begin_request c profile_id) ∷ (commit world c profile_id r).events;
                result = (commit world c profile_id r).result;
              })
              result
      go (err e) s h = cc
      go (ok d) s h =
          let request = commit_request c profile_id (world.digest d) in
          let (answer, a, h₁) = >>=-eq-ok (world.ledger request) _ h in
          let (t, h₂) = guard->>-eq-ok (is_true (lookup "committed" answer)) _ _ h₁ in
          let same : d ≡ result = ok-injective refl h₂ in
          rw (sym same) (record {
            began_first = b;
            ran = s;
            committed = answer;
            answered = a;
            confirmed = t;
            calls = refl;
          })

  -- A result is returned only where the ledger has confirmed the start of the effect, the sandbox
  -- has returned this result, and the ledger has confirmed the commit of its digest, in this order
  -- and with no other call.
  pub durable_call_sandbox-IsCommitted :
      (c : Context) (job_id : Value) (profile_id : String) (result : Dict)
      → (durable_call_sandbox world (some c) job_id profile_id).result ≡ ok result
      → IsCommitted c profile_id (durable_call_sandbox world (some c) job_id profile_id) result
  unfolding durable_call_sandbox
  durable_call_sandbox-IsCommitted c job_id profile_id result h =
      let answer = began world (world.ledger (begin_request c profile_id)) in
      let run : Bool → Traced = λ b.
        if b
        then continue world c profile_id answer
        else record { events = []; result = err (qa_error "qa_effect_context_missing") } in
      elim (Bool-cases (same c.job_id job_id && truthy c.lease_token)) [
        | inl e ↦
            subst (λ b. IsCommitted c profile_id (run b) result) (sym e)
              (continue-IsCommitted c profile_id answer result refl
                (subst (λ b. (run b).result ≡ ok result) e h))
        | inr e ↦
            let h₁ : err (qa_error "qa_effect_context_missing") ≡ ok result =
              subst (λ b. (run b).result ≡ ok result) e h in
            cc h₁
      ]
