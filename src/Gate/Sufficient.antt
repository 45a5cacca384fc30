-- ===== src/Gate/Sufficient.antt =====
-- The conditions of Gate.Safety are enough for `_decision` of scripts/action_gate/action_gate.py to allow
-- a request.
use frankensteinz_hermes.Base.{
  Bool, true, refl, if◌then◌else◌, inr, inl, Bool-cases, ◌==◌, eq_iff, ◌≡◌, false, none, ok, arith,
  ◌&&◌,
}
use frankensteinz_hermes.Python.{Value, Dict}
use frankensteinz_hermes.Gate.Request.{Request}
use frankensteinz_hermes.Gate.Decision.{
  approval_decision, secret_check, risk_decision, l1_check, decision, l1_escalation, section,
  secret_denial,
}
use frankensteinz_hermes.Gate.Safety.{SecretClear, L1Clear, Admitted, allow_reason}

SecretClear-none : (r : Request) (sec : Value) → SecretClear r sec → secret_denial r sec ≡ ok none
unfolding secret_denial
SecretClear-none r sec c = rw (c.no_llm.found, c.no_effect.found) (ground arith)

L1Clear-none : (r : Request) (sec : Value) → L1Clear r sec → l1_escalation r sec ≡ ok none
unfolding l1_escalation
L1Clear-none r sec c =
    rw (c.reversible.found, c.forbidden, c.allowed_environment, c.external_found) (ground arith)

Admitted-secret_check :
    (r : Request) (policy : Dict) → Admitted r policy → secret_check r policy ≡ ok none
unfolding secret_check
Admitted-secret_check r policy a = elim (Bool-cases (r.data_classification == "SECRET")) [
  | inl e ↦ rw e (SecretClear-none r (section "secret" policy) (a.secret_clear ((eq_iff _ _).0 e)))
  | inr e ↦ rw e
]

Admitted-l1_check : (r : Request) (policy : Dict) → Admitted r policy → l1_check r policy ≡ ok none
unfolding l1_check
Admitted-l1_check r policy a = elim (Bool-cases (r.risk_level == "L1")) [
  | inl e ↦ rw e (L1Clear-none r (section "l1" policy) (a.l1_clear ((eq_iff _ _).0 e)))
  | inr e ↦ rw e
]

Admitted-l0 :
    (r : Request) (policy : Dict)
    → Admitted r policy
    → (r.risk_level == "L0" && r.side_effecting) ≡ false
Admitted-l0 r policy a = ground (arith, a.l0_clear, eq_iff r.risk_level "L0")

-- Where no rule stands against it, the request is let through, except for an active kill switch,
-- which denies it.
pub Admitted-allow :
    (r : Request) (policy : Dict) (kill_switch_active : Bool)
    → Admitted r policy
    → decision r policy kill_switch_active
      ≡ ok (
          if kill_switch_active
          then ("deny", "kill_switch_active")
          else ("allow", allow_reason r.risk_level))
unfolding decision approval_decision risk_decision
Admitted-allow r policy true a = refl
Admitted-allow r policy false a = rw (
  a.not_denied.found,
  a.not_denied.absent,
  Admitted-secret_check r policy a,
  a.no_approval.found,
  a.no_approval.absent,
  a.defaults_found,
  a.default_allows,
  Admitted-l0 r policy a,
  Admitted-l1_check r policy a,
)
