-- ===== src/Gate/Safety.antt =====
-- What a decision of the action gate rests on: `_decision` of scripts/action_gate/action_gate.py.
use frankensteinz_hermes.Base.{
  refl, ◌==◌, ◌<>◌, Result, Option, some, eq_iff, ◌≢◌, String, ◌≡◌, Bool, true, false, not, none,
  ok, arith, >>=-eq-ok, if-else, ◌&&◌,
}
use frankensteinz_hermes.Python.{Exn, Value, bool, truthy, Dict}
use frankensteinz_hermes.Gate.Policy.{index}
use frankensteinz_hermes.Gate.Request.{Request}
use frankensteinz_hermes.Gate.Decision.{
  approval_decision, secret_check, risk_decision, or_else, l1_check, decision, l1_escalation,
  Verdict, set_contains, section, get_or, default_forbidden, is_false, secret_denial, risk_default,
}

-- The action is in none of the set that the policy holds under the key.
pub record NotListed (key : String) (policy : Dict) (action : String) : Type 0 where
  pub actions : Value
  pub found : index key policy ≡ ok actions
  pub absent : set_contains actions action ≡ ok false

-- A rule of a section that is on, with its default, excludes the request's flag.
pub record Excludes (key : String) (sec : Value) (flag : Bool) : Type 0 where
  pub rule : Value
  pub found : get_or key (bool true) sec ≡ ok rule
  pub off : truthy rule ≡ true → flag ≡ false

pub record SecretClear (r : Request) (sec : Value) : Type 0 where
  pub no_llm : Excludes "deny_if_uses_llm" sec r.uses_llm
  pub no_effect : Excludes "deny_if_external_side_effect" sec r.external_side_effect

pub record L1Clear (r : Request) (sec : Value) : Type 0 where
  pub reversible : Excludes "reversible_must_be" sec (not r.reversible)
  pub environments : Value
  pub forbidden : get_or "forbidden_environments" default_forbidden sec ≡ ok environments
  pub allowed_environment : set_contains environments r.environment ≡ ok false
  pub external : Value
  pub external_found : get_or "external_side_effect_must_be" (bool false) sec ≡ ok external
  pub no_effect : is_false external ≡ true → r.external_side_effect ≡ false

-- All that has to hold before the gate says anything but a refusal of its own.
pub record Admitted (r : Request) (policy : Dict) : Type 0 where
  pub not_denied : NotListed "hard_deny_actions" policy r.action_type
  pub secret_clear : r.data_classification ≡ "SECRET" → SecretClear r (section "secret" policy)
  pub no_approval : NotListed "approval_required_actions" policy r.action_type
  pub defaults : Value
  pub defaults_found : index "risk_defaults" policy ≡ ok defaults
  pub default_allows : risk_default r.risk_level defaults ≡ ok "allow"
  pub l0_clear : r.risk_level ≡ "L0" → r.side_effecting ≡ false
  pub l1_clear : r.risk_level ≡ "L1" → L1Clear r (section "l1" policy)

secret_denial-none : (r : Request) (sec : Value) → secret_denial r sec ≡ ok none → SecretClear r sec
unfolding secret_denial
secret_denial-none r sec h =
    let (if_llm, llm_found, h₁) = >>=-eq-ok (get_or "deny_if_uses_llm" (bool true) sec) _ h in
    let (llm_off, h₂) = if-else (truthy if_llm && r.uses_llm) h₁ (λ e. cc) in
    let (if_external, external_found, h₃) =
      >>=-eq-ok (get_or "deny_if_external_side_effect" (bool true) sec) _ h₂ in
    let (external_off, _) = if-else (truthy if_external && r.external_side_effect) h₃ (λ e. cc) in
    record {
      no_llm = record { rule = if_llm; found = llm_found; off = λ on. ground arith };
      no_effect = record { rule = if_external; found = external_found; off = λ on. ground arith };
    }

l1_escalation-none : (r : Request) (sec : Value) → l1_escalation r sec ≡ ok none → L1Clear r sec
unfolding l1_escalation
l1_escalation-none r sec h =
    let (must, must_found, h₁) = >>=-eq-ok (get_or "reversible_must_be" (bool true) sec) _ h in
    let (must_off, h₂) = if-else (truthy must && not r.reversible) h₁ (λ e. cc) in
    let (forbidden, forbidden_found, h₃) =
      >>=-eq-ok (get_or "forbidden_environments" default_forbidden sec) _ h₂ in
    let (escalates, escalates_found, h₄) = >>=-eq-ok (set_contains forbidden r.environment) _ h₃ in
    let (not_escalating, h₅) = if-else escalates h₄ (λ e. cc) in
    let (external, external_found, h₆) =
      >>=-eq-ok (get_or "external_side_effect_must_be" (bool false) sec) _ h₅ in
    let (external_off, _) = if-else (is_false external && r.external_side_effect) h₆ (λ e. cc) in
    record {
      reversible = record { rule = must; found = must_found; off = λ on. ground arith };
      environments = forbidden;
      forbidden = forbidden_found;
      allowed_environment = cc;
      external = external;
      external_found = external_found;
      no_effect = λ on. ground arith;
    }

secret_denial-ne-allow :
    (r : Request) (sec : Value) (v : Verdict) → secret_denial r sec ≡ ok (some v) → v.0 ≢ "allow"
unfolding secret_denial
secret_denial-ne-allow r sec v h e = ground (arith, eq_iff "deny" "allow")

l1_escalation-ne-allow :
    (r : Request) (sec : Value) (v : Verdict) → l1_escalation r sec ≡ ok (some v) → v.0 ≢ "allow"
unfolding l1_escalation
l1_escalation-ne-allow r sec v h e = ground (arith, eq_iff "approval_required" "allow")

ask_ne_allow : ◌≢◌ {A = String} "approval_required" "allow"
ask_ne_allow = ground (arith, eq_iff "approval_required" "allow")

pub deny_ne_allow : ◌≢◌ {A = String} "deny" "allow"
deny_ne_allow = ground (arith, eq_iff "deny" "allow")

abbrev DefaultClear : Request → Dict → Type 0
DefaultClear r policy =
    (defaults : Value) × (index "risk_defaults" policy ≡ ok defaults)
    × (risk_default r.risk_level defaults ≡ ok "allow")
    × (r.risk_level ≡ "L0" → r.side_effecting ≡ false)
    × (r.risk_level ≡ "L1" → L1Clear r (section "l1" policy))

abbrev pub allow_reason : String → String
allow_reason risk = "risk_default:" <> risk <> ":" <> "allow"

-- The early return of a verdict that is no permission is not the permission.
or_else-allow :
    (o : Option Verdict) (rest : Result Exn Verdict) {reason : String}
    → ((v : Verdict) → o ≡ some v → v.0 ≢ "allow")
    → or_else o rest ≡ ok ("allow", reason)
    → (o ≡ none) × (rest ≡ ok ("allow", reason))
or_else-allow none rest n h = (refl, h)
or_else-allow (some v) rest n h = absurd (n v refl (cc))

-- What lets an action of the level L1 through.
l1_check-none :
    (r : Request) (policy : Dict)
    → l1_check r policy ≡ ok none
    → r.risk_level ≡ "L1"
    → L1Clear r (section "l1" policy)
unfolding l1_check
l1_check-none r policy h e =
    l1_escalation-none r (section "l1" policy) (ground (arith, eq_iff r.risk_level "L1"))

l1_check-ne-allow :
    (r : Request) (policy : Dict) (v : Verdict) → l1_check r policy ≡ ok (some v) → v.0 ≢ "allow"
unfolding l1_check
l1_check-ne-allow r policy v h = l1_escalation-ne-allow r (section "l1" policy) v (ground arith)

secret_check-none :
    (r : Request) (policy : Dict)
    → secret_check r policy ≡ ok none
    → r.data_classification ≡ "SECRET"
    → SecretClear r (section "secret" policy)
unfolding secret_check
secret_check-none r policy h e =
    secret_denial-none r (section "secret" policy)
      (ground (arith, eq_iff r.data_classification "SECRET"))

secret_check-ne-allow :
    (r : Request) (policy : Dict) (v : Verdict)
    → secret_check r policy ≡ ok (some v)
    → v.0 ≢ "allow"
unfolding secret_check
secret_check-ne-allow r policy v h =
    secret_denial-ne-allow r (section "secret" policy) v (ground arith)

risk_decision-allow :
    (r : Request) (policy : Dict) (reason : String)
    → risk_decision r policy ≡ ok ("allow", reason)
    → DefaultClear r policy
unfolding risk_decision
risk_decision-allow r policy reason h =
    let (defaults, found, h₁) = >>=-eq-ok (index "risk_defaults" policy) _ h in
    let (default, default_found, h₂) = >>=-eq-ok (risk_default r.risk_level defaults) _ h₁ in
    let (no_effect, h₃) =
      if-else (r.risk_level == "L0" && r.side_effecting) h₂ (λ e. ask_ne_allow (cc)) in
    let (o, escalation, h₄) = >>=-eq-ok (l1_check r policy) _ h₃ in
    let (none_left, h₅) =
      or_else-allow o _ (λ v e. l1_check-ne-allow r policy v (cc (escalation, e))) h₄ in
    (
      defaults,
      found,
      cc (default_found, h₅),
      λ e. ground (arith, eq_iff r.risk_level "L0"),
      l1_check-none r policy (cc (escalation, none_left)),
    )

-- The gate says "allow" only where no rule of the policy stands against the request.
pub decision-allow :
    (r : Request) (policy : Dict) (kill : Bool) (reason : String)
    → decision r policy kill ≡ ok ("allow", reason)
    → (kill ≡ false) × Admitted r policy
unfolding decision approval_decision
decision-allow r policy kill reason h =
    let (alive, h₁) = if-else kill h (λ e. deny_ne_allow (cc)) in
    let (hard, hard_found, h₂) = >>=-eq-ok (index "hard_deny_actions" policy) _ h₁ in
    let (denied, denied_found, h₃) = >>=-eq-ok (set_contains hard r.action_type) _ h₂ in
    let (not_denied, h₄) = if-else denied h₃ (λ e. deny_ne_allow (cc)) in
    let (o, secret, h₅) = >>=-eq-ok (secret_check r policy) _ h₄ in
    let (none_left, h₆) =
      or_else-allow o _ (λ v e. secret_check-ne-allow r policy v (cc (secret, e))) h₅ in
    let (ask, ask_found, h₇) = >>=-eq-ok (index "approval_required_actions" policy) _ h₆ in
    let (asks, asks_found, h₈) = >>=-eq-ok (set_contains ask r.action_type) _ h₇ in
    let (not_asked, h₉) = if-else asks h₈ (λ e. ask_ne_allow (cc)) in
    let (defaults, found, allows, l0, l1) = risk_decision-allow r policy reason h₉ in
    (
      alive,
      record {
        not_denied = record { actions = hard; found = hard_found; absent = cc };
        secret_clear = secret_check-none r policy (cc (secret, none_left));
        no_approval = record { actions = ask; found = ask_found; absent = cc };
        defaults = defaults;
        defaults_found = found;
        default_allows = allows;
        l0_clear = l0;
        l1_clear = l1;
      },
    )
