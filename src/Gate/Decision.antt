-- ===== src/Gate/Decision.antt =====
-- `_decision` of scripts/action_gate/action_gate.py. A policy section that is no mapping, or a set
-- of environments that is no collection, makes it raise, as the interpreter does.
pub mod Total
use frankensteinz_hermes.Base.{
  ◌>>◌, String, Bool, true, false, not, ◌&&◌, ◌||◌, Option, none, some, ◌<>◌, Result, ok, err,
  ◌>>=◌, contains, if◌then◌else◌, ◌==◌,
}
use Prim.Native.String.{◌∷◌ as ◌∷ₛ◌, [] as []ₛ}
use frankensteinz_hermes.Python.{
  Exn, type_error, attribute_error, Value, bool, str, list, dict, Items, nil, cons, end, Dict,
  entries, keys, lookup, eq_text, as_text, truthy,
}
use frankensteinz_hermes.Gate.Policy.{index}
use frankensteinz_hermes.Gate.Request.{Request}

-- A decision and its reason.
abbrev pub Verdict : Type 0
Verdict = String × String

-- The hash that `set` and `in` need; a list or a dict has none.
abbrev pub hashable : Value → Bool
hashable (list xs) = false
hashable (dict fs) = false
hashable v = true

-- `a in s`, where `s` has one character
abbrev is_character : String → String → Bool
is_character a []ₛ = false
is_character a (c ∷ₛ s) = a == (c ∷ₛ []ₛ) || is_character a s

abbrev pub all_hashable : Items → Bool
all_hashable nil = true
all_hashable (cons v xs) = hashable v && all_hashable xs

abbrev pub has_text : Items → String → Bool
has_text nil a = false
has_text (cons v xs) a = eq_text v a || has_text xs a

-- `a in set(v)`
unfoldable pub set_contains : Value → String → Result Exn Bool
unfolding eq_text
set_contains (list xs) a = if all_hashable xs then ok (has_text xs a) else err type_error
set_contains (dict fs) a = ok (contains (keys (entries fs)) a)
set_contains (str s) a = ok (is_character a s)
set_contains _ a = err type_error

-- `policy.get(name, {})`
abbrev pub section : String → Dict → Value
section name policy = elim (lookup name policy) [ none ↦ dict end | some v ↦ v ]

-- `v.get(key, default)`
unfoldable pub get_or : String → Value → Value → Result Exn Value
unfolding lookup
get_or key default (dict fs) = elim (lookup key (entries fs)) [ none ↦ ok default | some v ↦ ok v ]
get_or key default _ = err attribute_error

abbrev pub default_forbidden : Value
default_forbidden = list (cons (str "production") (cons (str "external") nil))

-- `v is False`
abbrev pub is_false : Value → Bool
is_false (bool false) = true
is_false v = false

unfoldable pub secret_denial : Request → Value → Result Exn (Option Verdict)
unfolding get_or truthy
secret_denial r secret = do
  if_llm ← get_or "deny_if_uses_llm" (bool true) secret
  if truthy if_llm && r.uses_llm then ok (some ("deny", "secret_llm_use_denied")) else do
    if_external ← get_or "deny_if_external_side_effect" (bool true) secret
    if truthy if_external && r.external_side_effect
        then ok (some ("deny", "secret_external_side_effect_denied"))
        else ok none

-- `if request["data_classification"] == "SECRET":`
unfoldable pub secret_check : Request → Dict → Result Exn (Option Verdict)
unfolding secret_denial lookup
secret_check r policy =
    if r.data_classification == "SECRET" then secret_denial r (section "secret" policy) else ok none

unfoldable pub l1_escalation : Request → Value → Result Exn (Option Verdict)
unfolding get_or truthy set_contains
l1_escalation r l1 = do
  must_reverse ← get_or "reversible_must_be" (bool true) l1
  if truthy must_reverse && not r.reversible
      then ok (some ("approval_required", "l1_irreversible"))
      else do
        forbidden ← get_or "forbidden_environments" default_forbidden l1
        escalates ← set_contains forbidden r.environment
        if escalates then ok (some ("approval_required", "l1_environment_escalation")) else do
          external ← get_or "external_side_effect_must_be" (bool false) l1
          if is_false external && r.external_side_effect
              then ok (some ("approval_required", "l1_external_side_effect"))
              else ok none

-- `if risk == "L1":`
unfoldable pub l1_check : Request → Dict → Result Exn (Option Verdict)
unfolding l1_escalation lookup
l1_check r policy = if r.risk_level == "L1" then l1_escalation r (section "l1" policy) else ok none

-- `policy["risk_defaults"][risk]`, a text in a loaded policy
unfoldable pub risk_default : String → Value → Result Exn String
unfolding index as_text
risk_default risk (dict fs) = do
  v ← index risk (entries fs)
  elim (as_text v) [ some s ↦ ok s | none ↦ err type_error ]
risk_default risk _ = err type_error

-- An early return, or what follows it.
abbrev pub or_else : Option Verdict → Result Exn Verdict → Result Exn Verdict
or_else (some v) rest = ok v
or_else none rest = rest

-- What follows the tests on the action and the classification.
unfoldable pub risk_decision : Request → Dict → Result Exn Verdict
unfolding index l1_check risk_default
risk_decision r policy = do
  defaults ← index "risk_defaults" policy
  default ← risk_default r.risk_level defaults
  if r.risk_level == "L0" && r.side_effecting
      then ok ("approval_required", "l0_side_effect_mismatch")
      else do
        escalation ← l1_check r policy
        or_else escalation (ok (default, "risk_default:" <> r.risk_level <> ":" <> default))

-- What follows the test for secret data.
unfoldable pub approval_decision : Request → Dict → Result Exn Verdict
unfolding index set_contains risk_decision
approval_decision r policy = do
  approval ← index "approval_required_actions" policy
  asks ← set_contains approval r.action_type
  if asks
      then ok ("approval_required", "explicit_approval_action:" <> r.action_type)
      else risk_decision r policy

unfoldable pub decision : Request → Dict → Bool → Result Exn Verdict
unfolding index set_contains secret_check approval_decision
decision r policy kill_switch_active =
    if kill_switch_active then ok ("deny", "kill_switch_active") else do
      hard_deny ← index "hard_deny_actions" policy
      denied ← set_contains hard_deny r.action_type
      if denied
          then ok ("deny", "hard_deny_action:" <> r.action_type)
          else do secret ← secret_check r policy; or_else secret (approval_decision r policy)
