-- ===== src/Gate/Policy.antt =====
-- `load_policy` of scripts/action_gate/action_gate.py, and the reads that a decision makes of a
-- loaded policy.
pub mod Loaded
use frankensteinz_hermes.Base.{
  String, Bool, true, false, not, ◌&&◌, Option, none, some, List, [], ◌∷◌, ◌<>◌, Result, ok, err,
  ◌>>=◌, ◌>>◌, guard, contains, is_subset, is_empty_text, if◌then◌else◌,
}
use frankensteinz_hermes.Python.{
  Exn, gate_error, type_error, key_error, os_error, json_decode_error, Value, str, list, dict,
  Items, nil, cons, Dict, entries, keys, lookup, eq_nat,
}

abbrev pub risk_levels : List String
risk_levels = "L0" ∷ "L1" ∷ "L2" ∷ "L3" ∷ []

abbrev pub decisions : List String
decisions = "allow" ∷ "deny" ∷ "approval_required" ∷ []

abbrev pub classifications : List String
classifications = "PUBLIC" ∷ "INTERNAL" ∷ "CONFIDENTIAL" ∷ "SECRET" ∷ []

abbrev pub environments : List String
environments = "local" ∷ "isolated" ∷ "staging" ∷ "production" ∷ "external" ∷ []

pub record LoadedPolicy : Type 0 where
  pub raw : Dict
  pub digest : String

-- `d[k]`
unfoldable pub index : String → Dict → Result Exn Value
unfolding lookup
index k d = elim (lookup k d) [ none ↦ err key_error | some v ↦ ok v ]

-- `v not in DECISIONS`: a list or a dict cannot be hashed.
not_a_decision : Value → Result Exn Bool
not_a_decision (str s) = ok (not (contains decisions s))
not_a_decision (list xs) = err type_error
not_a_decision (dict fs) = err type_error
not_a_decision _ = ok true

-- `any(value not in DECISIONS for value in defaults.values())`
unfoldable pub any_not_decision : Dict → Result Exn Bool
unfolding not_a_decision
any_not_decision [] = ok false
any_not_decision ((k, v) ∷ d) =
    let rest = any_not_decision d in do found ← not_a_decision v; if found then ok true else rest

-- `isinstance(v, str) and v`, for each entry
abbrev pub all_texts : Items → Bool
all_texts nil = true
all_texts (cons (str s) xs) = not (is_empty_text s) && all_texts xs
all_texts (cons v xs) = false

abbrev pub is_action_list : Option Value → Bool
is_action_list (some (list xs)) = all_texts xs
is_action_list _ = false

-- `policy.get("schema_version") != 1`, negated
abbrev pub has_schema_version : Dict → Bool
has_schema_version d = elim (lookup "schema_version" d) [ none ↦ false | some v ↦ eq_nat v 1 ]

abbrev pub risk_defaults : Option Value → Result Exn Dict
risk_defaults (some (dict fs)) =
    let d = entries fs in
    if is_subset (keys d) risk_levels && is_subset risk_levels (keys d)
    then ok d
    else err (gate_error "policy_risk_defaults_invalid")
risk_defaults _ = err (gate_error "policy_risk_defaults_invalid")

check_policy : Dict → Result Exn (Unit {0})
unfolding lookup eq_nat any_not_decision
check_policy d = do
  guard (has_schema_version d) (gate_error "policy_schema_invalid")
  defaults ← risk_defaults (lookup "risk_defaults" d)
  bad ← any_not_decision defaults
  guard (not bad) (gate_error "policy_decision_invalid")
  guard (is_action_list (lookup "hard_deny_actions" d))
      (gate_error "policy_hard_deny_actions_invalid")
  guard (is_action_list (lookup "approval_required_actions" d))
      (gate_error "policy_approval_required_actions_invalid")

abbrev pub load_failed : Exn → Exn
load_failed (os_error c) = gate_error ("policy_load_failed:" <> c)
load_failed json_decode_error = gate_error "policy_load_failed:JSONDecodeError"
load_failed e = e

-- `loaded` is what `json.loads(path.read_bytes())` does; `sha256_json` digests a value.
unfoldable pub load_policy : (Value → String) → Result Exn Value → Result Exn LoadedPolicy
unfolding check_policy
load_policy sha256_json (err e) = err (load_failed e)
load_policy sha256_json (ok (dict fs)) =
    check_policy (entries fs) >> ok (record { raw = entries fs; digest = sha256_json (dict fs) })
load_policy sha256_json (ok _) = err (gate_error "policy_schema_invalid")
