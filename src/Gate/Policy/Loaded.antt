-- ===== src/Gate/Policy/Loaded.antt =====
-- What `load_policy` of scripts/action_gate/action_gate.py guarantees of a policy that it returns.
use frankensteinz_hermes.Base.{
  eq_iff, is_subset, if-else, all-contains, Bool-cases, inr, inl, [], ◌==◌, ◌∷◌, not, >>=-eq-ok,
  guard->>-eq-ok, contains, String, ◌≡◌, refl, true, false, Option, none, some, Result, ok, err,
  arith,
}
use frankensteinz_hermes.Gate.Policy.{
  list, dict, str, LoadedPolicy, load_policy, check_policy, any_not_decision, all_texts,
  is_action_list, risk_defaults, decisions, risk_levels, has_schema_version, not_a_decision,
}
use frankensteinz_hermes.Python.{
  list, null, float, int, bool, entries, keys, Items, Fields, Exn, lookup, Value, Dict,
}

-- A default is one of the three decisions.
abbrev pub IsDecision : Value → Type 0
IsDecision v = (s : String) × (v ≡ str s) × (contains decisions s ≡ true)

-- The key holds a list of texts that are not empty.
pub record HasActions (key : String) (d : Dict) : Type 0 where
  pub actions : Items
  pub found : lookup key d ≡ some (list actions)
  pub texts : all_texts actions ≡ true

pub record IsLoaded (d : Dict) : Type 0 where
  pub versioned : has_schema_version d ≡ true
  pub defaults : Fields
  pub found : lookup "risk_defaults" d ≡ some (dict defaults)
  pub decides :
      (risk : String)
      → contains risk_levels risk ≡ true
      → (v : Value) × (lookup risk (entries defaults) ≡ some v) × IsDecision v
  pub only_levels :
      (risk : String)
      → contains (keys (entries defaults)) risk ≡ true
      → contains risk_levels risk ≡ true
  pub hard_deny : HasActions "hard_deny_actions" d
  pub approval : HasActions "approval_required_actions" d

action_list : (key : String) (d : Dict) → is_action_list (lookup key d) ≡ true → HasActions key d
action_list key d h = go (lookup key d) refl h
  where
    go : (o : Option Value) → lookup key d ≡ o → is_action_list o ≡ true → HasActions key d
    go none e h = cc
    go (some null) e h = cc
    go (some (bool b)) e h = cc
    go (some (int z)) e h = cc
    go (some (float x)) e h = cc
    go (some (str s)) e h = cc
    go (some (list xs)) e h = record { actions = xs; found = e; texts = h }
    go (some (dict fs)) e h = cc

not_a_decision-false : (v : Value) → not_a_decision v ≡ ok false → IsDecision v
unfolding not_a_decision
not_a_decision-false (str s) h = (s, refl, ground arith)
not_a_decision-false null h = cc
not_a_decision-false (bool b) h = cc
not_a_decision-false (int z) h = cc
not_a_decision-false (float x) h = cc
not_a_decision-false (list xs) h = cc
not_a_decision-false (dict fs) h = cc

all_decisions :
    (d : Dict) (k : String) (v : Value)
    → any_not_decision d ≡ ok false
    → lookup k d ≡ some v
    → IsDecision v
unfolding any_not_decision lookup
all_decisions [] k v h e = cc
all_decisions ((j, w) ∷ d) k v h e =
    let (found, w_test, h₁) = >>=-eq-ok (not_a_decision w) _ h in
    let (kept, h₂) = if-else found h₁ (λ p. cc) in
    elim (Bool-cases (j == k)) [
      | inl here ↦ not_a_decision-false v (ground arith)
      | inr there ↦ all_decisions d k v h₂ (ground arith)
    ]

lookup-keys :
    (d : Dict) (k : String) → contains (keys d) k ≡ true → (v : Value) × (lookup k d ≡ some v)
unfolding lookup
lookup-keys [] k h = cc
lookup-keys ((j, w) ∷ d) k h = elim (Bool-cases (j == k)) [
  | inl here ↦ (w, rw here)
  | inr there ↦
      let (v, e) = lookup-keys d k (ground (arith, eq_iff j k, eq_iff k j)) in (v, rw there e)
]

-- The shape of `risk_defaults` that passes.
risk_defaults-ok :
    (o : Option Value) (d : Dict)
    → risk_defaults o ≡ ok d
    → (fs : Fields) × (o ≡ some (dict fs))
      × (d ≡ entries fs)
      × (is_subset (keys (entries fs)) risk_levels ≡ true)
      × (is_subset risk_levels (keys (entries fs)) ≡ true)
risk_defaults-ok (some (dict fs)) d h = (fs, refl, ground arith, ground arith, ground arith)
risk_defaults-ok none d h = cc
risk_defaults-ok (some null) d h = cc
risk_defaults-ok (some (bool b)) d h = cc
risk_defaults-ok (some (int z)) d h = cc
risk_defaults-ok (some (float x)) d h = cc
risk_defaults-ok (some (str s)) d h = cc
risk_defaults-ok (some (list xs)) d h = cc

check_policy-IsLoaded : (d : Dict) → check_policy d ≡ ok tt → IsLoaded d
unfolding check_policy
check_policy-IsLoaded d h =
    let (versioned, h₁) = guard->>-eq-ok (has_schema_version d) _ _ h in
    let (defaults, shape, h₂) = >>=-eq-ok (risk_defaults (lookup "risk_defaults" d)) _ h₁ in
    let (bad, tested, h₃) = >>=-eq-ok (any_not_decision defaults) _ h₂ in
    let (good, h₄) = guard->>-eq-ok (not bad) _ _ h₃ in
    let (hard, h₅) = guard->>-eq-ok (is_action_list (lookup "hard_deny_actions" d)) _ _ h₄ in
    let (fs, found, same, only, every) =
      risk_defaults-ok (lookup "risk_defaults" d) defaults shape in
    record {
      versioned = versioned;
      defaults = fs;
      found = found;
      decides = λ risk level.
          let (v, e) =
            lookup-keys (entries fs) risk
              (all-contains (contains (keys (entries fs))) risk_levels risk every level) in
          (v, e, all_decisions (entries fs) risk v (ground arith) e);
      only_levels =
          λ risk level. all-contains (contains risk_levels) (keys (entries fs)) risk only level;
      hard_deny = action_list "hard_deny_actions" d hard;
      approval = action_list "approval_required_actions" d (ground arith);
    }

-- A policy that loads is well formed: it has its version, a decision for exactly the four risk
-- levels, and the two lists of actions; and its digest is that of the whole file.
pub load_policy-IsLoaded :
    (sha256_json : Value → String) (loaded : Result Exn Value) (policy : LoadedPolicy)
    → load_policy sha256_json loaded ≡ ok policy
    → IsLoaded policy.raw
      × ((fs : Fields) × (loaded ≡ ok (dict fs))
          × (policy.raw ≡ entries fs)
          × (policy.digest ≡ sha256_json (dict fs)))
unfolding load_policy
load_policy-IsLoaded sha256_json (ok (dict fs)) policy h =
    let (u, checked, h₁) = >>=-eq-ok (check_policy (entries fs)) _ h in
    let e : policy ≡ record { raw = entries fs; digest = sha256_json (dict fs) } = ground arith in
    rw e (check_policy-IsLoaded (entries fs) checked, (fs, refl, refl, refl))
load_policy-IsLoaded sha256_json (ok null) policy h = cc
load_policy-IsLoaded sha256_json (ok (bool b)) policy h = cc
load_policy-IsLoaded sha256_json (ok (int z)) policy h = cc
load_policy-IsLoaded sha256_json (ok (float x)) policy h = cc
load_policy-IsLoaded sha256_json (ok (str s)) policy h = cc
load_policy-IsLoaded sha256_json (ok (list xs)) policy h = cc
load_policy-IsLoaded sha256_json (err e) policy h = cc
