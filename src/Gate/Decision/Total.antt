-- ===== src/Gate/Decision/Total.antt =====
-- `_decision` of scripts/action_gate/action_gate.py returns one of the three decisions for every
-- request, where the policy is loaded and its optional sections have the right types.
use frankensteinz_hermes.Gate.Policy.{index, risk_levels, decisions, all_texts}
use frankensteinz_hermes.Gate.Policy.Loaded.{IsLoaded}
use frankensteinz_hermes.Gate.Request.{Request}
use frankensteinz_hermes.Gate.Decision.{
  Verdict, set_contains, section, get_or, default_forbidden, is_false, secret_denial, l1_escalation,
  risk_default, risk_decision, approval_decision, decision, secret_check, l1_check, or_else,
  all_hashable, has_text,
}
use frankensteinz_hermes.Base.{
  ◌<>◌, not, Option-cases, Bool-cases, contains, Bool, Result, Option, String, arith, inr, inl,
  false, true, none, some, ok, refl, if◌then◌else◌, ◌≡◌, ◌==◌, ◌&&◌,
}
use frankensteinz_hermes.Python.{
  as_text, entries, lookup, truthy, Value, Items, Fields, Exn, Dict, list, str, cons, nil, dict,
  float, int, bool, null,
}

-- The optional sections are mappings, and the forbidden environments a collection.
pub record HasSections (policy : Dict) : Type 0 where
  pub secret : Fields
  pub secret_found : section "secret" policy ≡ dict secret
  pub l1 : Fields
  pub l1_found : section "l1" policy ≡ dict l1
  pub environments : Items
  pub environments_found :
      get_or "forbidden_environments" default_forbidden (dict l1) ≡ ok (list environments)
  pub environments_hashable : all_hashable environments ≡ true

abbrev IsProper : Option Verdict → Type 0
IsProper none = Unit
IsProper (some v) = contains decisions v.0 ≡ true

get_or-dict :
    (key : String) (default : Value) (fs : Fields)
    → (v : Value) × (get_or key default (dict fs) ≡ ok v)
unfolding get_or
get_or-dict key default fs = elim (Option-cases (lookup key (entries fs))) [
  | inl e ↦ (default, rw (e, get_or))
  | inr (v, e) ↦ (v, rw (e, get_or))
]

set_contains-list :
    (xs : Items) (a : String)
    → all_hashable xs ≡ true
    → set_contains (list xs) a ≡ ok (has_text xs a)
unfolding set_contains
set_contains-list xs a h = rw h

all_texts-hashable : (xs : Items) → all_texts xs ≡ true → all_hashable xs ≡ true
all_texts-hashable nil h = refl
all_texts-hashable (cons (str s) xs) h = all_texts-hashable xs (ground arith)
all_texts-hashable (cons null xs) h = cc
all_texts-hashable (cons (bool b) xs) h = cc
all_texts-hashable (cons (int z) xs) h = cc
all_texts-hashable (cons (float x) xs) h = cc
all_texts-hashable (cons (list ys) xs) h = cc
all_texts-hashable (cons (dict fs) xs) h = cc

-- The first of two outcomes that are both proper.
keep_or_take :
    (b : Bool) (v : Verdict) (m : Result Exn (Option Verdict))
    → contains decisions v.0 ≡ true
    → ((o : Option Verdict) × (m ≡ ok o) × IsProper o)
    → (o : Option Verdict) × ((if b then ok (some v) else m) ≡ ok o) × IsProper o
keep_or_take true v m p q = (some v, refl, p)
keep_or_take false v m p q = q

secret_denial_total :
    (r : Request) (fs : Fields)
    → (o : Option Verdict) × (secret_denial r (dict fs) ≡ ok o) × IsProper o
unfolding secret_denial
secret_denial_total r fs =
    let (a, ea) = get_or-dict "deny_if_uses_llm" (bool true) fs in
    let (b, eb) = get_or-dict "deny_if_external_side_effect" (bool true) fs in
    rw ea (
      keep_or_take (truthy a && r.uses_llm) _ _ refl
        (rw eb (keep_or_take (truthy b && r.external_side_effect) _ _ refl (none, refl, tt))))

l1_escalation_total :
    (r : Request) (policy : Dict) (s : HasSections policy)
    → (o : Option Verdict) × (l1_escalation r (dict s.l1) ≡ ok o) × IsProper o
unfolding l1_escalation
l1_escalation_total r policy s =
    let (a, ea) = get_or-dict "reversible_must_be" (bool true) s.l1 in
    let (c, ec) = get_or-dict "external_side_effect_must_be" (bool false) s.l1 in
    rw ea (
      keep_or_take (truthy a && not r.reversible) _ _ refl (
        rw
          (
            s.environments_found,
            set_contains-list s.environments r.environment s.environments_hashable,
          )
          (keep_or_take (has_text s.environments r.environment) _ _ refl (
            rw ec
              (keep_or_take (is_false c && r.external_side_effect) _ _ refl (none, refl, tt))))))

secret_check_total :
    (r : Request) (policy : Dict) (s : HasSections policy)
    → (o : Option Verdict) × (secret_check r policy ≡ ok o) × IsProper o
unfolding secret_check
secret_check_total r policy s = elim (Bool-cases (r.data_classification == "SECRET")) [
  | inl e ↦ rw (e, s.secret_found) (secret_denial_total r s.secret)
  | inr e ↦ rw e (none, refl, tt)
]

l1_check_total :
    (r : Request) (policy : Dict) (s : HasSections policy)
    → (o : Option Verdict) × (l1_check r policy ≡ ok o) × IsProper o
unfolding l1_check
l1_check_total r policy s = elim (Bool-cases (r.risk_level == "L1")) [
  | inl e ↦ rw (e, s.l1_found) (l1_escalation_total r policy s)
  | inr e ↦ rw e (none, refl, tt)
]

abbrev Proper : Result Exn Verdict → Type 0
Proper m = (v : Verdict) × (m ≡ ok v) × (contains decisions v.0 ≡ true)

or_else-Proper :
    (o : Option Verdict) (m : Result Exn Verdict) → IsProper o → Proper m → Proper (or_else o m)
or_else-Proper none m p q = q
or_else-Proper (some v) m p q = (v, refl, p)

if_verdict :
    (b : Bool) (v : Verdict) (m : Result Exn Verdict)
    → contains decisions v.0 ≡ true
    → Proper m
    → Proper (if b then ok v else m)
if_verdict true v m p q = (v, refl, p)
if_verdict false v m p q = q

index-found : (key : String) (d : Dict) {v : Value} → lookup key d ≡ some v → index key d ≡ ok v
unfolding index
index-found key d e = ground arith

risk_default_total :
    (risk : String) (policy : Dict) (p : IsLoaded policy)
    → contains risk_levels risk ≡ true
    → (s : String) × (risk_default risk (dict p.defaults) ≡ ok s) × (contains decisions s ≡ true)
unfolding risk_default as_text
risk_default_total risk policy p level =
    let (v, found, is_text) = p.decides risk level in
    let (s, e, fine) = is_text in (s, rw (index-found risk (entries p.defaults) found, e), fine)

module _ (r : Request) (policy : Dict) (level : contains risk_levels r.risk_level ≡ true)
    (p : IsLoaded policy) (s : HasSections policy) where
  risk_decision_total : Proper (risk_decision r policy)
  unfolding risk_decision
  risk_decision_total =
      let (default, default_found, fine) = risk_default_total r.risk_level policy p level in
      let (o, checked, proper) = l1_check_total r policy s in
      rw (index-found "risk_defaults" policy p.found, default_found)
        (if_verdict (r.risk_level == "L0" && r.side_effecting) _ _ refl (
          rw checked (
            or_else-Proper o _ proper
              ((default, "risk_default:" <> r.risk_level <> ":" <> default), refl, fine))))

  approval_decision_total : Proper (approval_decision r policy)
  unfolding approval_decision
  approval_decision_total =
      rw
        (
          index-found "approval_required_actions" policy p.approval.found,
          set_contains-list p.approval.actions r.action_type
              (all_texts-hashable p.approval.actions p.approval.texts),
        )
        (if_verdict (has_text p.approval.actions r.action_type) _ _ refl risk_decision_total)

  -- With a loaded policy whose optional sections have the right types, the decision on a request at
  -- one of the risk levels never raises, and is one of the three decisions.
  pub decision_total :
      (kill : Bool)
      → (v : Verdict) × (decision r policy kill ≡ ok v) × (contains decisions v.0 ≡ true)
  unfolding decision
  decision_total kill =
      let (o, checked, proper) = secret_check_total r policy s in
      if_verdict kill _ _ refl (
        rw
          (
            index-found "hard_deny_actions" policy p.hard_deny.found,
            set_contains-list p.hard_deny.actions r.action_type
                (all_texts-hashable p.hard_deny.actions p.hard_deny.texts),
          )
          (if_verdict (has_text p.hard_deny.actions r.action_type) _ _ refl
            (rw checked (or_else-Proper o _ proper approval_decision_total))))
