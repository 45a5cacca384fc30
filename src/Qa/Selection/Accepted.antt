-- ===== src/Qa/Selection/Accepted.antt =====
-- What `validate_model_selection` of scripts/engineering_qa/coordinator_core.py guarantees.
use frankensteinz_hermes.Base.{
  not, contains, >>=-eq-ok, ok-injective, guard->>-eq-ok, all_distinct, Bool-cases, length-append,
  is_subset, suc, all, ℕ, Bool, List, String, length, subst, ap, ◌∙◌, arith, inr, inl, true, ok,
  refl, [], ◌≤◌, ◌+◌, ◌≡◌, ◌++◌, ◌∷◌,
}
use frankensteinz_hermes.Python.{lookup, entries, Value, list, str, dict, float, int, bool, null}
use frankensteinz_hermes.Qa.Selection.{
  nothing_selected, suggestion, Suggestion, validate_model_selection, consider_all, consider,
  Selection,
}
use frankensteinz_hermes.Gate.Policy.{has_schema_version}
use frankensteinz_hermes.Qa.Selection.Distinct.{all_distinct-snoc}
use frankensteinz_hermes.Reviewer.Findings.{items_up_to, is_bounded, text_or}
use frankensteinz_hermes.Reviewer.Findings.Entries.{items_up_to-ok}

abbrev pub names : List (String × String) → List String
names [] = []
names ((id, hypothesis) ∷ rest) = id ∷ names rest

pub record IsSelection (allowed : List String) (sel : Selection) : Type 0 where
  pub accepted : is_subset sel.accepted allowed ≡ true
  pub distinct : all_distinct sel.accepted ≡ true
  pub explained : names sel.hypotheses ≡ sel.accepted
  pub rejected : all (λ a. not (contains allowed a)) sel.rejected ≡ true

abbrev size : Selection → ℕ
size sel = length sel.accepted + length sel.rejected

all-snoc :
    (p : String → Bool) (xs : List String) (y : String)
    → all p xs ≡ true
    → p y ≡ true
    → all p (xs ++ (y ∷ [])) ≡ true
all-snoc p [] y h e = rw e refl
all-snoc p (x ∷ xs) y h e = ground (arith, all-snoc p xs y)

names-snoc :
    (hs : List (String × String)) (a b : String)
    → names (hs ++ ((a, b) ∷ [])) ≡ names hs ++ (a ∷ [])
names-snoc [] a b = refl
names-snoc ((x, y) ∷ hs) a b = ap (◌∷◌ x) (names-snoc hs a b)

length-snoc : (xs : List String) (y : String) → length (xs ++ (y ∷ [])) ≡ suc (length xs)
length-snoc xs y = omega (arith, length-append xs (y ∷ []))

consider-IsSelection :
    (allowed : List String) (sel : Selection) (s : Suggestion)
    → IsSelection allowed sel
    → IsSelection allowed (consider allowed sel s)
      × (size (consider allowed sel s) ≤ suc (size sel))
unfolding consider
consider-IsSelection allowed sel s i = elim (Bool-cases (contains allowed s.id)) [
  | inl good ↦ elim (Bool-cases (contains sel.accepted s.id)) [
    | inl old ↦ rw (good, old) (i, omega arith)
    | inr new ↦
        rw (good, new)
          (
            record {
              accepted = all-snoc (contains allowed) sel.accepted s.id i.accepted good;
              distinct = all_distinct-snoc sel.accepted s.id i.distinct new;
              explained =
                  names-snoc sel.hypotheses s.id s.hypothesis
                  ∙ ap (λ xs. xs ++ (s.id ∷ [])) i.explained;
              rejected = i.rejected;
            },
            omega (arith, length-snoc sel.accepted s.id),
          )
  ]
  | inr bad ↦ rw bad (
    record {
      accepted = i.accepted;
      distinct = i.distinct;
      explained = i.explained;
      rejected = all-snoc (λ a. not (contains allowed a)) sel.rejected s.id i.rejected (ap not bad);
    },
    omega (arith, length-snoc sel.rejected s.id),
  )
]

consider_all-IsSelection :
    (allowed : List String) (sel : Selection) (vs : List Value) (out : Selection)
    → IsSelection allowed sel
    → consider_all allowed sel vs ≡ ok out
    → IsSelection allowed out × (size out ≤ size sel + length vs)
unfolding consider_all
consider_all-IsSelection allowed sel [] out i h =
    subst (λ out. IsSelection allowed out × (size out ≤ size sel + 0)) (ok-injective refl h)
      (i, omega arith)
consider_all-IsSelection allowed sel (v ∷ vs) out i h =
    let (s, e, h₁) = >>=-eq-ok (suggestion v) _ h in
    let (j, grown) = consider-IsSelection allowed sel s i in
    let (k, bound) = consider_all-IsSelection allowed (consider allowed sel s) vs out j h₁ in
    (k, omega (arith, grown, bound))

-- Of the profiles that the model suggests, the accepted ones are allowed, appear once and have one
-- hypothesis each, in the same order; the rejected ones are not allowed; and together they are no
-- more than the config admits.
pub validate_model_selection-IsSelection :
    (max : ℕ) (allowed : List String) (v : Value) (sel : Selection) (summary : String)
    → validate_model_selection max allowed v ≡ ok (sel, summary)
    → IsSelection allowed sel × (length sel.accepted + length sel.rejected ≤ max)
unfolding validate_model_selection
validate_model_selection-IsSelection max allowed (dict fs) sel summary h =
    let (versioned, h₁) = guard->>-eq-ok (has_schema_version (entries fs)) _ _ h in
    let (t, is_t, h₂) = >>=-eq-ok (text_or is_bounded _ (lookup "summary" (entries fs))) _ h₁ in
    let (vs, items, h₃) = >>=-eq-ok (items_up_to max _ (lookup "profiles" (entries fs))) _ h₂ in
    let (out, considered, h₄) = >>=-eq-ok (consider_all allowed nothing_selected vs) _ h₃ in
    let (xs, found, same, few) = items_up_to-ok max _ (lookup "profiles" (entries fs)) vs items in
    let start : IsSelection allowed nothing_selected = record {
      accepted = refl;
      distinct = refl;
      explained = refl;
      rejected = refl;
    } in
    let (good, bound) = consider_all-IsSelection allowed nothing_selected vs out start considered in
    let e : out ≡ sel = ap (λ p. p.0) (ok-injective refl h₄) in
    subst (λ sel. IsSelection allowed sel × (size sel ≤ max)) e (good, omega (arith, bound, few))
validate_model_selection-IsSelection max allowed null sel summary h = cc
validate_model_selection-IsSelection max allowed (bool b) sel summary h = cc
validate_model_selection-IsSelection max allowed (int z) sel summary h = cc
validate_model_selection-IsSelection max allowed (float x) sel summary h = cc
validate_model_selection-IsSelection max allowed (str s) sel summary h = cc
validate_model_selection-IsSelection max allowed (list xs) sel summary h = cc
