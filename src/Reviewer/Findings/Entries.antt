-- ===== src/Reviewer/Findings/Entries.antt =====
-- The entries of a response that `validate_model_response` of
-- scripts/engineering_reviewer/reviewer.py has read.
use frankensteinz_hermes.Base.{
  leb→le, leb, ℕ, length, sym, refl, ◌≤◌, Bool-cases, contains, Bool, List, Option, String, subst,
  inr, inl, true, none, some, ok, ◌≡◌,
}
use frankensteinz_hermes.Python.{
  elements, Items, Exn, Value, list, str, dict, float, int, bool, null,
}
use frankensteinz_hermes.Reviewer.Findings.{items_up_to, text_or, member_or}

pub text_or-ok :
    (p : String → Bool) (e : Exn) (o : Option Value) (s : String)
    → text_or p e o ≡ ok s
    → (p s ≡ true) × (o ≡ some (str s))
unfolding text_or
text_or-ok p e (some (str t)) s h = elim (Bool-cases (p t)) [
  | inl passed ↦
      subst (λ s. (p s ≡ true) × (some (str t) ≡ some (str s))) {x = t} (cc (h, passed))
        (passed, refl)
  | inr failed ↦ cc
]
text_or-ok p e none s h = cc
text_or-ok p e (some null) s h = cc
text_or-ok p e (some (bool b)) s h = cc
text_or-ok p e (some (int z)) s h = cc
text_or-ok p e (some (float x)) s h = cc
text_or-ok p e (some (list xs)) s h = cc
text_or-ok p e (some (dict fs)) s h = cc

pub member_or-ok :
    (set : List String) (e : Exn) (o : Option Value) (s : String)
    → member_or set e o ≡ ok s
    → (contains set s ≡ true) × (o ≡ some (str s))
unfolding member_or
member_or-ok set e (some (list xs)) s h = cc
member_or-ok set e (some (dict fs)) s h = cc
member_or-ok set e none s h = text_or-ok (contains set) e none s h
member_or-ok set e (some null) s h = text_or-ok (contains set) e (some null) s h
member_or-ok set e (some (bool b)) s h = text_or-ok (contains set) e (some (bool b)) s h
member_or-ok set e (some (int z)) s h = text_or-ok (contains set) e (some (int z)) s h
member_or-ok set e (some (float x)) s h = text_or-ok (contains set) e (some (float x)) s h
member_or-ok set e (some (str t)) s h = text_or-ok (contains set) e (some (str t)) s h

pub items_up_to-ok :
    (max : ℕ) (e : Exn) (o : Option Value) (vs : List Value)
    → items_up_to max e o ≡ ok vs
    → (xs : Items) × (o ≡ some (list xs)) × (vs ≡ elements xs) × (length vs ≤ max)
unfolding items_up_to
items_up_to-ok max e (some (list xs)) vs h = elim (Bool-cases (leb (length (elements xs)) max)) [
  | inl t ↦
      let p : elements xs ≡ vs = cc (h, t) in
      (xs, refl, sym p, subst (λ vs. length vs ≤ max) p (leb→le (length (elements xs)) max t))
  | inr t ↦ cc
]
items_up_to-ok max e none vs h = cc
items_up_to-ok max e (some null) vs h = cc
items_up_to-ok max e (some (bool b)) vs h = cc
items_up_to-ok max e (some (int z)) vs h = cc
items_up_to-ok max e (some (float x)) vs h = cc
items_up_to-ok max e (some (str s)) vs h = cc
items_up_to-ok max e (some (dict fs)) vs h = cc
