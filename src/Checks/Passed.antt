-- ===== src/Checks/Passed.antt =====
-- What the shared tests say of the values that pass them.
use frankensteinz_hermes.Base.{
  ap, ◌∙◌, guard->>-eq-ok, Option-cases, All, ℕ, Bool, List, Option, String, subst, arith, inr, inl,
  true, none, some, ok, refl, [], ◌≤◌, ◌≡◌, ◌∷◌,
}
use frankensteinz_hermes.Python.{
  entries, as_int, Items, Fields, ℤ, lookup, Value, Exn, within, Dict, list, str, negsuc, pos, cons,
  nil, dict, float, int, bool, null,
}
use frankensteinz_hermes.Checks.{
  in_range_or, get_or, bounded, Range, require_dict, is_text, is_command, in_range, check_ranges,
}
use frankensteinz_hermes.Gate.Policy.{all_texts}

-- The key holds an integer in the range.
abbrev pub HasInt : Dict → Range → Type 0
HasInt d r =
    (v : Value) × (n : ℕ) × (lookup r.key d ≡ some v)
    × (as_int v ≡ some (pos n))
    × (r.low ≤ n)
    × (n ≤ r.high)

within-true :
    (low high : ℕ) (z : ℤ)
    → within low high z ≡ true
    → (n : ℕ) × (z ≡ pos n) × (low ≤ n) × (n ≤ high)
unfolding within
within-true low high (pos n) h = (n, refl, ground arith, ground arith)
within-true low high (negsuc n) h = cc

pub in_range-some-true :
    (low high : ℕ) (v : Value)
    → in_range low high (some v) ≡ true
    → (n : ℕ) × (as_int v ≡ some (pos n)) × (low ≤ n) × (n ≤ high)
unfolding in_range
in_range-some-true low high v h = elim (Option-cases (as_int v)) [
  | inl e ↦ cc
  | inr (z, e) ↦
      let (n, same, l, u) = within-true low high z (subst (λ o. bounded low high o ≡ true) e h) in
      (n, e ∙ ap some same, l, u)
]

pub in_range-true :
    (low high : ℕ) (o : Option Value)
    → in_range low high o ≡ true
    → (v : Value) × (n : ℕ) × (o ≡ some v) × (as_int v ≡ some (pos n)) × (low ≤ n) × (n ≤ high)
unfolding in_range
in_range-true low high none h = cc
in_range-true low high (some v) h =
    let (n, e, l, u) = in_range-some-true low high v h in (v, n, refl, e, l, u)

pub check_ranges-ok :
    (raise : String → Exn) (rs : List Range) (d : Dict)
    → check_ranges raise rs d ≡ ok tt
    → All (HasInt d) rs
unfolding check_ranges
check_ranges-ok raise [] d h = tt
check_ranges-ok raise (r ∷ rs) d h =
    let (passed, rest) = guard->>-eq-ok (in_range r.low r.high (lookup r.key d)) _ _ h in
    (in_range-true r.low r.high (lookup r.key d) passed, check_ranges-ok raise rs d rest)

pub require_dict-ok :
    (o : Option Value) (e : Exn) (d : Dict)
    → require_dict o e ≡ ok d
    → (fs : Fields) × (o ≡ some (dict fs)) × (d ≡ entries fs)
unfolding require_dict
require_dict-ok none e d h = cc
require_dict-ok (some null) e d h = cc
require_dict-ok (some (bool b)) e d h = cc
require_dict-ok (some (int z)) e d h = cc
require_dict-ok (some (float x)) e d h = cc
require_dict-ok (some (str s)) e d h = cc
require_dict-ok (some (list xs)) e d h = cc
require_dict-ok (some (dict fs)) e d h = (fs, refl, ground arith)

-- The key holds a list of texts, none of them empty, and at least one.
abbrev pub HasCommand : Dict → String → Type 0
HasCommand d key =
    (v : Value) × (xs : Items) × (lookup key d ≡ some (list (cons v xs)))
    × (all_texts (cons v xs) ≡ true)

pub is_command-true :
    (d : Dict) (key : String) → is_command (lookup key d) ≡ true → HasCommand d key
unfolding is_command
is_command-true d key h = go (lookup key d) refl h
  where
    go : (o : Option Value) → lookup key d ≡ o → is_command o ≡ true → HasCommand d key
    go none e h = cc
    go (some null) e h = cc
    go (some (bool b)) e h = cc
    go (some (int z)) e h = cc
    go (some (float x)) e h = cc
    go (some (str s)) e h = cc
    go (some (list nil)) e h = cc
    go (some (list (cons v xs))) e h = (v, xs, e, h)
    go (some (dict fs)) e h = cc

pub is_text-true :
    (p : String → Bool) (o : Option Value)
    → is_text p o ≡ true
    → (s : String) × (o ≡ some (str s)) × (p s ≡ true)
unfolding is_text
is_text-true p none h = cc
is_text-true p (some null) h = cc
is_text-true p (some (bool b)) h = cc
is_text-true p (some (int z)) h = cc
is_text-true p (some (float x)) h = cc
is_text-true p (some (str s)) h = (s, refl, h)
is_text-true p (some (list xs)) h = cc
is_text-true p (some (dict fs)) h = cc

-- The key holds a dict with the property.
abbrev pub HasSection : Dict → String → (Dict → Type 0) → Type 0
HasSection d key P = (fs : Fields) × (lookup key d ≡ some (dict fs)) × P (entries fs)

pub find_section :
    (d : Dict) (key : String) (e : Exn) (P : Dict → Type 0) (s : Dict)
    → require_dict (lookup key d) e ≡ ok s
    → P s
    → HasSection d key P
find_section d key e P s h p =
    let (fs, found, same) = require_dict-ok (lookup key d) e s h in (fs, found, subst P same p)

-- The key holds an integer in the range, where it is present.
abbrev pub HasIntOr : ℕ → Dict → Range → Type 0
HasIntOr default d r =
    (n : ℕ) × (as_int (get_or (int (pos default)) (lookup r.key d)) ≡ some (pos n))
    × (r.low ≤ n)
    × (n ≤ r.high)

pub in_range_or-true :
    (default : ℕ) (r : Range) (d : Dict) → in_range_or default r d ≡ true → HasIntOr default d r
unfolding in_range_or
in_range_or-true default r d h = in_range-some-true r.low r.high _ h
