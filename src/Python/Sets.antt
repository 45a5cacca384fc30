-- ===== src/Python/Sets.antt =====
-- Python's `==` on the scalars of JSON, and `len(set(xs)) == len(xs)` for a list of values.
use frankensteinz_hermes.Base.{
  ℕ, suc, ◌*◌, ◌-◌, ◌^◌, String, Bool, true, false, not, ◌&&◌, ◌||◌, Option, none, some, List, [],
  ◌∷◌, map, Result, ok, err, eqb, all, contains, all_distinct, if◌then◌else◌, ◌==◌, ◌≡◌, refl, ap,
}
use frankensteinz_hermes.Python.Exceptions.{Exn, type_error}
use frankensteinz_hermes.Python.Json.{
  ℤ, pos, negsuc, Float, finite, infinite, Value, null, bool, int, float, str, list, dict,
}

scale : ℤ → ℕ → ℤ
scale (pos n) k = pos (n * 2 ^ k)
scale (negsuc n) k = negsuc (suc n * 2 ^ k - 1)

same_int : ℤ → ℤ → Bool
same_int (pos m) (pos n) = eqb m n
same_int (negsuc m) (negsuc n) = eqb m n
same_int _ _ = false

same_float : Float → Float → Bool
unfolding scale same_int
same_float (finite m j) (finite n k) = same_int (scale m k) (scale n j)
same_float (infinite true) (infinite true) = true
same_float (infinite false) (infinite false) = true
same_float _ _ = false

number : Value → Option Float
number (bool true) = some (finite (pos 1) 0)
number (bool false) = some (finite (pos 0) 0)
number (int z) = some (finite z 0)
number (float x) = some x
number _ = none

same_number : Option Float → Option Float → Bool
unfolding same_float
same_number (some x) (some y) = same_float x y
same_number _ _ = false

-- `v == w`, for values that are not containers
unfoldable pub same : Value → Value → Bool
unfolding number same_number
same (str s) (str t) = s == t
same null null = true
same v w = same_number (number v) (number w)

abbrev pub is_hashable : Value → Bool
is_hashable (list xs) = false
is_hashable (dict fs) = false
is_hashable _ = true

abbrev pub has_same : Value → List Value → Bool
has_same v [] = false
has_same v (w ∷ ws) = same v w || has_same v ws

abbrev pub no_repeats : List Value → Bool
no_repeats [] = true
no_repeats (v ∷ vs) = not (has_same v vs) && no_repeats vs

-- `len(set(vs)) == len(vs)`
unfoldable pub distinct_values : List Value → Result Exn Bool
unfolding same
distinct_values vs = if all is_hashable vs then ok (no_repeats vs) else err type_error

has_same-texts : (a : String) (xs : List String) → has_same (str a) (map str xs) ≡ contains xs a
unfolding same
has_same-texts a [] = refl
has_same-texts a (x ∷ xs) = ap (◌||◌ (a == x)) (has_same-texts a xs)

hashable-texts : (xs : List String) → all is_hashable (map str xs) ≡ true
hashable-texts [] = refl
hashable-texts (x ∷ xs) = hashable-texts xs

no_repeats-texts : (xs : List String) → no_repeats (map str xs) ≡ all_distinct xs
no_repeats-texts [] = refl
no_repeats-texts (x ∷ xs) = rw (has_same-texts x xs, no_repeats-texts xs) refl

-- For texts, the test is the one on texts.
pub distinct_values-texts : (xs : List String) → distinct_values (map str xs) ≡ ok (all_distinct xs)
unfolding distinct_values
distinct_values-texts xs = rw (hashable-texts xs, no_repeats-texts xs) refl
