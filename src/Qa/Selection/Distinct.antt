-- ===== src/Qa/Selection/Distinct.antt =====
-- Appending what is not there yet keeps a list of texts free of repetitions.
use frankensteinz_hermes.Base.{
  is_subset, eq_iff, contains-append, Bool-cases, contains, all_distinct, List, String, arith, inr,
  inl, false, true, refl, [], ◌≡◌, ◌==◌, ◌||◌, ◌++◌, ◌∷◌,
}
use frankensteinz_hermes.Qa.Selection.{add_new, add_all}

contains-snoc :
    (xs : List String) (y a : String) → contains (xs ++ (y ∷ [])) a ≡ (contains xs a || (a == y))
contains-snoc xs y a = ground (arith, contains-append xs (y ∷ []) a)

pub all_distinct-snoc :
    (xs : List String) (y : String)
    → all_distinct xs ≡ true
    → contains xs y ≡ false
    → all_distinct (xs ++ (y ∷ [])) ≡ true
all_distinct-snoc [] y d n = refl
all_distinct-snoc (x ∷ xs) y d n =
    ground (arith, all_distinct-snoc xs y, contains-snoc xs y x, eq_iff x y, eq_iff y x)

contains-add_new :
    (xs : List String) (y a : String) → contains (add_new xs y) a ≡ (contains xs a || (a == y))
unfolding add_new
contains-add_new xs y a = ground (arith, contains-snoc xs y a, eq_iff a y)

all_distinct-add_new :
    (xs : List String) (y : String) → all_distinct xs ≡ true → all_distinct (add_new xs y) ≡ true
unfolding add_new
all_distinct-add_new xs y d = elim (Bool-cases (contains xs y)) [
  | inl e ↦ rw e d
  | inr e ↦ rw e (all_distinct-snoc xs y d e)
]

pub contains-add_all :
    (xs ys : List String) (a : String)
    → contains (add_all xs ys) a ≡ (contains xs a || contains ys a)
unfolding add_all
contains-add_all xs [] a = ground arith
contains-add_all xs (y ∷ ys) a =
    ground (arith, contains-add_all (add_new xs y) ys a, contains-add_new xs y a)

pub all_distinct-add_all :
    (xs ys : List String) → all_distinct xs ≡ true → all_distinct (add_all xs ys) ≡ true
unfolding add_all
all_distinct-add_all xs [] d = d
all_distinct-add_all xs (y ∷ ys) d =
    all_distinct-add_all (add_new xs y) ys (all_distinct-add_new xs y d)

-- A list whose members are all in another is a subset of it.
pub is_subset-intro :
    (xs ys : List String)
    → ((a : String) → contains xs a ≡ true → contains ys a ≡ true)
    → is_subset xs ys ≡ true
is_subset-intro [] ys h = refl
is_subset-intro (x ∷ xs) ys h =
    rw (h x (ground (arith, eq_iff x x))) (is_subset-intro xs ys (λ a m. h a (ground arith)))
