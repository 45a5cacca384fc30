-- ===== src/Python/Json.antt =====
-- The values that `json.loads` returns, with Python's tests on them. In Python a `bool` is an
-- `int`, and numbers of both types and floats compare with one another.
use frankensteinz_hermes.Base.{
  ℕ, ◌*◌, ◌^◌, String, Bool, true, false, ◌&&◌, not, Option, none, some, List, [], ◌∷◌, leb, eqb,
  is_empty_text, ◌==◌,
}

-- `negsuc n` is -(n + 1).
pub data ℤ : Type 0 where
  pos : ℕ → ℤ
  negsuc : ℕ → ℤ

-- A finite double is m / 2^k for an integer m.
pub data Float : Type 0 where
  finite : ℤ → ℕ → Float
  infinite : Bool → Float
  nan : Float

mutual
  pub data Value : Type 0 where
    null : Value
    bool : Bool → Value
    int : ℤ → Value
    float : Float → Value
    str : String → Value
    list : Items → Value
    dict : Fields → Value

  pub data Items : Type 0 where
    nil : Items
    cons : Value → Items → Items

  pub data Fields : Type 0 where
    end : Fields
    field : String → Value → Fields → Fields

abbrev pub elements : Items → List Value
elements nil = []
elements (cons v xs) = v ∷ elements xs

abbrev pub to_items : List Value → Items
to_items [] = nil
to_items (v ∷ xs) = cons v (to_items xs)

int_truthy : ℤ → Bool
int_truthy (pos n) = not (eqb n 0)
int_truthy (negsuc n) = true

float_truthy : Float → Bool
unfolding int_truthy
float_truthy (finite m k) = int_truthy m
float_truthy (infinite b) = true
float_truthy nan = true

-- `bool(v)`
unfoldable pub truthy : Value → Bool
unfolding int_truthy float_truthy
truthy null = false
truthy (bool b) = b
truthy (int z) = int_truthy z
truthy (float x) = float_truthy x
truthy (str s) = not (is_empty_text s)
truthy (list nil) = false
truthy (list (cons v xs)) = true
truthy (dict end) = false
truthy (dict (field k v fs)) = true

int_eq_nat : ℤ → ℕ → Bool
int_eq_nat (pos m) n = eqb m n
int_eq_nat (negsuc m) n = false

float_eq_nat : Float → ℕ → Bool
float_eq_nat (finite (pos m) k) n = eqb m (n * 2 ^ k)
float_eq_nat (finite (negsuc m) k) n = false
float_eq_nat (infinite b) n = false
float_eq_nat nan n = false

-- `v == n`, for a natural number
unfoldable pub eq_nat : Value → ℕ → Bool
unfolding int_eq_nat float_eq_nat
eq_nat (bool true) n = eqb 1 n
eq_nat (bool false) n = eqb 0 n
eq_nat (int z) n = int_eq_nat z n
eq_nat (float x) n = float_eq_nat x n
eq_nat _ n = false

-- `v == s`, for a text
unfoldable pub eq_text : Value → String → Bool
eq_text (str t) s = t == s
eq_text _ s = false

-- `v` if `isinstance(v, int)`
unfoldable pub as_int : Value → Option ℤ
as_int (bool true) = some (pos 1)
as_int (bool false) = some (pos 0)
as_int (int z) = some z
as_int _ = none

-- `v` if `isinstance(v, str)`
unfoldable pub as_text : Value → Option String
as_text (str s) = some s
as_text _ = none

-- `isinstance(v, dict)`
unfoldable pub is_dict : Value → Bool
is_dict (dict fs) = true
is_dict _ = false

-- `low <= z <= high`, for bounds that are not negative
unfoldable pub within : ℕ → ℕ → ℤ → Bool
within low high (pos n) = leb low n && leb n high
within low high (negsuc n) = false
