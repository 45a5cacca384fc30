-- ===== src/Governor/Numbers.antt =====
-- The doubles of scripts/governor/governor.py: `float(v)`, a double times a natural number, and the
-- comparisons. `infinite true` is the positive infinity.
use frankensteinz_hermes.Base.{
  ℕ, zero, suc, ◌+◌, ◌*◌, ◌/◌, ◌%◌, ◌^◌, Bool, true, false, not, ◌&&◌, ◌||◌, eqb, ltb, leb, Result,
  ok, err, String, if◌then◌else◌,
}
use frankensteinz_hermes.Python.{
  ℤ, pos, negsuc, Float, finite, infinite, nan, Value, bool, int, float, str, Exn, type_error,
  overflow_error,
}

-- How often `n` is halved before it is below 2^53.
unfoldable excess : ℕ → ℕ → ℕ
excess zero n = 0
excess (suc fuel) n = elim (ltb n (2 ^ 53)) [ true ↦ 0 | false ↦ suc (excess fuel (n / 2)) ]

-- `n / d`, rounded to the nearest natural number, and to the even one between two.
unfoldable round_quotient : ℕ → ℕ → ℕ
round_quotient n d =
    let q = n / d in
    let r = n % d in if ltb d (2 * r) || eqb d (2 * r) && eqb (q % 2) 1 then q + 1 else q

-- The double that is nearest to a natural number below 2^2200.
unfoldable pub round_nat : ℕ → ℕ
unfolding excess round_quotient
round_nat n = let d = 2 ^ excess 2200 n in round_quotient n d * d

unfoldable pub round_int : ℤ → ℤ
unfolding round_nat
round_int (pos n) = pos (round_nat n)
round_int (negsuc n) = elim (round_nat (suc n)) [ zero ↦ pos 0 | suc m ↦ negsuc m ]

abbrev magnitude : ℤ → ℕ
magnitude (pos n) = n
magnitude (negsuc n) = suc n

abbrev is_positive : ℤ → Bool
is_positive (pos n) = true
is_positive (negsuc n) = false

-- A double of the magnitude 2^1024 is infinite.
unfoldable bounded_double : ℤ → ℕ → Float
bounded_double z k =
    if leb (2 ^ 1024 * 2 ^ k) (magnitude z) then infinite (is_positive z) else finite z k

abbrev times_nat : ℤ → ℕ → ℤ
times_nat (pos m) n = pos (m * n)
times_nat (negsuc m) zero = pos 0
times_nat (negsuc m) (suc n) = negsuc (m * suc n + n)

-- `x * n`, for a natural number below 2^53
unfoldable pub times : Float → ℕ → Float
unfolding round_int bounded_double
times (finite z k) n = bounded_double (round_int (times_nat z n)) k
times (infinite b) n = if eqb n 0 then nan else infinite b
times nan n = nan

abbrev less_int : ℤ → ℤ → Bool
less_int (pos m) (pos n) = ltb m n
less_int (pos m) (negsuc n) = false
less_int (negsuc m) (pos n) = true
less_int (negsuc m) (negsuc n) = ltb n m

-- `x < y`
unfoldable pub less : Float → Float → Bool
less (finite a j) (finite b k) = less_int (times_nat a (2 ^ k)) (times_nat b (2 ^ j))
less (finite a j) (infinite b) = b
less (infinite a) (finite b k) = not a
less (infinite a) (infinite b) = not a && b
less _ _ = false

-- `x <= y`
unfoldable pub at_most : Float → Float → Bool
unfolding less
at_most (finite a j) (finite b k) = not (less (finite b k) (finite a j))
at_most (finite a j) (infinite b) = b
at_most (infinite a) (finite b k) = not a
at_most (infinite a) (infinite b) = not a || b
at_most _ _ = false

abbrev pub of_nat : ℕ → Float
of_nat n = finite (pos n) 0

-- `float(z)`
unfoldable float_of_int : ℤ → Result Exn Float
unfolding round_int
float_of_int z =
    if leb (2 ^ 1024) (magnitude z)
    then err overflow_error
    else if leb (2 ^ 1024) (magnitude (round_int z))
    then err overflow_error
    else ok (finite (round_int z) 0)

-- `float(v)`, where `parse` is what it makes of a text.
module _ (parse : String → Result Exn Float) where
  unfoldable pub to_float : Value → Result Exn Float
  unfolding float_of_int
  to_float (bool true) = ok (of_nat 1)
  to_float (bool false) = ok (of_nat 0)
  to_float (int z) = float_of_int z
  to_float (float x) = ok x
  to_float (str s) = parse s
  to_float _ = err type_error
