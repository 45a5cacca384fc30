-- ===== src/Checks.antt =====
-- The tests that the scripts share when they validate a config, an envelope or a response: bounded
-- integers, commands, digests and identifiers, and the functions `Any -> value or exception`.
pub mod Reports
pub mod Passed
pub mod Envelope
pub mod Files
pub mod Steps
use frankensteinz_hermes.Base.{
  is_empty_text, all_codes, text_length, not, strip, leb, eqb, ℕ, Bool, List, Result, Option,
  String, guard, false, true, none, some, err, ok, [], ◌>>◌, ◌||◌, ◌&&◌, ◌∷◌,
}
use frankensteinz_hermes.Python.{
  pos, int, ℤ, entries, Dict, within, Exn, lookup, as_int, Value, list, str, cons, dict,
}
use frankensteinz_hermes.Paths.Posix.{drop_prefix}
use frankensteinz_hermes.Gate.Policy.{all_texts}

pub record Range : Type 0 where
  pub key : String
  pub low : ℕ
  pub high : ℕ

abbrev pub bounded : ℕ → ℕ → Option ℤ → Bool
bounded low high none = false
bounded low high (some z) = within low high z

-- `isinstance(v, int) and low <= v <= high`, of `d.get(key)`
unfoldable pub in_range : ℕ → ℕ → Option Value → Bool
unfolding as_int within
in_range low high none = false
in_range low high (some v) = bounded low high (as_int v)

-- The loop over `(key, low, high)`.
unfoldable pub check_ranges : (String → Exn) → List Range → Dict → Result Exn (Unit {0})
unfolding in_range lookup
check_ranges raise [] d = ok tt
check_ranges raise (r ∷ rs) d =
    guard (in_range r.low r.high (lookup r.key d)) (raise r.key) >> check_ranges raise rs d

-- `if not isinstance(v, dict): raise e`
unfoldable pub require_dict : Option Value → Exn → Result Exn Dict
require_dict (some (dict fs)) e = ok (entries fs)
require_dict _ e = err e

-- `d.get(key, default)`
abbrev pub get_or : Value → Option Value → Value
get_or default none = default
get_or default (some v) = v

-- `v = d.get(key, default)` is an integer in the range.
unfoldable pub in_range_or : ℕ → Range → Dict → Bool
unfolding in_range lookup
in_range_or default r d = in_range r.low r.high (some (get_or (int (pos default)) (lookup r.key d)))

-- `isinstance(v, list) and v`
unfoldable pub is_filled_list : Option Value → Bool
is_filled_list (some (list (cons v xs))) = true
is_filled_list _ = false

-- `isinstance(v, list) and v and all(isinstance(x, str) and x for x in v)`
unfoldable pub is_command : Option Value → Bool
is_command (some (list (cons v xs))) = all_texts (cons v xs)
is_command _ = false

-- `isinstance(v, str)`, and the test on it
unfoldable pub is_text : (String → Bool) → Option Value → Bool
is_text p (some (str s)) = p s
is_text p _ = false

-- `s.strip()`, as a test
unfoldable pub has_ink : String → Bool
unfolding strip
has_ink s = not (is_empty_text (strip s))

abbrev pub is_hex_digit : ℕ → Bool
is_hex_digit c = leb 48 c && leb c 57 || leb 97 c && leb c 102

-- `[0-9a-f]{n}`, as a full match
unfoldable pub is_hex : ℕ → String → Bool
is_hex n s = eqb (text_length s) n && all_codes is_hex_digit s

-- `[A-Za-z0-9_.:-]`
abbrev pub is_id_code : ℕ → Bool
is_id_code c =
    leb 65 c && leb c 90
    || leb 97 c && leb c 122
    || leb 48 c && leb c 58
    || eqb c 95
    || eqb c 46
    || eqb c 45

-- `[A-Za-z0-9_.:-]{1,max}`, as a full match
unfoldable pub is_safe_id : ℕ → String → Bool
is_safe_id max s = leb 1 (text_length s) && leb (text_length s) max && all_codes is_id_code s

-- `fzh/job-[0-9a-f]{12}`, as a full match
unfoldable pub is_branch : String → Bool
unfolding drop_prefix is_hex
is_branch s = elim (drop_prefix "fzh/job-" s) [ none ↦ false | some r ↦ is_hex 12 r ]
