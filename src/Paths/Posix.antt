-- ===== src/Paths/Posix.antt =====
-- `PurePosixPath` of the standard library, and the functions on texts that the path code calls.
pub mod Split
pub mod Join
pub mod Prefix
use Prim.Native.Char.{Char, code}
use Prim.Native.String.{[] as []ₛ, ◌∷◌ as ◌∷ₛ◌}
use frankensteinz_hermes.Base.{
  not, is_empty_text, eqb, ℕ, Bool, List, Option, String, false, true, none, some, [],
  if◌then◌else◌, ◌==◌, ◌||◌, ◌<>◌, ◌∷◌,
}

-- The first piece of a split text takes one more character in front.
abbrev pub push_first : Char → List String → List String
push_first c [] = (c ∷ₛ []ₛ) ∷ []
push_first c (s ∷ ss) = (c ∷ₛ s) ∷ ss

-- `s.split(c)`, with a test for the separator
unfoldable pub split_on : (ℕ → Bool) → String → List String
split_on p []ₛ = []ₛ ∷ []
split_on p (c ∷ₛ s) =
    let rest = split_on p s in if p (code c) then []ₛ ∷ rest else push_first c rest

abbrev pub is_slash : ℕ → Bool
is_slash c = eqb c b'/'

abbrev pub proper_part : String → Bool
proper_part s = not (is_empty_text s || s == ".")

abbrev pub keep : (String → Bool) → List String → List String
keep p [] = []
keep p (s ∷ ss) = if p s then s ∷ keep p ss else keep p ss

-- `PurePosixPath(s).parts` of a relative path: empty parts and "." are dropped.
unfoldable pub parts : String → List String
unfolding split_on
parts s = keep proper_part (split_on is_slash s)

-- `PurePosixPath(s).is_absolute()`
abbrev pub is_absolute : String → Bool
is_absolute []ₛ = false
is_absolute (c ∷ₛ s) = is_slash (code c)

-- `"/".join(ss)`
unfoldable pub join : List String → String
join [] = ""
join (s ∷ []) = s
join (s ∷ t ∷ ss) = s <> ("/" ∷ₛ join (t ∷ ss))

-- `PurePosixPath(s).as_posix()` of a relative path with these parts
unfoldable pub as_posix : List String → String
unfolding join
as_posix [] = "."
as_posix (s ∷ ss) = join (s ∷ ss)

-- `c in s`, for a character
abbrev pub has_code : ℕ → String → Bool
has_code n []ₛ = false
has_code n (c ∷ₛ s) = eqb (code c) n || has_code n s

-- What stands behind the prefix, where the text begins with it.
unfoldable pub drop_prefix : String → String → Option String
drop_prefix []ₛ s = some s
drop_prefix (c ∷ₛ p) []ₛ = none
drop_prefix (c ∷ₛ p) (d ∷ₛ s) = if eqb (code c) (code d) then drop_prefix p s else none

-- `s.startswith(p)`
abbrev pub begins : String → String → Bool
begins p s = elim (drop_prefix p s) [ none ↦ false | some r ↦ true ]

-- `p in s`
unfoldable pub occurs : String → String → Bool
unfolding drop_prefix
occurs p []ₛ = is_empty_text p
occurs p (c ∷ₛ s) = begins p (c ∷ₛ s) || occurs p s
