-- ===== src/Base/Text.antt =====
-- Python's text functions that the scripts call, over the native `String`.
use Prim.Native.Nat.{ℕ, suc}
use Prim.Native.Char.{Char, code}
use Prim.Native.String.{String, [], ◌∷◌}
use mathlib.Core.Path.{◌≡◌, refl, ap}
use mathlib.Core.Logic.{inl, inr}
use mathlib.Core.Bool.{Bool, true, false, ◌&&◌, ◌||◌, not}
use mathlib.Core.List.{List}
use native.Mathlib.Omega.{arith}
use frankensteinz_hermes.Base.Tests.{leb, eqb, if◌then◌else◌, Bool-cases}

-- The code points of a text.
abbrev pub codes : String → List ℕ
codes [] = List.[]
codes (c ∷ s) = List.◌∷◌ (code c) (codes s)

-- `len(s)`
abbrev pub text_length : String → ℕ
text_length [] = 0
text_length (c ∷ s) = suc (text_length s)

-- `bool(s)`, negated
abbrev pub is_empty_text : String → Bool
is_empty_text [] = true
is_empty_text (c ∷ s) = false

-- `all(p(c) for c in s)`, by code points
abbrev pub all_codes : (ℕ → Bool) → String → Bool
all_codes p [] = true
all_codes p (c ∷ s) = p (code c) && all_codes p s

-- The characters that `str.strip` drops and `str.isspace` accepts.
abbrev pub is_space : ℕ → Bool
is_space c =
    leb 9 c && leb c 13
    || leb 28 c && leb c 32
    || eqb c 0x85
    || eqb c 0xa0
    || eqb c 0x1680
    || leb 0x2000 c && leb c 0x200a
    || leb 0x2028 c && leb c 0x2029
    || eqb c 0x202f
    || eqb c 0x205f
    || eqb c 0x3000

-- A character in front of the stripped rest, unless the whole tail is dropped.
abbrev push_unless : (ℕ → Bool) → Char → String → String
push_unless p c [] = if p (code c) then [] else c ∷ []
push_unless p c (d ∷ s) = c ∷ d ∷ s

unfoldable pub rstrip : (ℕ → Bool) → String → String
rstrip p [] = []
rstrip p (c ∷ s) = push_unless p c (rstrip p s)

unfoldable pub lstrip : (ℕ → Bool) → String → String
lstrip p [] = []
lstrip p (c ∷ s) = let rest = lstrip p s in if p (code c) then rest else c ∷ s

-- `s.strip()`
unfoldable pub strip : String → String
unfolding lstrip rstrip
strip s = rstrip is_space (lstrip is_space s)

abbrev first_not : (ℕ → Bool) → String → Bool
first_not p [] = true
first_not p (c ∷ s) = not (p (code c))

lstrip-first : (p : ℕ → Bool) (s : String) → first_not p (lstrip p s) ≡ true
unfolding lstrip
lstrip-first p [] = refl
lstrip-first p (c ∷ s) = ground (arith, lstrip-first p s)

lstrip_fixed : (p : ℕ → Bool) (s : String) → first_not p s ≡ true → lstrip p s ≡ s
unfolding lstrip
lstrip_fixed p [] h = refl
lstrip_fixed p (c ∷ s) h = ground arith

push_unless-first :
    (p : ℕ → Bool) (c : Char) (s : String)
    → not (p (code c)) ≡ true
    → first_not p (push_unless p c s) ≡ true
push_unless-first p c [] h = ground arith
push_unless-first p c (d ∷ s) h = h

rstrip-first : (p : ℕ → Bool) (s : String) → first_not p s ≡ true → first_not p (rstrip p s) ≡ true
unfolding rstrip
rstrip-first p [] h = refl
rstrip-first p (c ∷ s) h = push_unless-first p c (rstrip p s) h

rstrip-push_unless :
    (p : ℕ → Bool) (c : Char) (s : String)
    → rstrip p s ≡ s
    → rstrip p (push_unless p c s) ≡ push_unless p c s
unfolding rstrip
rstrip-push_unless p c [] h = elim (Bool-cases (p (code c))) [
  | inl e ↦ rw e refl
  | inr e ↦ rw e (ground arith)
]
rstrip-push_unless p c (d ∷ s) h = ap (push_unless p c) h

pub rstrip-rstrip : (p : ℕ → Bool) (s : String) → rstrip p (rstrip p s) ≡ rstrip p s
unfolding rstrip
rstrip-rstrip p [] = refl
rstrip-rstrip p (c ∷ s) = rstrip-push_unless p c (rstrip p s) (rstrip-rstrip p s)
