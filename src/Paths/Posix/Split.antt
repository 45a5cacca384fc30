-- ===== src/Paths/Posix/Split.antt =====
-- Splitting a text at its slashes, and joining the pieces again.
use Prim.Native.Char.{Char, code}
use Prim.Native.String.{[] as []ₛ, ◌∷◌ as ◌∷ₛ◌}
use text.Mathlib.TextLemmas.{nil-append, cons-append}
use frankensteinz_hermes.Paths.Posix.{split_on, push_first, is_slash, join}
use frankensteinz_hermes.Base.{
  Bool-cases, not, and-eq-true, all_codes, All, ℕ, Bool, List, String, ap, ◌∙◌, arith, inr, inl,
  false, true, refl, [], ◌≡◌, ◌<>◌, ◌∷◌,
}

abbrev pub not_slash : ℕ → Bool
not_slash c = not (is_slash c)

-- The text has no slash.
abbrev pub SlashFree : String → Type 0
SlashFree s = all_codes not_slash s ≡ true

split_on-SlashFree-push :
    (c : Char) (ss : List String)
    → is_slash (code c) ≡ false
    → All SlashFree ss
    → All SlashFree (push_first c ss)
split_on-SlashFree-push c [] n h = (rw n refl, tt)
split_on-SlashFree-push c (s ∷ ss) n (f, fs) = (rw (n, f) refl, fs)

-- The pieces have no slash.
pub split_on-SlashFree : (s : String) → All SlashFree (split_on is_slash s)
unfolding split_on
split_on-SlashFree []ₛ = (refl, tt)
split_on-SlashFree (c ∷ₛ s) = elim (Bool-cases (is_slash (code c))) [
  | inl slash ↦ rw slash (refl, split_on-SlashFree s)
  | inr other ↦
      rw other (split_on-SlashFree-push c (split_on is_slash s) other (split_on-SlashFree s))
]

-- A text with no slash is its only piece.
pub split_on-whole : (s : String) → SlashFree s → split_on is_slash s ≡ s ∷ []
unfolding split_on
split_on-whole []ₛ h = refl
split_on-whole (c ∷ₛ s) h =
    let (here, there) = and-eq-true (not_slash (code c)) (all_codes not_slash s) h in
    let n : is_slash (code c) ≡ false = ground arith in rw (n, split_on-whole s there) refl

-- A text with no slash, a slash, and the rest.
pub split_on-append :
    (s t : String) → SlashFree s → split_on is_slash (s <> ("/" ∷ₛ t)) ≡ s ∷ split_on is_slash t
unfolding split_on
split_on-append []ₛ t h = rw nil-append refl
split_on-append (c ∷ₛ s) t h =
    let (here, there) = and-eq-true (not_slash (code c)) (all_codes not_slash s) h in
    let n : is_slash (code c) ≡ false = ground arith in
    rw (cons-append, n, split_on-append s t there) refl

-- Joined pieces are found again.
pub split_on-join :
    (s : String) (ss : List String)
    → All SlashFree (s ∷ ss)
    → split_on is_slash (join (s ∷ ss)) ≡ s ∷ ss
unfolding join
split_on-join s [] (f, _) = split_on-whole s f
split_on-join s (t ∷ ss) (f, fs) =
    split_on-append s (join (t ∷ ss)) f ∙ ap (◌∷◌ s) (split_on-join t ss fs)
