-- ===== src/Paths/Posix/Prefix.antt =====
-- `str.startswith`, and what it says of the parts of two paths.
use Prim.Native.Char.{code}
use Prim.Native.String.{[] as []ₛ, ◌∷◌ as ◌∷ₛ◌}
use text.Mathlib.TextEquality.{Char-path}
use text.Mathlib.TextLemmas.{nil-append, cons-append}
use frankensteinz_hermes.Paths.Posix.{drop_prefix, begins}
use frankensteinz_hermes.Base.{
  eqb, eqb_iff, Option-cases, Bool-cases, String, arith, inr, inl, true, some, refl, ◌↔◌, ◌≡◌, ◌<>◌,
}

pub drop_prefix-some : (p s r : String) → drop_prefix p s ≡ some r → s ≡ p <> r
unfolding drop_prefix
drop_prefix-some []ₛ s r h = cc (h, nil-append r)
drop_prefix-some (c ∷ₛ p) []ₛ r h = cc
drop_prefix-some (c ∷ₛ p) (d ∷ₛ s) r h = elim (Bool-cases (eqb (code c) (code d))) [
  | inl e ↦
      let same = Char-path c d ((eqb_iff _ _).0 e) in
      rw (cons-append, drop_prefix-some p s r (ground arith), same) refl
  | inr e ↦ absurd (ground arith)
]

pub drop_prefix-append : (p r : String) → drop_prefix p (p <> r) ≡ some r
unfolding drop_prefix
drop_prefix-append []ₛ r = rw nil-append refl
drop_prefix-append (c ∷ₛ p) r =
    rw (cons-append, (eqb_iff (code c) (code c)).1 refl) (drop_prefix-append p r)

pub begins_iff : (p s : String) → (begins p s ≡ true) ↔ ((r : String) × (s ≡ p <> r))
begins_iff p s = (
  λ h. elim (Option-cases (drop_prefix p s)) [
    | inl e ↦ absurd (ground arith)
    | inr (r, e) ↦ (r, drop_prefix-some p s r e)
  ],
  λ q. let found : drop_prefix p s ≡ some q.0 = rw q.1 (drop_prefix-append p q.0) in ground arith,
)
