-- ===== src/Paths/Posix/Join.antt =====
-- The parts of a path, and the path that they make: each determines the other.
use Prim.Native.Char.{Char, code}
use Prim.Native.String.{[] as []ₛ, ◌∷◌ as ◌∷ₛ◌}
use text.Mathlib.TextLemmas.{nil-append, cons-append}
use frankensteinz_hermes.Paths.Posix.{
  split_on, push_first, is_slash, join, keep, has_code, parts, proper_part, as_posix, is_absolute,
}
use frankensteinz_hermes.Paths.Posix.Split.{SlashFree, split_on-SlashFree, split_on-join}
use frankensteinz_hermes.Base.{
  Bool-cases, All-map, is_empty_text, eqb, All, ℕ, Bool, List, String, arith, inr, inl, false, true,
  refl, [], ◌≡◌, ◌<>◌, ◌∷◌,
}

-- A part of a path: neither empty nor ".", and with no slash.
abbrev pub IsPart : String → Type 0
IsPart s = SlashFree s × (proper_part s ≡ true)

keep-All {κ} :
    (P : String → Type κ) (p : String → Bool) (ss : List String)
    → All P ss
    → All (λ s. P s × (p s ≡ true)) (keep p ss)
keep-All P p [] h = tt
keep-All P p (s ∷ ss) (h, hs) = elim (Bool-cases (p s)) [
  | inl e ↦ rw e ((h, e), keep-All P p ss hs)
  | inr e ↦ rw e (keep-All P p ss hs)
]

pub keep_id : (p : String → Bool) (ss : List String) → All (λ s. p s ≡ true) ss → keep p ss ≡ ss
keep_id p [] h = refl
keep_id p (s ∷ ss) (h, hs) = rw (h, keep_id p ss hs) refl

pub parts-IsPart : (s : String) → All IsPart (parts s)
unfolding parts
parts-IsPart s = keep-All SlashFree proper_part (split_on is_slash s) (split_on-SlashFree s)

-- A path that is made of parts has these parts.
pub parts-as_posix : (ss : List String) → All IsPart ss → parts (as_posix ss) ≡ ss
unfolding parts as_posix
parts-as_posix [] h = refl
parts-as_posix (s ∷ ss) h =
    rw (split_on-join s ss (All-map IsPart SlashFree (λ _ q. q.0) (s ∷ ss) h)) (
      keep_id proper_part (s ∷ ss)
        (All-map IsPart (λ t. proper_part t ≡ true) (λ _ q. q.1) (s ∷ ss) h))

abbrev pub Lacks : ℕ → String → Type 0
Lacks n s = has_code n s ≡ false

push_first-Lacks :
    (n : ℕ) (c : Char) (ss : List String)
    → eqb (code c) n ≡ false
    → All (Lacks n) ss
    → All (Lacks n) (push_first c ss)
push_first-Lacks n c [] e h = (rw e refl, tt)
push_first-Lacks n c (s ∷ ss) e (h, hs) = (rw (e, h) refl, hs)

split_on-Lacks : (n : ℕ) (s : String) → Lacks n s → All (Lacks n) (split_on is_slash s)
unfolding split_on
split_on-Lacks n []ₛ h = (refl, tt)
split_on-Lacks n (c ∷ₛ s) h =
    let here : eqb (code c) n ≡ false = ground arith in
    let there : Lacks n s = ground arith in
    elim (Bool-cases (is_slash (code c))) [
      | inl slash ↦ rw slash (refl, split_on-Lacks n s there)
      | inr other ↦
          rw other (push_first-Lacks n c (split_on is_slash s) here (split_on-Lacks n s there))
    ]

append-Lacks : (n : ℕ) (s t : String) → Lacks n s → Lacks n t → Lacks n (s <> t)
append-Lacks n []ₛ t h k = rw nil-append k
append-Lacks n (c ∷ₛ s) t h k =
    let here : eqb (code c) n ≡ false = ground arith in
    rw (cons-append, here) (append-Lacks n s t (ground arith) k)

join-Lacks : (n : ℕ) (ss : List String) → eqb b'/' n ≡ false → All (Lacks n) ss → Lacks n (join ss)
unfolding join
join-Lacks n [] e h = refl
join-Lacks n (s ∷ []) e h = h.0
join-Lacks n (s ∷ t ∷ ss) e (h, hs) =
    append-Lacks n s ("/" ∷ₛ join (t ∷ ss)) h (rw e (join-Lacks n (t ∷ ss) e hs))

keep-Lacks :
    (n : ℕ) (p : String → Bool) (ss : List String) → All (Lacks n) ss → All (Lacks n) (keep p ss)
keep-Lacks n p ss h = All-map _ (Lacks n) (λ s q. q.0) (keep p ss) (keep-All (Lacks n) p ss h)

-- A character other than "/" and "." that the text lacks is not in the path of its parts.
pub as_posix-Lacks :
    (n : ℕ) (s : String)
    → eqb b'/' n ≡ false
    → eqb b'.' n ≡ false
    → Lacks n s
    → Lacks n (as_posix (parts s))
unfolding as_posix parts
as_posix-Lacks n s slash dot h =
    go (parts s) (keep-Lacks n proper_part (split_on is_slash s) (split_on-Lacks n s h))
  where
    go : (ss : List String) → All (Lacks n) ss → Lacks n (as_posix ss)
    go [] h = rw dot refl
    go (s ∷ ss) h = join-Lacks n (s ∷ ss) slash h

IsPart-relative : (s : String) → IsPart s → (is_empty_text s ≡ false) × (is_absolute s ≡ false)
IsPart-relative []ₛ (f, p) = cc
IsPart-relative (c ∷ₛ s) (f, p) = (refl, ground arith)

-- A path of parts is relative and not empty.
pub as_posix-relative :
    (ss : List String)
    → All IsPart ss
    → (is_empty_text (as_posix ss) ≡ false) × (is_absolute (as_posix ss) ≡ false)
unfolding as_posix join
as_posix-relative [] h = (refl, refl)
as_posix-relative (s ∷ []) h = IsPart-relative s h.0
as_posix-relative ([]ₛ ∷ t ∷ ss) ((f, p), hs) = cc
as_posix-relative ((c ∷ₛ s) ∷ t ∷ ss) (h, hs) =
    rw cons-append (refl, (IsPart-relative (c ∷ₛ s) h).1)
