-- ===== src/Paths/Allowed/Scope.antt =====
-- `path_allowed` of scripts/engineering_worker/worker.py: its tests on texts are tests on the
-- parts of paths, and what it lets through stays inside what the job allows.
use Prim.Native.String.{[] as []ₛ, ◌∷◌ as ◌∷ₛ◌}
use text.Mathlib.TextLemmas.{nil-append, cons-append, append_assoc as text_append_assoc}
use frankensteinz_hermes.Paths.Posix.{parts, as_posix, join, split_on, is_slash, keep, proper_part}
use frankensteinz_hermes.Paths.Posix.Split.{SlashFree, split_on-append}
use frankensteinz_hermes.Paths.Posix.Join.{keep_id, IsPart, parts-IsPart}
use frankensteinz_hermes.Paths.Posix.Prefix.{begins_iff}
use frankensteinz_hermes.Paths.Relative.Safe.{IsSafe}
use frankensteinz_hermes.Paths.Allowed.{is_within}
use frankensteinz_hermes.Base.{
  eq_iff, or-eq-true, append-nil, arith, true, ◌↔◌, ◌==◌, All-map, is_empty, Bool-cases, All, Bool,
  List, String, ap, sym, ◌∙◌, inr, inl, false, refl, [], ◌≡◌, ◌<>◌, ◌++◌, ◌∷◌,
}

-- The path is the base, or lies below it.
abbrev pub Below : String → String → Type 0
Below path base = (rest : List String) × (parts path ≡ parts base ++ rest)

keep-append : (p : String → Bool) (xs ys : List String) → keep p (xs ++ ys) ≡ keep p xs ++ keep p ys
keep-append p [] ys = refl
keep-append p (x ∷ xs) ys = elim (Bool-cases (p x)) [
  | inl e ↦ rw (e, keep-append p xs ys) refl
  | inr e ↦ rw (e, keep-append p xs ys) refl
]

split_on-join-append :
    (s : String) (ss : List String) (t : String)
    → All SlashFree (s ∷ ss)
    → split_on is_slash (join (s ∷ ss) <> ("/" ∷ₛ t)) ≡ (s ∷ ss) ++ split_on is_slash t
unfolding join
split_on-join-append s [] t (f, _) = split_on-append s t f
split_on-join-append s (u ∷ ss) t (f, fs) =
    ap (split_on is_slash) (
      text_append_assoc s ("/" ∷ₛ join (u ∷ ss)) ("/" ∷ₛ t)
      ∙ ap (λ x. s <> x) (cons-append _ (join (u ∷ ss)) ("/" ∷ₛ t)))
    ∙ split_on-append s (join (u ∷ ss) <> ("/" ∷ₛ t)) f
    ∙ ap (◌∷◌ s) (split_on-join-append u ss t fs)

join-append :
    (s : String) (ss : List String) (t : String) (ts : List String)
    → join ((s ∷ ss) ++ t ∷ ts) ≡ join (s ∷ ss) <> ("/" ∷ₛ join (t ∷ ts))
unfolding join
join-append s [] t ts = refl
join-append s (u ∷ ss) t ts =
    ap (λ x. s <> ("/" ∷ₛ x)) (join-append u ss t ts)
    ∙ ap (λ x. s <> x) (sym (cons-append _ (join (u ∷ ss)) ("/" ∷ₛ join (t ∷ ts))))
    ∙ sym (text_append_assoc s ("/" ∷ₛ join (u ∷ ss)) ("/" ∷ₛ join (t ∷ ts)))

slash-append : (base r : String) → (base <> ("/" ∷ₛ []ₛ)) <> r ≡ base <> ("/" ∷ₛ r)
slash-append base r =
    text_append_assoc base ("/" ∷ₛ []ₛ) r
    ∙ ap (λ x. base <> x) (cons-append _ []ₛ r ∙ ap (λ x. "/" ∷ₛ x) (nil-append r))

-- Below a list of parts that is not empty.
append_below :
    (ss : List String) (r : String)
    → All IsPart ss
    → is_empty ss ≡ false
    → parts (as_posix ss) ≡ ss
    → parts (as_posix ss <> ("/" ∷ₛ r)) ≡ parts (as_posix ss) ++ parts r
unfolding parts as_posix
append_below [] r h n e = cc
append_below (s ∷ ss) r h n e =
    ap (keep proper_part)
      (split_on-join-append s ss r (All-map IsPart SlashFree (λ _ q. q.0) (s ∷ ss) h))
    ∙ keep-append proper_part (s ∷ ss) (split_on is_slash r)
    ∙ ap (λ x. x ++ parts r)
        (keep_id proper_part (s ∷ ss)
            (All-map IsPart (λ t. proper_part t ≡ true) (λ _ q. q.1) (s ∷ ss) h)
          ∙ sym e)

below_text :
    (path base r : String)
    → IsSafe base
    → is_empty (parts base) ≡ false
    → path ≡ base <> ("/" ∷ₛ r)
    → parts path ≡ parts base ++ parts r
below_text path base r b n e =
    let below = append_below (parts base) r (parts-IsPart base) n (ap parts b.normal) in
    rw e (rw b.normal at below)

as_posix-append :
    (ss : List String) (t : String) (ts : List String)
    → is_empty ss ≡ false
    → as_posix (ss ++ t ∷ ts) ≡ as_posix ss <> ("/" ∷ₛ join (t ∷ ts))
unfolding as_posix
as_posix-append [] t ts n = cc
as_posix-append (s ∷ ss) t ts n = join-append s ss t ts

within_parts :
    (path base : String) (rest : List String)
    → IsSafe path
    → IsSafe base
    → is_empty (parts base) ≡ false
    → parts path ≡ parts base ++ rest
    → is_within path base ≡ true
unfolding is_within
within_parts path base [] p b n e =
    let same : path ≡ base = sym p.normal ∙ ap as_posix (e ∙ append-nil (parts base)) ∙ b.normal in
    ground (arith, eq_iff path base)
within_parts path base (r ∷ rs) p b n e =
    let text : path ≡ (base <> ("/" ∷ₛ []ₛ)) <> join (r ∷ rs) =
      sym p.normal
      ∙ ap as_posix e
      ∙ as_posix-append (parts base) r rs n
      ∙ ap (λ x. x <> ("/" ∷ₛ join (r ∷ rs))) b.normal
      ∙ sym (slash-append base (join (r ∷ rs))) in
    let starts = (begins_iff (base <> ("/" ∷ₛ []ₛ)) path).1 (join (r ∷ rs), text) in ground arith

parts_within :
    (path base : String)
    → IsSafe base
    → is_empty (parts base) ≡ false
    → is_within path base ≡ true
    → Below path base
unfolding is_within
parts_within path base b n h = elim (or-eq-true (path == base) _ h) [
  | inl same ↦ ([], ap parts ((eq_iff path base).0 same) ∙ sym (append-nil (parts base)))
  | inr starts ↦
      let (r, e) = (begins_iff (base <> ("/" ∷ₛ []ₛ)) path).0 starts in
      (parts r, below_text path base r b n (e ∙ slash-append base r))
]

-- For safe paths, the test `path == base or path.startswith(base + "/")` says exactly that the
-- parts of `base` are the first parts of `path`, unless `base` is "." itself.
pub is_within_iff :
    (path base : String)
    → IsSafe path
    → IsSafe base
    → is_empty (parts base) ≡ false
    → (is_within path base ≡ true) ↔ Below path base
is_within_iff path base p b n =
    (parts_within path base b n, λ below. within_parts path base below.0 p b n below.1)
