-- ===== src/Sandbox/Output/Undisturbed.antt =====
-- Runs of `collect_bounded` of scripts/engineering_qa/bwrap_sandbox_adapter.py that meet no limit.
use frankensteinz_hermes.Sandbox.Output.{
  is_open, Stream, Bytes, Round, unregister, read_all, collect, append, Collected,
}
use frankensteinz_hermes.Base.{
  some-injective, ℕ, List, length, subst, ap, inr, inl, false, true, none, some, refl, [],
  if◌then◌else◌, ◌+◌, ◌⊎◌, ◌≡◌, ◌∷◌, Bool-cases, ltb, is_empty,
}

-- Everything that is read in a round is kept, whatever its length.
abbrev pub absorb : List (Stream × Bytes) → Collected → Collected
absorb [] c = c
absorb ((stream, chunk) ∷ reads) c =
    let closed = absorb reads (unregister stream c) in
    let more = absorb reads (append stream chunk c) in if is_empty chunk then closed else more

-- Until both pipes are at their ends no round is late, and the output is all that has been read.
abbrev pub Undisturbed : List Round → Collected → Collected → Type 0
Undisturbed [] c e = (is_open c ≡ false) × (c ≡ e)
Undisturbed (r ∷ rounds) c e =
    ((is_open c ≡ false) × (c ≡ e))
    ⊎ ((is_open c ≡ true) × (r.late ≡ false) × Undisturbed rounds (absorb r.reads c) e)

read_all-absorb :
    (maximum : ℕ) (reads : List (Stream × Bytes)) (c : Collected)
    → (read_all maximum reads c).0 ≡ false
    → (read_all maximum reads c).1 ≡ absorb reads c
unfolding read_all
read_all-absorb maximum [] c h = refl
read_all-absorb maximum ((s, chunk) ∷ reads) c h = elim (Bool-cases (is_empty chunk)) [
  | inl e ↦ rw e (read_all-absorb maximum reads (unregister s c) (rw e at h))
  | inr e ↦ elim (Bool-cases (ltb maximum (c.total + length chunk))) [
    | inl over ↦ cc (h, e, over)
    | inr fits ↦ rw (e, fits) (read_all-absorb maximum reads (append s chunk c) (rw (e, fits) at h))
  ]
]

pub collect-Undisturbed :
    (maximum : ℕ) (rounds : List Round) (c e : Collected)
    → collect maximum rounds c ≡ some (none, e)
    → Undisturbed rounds c e
unfolding collect
collect-Undisturbed maximum [] c e h = elim (Bool-cases (is_open c)) [
  | inl o ↦ cc (h, o)
  | inr o ↦ (o, ap (λ x. x.1) (some-injective (rw o at h)))
]
collect-Undisturbed maximum (r ∷ rounds) c e h = elim (Bool-cases (is_open c)) [
  | inr o ↦ inl (o, ap (λ x. x.1) (some-injective (rw o at h)))
  | inl o ↦ elim (Bool-cases r.late) [
    | inl l ↦ let forced = ap (λ x. x.0) (some-injective (rw (o, l) at h)) in cc forced
    | inr l ↦ elim (Bool-cases ((read_all maximum r.reads c).0)) [
      | inl x ↦ let forced = ap (λ x. x.0) (some-injective (rw (o, l, x) at h)) in cc forced
      | inr x ↦ inr (
        o,
        l,
        subst (λ d. Undisturbed rounds d e) (read_all-absorb maximum r.reads c x)
            (collect-Undisturbed maximum rounds (read_all maximum r.reads c).1 e
              (rw (o, l, x) at h)),
      )
    ]
  ]
]
