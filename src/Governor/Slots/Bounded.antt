-- ===== src/Governor/Slots/Bounded.antt =====
-- How many heavy jobs the governors of a host run at a time.
use frankensteinz_hermes.Governor.Slots.{
  release, is_locked, Reachable, first_free, acquire_heavy_slot, Locks, idle, acquired, released,
}
use frankensteinz_hermes.Base.{
  Option-cases, ◌↔◌, eqb→≡, some-injective, eqb, Bool-cases, suc, ℕ, Bool, length, subst, arith,
  inr, inl, false, true, none, some, refl, [], if◌then◌else◌, ◌<◌, ◌≤◌, ◌+◌, ◌≡◌, ◌∷◌,
}
use frankensteinz_hermes.Governor.Slots.Released.{
  IsWellFormed, release-is_locked, release-below, length-release, length-release-locked,
  release-still_locked,
}

release-IsWellFormed :
    (slots index : ℕ) (locks : Locks)
    → IsWellFormed slots locks
    → IsWellFormed slots (release index locks)
release-IsWellFormed slots index [] w = tt
release-IsWellFormed slots index ((other, process) ∷ locks) (small, alone, w) =
    go (eqb other index) (release-IsWellFormed slots index locks w)
  where
    go :
        (b : Bool)
        → IsWellFormed slots (release index locks)
        → IsWellFormed slots
            (if b then release index locks else (other, process) ∷ release index locks)
    go true rest = rest
    go false rest = (small, release-is_locked index other locks alone, rest)

pub first_free-some :
    (count index found : ℕ) (seen : ℕ → Locks)
    → first_free count index seen ≡ some found
    → (found < index + count) × (is_locked (seen found) found ≡ false)
unfolding first_free
first_free-some ℕ.zero index found seen h = cc
first_free-some (suc count) index found seen h =
    go (is_locked (seen index) index) refl (first_free-some count (index + 1) found seen) h
  where
    go :
        (b : Bool)
        → is_locked (seen index) index ≡ b
        → (first_free count (index + 1) seen ≡ some found
            → (found < index + 1 + count) × (is_locked (seen found) found ≡ false))
        → (if b then first_free count (index + 1) seen else some index) ≡ some found
        → (found < index + suc count) × (is_locked (seen found) found ≡ false)
    go true e later h = let (small, free) = later h in (omega arith, free)
    go false e later h =
        let same : index ≡ found = some-injective h in
        (omega arith, subst (λ i. is_locked (seen i) i ≡ false) same e)

first_free-none :
    (count index : ℕ) (seen : ℕ → Locks)
    → first_free count index seen ≡ none
    → (j : ℕ) → index ≤ j
    → j < index + count
    → is_locked (seen j) j ≡ true
unfolding first_free
first_free-none ℕ.zero index seen h j low high = absurd (omega arith)
first_free-none (suc count) index seen h j low high =
    go (is_locked (seen index) index) refl (first_free-none count (index + 1) seen) h
  where
    go :
        (b : Bool)
        → is_locked (seen index) index ≡ b
        → (first_free count (index + 1) seen ≡ none
            → (j : ℕ) → index + 1 ≤ j
            → j < index + 1 + count
            → is_locked (seen j) j ≡ true)
        → (if b then first_free count (index + 1) seen else some index) ≡ none
        → is_locked (seen j) j ≡ true
    go false e later h = cc
    go true e later h = elim (Bool-cases (eqb index j)) [
      | inl same ↦ subst (λ i. is_locked (seen i) i ≡ true) (eqb→≡ index j same) e
      | inr other ↦ later h j (ground arith) (omega arith)
    ]

Reachable-IsWellFormed :
    (slots : ℕ) (locks : Locks) → Reachable slots locks → IsWellFormed slots locks
unfolding acquire_heavy_slot
Reachable-IsWellFormed slots _ idle = tt
Reachable-IsWellFormed slots _ (acquired seen process index r h) =
    let (small, free) = first_free-some slots 0 index seen h in
    (omega arith, free, Reachable-IsWellFormed slots (seen index) r)
Reachable-IsWellFormed slots _ (released {locks} index r) =
    release-IsWellFormed slots index locks (Reachable-IsWellFormed slots locks r)

at_most_slots : (slots : ℕ) (locks : Locks) → IsWellFormed slots locks → length locks ≤ slots
at_most_slots ℕ.zero [] w = omega arith
at_most_slots ℕ.zero ((other, process) ∷ locks) (small, alone, w) = absurd (omega arith)
at_most_slots (suc slots) locks w = omega (
  arith,
  length-release (suc slots) slots locks w,
  at_most_slots slots (release slots locks) (release-below slots locks w),
)

-- Where every slot is locked, there are as many locks.
at_least_slots :
    (slots : ℕ) (locks : Locks)
    → ((j : ℕ) → j < slots → is_locked locks j ≡ true)
    → slots ≤ length locks
at_least_slots ℕ.zero locks full = omega arith
at_least_slots (suc slots) locks full =
    let most =
      at_least_slots slots (release slots locks)
        (λ j small. release-still_locked slots j locks small (full j (omega arith))) in
    omega (arith, length-release-locked slots locks (full slots (omega arith)))

-- A heavy job is refused for concurrency exactly where every slot is locked when it is tried.
pub refused_iff :
    (slots : ℕ) (seen : ℕ → Locks)
    → (acquire_heavy_slot slots seen ≡ none) ↔ ((j : ℕ) → j < slots → is_locked (seen j) j ≡ true)
unfolding acquire_heavy_slot
refused_iff slots seen = (
  λ refused j small. first_free-none slots 0 seen refused j (omega arith) (omega arith),
  λ full. elim (Option-cases (first_free slots 0 seen)) [
    | inl refused ↦ refused
    | inr (index, found) ↦
        let (small, free) = first_free-some slots 0 index seen found in
        cc (free, full index (omega arith))
  ],
)

-- At most `heavy_slots` heavy jobs hold a slot at a time, however the attempts of the governors of
-- the host are interleaved. A heavy job is refused for concurrency exactly where every slot is locked
-- at the moment at which it is tried; where the locks do not change between the attempts, exactly
-- where that many jobs hold one.
pub acquire_heavy_slot_bounds :
    (slots : ℕ) (locks : Locks) (seen : ℕ → Locks)
    → Reachable slots locks
    → (length locks ≤ slots)
      × ((acquire_heavy_slot slots seen ≡ none)
          ↔ ((j : ℕ) → j < slots → is_locked (seen j) j ≡ true))
      × ((acquire_heavy_slot slots (λ j. locks) ≡ none) ↔ (length locks ≡ slots))
acquire_heavy_slot_bounds slots locks seen r =
    let w = Reachable-IsWellFormed slots locks r in
    let most = at_most_slots slots locks w in
    let iff = refused_iff slots (λ j. locks) in
    (
      most,
      refused_iff slots seen,
      (
        λ refused. let least = at_least_slots slots locks (iff.0 refused) in omega arith,
        λ full. iff.1 (λ j small. elim (Bool-cases (is_locked locks j)) [
          | inl taken ↦ taken
          | inr free ↦
              let over = at_most_slots slots ((j, 0) ∷ locks) (small, free, w) in
              absurd (omega arith)
        ]),
      ),
    )
