-- ===== src/Governor/Slots/Released.antt =====
-- The locks of scripts/governor/governor.py after one of them is released.
use frankensteinz_hermes.Governor.Slots.{release, is_locked, Locks}
use frankensteinz_hermes.Base.{
  eqb→≡, eqb, Bool-cases, suc, ℕ, Bool, length, subst, arith, inr, inl, false, true, refl, [],
  if◌then◌else◌, ◌<◌, ◌≤◌, ◌+◌, ◌≡◌, ◌∷◌,
}

-- Every lock is of a slot, and no slot is locked twice.
abbrev pub IsWellFormed : ℕ → Locks → Type 0
IsWellFormed slots [] = Unit
IsWellFormed slots ((index, process) ∷ locks) =
    (index < slots) × (is_locked locks index ≡ false) × IsWellFormed slots locks

pub release-is_locked :
    (index j : ℕ) (locks : Locks)
    → is_locked locks j ≡ false
    → is_locked (release index locks) j ≡ false
release-is_locked index j [] h = refl
release-is_locked index j ((other, process) ∷ locks) h =
    ground (arith, release-is_locked index j locks)

-- Without the last slot, the locks are those of one slot fewer.
pub release-below :
    (slots : ℕ) (locks : Locks)
    → IsWellFormed (suc slots) locks
    → IsWellFormed slots (release slots locks)
release-below slots [] w = tt
release-below slots ((other, process) ∷ locks) (small, alone, w) =
    go (eqb other slots) refl (release-below slots locks w)
  where
    go :
        (b : Bool)
        → eqb other slots ≡ b
        → IsWellFormed slots (release slots locks)
        → IsWellFormed slots
            (if b then release slots locks else (other, process) ∷ release slots locks)
    go true e rest = rest
    go false e rest = (ground arith, release-is_locked slots other locks alone, rest)

-- A slot that is not locked is not released.
length-release-free :
    (index : ℕ) (locks : Locks)
    → is_locked locks index ≡ false
    → length (release index locks) ≡ length locks
length-release-free index [] h = refl
length-release-free index ((other, process) ∷ locks) h =
    ground (arith, length-release-free index locks)

length-release-up : (index : ℕ) (locks : Locks) → length (release index locks) ≤ length locks
length-release-up index [] = omega arith
length-release-up index ((other, process) ∷ locks) = ground (arith, length-release-up index locks)

pub length-release :
    (slots index : ℕ) (locks : Locks)
    → IsWellFormed slots locks
    → length locks ≤ length (release index locks) + 1
length-release slots index [] w = omega arith
length-release slots index ((other, process) ∷ locks) (small, alone, w) =
    elim (Bool-cases (eqb other index)) [
      | inl same ↦ rw same (
          let free = subst (λ i. is_locked locks i ≡ false) (eqb→≡ other index same) alone in
          omega (arith, length-release-free index locks free))
      | inr differs ↦ rw differs (omega (arith, length-release slots index locks w))
    ]

pub length-release-locked :
    (index : ℕ) (locks : Locks)
    → is_locked locks index ≡ true
    → length (release index locks) + 1 ≤ length locks
length-release-locked index [] h = cc
length-release-locked index ((other, process) ∷ locks) h =
    ground (arith, length-release-locked index locks, length-release-up index locks)

pub release-still_locked :
    (index j : ℕ) (locks : Locks)
    → j < index
    → is_locked locks j ≡ true
    → is_locked (release index locks) j ≡ true
release-still_locked index j [] small h = cc
release-still_locked index j ((other, process) ∷ locks) small h =
    ground (arith, release-still_locked index j locks)
