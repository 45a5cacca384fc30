-- ===== src/Governor/Slots.antt =====
-- `acquire_heavy_slot` of scripts/governor/governor.py and the lock files that it shares with the
-- other governors of the host: a lock is free again when its file is closed, also where the process
-- has died.
pub mod Released
pub mod Bounded
use frankensteinz_hermes.Base.{
  ℕ, zero, suc, ◌+◌, Bool, true, false, List, [], ◌∷◌, Option, none, some, ◌≡◌, any, eqb,
  if◌then◌else◌,
}

-- The indices of the lock files that are locked, each with the process that holds it.
abbrev pub Locks : Type 0
Locks = List (ℕ × ℕ)

abbrev pub is_locked : Locks → ℕ → Bool
is_locked locks index = any (λ l. eqb l.0 index) locks

-- The loop over `range(slots)`: the first lock that does not block, of `count` from `index` on. Each
-- lock is tried on its own, and other governors may take and give back locks in between: `seen` has
-- the locks at the moment of each attempt.
unfoldable pub first_free : ℕ → ℕ → (ℕ → Locks) → Option ℕ
first_free zero index seen = none
first_free (suc count) index seen =
    let rest = first_free count (index + 1) seen in
    if is_locked (seen index) index then rest else some index

unfoldable pub acquire_heavy_slot : ℕ → (ℕ → Locks) → Option ℕ
unfolding first_free
acquire_heavy_slot slots seen = first_free slots 0 seen

-- `fcntl.flock(handle, fcntl.LOCK_UN)`, and `close`
abbrev pub release : ℕ → Locks → Locks
release index [] = []
release index ((other, process) ∷ locks) =
    if eqb other index then release index locks else (other, process) ∷ release index locks

-- What the governors of a host can do with the locks, one `flock` at a time. A loop that takes a lock
-- has tried the ones before it at other moments.
pub data Reachable (slots : ℕ) : Locks → Type 0 where
  idle : Reachable slots []
  acquired :
      (seen : ℕ → Locks) (process index : ℕ)
      → Reachable slots (seen index)
      → acquire_heavy_slot slots seen ≡ some index
      → Reachable slots ((index, process) ∷ seen index)
  released :
      {locks : Locks} (index : ℕ) → Reachable slots locks → Reachable slots (release index locks)
