-- ===== src/Governor/Command/Governed.antt =====
-- What a job that scripts/governor/governor.py has run was given, and what is left of it.
use frankensteinz_hermes.Governor.Command.{
  shown, respond_or_raise, status, ended, class_of, take_snapshot, run_words, respond, main,
  execute_in, run_heavy, run_admitted, Ending, strip_dashes, heavy_slots, Request, execute, Host,
  Effect, run, executed,
}
use frankensteinz_hermes.Governor.Snapshot.{
  heavy_reasons, disk_reasons, memory_reasons, snapshot, Snapshot, read_policy, WorkClass, light,
  heavy,
}
use frankensteinz_hermes.Base.{
  Option-cases, inr, inl, ◌<◌, ok-injective, >>=-eq-ok, Bool, subst, ap, sym, ◌∙◌, true,
  if◌then◌else◌, Result, err, ℕ, List, Option, String, arith, false, none, some, ok, refl, [], ◌≡◌,
  ◌∷◌,
}
use frankensteinz_hermes.Governor.Slots.{release, is_locked, acquire_heavy_slot, Locks}
use frankensteinz_hermes.Governor.Slots.Bounded.{refused_iff, first_free-some}
use frankensteinz_hermes.Python.{pos, pos, Exn, Value}
use frankensteinz_hermes.Governor.Snapshot.Admitted.{snapshot-IsRelaxed, IsRelaxed}

-- The words of the command that has been run.
abbrev pub execution : Effect → Option (List String)
execution (executed argv) = some argv
execution e = none

abbrev pub executions : List Effect → List (List String)
executions [] = []
executions (e ∷ es) = elim (execution e) [ none ↦ executions es | some argv ↦ argv ∷ executions es ]

-- A light job needs no slot, and a heavy one has one that was free.
abbrev pub HasSlot : Host → WorkClass → Type 0
HasSlot w light = Unit
HasSlot w heavy =
    (slots : ℕ) × (index : ℕ) × (heavy_slots w ≡ ok slots)
    × (acquire_heavy_slot slots w.seen ≡ some index)

-- Why the command has been run.
pub record IsGoverned (w : Host) (q : Request) (argv : List String) : Type 0 where
  pub work_class : WorkClass
  pub words : List String
  pub asked : q ≡ run work_class words
  pub stripped : strip_dashes words ≡ argv
  pub relaxed :
      (policy : Value) × (read_policy w.policy ≡ ok policy)
      × IsRelaxed w.parse_float policy work_class w.readings
  pub has_slot : HasSlot w work_class

release-free :
    (index : ℕ) (locks : Locks) → is_locked locks index ≡ false → release index locks ≡ locks
release-free index [] h = refl
release-free index ((other, process) ∷ locks) h = ground (arith, release-free index locks)

execute-locks :
    (w : Host) (slots index : ℕ) (argv : List String)
    → acquire_heavy_slot slots w.seen ≡ some index
    → (execute w (some index) argv).locks ≡ w.seen index
unfolding execute acquire_heavy_slot
execute-locks w slots index argv h =
    let (small, free) = first_free-some slots 0 index w.seen h in
    ground (arith, release-free index (w.seen index) free)

-- One command at most has been run, with a slot where it is heavy, and the exit code is its own.
abbrev IsRunOf : Host → WorkClass → List String → Ending → Type 0
IsRunOf w work_class argv ending =
    (first : List String) (rest : List (List String))
    → executions ending.effects ≡ first ∷ rest
    → (first ≡ argv) × (rest ≡ []) × (ending.code ≡ w.spawn argv) × HasSlot w work_class

abbrev KeepsLocks : Host → WorkClass → List String → Ending → Type 0
KeepsLocks w work_class argv ending =
    (ending.locks ≡ ending.before) × IsRunOf w work_class argv ending

execute_in-KeepsLocks :
    (w : Host) (argv : List String) (slots : ℕ) (o : Option ℕ)
    → heavy_slots w ≡ ok slots
    → acquire_heavy_slot slots w.seen ≡ o
    → KeepsLocks w heavy argv (execute_in w argv o)
unfolding execute
execute_in-KeepsLocks w argv slots none given refused = (refl, λ first rest h. cc)
execute_in-KeepsLocks w argv slots (some index) given free = (
  execute-locks w slots index argv free,
  λ first rest h. (cc, cc, refl, (slots, index, given, free)),
)

run_heavy-KeepsLocks :
    (w : Host) (argv : List String) (slots : Result Exn ℕ)
    → heavy_slots w ≡ slots
    → KeepsLocks w heavy argv (run_heavy w argv slots)
unfolding run_heavy
run_heavy-KeepsLocks w argv (err e) given = (refl, λ first rest h. cc)
run_heavy-KeepsLocks w argv (ok slots) given =
    execute_in-KeepsLocks w argv slots (acquire_heavy_slot slots w.seen) given refl

run_admitted-KeepsLocks :
    (w : Host) (work_class : WorkClass) (argv : List String)
    → KeepsLocks w work_class argv (run_admitted w work_class argv)
unfolding run_admitted execute
run_admitted-KeepsLocks w light argv = (refl, λ first rest h. (cc, cc, refl, tt))
run_admitted-KeepsLocks w heavy argv = run_heavy-KeepsLocks w argv (heavy_slots w) refl

take_snapshot-IsRelaxed :
    (w : Host) (work_class : WorkClass) (s : Snapshot)
    → take_snapshot w work_class ≡ ok s
    → s.admitted ≡ true
    → (policy : Value) × (read_policy w.policy ≡ ok policy)
      × IsRelaxed w.parse_float policy work_class w.readings
unfolding take_snapshot
take_snapshot-IsRelaxed w work_class s h admitted =
    let (policy, loaded, h₁) = >>=-eq-ok (read_policy w.policy) _ h in
    (policy, loaded, snapshot-IsRelaxed w.parse_float policy work_class w.readings s h₁ admitted)

snapshot-work_class :
    (w : Host) (work_class : WorkClass) (s : Snapshot)
    → take_snapshot w work_class ≡ ok s
    → s.work_class ≡ work_class
unfolding take_snapshot snapshot
snapshot-work_class w work_class s h =
    let (policy, loaded, h₁) = >>=-eq-ok (read_policy w.policy) _ h in
    let (memory, e₁, h₂) =
      >>=-eq-ok (memory_reasons w.parse_float policy work_class w.readings) _ h₁ in
    let (disk, e₂, h₃) = >>=-eq-ok (disk_reasons w.parse_float policy w.readings) _ h₂ in
    let (more, e₃, h₄) =
      >>=-eq-ok (heavy_reasons w.parse_float policy work_class w.readings) _ h₃ in
    sym (ap (λ x. x.work_class) (ok-injective refl h₄))

-- The run of a request gives back its locks, and what it has executed was governed.
abbrev RunsGoverned : Host → Request → Ending → Type 0
RunsGoverned w q ending =
    (ending.locks ≡ ending.before)
    × ((argv : List String) (rest : List (List String))
        → executions ending.effects ≡ argv ∷ rest
        → IsGoverned w q argv × (rest ≡ []) × (ending.code ≡ w.spawn argv))

run_words-RunsGoverned :
    (w : Host) (work_class : WorkClass) (words argv : List String) (s : Snapshot)
    → strip_dashes words ≡ argv
    → take_snapshot w work_class ≡ ok s
    → RunsGoverned w (run work_class words) (run_words w s argv)
unfolding run_words
run_words-RunsGoverned w work_class words [] s e taken = (refl, λ argv rest h. cc)
run_words-RunsGoverned w work_class words (name ∷ arguments) s e taken =
    go s.admitted refl (run_admitted-KeepsLocks w s.work_class (name ∷ arguments))
  where
    go :
        (b : Bool)
        → s.admitted ≡ b
        → KeepsLocks w s.work_class
            (name ∷ arguments)
            (run_admitted w s.work_class (name ∷ arguments))
        → RunsGoverned w (run work_class words) (
            if b
            then run_admitted w s.work_class (name ∷ arguments)
            else ended w (shown ∷ []) (ok (pos 75)))
    go false b kept = (refl, λ argv rest h. cc)
    go true b (kept, runs) = (
      kept,
      λ argv rest h.
          let (same, last, code, slot) = runs argv rest h in
          (
            record {
              work_class = work_class;
              words = words;
              asked = refl;
              stripped = e ∙ sym same;
              relaxed = take_snapshot-IsRelaxed w work_class s taken b;
              has_slot = subst (λ c. HasSlot w c) (snapshot-work_class w work_class s taken) slot;
            },
            last,
            code ∙ ap w.spawn (sym same),
          ),
    )

respond-RunsGoverned :
    (w : Host) (q : Request) (s : Snapshot)
    → take_snapshot w (class_of q) ≡ ok s
    → RunsGoverned w q (respond w q s)
unfolding respond
respond-RunsGoverned w (status work_class true) s taken = (refl, λ argv rest h. cc)
respond-RunsGoverned w (status work_class false) s taken = (refl, λ argv rest h. cc)
respond-RunsGoverned w (run work_class words) s taken =
    run_words-RunsGoverned w work_class words (strip_dashes words) s refl taken

-- A request leaves the locks as it has found them, also where it fails; and a command that it has
-- executed is the one asked for, the only one, on a host that keeps every limit of the policy, with
-- a slot that was free where the job is heavy, and its exit code is the governor's.
pub main-IsGoverned :
    (w : Host) (q : Request)
    → ((main w q).locks ≡ (main w q).before)
      × ((argv : List String) (rest : List (List String))
          → executions (main w q).effects ≡ argv ∷ rest
          → IsGoverned w q argv × (rest ≡ []) × ((main w q).code ≡ w.spawn argv))
unfolding main
main-IsGoverned w q = go (take_snapshot w (class_of q)) refl
  where
    go :
        (r : Result Exn Snapshot)
        → take_snapshot w (class_of q) ≡ r
        → RunsGoverned w q (respond_or_raise w q r)
    go (err e) raised = (refl, λ argv rest h. cc)
    go (ok s) taken = respond-RunsGoverned w q s taken

-- A heavy job that names a command, on a host that the snapshot admits, is run where one of the
-- slots is free at the moment at which it is tried.
pub main-heavy_runs :
    (w : Host) (words argv : List String) (name : String) (s : Snapshot) (slots index : ℕ)
    → strip_dashes words ≡ name ∷ argv
    → take_snapshot w heavy ≡ ok s
    → s.admitted ≡ true
    → heavy_slots w ≡ ok slots
    → index < slots
    → is_locked (w.seen index) index ≡ false
    → executions (main w (run heavy words)).effects ≡ (name ∷ argv) ∷ []
unfolding main respond run_words run_admitted run_heavy execute
main-heavy_runs w words argv name s slots index asked taken admitted given small free =
    elim (Option-cases (acquire_heavy_slot slots w.seen)) [
      | inl refused ↦ cc (free, (refused_iff slots w.seen).0 refused index small)
      | inr (found, won) ↦ rw taken (
          rw asked
            (rw admitted (rw (snapshot-work_class w heavy s taken) (rw given (rw won refl)))))
    ]
