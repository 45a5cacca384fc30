-- ===== src/Tests/Governing.antt =====
-- The governor at a sample host.
use frankensteinz_hermes.Tests.Samples.{fields}
use frankensteinz_hermes.Governor.Snapshot.{snapshot, Snapshot, Readings, heavy}
use frankensteinz_hermes.Governor.Slots.{
  is_locked, Reachable, acquire_heavy_slot, Locks, idle, acquired,
}
use frankensteinz_hermes.Governor.Command.{Host, heavy_slots, Effect, run, main, take_snapshot}
use frankensteinz_hermes.Python.{
  eq_nat, Exn, value_error, pos, int, bool, finite, str, float, Value,
}
use frankensteinz_hermes.Base.{
  ℕ, suc, ◌<◌, length, List, Result, String, arith, ◌≤◌, ◌↔◌, ok, err, some, none, refl, true, [],
  ◌∷◌, ◌≡◌,
}
use frankensteinz_hermes.Governor.Snapshot.Admitted.{snapshot-IsRelaxed, IsRelaxed}
use frankensteinz_hermes.Governor.Command.Governed.{
  main-IsGoverned, main-heavy_runs, IsGoverned, executions,
}
use frankensteinz_hermes.Governor.Slots.Bounded.{acquire_heavy_slot_bounds}
use frankensteinz_hermes.Governor.Numbers.{at_most, times, less}

abbrev no_parse : {A : Type 0} → String → Result Exn A
no_parse s = err (value_error "could not convert")

abbrev policy : Value
policy =
    (fields (
      ("version", int (pos 1))
      ∷ (
        "memory",
        (fields (
            ("light_min_available_gib", int (pos 4))
            ∷ ("heavy_min_available_gib", int (pos 8))
            ∷ [])),
      )
      ∷ (
        "root_disk",
        (fields (("min_free_gib", int (pos 20)) ∷ ("max_used_percent", int (pos 90)) ∷ [])),
      )
      ∷ ("load", (fields (("heavy_max_load_per_cpu", float (finite (pos 3) 2)) ∷ [])))
      ∷ ("swap", (fields (("heavy_max_used_percent", int (pos 50)) ∷ [])))
      ∷ ("thermal", (fields (("enabled", bool true) ∷ ("heavy_max_celsius", int (pos 85)) ∷ [])))
      ∷ ("concurrency", (fields (("heavy_slots", int (pos 2)) ∷ [])))
      ∷ ("runtime", (fields (("lock_directory", str "/run/fzh/locks") ∷ [])))
      ∷ []))

abbrev calm : Readings
calm = record {
  total = 34359738368;
  available = 17179869184;
  disk_free = 107374182400;
  disk_used_percent = finite (pos 10) 0;
  load1 = finite (pos 3) 1;
  cpus = 4;
  swap_percent = finite (pos 0) 0;
  temperature = some (finite (pos 125) 1);
}

abbrev calm_snapshot : Snapshot
calm_snapshot = record { work_class = heavy; admitted = true; reasons = []; readings = calm }

calm_admitted : snapshot no_parse policy heavy calm ≡ ok calm_snapshot
unfolding snapshot less times at_most
calm_admitted = refl

snapshot-IsRelaxed_example : IsRelaxed no_parse policy heavy calm
snapshot-IsRelaxed_example =
    snapshot-IsRelaxed no_parse policy heavy calm calm_snapshot calm_admitted refl

-- One of two slots is taken.
abbrev one_taken : Locks
one_taken = (0, 41) ∷ []

abbrev one_taken_reachable : Reachable 2 one_taken
unfolding acquire_heavy_slot
one_taken_reachable = acquired (λ j. []) 41 0 idle refl

-- The second slot is taken when the first is tried, and free when it is tried itself.
abbrev moments : ℕ → Locks
moments j = elim j [ ℕ.zero ↦ (0, 41) ∷ (1, 43) ∷ [] | suc n ↦ one_taken ]

acquire_heavy_slot_bounds_example :
    (length one_taken ≤ 2)
    × ((acquire_heavy_slot 2 moments ≡ none) ↔ ((j : ℕ) → j < 2 → is_locked (moments j) j ≡ true))
    × ((acquire_heavy_slot 2 (λ j. one_taken) ≡ none) ↔ (length one_taken ≡ 2))
acquire_heavy_slot_bounds_example =
    acquire_heavy_slot_bounds 2 one_taken moments one_taken_reachable

abbrev host : Host
host = record {
  parse_float = no_parse;
  parse_int = no_parse;
  policy = policy;
  readings = calm;
  seen = moments;
  process = 42;
  spawn = λ argv. ok (pos 3);
}

abbrev job : List String
job = "--" ∷ "make" ∷ "all" ∷ []

taken : take_snapshot host heavy ≡ ok calm_snapshot
unfolding take_snapshot snapshot less times at_most eq_nat
taken = refl

main_runs : main host (run heavy job) ≡ record {
  effects = Effect.acquired 1 ∷ Effect.executed ("make" ∷ "all" ∷ []) ∷ Effect.released 1 ∷ [];
  before = one_taken;
  locks = one_taken;
  code = ok (pos 3);
}
unfolding main take_snapshot snapshot less times at_most eq_nat
main_runs = refl

main-IsGoverned_example :
    ((main host (run heavy job)).locks ≡ (main host (run heavy job)).before)
    × ((argv : List String) (rest : List (List String))
        → executions (main host (run heavy job)).effects ≡ argv ∷ rest
        → IsGoverned host (run heavy job) argv
          × (rest ≡ [])
          × ((main host (run heavy job)).code ≡ ok (pos 3)))
main-IsGoverned_example = main-IsGoverned host (run heavy job)

slots_given : heavy_slots host ≡ ok 2
unfolding heavy_slots
slots_given = refl

main-heavy_runs_example :
    executions (main host (run heavy job)).effects ≡ ("make" ∷ "all" ∷ []) ∷ []
main-heavy_runs_example =
    main-heavy_runs host job ("all" ∷ []) "make" calm_snapshot 2 1 refl taken refl slots_given
      (omega arith) refl
