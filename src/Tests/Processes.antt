-- ===== src/Tests/Processes.antt =====
-- Runs of processes at samples.
use frankensteinz_hermes.Tests.Samples.{fields, texts}
use frankensteinz_hermes.Tests.Envelopes.{strings, sha64}
use frankensteinz_hermes.Sandbox.Output.{collect_bounded, Round, Finished, stdout, stderr}
use frankensteinz_hermes.Worker.Run.{
  run_tests, Step, main, admission, execution, no_flags, run_steps,
}
use frankensteinz_hermes.Worker.Run.Ordered.{main-reports_failure}
use frankensteinz_hermes.Worker.Run.Effects.{reports_failure}
use frankensteinz_hermes.Worker.Calls.{
  call_model, call_gate, Usage, ModelBudget, Completed, completed, Process,
}
use frankensteinz_hermes.Checks.Reports.{Reporting, is_ok}
use frankensteinz_hermes.Base.{
  ◌&&◌, ◌&&◌, not, ltb, any, Result, err, text_length, List, false, true, some, ok, refl, [], ◌≤◌,
  ◌+◌, ◌≡◌, ◌∷◌,
}
use frankensteinz_hermes.Python.{
  worker_error, Exn, eq_nat, of_dict, list, entries, Value, str, Fields, Dict, pos, dict, int,
}
use frankensteinz_hermes.Sandbox.Profile.{load_profile, is_writable, ProfileFile}
use frankensteinz_hermes.Worker.Calls.Answered.{call_gate-IsGateAnswer, IsGateAnswer}
use frankensteinz_hermes.Sandbox.Output.Bounded.{collect_bounded_bounds, IsPassed}
use frankensteinz_hermes.Sandbox.Profile.Loaded.{load_profile-IsProfile, IsProfile, IsEntry}

abbrev pub rounds : List Round
rounds =
    record { late = false; reads = (stdout, 104 ∷ 105 ∷ []) ∷ (stderr, []) ∷ [] }
    ∷ record { late = false; reads = (stdout, []) ∷ [] }
    ∷ record { late = true; reads = [] }
    ∷ []

abbrev finished : Finished
finished = record {
  status = "pass";
  returncode = pos 0;
  output = 104 ∷ 105 ∷ [];
  error_output = [];
}

rounds_pass : collect_bounded 1024 rounds (pos 0) ≡ some finished
unfolding collect_bounded
rounds_pass = refl

collect_bounded_bounds_example :
    (2 + 0 ≤ 1024) × ((finished.status ≡ "pass") → IsPassed rounds (pos 0) finished)
collect_bounded_bounds_example = collect_bounded_bounds 1024 rounds (pos 0) finished rounds_pass

abbrev pub unit_profile : Dict
unit_profile =
    ("command", list (texts ("pytest" ∷ "-q" ∷ [])))
    ∷ ("timeout_seconds", int (pos 300))
    ∷ ("tasks_max", int (pos 64))
    ∷ ("max_output_bytes", int (pos 65536))
    ∷ ("memory_max", str "512M")
    ∷ ("cpu_quota", str "100%")
    ∷ []

-- The mode 0o100644.
abbrev pub profiles : ProfileFile
profiles = record {
  regular = true;
  owner = 0;
  mode = 33188;
  size = 1000;
  parsed = ok (
      fields (
        ("schema_version", int (pos 1))
        ∷ ("profiles", fields (("unit", fields unit_profile) ∷ []))
        ∷ []));
}

profile_loaded : load_profile profiles "unit" ≡ ok unit_profile
unfolding load_profile eq_nat
profile_loaded = refl

load_profile-IsProfile_example :
    ((true ≡ true) × (profiles.owner ≡ 0) × (is_writable 33188 ≡ false) × (1000 ≤ 262144))
    × ((v : Value) × (profiles.parsed ≡ ok v) × IsEntry v "unit" unit_profile)
    × IsProfile unit_profile
load_profile-IsProfile_example = load_profile-IsProfile profiles "unit" unit_profile profile_loaded

abbrev answer : Fields
answer = of_dict (
    ("decision", str "approval_required")
    ∷ ("request_sha256", str sha64)
    ∷ ("policy_sha256", str sha64)
    ∷ ("event_id", str "11111111-2222-4333-8444-555555555555")
    ∷ [])

abbrev gate_process : Process
gate_process =
    completed
      (record { returncode = pos 20; printed = 400; parsed = ok (dict answer); error_tail = "" })

gate_called : call_gate strings ("action-gate-client" ∷ []) 3 900 gate_process ≡ ok (entries answer)
unfolding call_gate
gate_called = refl

call_gate-IsGateAnswer_example :
    (c : Completed) × (gate_process ≡ completed c)
    × (c.printed ≤ 65536)
    × IsGateAnswer strings c.returncode (entries answer)
call_gate-IsGateAnswer_example =
    call_gate-IsGateAnswer strings ("action-gate-client" ∷ []) 3 900 gate_process (entries answer)
      gate_called

abbrev model_budget : ModelBudget
model_budget = record {
  adapter = "litellm-adapter" ∷ [];
  max_calls = 1;
  max_prompt_bytes = 96000;
  max_response_bytes = 200000;
  max_output_tokens = 2048;
}

abbrev unused : Usage
unused = record { model_calls = 0; model_prompt_bytes = 0; model_response_bytes = 0 }

abbrev used : Usage
used = record { model_calls = 1; model_prompt_bytes = 500; model_response_bytes = 4 }

abbrev model_process : Process
model_process = completed (record {
  returncode = pos 0;
  printed = 40;
  parsed = ok (fields (("patch", str "diff") ∷ []));
  error_tail = "";
})

model_called :
    call_model text_length model_budget 500 unused 3 900 model_process ≡ ok ("diff", used)
unfolding call_model
model_called = refl

-- The tests of a started job fail, with the wall clock exhausted where the handler is reached.
abbrev failed_tests : Step → Result Exn (Unit {0})
failed_tests run_tests = err (worker_error "test_failed:unit")
failed_tests s = ok tt

abbrev too_late : Reporting
too_late = record { delay = some (int (pos 60)); elapsed = 901; wall = 900 }

main-reports_failure_example : any reports_failure (main failed_tests too_late).effects ≡ (
    is_ok (run_steps failed_tests admission no_flags).result
    && not (is_ok (run_steps failed_tests execution no_flags).result)
    && (true && ltb 901 900))
main-reports_failure_example = main-reports_failure failed_tests too_late
