-- ===== src/Tests/Trials.antt =====
-- A run of the QA coordinator at a sample.
use frankensteinz_hermes.Tests.Samples.{fields}
use frankensteinz_hermes.Tests.Bundles.{payload, bundle}
use frankensteinz_hermes.Tests.Envelopes.{strings, sha64}
use frankensteinz_hermes.Base.{
  any, List, String, if◌then◌else◌, ◌≡◌, ok, refl, true, false, [], ◌∷◌, ◌==◌, contains,
}
use frankensteinz_hermes.Python.{Value, pos, int, str}
use frankensteinz_hermes.Worker.Calls.{Process, completed}
use frankensteinz_hermes.Qa.Run.{main}
use frankensteinz_hermes.Qa.Run.Passed.{main-IsPassed, IsPassed}
use frankensteinz_hermes.Qa.Run.Completed.{completes}
use frankensteinz_hermes.Qa.Job.{QaJob}
use frankensteinz_hermes.Qa.Git.{GitBudget}
use frankensteinz_hermes.Checks.Steps.{Repository}
use frankensteinz_hermes.Checks.{is_hex}

abbrev ends : Value → Process
ends v = completed (record { returncode = pos 0; printed = 100; parsed = ok v; error_tail = "" })

-- What git prints, by an argument.
abbrev printed : List String → String
printed args =
    if contains args "--show-toplevel"
    then "/repo"
    else if contains args "base^{commit}"
    then "base"
    else if contains args "--parents"
    then "head base"
    else "head"

abbrev repository : Repository
repository = record {
  wall = 900;
  elapsed = λ n. n;
  process = λ n args. ends (str "");
  output = λ n args. record { text = ok (printed args); is_blank = true; size = 7; digest = "d" };
}

abbrev gate_answer : Value
gate_answer = fields (
    ("decision", str "allow")
    ∷ ("request_sha256", str sha64)
    ∷ ("policy_sha256", str sha64)
    ∷ ("event_id", str "event")
    ∷ [])

abbrev answers : String → Value
answers operation =
    if operation == "start"
    then fields (("status", str "running") ∷ [])
    else if operation == "record_gate"
    then fields (("status", str "leased") ∷ [])
    else if operation == "complete"
    then fields (("status", str "succeeded") ∷ [])
    else fields (("lease_expires_at", str "later") ∷ [])

abbrev result_of : String → Value
result_of id = fields (
    ("schema_version", int (pos 1))
    ∷ ("profile_id", str id)
    ∷ ("status", str "pass")
    ∷ ("network", str "unshared")
    ∷ ("workspace_mode", str "tmpfs-copy-from-readonly-candidate")
    ∷ ("stdout", str "")
    ∷ ("stderr", str "")
    ∷ [])

abbrev trial : QaJob
trial = record {
  payload = payload;
  ledger = ("heartbeat_seconds", int (pos 300)) ∷ [];
  adapter = "ledger" ∷ [];
  strings = strings;
  gate_command = "gate" ∷ [];
  allowed = "unit" ∷ "fuzz" ∷ [];
  baseline = "unit" ∷ [];
  required = "fuzz" ∷ [];
  max_profiles = 4;
  max_evidence = 4096;
  model_enabled = false;
  model = record {
    adapter = "model" ∷ [];
    max_prompt_bytes = 4096;
    max_response_bytes = 4096;
    max_output_tokens = 128;
    max_suggestions = 4;
  };
  source = "/repo";
  workspace = "/work/job";
  paths_exist = false;
  is_toplevel = λ s. s == "/repo";
  directory = bundle;
  repository = repository;
  gate_process = ends gate_answer;
  gate_elapsed = 10;
  ledger_process = λ operation. ends (answers operation);
  ledger_elapsed = λ operation. 100;
  model_process = ends (str "");
  model_elapsed = 200;
  prompt_bytes = λ selected. 500;
  sandbox = λ id. ok (0, ok (result_of id));
  bundle = λ status. ok tt;
  workspace_left = true;
}

abbrev budget : GitBudget
budget = record { maximum = 20; used = 0 }

trial_passes : any (completes "qa_passed") (main trial budget).effects ≡ true
unfolding main is_hex
trial_passes = refl

main-IsPassed_example : IsPassed trial
main-IsPassed_example = main-IsPassed trial budget trial_passes
