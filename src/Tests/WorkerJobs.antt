-- ===== src/Tests/WorkerJobs.antt =====
-- A run of the worker at a sample.
use frankensteinz_hermes.Tests.Samples.{fields}
use frankensteinz_hermes.Tests.Envelopes.{strings, sha64}
use frankensteinz_hermes.Worker.Job.{WorkerJob, run_job}
use frankensteinz_hermes.Worker.Job.Permitted.{IsPermitted, run_job-IsPermitted}
use frankensteinz_hermes.Worker.Run.Effects.{keeps_branch}
use frankensteinz_hermes.Worker.Calls.{Process, completed}
use frankensteinz_hermes.Python.{int, int, Value, str, bool, pos}
use frankensteinz_hermes.Base.{
  some, some, String, true, ok, refl, [], if◌then◌else◌, ◌≡◌, ◌==◌, ◌∷◌, any,
}

abbrev ends : Value → Process
ends v = completed (record { returncode = pos 0; printed = 100; parsed = ok v; error_tail = "" })

abbrev gate_answer : Value
gate_answer = fields (
    ("decision", str "allow")
    ∷ ("request_sha256", str sha64)
    ∷ ("policy_sha256", str sha64)
    ∷ ("event_id", str "11111111-2222-4333-8444-555555555555")
    ∷ [])

abbrev ledger_answer : String → Value
ledger_answer operation =
    if operation == "record_gate"
    then fields (("status", str "leased") ∷ [])
    else if operation == "start"
    then fields (("status", str "running") ∷ [])
    else if operation == "heartbeat"
    then fields (("lease_expires_at", str "later") ∷ [])
    else if operation == "begin_effect"
    then fields (("state", str "started") ∷ [])
    else if operation == "commit_effect"
    then fields (("committed", bool true) ∷ [])
    else fields (("status", str "succeeded") ∷ [])

abbrev job : WorkerJob
job = record {
  strings = strings;
  gate_command = "action-gate-client" ∷ [];
  adapter = "ledger" ∷ [];
  wall = 900;
  gate_process = ends gate_answer;
  gate_elapsed = 3;
  ledger_process = λ operation. ends (ledger_answer operation);
  ledger_elapsed = λ operation. 10;
  retry_delay = some (int (pos 60));
  other = λ s. ok tt;
}

job_kept : any keeps_branch (run_job job).effects ≡ true
unfolding run_job
job_kept = refl

run_job-IsPermitted_example : IsPermitted job
run_job-IsPermitted_example = run_job-IsPermitted job job_kept
