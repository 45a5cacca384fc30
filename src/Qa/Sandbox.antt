-- ===== src/Qa/Sandbox.antt =====
-- The run of a profile: `call_sandbox` of scripts/engineering_qa/coordinator_core.py, and
-- `durable_call_sandbox` of scripts/engineering_qa/worker.py, which stands around it. The ledger and
-- the sandbox are other processes: what they answer is a parameter, and each call that is made is an
-- event.
pub mod Durable
use frankensteinz_hermes.Worker.Calls.{Process, parse_or}
use frankensteinz_hermes.Qa.Git.{run, remaining}
use frankensteinz_hermes.Base.{
  suc, eqb, ◌>>◌, ℕ, Bool, List, Result, Option, String, guard, false, true, none, some, err, ok,
  [], ◌>>=◌, if◌then◌else◌, ◌==◌, ◌&&◌, ◌∷◌,
}
use frankensteinz_hermes.Python.{
  ℤ, pos, negsuc, truthy, qa_error, entries, same, lookup, Value, Exn, Dict, list, str, dict, bool,
}
use frankensteinz_hermes.Checks.{is_text}
use frankensteinz_hermes.Reviewer.Findings.{member_or}
use frankensteinz_hermes.Gate.Policy.{has_schema_version}

abbrev pub statuses : List String
statuses = "pass" ∷ "fail" ∷ "timeout" ∷ "output_exhausted" ∷ []

abbrev pub is_string : Option Value → Bool
is_string (some (str s)) = true
is_string _ = false

-- The checks on the response of the sandbox to a request for the profile.
unfoldable pub check_response : String → Value → Result Exn Dict
unfolding member_or is_text lookup
check_response profile_id (dict fs) =
    let d = entries fs in
    do
      guard (has_schema_version d && is_text (λ s. s == profile_id) (lookup "profile_id" d))
          (qa_error "qa_sandbox_response_schema_invalid")
      status ← member_or statuses (qa_error "qa_sandbox_status_invalid") (lookup "status" d)
      guard
          (is_text (λ s. s == "unshared") (lookup "network" d)
            && is_text (λ s. s == "tmpfs-copy-from-readonly-candidate") (lookup "workspace_mode" d))
          (qa_error "qa_sandbox_isolation_evidence_invalid")
      guard (is_string (lookup "stdout" d) && is_string (lookup "stderr" d))
          (qa_error "qa_sandbox_logs_invalid")
      ok d
check_response profile_id _ = err (qa_error "qa_sandbox_response_schema_invalid")

-- The code of a process: a negative one is not 0 either.
abbrev pub exit_code : ℤ → ℕ
exit_code (pos n) = n
exit_code (negsuc n) = suc n

-- The exit code of the process of the adapter, and what `json.loads` gives of what it has printed,
-- where the process ends in time and prints no more than `max_adapter_response_bytes`.
unfoldable pub sandbox_answer :
    List String → ℕ → ℕ → ℕ → Process → Result Exn (ℕ × Result Exn Value)
unfolding remaining run
sandbox_answer command maximum elapsed wall p = do
  left ← remaining elapsed wall
  c ← run command maximum p
  ok (exit_code c.returncode, parse_or (qa_error "qa_sandbox_response_invalid") c.parsed)

-- `response` is what the process printed, parsed, or the exception of running it: that it could not
-- run, took too long or printed too much; `code` is its exit code.
unfoldable pub call_sandbox : String → Result Exn (ℕ × Result Exn Value) → Result Exn Dict
unfolding check_response
call_sandbox profile_id (err e) = err e
call_sandbox profile_id (ok (code, response)) = do
  guard (eqb code 0) (qa_error "qa_sandbox_infrastructure_failure")
  value ← response
  check_response profile_id value

-- The job that `tracked_call_ledger` has seen.
pub record Context : Type 0 where
  pub job_id : Value
  pub lease_token : Value

-- A call of another process, in the order in which they are made.
pub data Event : Type 0 where
  ledger_call : Dict → Event
  sandbox_run : String → Event

pub record Traced : Type 0 where
  pub events : List Event
  pub result : Result Exn Dict

abbrev pub begin_request : Context → String → Dict
begin_request c profile_id =
    ("operation", str "begin_effect")
    ∷ ("job_id", c.job_id)
    ∷ ("lease_token", c.lease_token)
    ∷ ("profile_id", str profile_id)
    ∷ []

abbrev pub commit_request : Context → String → String → Dict
commit_request c profile_id digest =
    ("operation", str "commit_effect")
    ∷ ("job_id", c.job_id)
    ∷ ("lease_token", c.lease_token)
    ∷ ("profile_id", str profile_id)
    ∷ ("result_sha256", str digest)
    ∷ []

-- `d.get("committed") is not True`, negated
abbrev pub is_true : Option Value → Bool
is_true (some (bool b)) = b
is_true _ = false

-- The other processes: the ledger's answer to a request, the sandbox's result for a profile, and
-- the digest of a result.
pub record World : Type 0 where
  pub ledger : Dict → Result Exn Dict
  pub sandbox : String → Result Exn Dict
  pub digest : Dict → String

module _ (world : World) where
  -- The commit, and the result where the ledger confirms it.
  unfoldable pub confirm : Dict → Result Exn Dict → Result Exn Dict
  unfolding lookup
  confirm result answer = do
    committed ← answer
    guard (is_true (lookup "committed" committed)) (qa_error "qa_effect_commit_failed")
    ok result

  unfoldable pub commit : Context → String → Result Exn Dict → Traced
  unfolding confirm
  commit c profile_id (err e) = record { events = sandbox_run profile_id ∷ []; result = err e }
  commit c profile_id (ok result) =
      let request = commit_request c profile_id (world.digest result) in
      record {
        events = sandbox_run profile_id ∷ ledger_call request ∷ [];
        result = confirm result (world.ledger request);
      }

  -- The answer of the ledger to the beginning of the effect.
  unfoldable pub began : Result Exn Dict → Result Exn (Unit {0})
  unfolding is_text lookup
  began answer = do
    begin ← answer
    guard (is_text (λ s. s == "started") (lookup "state" begin)) (qa_error "qa_effect_begin_failed")

  unfoldable pub continue : Context → String → Result Exn (Unit {0}) → Traced
  unfolding commit
  continue c profile_id (err e) = record {
    events = ledger_call (begin_request c profile_id) ∷ [];
    result = err e;
  }
  continue c profile_id (ok u) =
      let rest = commit c profile_id (world.sandbox profile_id) in
      record {
        events = ledger_call (begin_request c profile_id) ∷ rest.events;
        result = rest.result;
      }

  -- `context` is what the last ledger call left, `none` before the first one.
  unfoldable pub durable_call_sandbox : Option Context → Value → String → Traced
  unfolding same truthy began continue
  durable_call_sandbox none job_id profile_id = record {
    events = [];
    result = err (qa_error "qa_effect_context_missing");
  }
  durable_call_sandbox (some c) job_id profile_id =
      if same c.job_id job_id && truthy c.lease_token
      then continue c profile_id (began (world.ledger (begin_request c profile_id)))
      else record { events = []; result = err (qa_error "qa_effect_context_missing") }
