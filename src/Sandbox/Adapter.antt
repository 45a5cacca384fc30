-- ===== src/Sandbox/Adapter.antt =====
-- `main` of scripts/engineering_qa/bwrap_sandbox_adapter.py.
pub mod Accepted
use frankensteinz_hermes.Base.{
  ◌>>◌, ℕ, ◌+◌, String, Bool, true, false, List, [], ◌∷◌, Option, none, some, Result, ok, err,
  ◌>>=◌, leb, if◌then◌else◌,
}
use frankensteinz_hermes.Python.{
  of_dict, ℤ, lookup, Value, Exn, Dict, pos, negsuc, int, float, str, list, dict, bool, null,
  value_error, json_decode_error, unicode_error, os_error,
}
use frankensteinz_hermes.Sandbox.Request.{text_of_value, validate_request, System, RunRequest}
use frankensteinz_hermes.Sandbox.Command.{Limits, build_command}
use frankensteinz_hermes.Sandbox.Output.{Bytes, Round, collect_bounded, Finished}
use frankensteinz_hermes.Sandbox.Profile.{load_profile, ProfileFile}
use frankensteinz_hermes.Checks.{get_or}
use frankensteinz_hermes.Worker.Calls.{int_of}
use frankensteinz_hermes.Reviewer.Scope.{text_at}
use frankensteinz_hermes.Paths.Allowed.{allowed_list}

-- What the adapter reads and what the run of the unit gives.
pub record AdapterRun : Type 0 where
  pub system : System
  pub size : ℕ
  pub parsed : Result Exn Value
  pub profile_file : ProfileFile
  pub exists : String → Bool
  pub is_file : String → Bool
  pub has_runtime : Bool
  pub started : Result Exn (Unit {0})
  pub rounds : List Round
  pub returncode : ℤ
  pub duration : Value
  pub decode : Bytes → String

-- How the adapter ends: with a code and a message, with the result of a command that it has run, with
-- an exception, or not at all while a pipe is open.
pub data Outcome : Type 0 where
  failed : ℕ → Outcome
  printed : List String → Dict → Outcome
  raised : Exn → Outcome
  unfinished : Outcome

abbrev pub is_os_error : Exn → Bool
is_os_error (os_error m) = true
is_os_error e = false

-- `except (ValueError, OSError, json.JSONDecodeError)`
abbrev pub is_rejected : Exn → Bool
is_rejected (value_error m) = true
is_rejected (os_error m) = true
is_rejected json_decode_error = true
is_rejected unicode_error = true
is_rejected e = false

-- A handler that ends the adapter with the code.
abbrev pub fails_with : ℕ → Bool → Exn → Outcome
fails_with code true e = failed code
fails_with code false e = raised e

abbrev pub nat_of : Option ℤ → ℕ
nat_of (some (pos n)) = n
nat_of o = 0

-- `profile[key]`, of a positive integer that `load_profile` has checked
abbrev pub nat_at : String → Dict → ℕ
nat_at key profile = nat_of (int_of (lookup key profile))

abbrev pub texts_of : List Value → List String
texts_of [] = []
texts_of (str s ∷ vs) = s ∷ texts_of vs
texts_of (v ∷ vs) = texts_of vs

abbrev pub limits_of : AdapterRun → Dict → Limits
limits_of c profile = record {
  memory = text_at "memory_max" profile;
  tasks = text_of_value c.system (get_or null (lookup "tasks_max" profile));
  cpu = text_at "cpu_quota" profile;
  runtime = text_of_value c.system (int (pos (nat_at "timeout_seconds" profile + 5)));
  command = texts_of (allowed_list (lookup "command" profile));
  exists = c.exists;
  is_file = c.is_file;
}

abbrev pub entry_of : Dict → String → String × Value
entry_of profile key = (key, get_or null (lookup key profile))

unfoldable pub result_of : AdapterRun → String → Dict → Finished → Dict
unfolding lookup
result_of c profile_id profile f =
    ("schema_version", int (pos 1))
    ∷ ("profile_id", str profile_id)
    ∷ ("status", str f.status)
    ∷ ("returncode", int f.returncode)
    ∷ ("duration_seconds", c.duration)
    ∷ ("stdout", str (c.decode f.output))
    ∷ ("stderr", str (c.decode f.error_output))
    ∷ ("network", str "unshared")
    ∷ ("workspace_mode", str "tmpfs-copy-from-readonly-candidate")
    ∷ (
      "resource_policy",
      dict (
          of_dict (
            entry_of profile "memory_max"
            ∷ entry_of profile "tasks_max"
            ∷ entry_of profile "cpu_quota"
            ∷ entry_of profile "timeout_seconds"
            ∷ entry_of profile "max_output_bytes"
            ∷ [])),
    )
    ∷ []

module _ (c : AdapterRun) where
  -- The request, and the profile that it names.
  unfoldable pub read_request : Result Exn (RunRequest × Dict)
  unfolding validate_request load_profile
  read_request = do
    value ← c.parsed
    request ← validate_request c.system value
    profile ← load_profile c.profile_file request.profile_id
    ok (request, profile)

  abbrev pub command_of : RunRequest → Dict → List String
  command_of request profile =
      (build_command request.job_id request.workspace.text request.profile_id
        (limits_of c profile)).1

  abbrev pub report : RunRequest → Dict → Option Finished → Outcome
  report request profile none = unfinished
  report request profile (some f) =
      printed (command_of request profile) (result_of c request.profile_id profile f)

  -- The run of the unit.
  abbrev pub run_unit : RunRequest → Dict → Result Exn (Unit {0}) → Outcome
  run_unit request profile (err e) = fails_with 3 (is_os_error e) e
  run_unit request profile (ok u) =
      report request profile
        (collect_bounded (nat_at "max_output_bytes" profile) c.rounds c.returncode)

  abbrev pub run_request : Result Exn (RunRequest × Dict) → Outcome
  run_request (err e) = fails_with 2 (is_rejected e) e
  run_request (ok (request, profile)) =
      if c.has_runtime then run_unit request profile c.started else failed 3

  unfoldable pub main : Outcome
  unfolding read_request result_of build_command collect_bounded lookup
  main = if leb c.size 65536 then run_request read_request else failed 2
