-- ===== src/Sandbox/Request.antt =====
-- `validate_request` of scripts/engineering_qa/bwrap_sandbox_adapter.py.
use frankensteinz_hermes.Base.{
  String, Bool, not, ◌&&◌, ◌==◌, ◌<>◌, Option, none, some, Result, ok, err, guard, ◌>>=◌, ◌>>◌,
}
use frankensteinz_hermes.Python.{entries, lookup, Value, Exn, null, str, dict, value_error}
use frankensteinz_hermes.Checks.{get_or, is_safe_id, is_text}
use frankensteinz_hermes.Reviewer.Findings.{text_or}

-- A path of the file system: its text, what it resolves to, and what stands there.
pub record Place : Type 0 where
  pub text : String
  pub resolved : String
  pub is_symlink : Bool
  pub is_directory : Bool

-- `str(uuid.UUID(str(v)))`, where it is a UUID, `str(v)`, and the path of a text.
pub record System : Type 0 where
  pub uuid_text : Value → Option String
  pub show : Value → String
  pub place : String → Place

pub record RunRequest : Type 0 where
  pub job_id : String
  pub workspace : Place
  pub profile_id : String

abbrev pub workspace_root : String
workspace_root = "/var/lib/frankensteinzhermes/qa-workspaces"

abbrev pub required_uuid : Option String → Result Exn String
required_uuid none = err (value_error "badly formed hexadecimal UUID string")
required_uuid (some s) = ok s

module _ (system : System) where
  -- `str(v)`
  abbrev pub text_of_value : Value → String
  text_of_value (str s) = s
  text_of_value v = system.show v

  unfoldable pub check_workspace : String → Place → Result Exn (Unit {0})
  check_workspace job_id workspace =
      guard
        (not workspace.is_symlink
          && workspace.resolved == (system.place (workspace_root <> ("/" <> job_id))).resolved
          && workspace.is_directory)
        (value_error "workspace outside fixed QA root")

  unfoldable pub validate_request : Value → Result Exn RunRequest
  unfolding is_text text_or is_safe_id check_workspace lookup
  validate_request (dict fs) =
      let d = entries fs in
      let workspace = system.place (text_of_value (get_or (str "") (lookup "workspace" d))) in
      do
        guard (is_text (λ s. s == "run_profile") (lookup "operation" d))
            (value_error "unsupported sandbox operation")
        job_id ← required_uuid (system.uuid_text (get_or null (lookup "job_id" d)))
        profile_id ←
            text_or (is_safe_id 64) (value_error "invalid profile ID") (lookup "profile_id" d)
        check_workspace job_id workspace
        ok (record { job_id = job_id; workspace = workspace; profile_id = profile_id })
  validate_request _ = err (value_error "unsupported sandbox operation")
