-- ===== src/Tests/ReviewJobs.antt =====
-- A job of the reviewer, with its evidence and its repository.
use frankensteinz_hermes.Tests.Samples.{fields, texts}
use frankensteinz_hermes.Base.{
  ℕ, List, String, if◌then◌else◌, ok, err, true, false, [], ◌∷◌, ◌==◌, contains,
}
use frankensteinz_hermes.Python.{Value, Dict, pos, int, str, bool, list, json_decode_error}
use frankensteinz_hermes.Worker.Calls.{Process, completed}
use frankensteinz_hermes.Checks.Files.{Directory}
use frankensteinz_hermes.Reviewer.Git.{GitReader}
use frankensteinz_hermes.Checks.Steps.{Repository}
use frankensteinz_hermes.Reviewer.Job.{ReviewJob}

abbrev sha64 : String
sha64 = "0123456789abcdef0123456789abcdef0123456789abcdef0123456789abcdef"

abbrev pub payload : Dict
payload =
    ("implementation_job_id", str "implementation")
    ∷ ("implementation_evidence_sha256", str "e")
    ∷ ("implementation_manifest_sha256", str "m")
    ∷ ("base_commit", str "base")
    ∷ ("head_commit", str "head")
    ∷ ("branch", str "fzh/job-0123456789ab")
    ∷ ("allowed_paths", list (texts ("docs/" ∷ [])))
    ∷ ("context_paths", list (texts ("docs/b.md" ∷ [])))
    ∷ []

abbrev pub implementation : Dict
implementation =
    ("schema_version", int (pos 1))
    ∷ ("job_id", str "implementation")
    ∷ ("promotion_authorized", bool false)
    ∷ ("next_stage", str "B033 independent reviewer")
    ∷ ("base_commit", str "base")
    ∷ ("head_commit", str "head")
    ∷ ("branch", str "fzh/job-0123456789ab")
    ∷ ("changed_paths", list (texts ("docs/a.md" ∷ [])))
    ∷ ("changed_bytes", int (pos 7))
    ∷ ("patch_sha256", str sha64)
    ∷ []

abbrev metadata : String → ℕ → Value
metadata digest size = fields (("sha256", str digest) ∷ ("bytes", int (pos size)) ∷ [])

abbrev manifest : Value
manifest = fields (
    ("schema_version", int (pos 1))
    ∷ (
      "files",
      fields (
          ("implementation-evidence.json", metadata "e" 10) ∷ ("model.patch", metadata "p" 7) ∷ []),
    )
    ∷ [])

abbrev evidence_files : Directory
evidence_files = record {
  exists = true;
  files =
      (
        "implementation-evidence.json",
        record { size = 10; digest = "e"; parsed = ok (fields implementation) },
      )
      ∷ ("manifest.json", record { size = 20; digest = "m"; parsed = ok manifest })
      ∷ ("model.patch", record { size = 7; digest = "p"; parsed = err json_decode_error })
      ∷ [];
}

-- What git prints, by an argument.
abbrev printed : List String → String
printed args =
    if contains args "--show-toplevel"
    then "/repo"
    else if contains args "base^{commit}"
    then "base"
    else if contains args "--verify"
    then "head"
    else if contains args "--parents"
    then "head base"
    else if contains args "--count"
    then "1"
    else if contains args "--name-only"
    then "docs/a.md"
    else "text"

abbrev ends : Value → Process
ends v = completed (record { returncode = pos 0; printed = 100; parsed = ok v; error_tail = "" })

abbrev pub repository : Repository
repository = record {
  wall = 900;
  elapsed = λ n. n;
  process = λ n args. ends (str "");
  output = λ n args. record { text = ok (printed args); is_blank = false; size = 7; digest = "d" };
}

abbrev answers : String → Value
answers operation =
    if operation == "start"
    then fields (("status", str "running") ∷ [])
    else if operation == "complete"
    then fields (("status", str "succeeded") ∷ [])
    else fields (("lease_expires_at", str "later") ∷ [])

abbrev no_findings : Value
no_findings = fields (
    (
      "review",
      fields (
          ("schema_version", int (pos 1))
          ∷ ("summary", str "fine")
          ∷ ("findings", list (texts []))
          ∷ []),
    )
    ∷ [])

abbrev pub review_run : ReviewJob
review_run = record {
  payload = payload;
  config = [];
  ledger = ("heartbeat_seconds", int (pos 300)) ∷ [];
  policy = ("medium_findings_require_changes", int (pos 2)) ∷ [];
  adapter = "ledger" ∷ [];
  max_diff = 1000;
  max_context = 1000;
  model = record {
    adapter = "model" ∷ [];
    max_prompt_bytes = 4096;
    max_response_bytes = 4096;
    max_output_tokens = 128;
    max_findings = 10;
  };
  output_exists = false;
  is_toplevel = λ s. s == "/repo";
  directory = evidence_files;
  repository = repository;
  ledger_process = λ operation. ends (answers operation);
  ledger_elapsed = λ operation. 100;
  model_process = ends no_findings;
  model_elapsed = 200;
  prompt_bytes = λ c context. 500;
  bundle = λ verdict. ok tt;
}

abbrev pub reader : GitReader
reader = record { maximum = 20; used = 0 }
