-- ===== src/Reviewer/Evidence.antt =====
-- `load_json` and `verify_manifest` of scripts/engineering_reviewer/reviewer.py, on the directory
-- that they read.
pub mod Verified
use frankensteinz_hermes.Base.{
  ℕ, Bool, true, false, not, ◌&&◌, String, ◌==◌, ◌<>◌, List, [], ◌∷◌, Option, none, some, Result,
  ok, err, guard, ◌>>=◌, ◌>>◌, leb, is_subset,
}
use frankensteinz_hermes.Python.{
  Value, dict, Dict, entries, keys, lookup, Exn, reviewer_error, integrity_error, json_decode_error,
}
use frankensteinz_hermes.Checks.Files.{
  File, Directory, find_file, file_names, require_file, check_entries,
}
use frankensteinz_hermes.Checks.{require_dict, is_text}
use frankensteinz_hermes.Gate.Policy.{has_schema_version}
use frankensteinz_hermes.Qa.Bundle.{is_bool_of}

-- `MAX_JOB_BYTES`
abbrev pub max_job_bytes : ℕ
max_job_bytes = 1048576

-- `except json.JSONDecodeError`
abbrev pub parsed_or : Exn → Result Exn Value → Result Exn Value
parsed_or e (err Exn.json_decode_error) = err e
parsed_or e r = r

-- `load_json` of a file by its name. The message of the parser is left out.
unfoldable pub load_json : String → File → ℕ → Result Exn Value
load_json name file limit = do
  guard (leb file.size limit) (reviewer_error ("input_too_large:" <> name))
  parsed_or (reviewer_error ("invalid_json:" <> name)) file.parsed

-- `sha256_file(path) != payload[key]`
abbrev pub is_anchored : String → File → Dict → Bool
is_anchored key file payload = is_text (λ s. s == file.digest) (lookup key payload)

abbrev pub schema_invalid : Exn
schema_invalid = integrity_error "implementation_manifest_schema_invalid"

abbrev pub required_missing : Exn
required_missing = integrity_error "required_implementation_evidence_missing"

abbrev pub invalid_name : Exn
invalid_name = integrity_error "implementation_manifest_filename_invalid"

abbrev pub missing : String → Exn
missing name = integrity_error ("implementation_artifact_invalid:" <> name)

abbrev pub mismatch : String → Exn
mismatch name = integrity_error ("implementation_artifact_hash_mismatch:" <> name)

abbrev pub required_files : List String
required_files = "implementation-evidence.json" ∷ "model.patch" ∷ []

unfoldable pub check_manifest : List (String × File) → Value → Result Exn Dict
unfolding require_dict check_entries lookup
check_manifest files (dict fs) = do
  guard (has_schema_version (entries fs)) schema_invalid
  listed ← require_dict (lookup "files" (entries fs)) schema_invalid
  guard (is_subset required_files (keys listed))
      (integrity_error "implementation_manifest_required_files_missing")
  guard
      (is_subset (file_names files) ("manifest.json" ∷ keys listed)
        && is_subset ("manifest.json" ∷ keys listed) (file_names files))
      (integrity_error "implementation_evidence_file_set_mismatch")
  check_entries invalid_name missing mismatch files listed
  ok (entries fs)
check_manifest files _ = err schema_invalid

unfoldable pub check_evidence : Value → Result Exn Dict
unfolding is_text lookup
check_evidence (dict fs) =
    let d = entries fs in
    do
      guard (has_schema_version d) (integrity_error "implementation_evidence_schema_invalid")
      guard
          (is_bool_of false (lookup "promotion_authorized" d)
            && is_text (λ s. s == "B033 independent reviewer") (lookup "next_stage" d))
          (integrity_error "implementation_promotion_boundary_invalid")
      ok d
check_evidence _ = err (integrity_error "implementation_evidence_schema_invalid")

-- The digests that the job names.
unfoldable pub check_anchors : Dict → File → File → Result Exn (Unit {0})
unfolding is_text lookup
check_anchors payload manifest evidence = do
  guard (is_anchored "implementation_manifest_sha256" manifest payload)
      (integrity_error "implementation_manifest_anchor_mismatch")
  guard (is_anchored "implementation_evidence_sha256" evidence payload)
      (integrity_error "implementation_evidence_anchor_mismatch")

-- The two files, behind the anchors.
unfoldable pub verify_files : List (String × File) → File → File → Result Exn (Dict × Dict)
unfolding load_json check_manifest check_evidence
verify_files files manifest_file evidence_file = do
  manifest_value ← load_json "manifest.json" manifest_file max_job_bytes
  evidence_value ← load_json "implementation-evidence.json" evidence_file max_job_bytes
  manifest ← check_manifest files manifest_value
  evidence ← check_evidence evidence_value
  ok (manifest, evidence)

unfoldable pub verify_manifest : Directory → Dict → Result Exn (Dict × Dict)
unfolding find_file check_anchors verify_files
verify_manifest directory payload = do
  guard directory.exists (integrity_error "implementation_evidence_directory_invalid")
  manifest ← require_file required_missing (find_file "manifest.json" directory.files)
  evidence ←
      require_file required_missing (find_file "implementation-evidence.json" directory.files)
  check_anchors payload manifest evidence
  verify_files directory.files manifest evidence
