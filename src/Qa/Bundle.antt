-- ===== src/Qa/Bundle.antt =====
-- `verify_review_bundle` of scripts/engineering_qa/coordinator_core.py, on the directory that it
-- reads.
pub mod Verified
use frankensteinz_hermes.Checks.{require_dict, is_text, get_or}
use frankensteinz_hermes.Base.{
  is_subset, leb, not, ℕ, Bool, List, Result, Option, String, guard, false, true, none, some, err,
  ok, [], ◌>>◌, ◌>>=◌, if◌then◌else◌, ◌+◌, ◌==◌, ◌&&◌, ◌<>◌, ◌∷◌,
}
use frankensteinz_hermes.Python.{
  keys, entries, same, qa_integrity_error, lookup, eq_nat, Value, Exn, Dict, dict, bool, null,
}
use frankensteinz_hermes.Paths.Posix.{parts}
use frankensteinz_hermes.Gate.Policy.{has_schema_version}
use frankensteinz_hermes.Checks.Files.{
  require_file, file_names, Directory, find_file, check_entries, File,
}

-- `except (UnicodeDecodeError, json.JSONDecodeError)`
abbrev pub json_or : Exn → Result Exn Value → Result Exn Value
json_or e (err Exn.json_decode_error) = err e
json_or e (err Exn.unicode_error) = err e
json_or e r = r

abbrev pub invalid_name : Exn
invalid_name = qa_integrity_error "review_manifest_filename_invalid"

abbrev pub mismatch : String → Exn
mismatch name = qa_integrity_error ("review_artifact_hash_mismatch:" <> name)

unfoldable pub check_manifest : List (String × File) → Value → Result Exn (Unit {0})
unfolding require_dict check_entries lookup
check_manifest files (dict fs) = do
  guard (has_schema_version (entries fs)) (qa_integrity_error "review_manifest_schema_invalid")
  listed ←
      require_dict (lookup "files" (entries fs))
        (qa_integrity_error "review_manifest_schema_invalid")
  guard
      (is_subset (file_names files) ("manifest.json" ∷ keys listed)
        && is_subset ("manifest.json" ∷ keys listed) (file_names files))
      (qa_integrity_error "review_evidence_file_set_mismatch")
  check_entries invalid_name mismatch mismatch files listed
check_manifest files _ = err (qa_integrity_error "review_manifest_schema_invalid")

-- `v is b`
abbrev pub is_bool_of : Bool → Option Value → Bool
is_bool_of b (some (bool c)) = if b then c else not c
is_bool_of b _ = false

-- `evidence.get(key) == payload[other]`
abbrev pub binds : Dict → Dict → String → String → Bool
binds evidence payload key other =
    same (get_or null (lookup key evidence)) (get_or null (lookup other payload))

unfoldable pub check_evidence : Dict → Value → Result Exn Dict
unfolding is_text same lookup
check_evidence payload (dict fs) =
    let d = entries fs in
    do
      guard (has_schema_version d) (qa_integrity_error "review_evidence_schema_invalid")
      guard (binds d payload "job_id" "review_job_id")
          (qa_integrity_error "review_job_binding_mismatch")
      guard
          (is_text (λ s. s == "approve") (lookup "verdict" d)
            && is_bool_of true (lookup "integrity_verified" d))
          (qa_integrity_error "review_not_approved")
      guard
          (is_bool_of false (lookup "promotion_authorized" d)
            && is_text (λ s. s == "B034 adversarial QA") (lookup "next_stage" d))
          (qa_integrity_error "review_handoff_boundary_invalid")
      guard (binds d payload "base_commit" "base_commit")
          (qa_integrity_error "review_base_commit_binding_mismatch")
      guard (binds d payload "head_commit" "head_commit")
          (qa_integrity_error "review_head_commit_binding_mismatch")
      guard (binds d payload "branch" "branch")
          (qa_integrity_error "review_branch_binding_mismatch")
      ok d
check_evidence payload _ = err (qa_integrity_error "review_evidence_schema_invalid")

-- The digests that the job names.
unfoldable pub check_anchors : Dict → ℕ → File → File → Result Exn (Unit {0})
unfolding is_text lookup
check_anchors payload maximum evidence manifest = do
  guard (leb (evidence.size + manifest.size) maximum)
      (qa_integrity_error "review_evidence_budget_exhausted")
  guard (is_text (λ s. s == evidence.digest) (lookup "review_evidence_sha256" payload))
      (qa_integrity_error "review_evidence_anchor_mismatch")
  guard (is_text (λ s. s == manifest.digest) (lookup "review_manifest_sha256" payload))
      (qa_integrity_error "review_manifest_anchor_mismatch")

unfoldable pub check_diff : ℕ → Dict → List (String × File) → Result Exn File
unfolding find_file is_text lookup
check_diff maximum evidence files = do
  diff ←
      require_file (qa_integrity_error "review_reconstructed_diff_missing")
        (find_file "reconstructed.diff" files)
  guard
      (leb diff.size maximum
        && is_text (λ s. s == diff.digest) (lookup "reconstructed_diff_sha256" evidence))
      (qa_integrity_error "review_reconstructed_diff_mismatch")
  ok diff

-- The parsed files, behind the anchors.
unfoldable pub verify_files :
    Dict → ℕ → List (String × File) → File → File → Result Exn (Dict × File)
unfolding check_manifest check_evidence check_diff
verify_files payload maximum files evidence_file manifest_file = do
  evidence_value ← json_or (qa_integrity_error "review_evidence_json_invalid") evidence_file.parsed
  manifest_value ← json_or (qa_integrity_error "review_evidence_json_invalid") manifest_file.parsed
  check_manifest files manifest_value
  evidence ← check_evidence payload evidence_value
  diff ← check_diff maximum evidence files
  ok (evidence, diff)

unfoldable pub verify_review_bundle : Directory → Dict → ℕ → Result Exn (Dict × File)
unfolding find_file check_anchors verify_files
verify_review_bundle directory payload maximum = do
  guard directory.exists (qa_integrity_error "review_evidence_directory_invalid")
  evidence ←
      require_file (qa_integrity_error "required_review_evidence_missing")
        (find_file "review-evidence.json" directory.files)
  manifest ←
      require_file (qa_integrity_error "required_review_evidence_missing")
        (find_file "manifest.json" directory.files)
  check_anchors payload maximum evidence manifest
  verify_files payload maximum directory.files evidence manifest
