-- ===== src/Qa/Envelope.antt =====
-- `validate_envelope` of scripts/engineering_qa/coordinator_core.py.
pub mod Valid
use frankensteinz_hermes.Base.{
  all, Bool, List, Result, guard, false, err, ok, [], ◌>>◌, ◌>>=◌, ◌==◌, ◌∷◌,
}
use frankensteinz_hermes.Python.{
  lookup, entries, elements, Dict, qa_error, Exn, Value, list, str, dict,
}
use frankensteinz_hermes.Checks.Envelope.{check_texts, check_uuid, TextRule, Strings}
use frankensteinz_hermes.Checks.{has_ink, require_dict, is_branch, is_safe_id, is_hex}
use frankensteinz_hermes.Paths.Allowed.{entry_or_nil}

abbrev pub job_kind : TextRule
job_kind = record {
  key = "job_kind";
  test = λ s. s == "engineering.qa";
  raised = qa_error "job_kind_invalid";
}

abbrev pub payload_texts : List TextRule
payload_texts =
    record { key = "base_commit"; test = is_hex 40; raised = qa_error "base_commit_invalid" }
    ∷ record { key = "head_commit"; test = is_hex 40; raised = qa_error "head_commit_invalid" }
    ∷ record { key = "branch"; test = is_branch; raised = qa_error "branch_invalid" }
    ∷ record {
      key = "review_evidence_sha256";
      test = is_hex 64;
      raised = qa_error "review_evidence_sha256_invalid";
    }
    ∷ record {
      key = "review_manifest_sha256";
      test = is_hex 64;
      raised = qa_error "review_manifest_sha256_invalid";
    }
    ∷ record { key = "objective"; test = has_ink; raised = qa_error "objective_invalid" }
    ∷ []

-- A list of identifiers of profiles.
abbrev pub is_profile : Value → Bool
is_profile (str s) = is_safe_id 64 s
is_profile _ = false

abbrev pub is_profiles : Value → Bool
is_profiles (list xs) = all is_profile (elements xs)
is_profiles _ = false

module _ (strings : Strings) where
  unfoldable pub check_payload : Dict → Result Exn (Unit {0})
  unfolding check_uuid check_texts is_safe_id lookup
  check_payload payload = do
    check_uuid strings (qa_error "review_job_id_invalid") "review_job_id" payload
    check_texts payload_texts payload
    guard (is_profiles (entry_or_nil (lookup "required_profile_ids" payload)))
        (qa_error "required_profile_ids_invalid")

  unfoldable pub check_envelope : Dict → Result Exn (Unit {0})
  unfolding check_uuid require_dict check_payload check_texts lookup
  check_envelope d = do
    check_texts (job_kind ∷ []) d
    check_uuid strings (qa_error "invalid_job_id") "job_id" d
    check_uuid strings (qa_error "invalid_lease_token") "lease_token" d
    payload ← require_dict (lookup "payload" d) (qa_error "payload_invalid")
    check_payload payload

  unfoldable pub validate_envelope : Value → Result Exn Dict
  unfolding check_envelope
  validate_envelope (dict fs) = check_envelope (entries fs) >> ok (entries fs)
  validate_envelope _ = err (qa_error "job_kind_invalid")
