-- ===== src/Reviewer/Envelope.antt =====
-- `validate_envelope` of scripts/engineering_reviewer/reviewer.py.
pub mod Valid
use frankensteinz_hermes.Base.{
  all, Bool, List, Result, guard, false, err, ok, [], ◌>>◌, ◌>>=◌, ◌==◌, ◌∷◌,
}
use frankensteinz_hermes.Python.{
  lookup, entries, elements, Dict, reviewer_error, Exn, Value, list, str, dict,
}
use frankensteinz_hermes.Checks.Envelope.{
  check_paths, is_str, check_texts, check_uuid, TextRule, Strings,
}
use frankensteinz_hermes.Gate.Policy.{all_texts}
use frankensteinz_hermes.Checks.{is_filled_list, has_ink, require_dict, is_branch, is_hex}
use frankensteinz_hermes.Paths.Allowed.{entry_or_nil, allowed_list}

abbrev pub job_kind : TextRule
job_kind = record {
  key = "job_kind";
  test = λ s. s == "engineering.review";
  raised = reviewer_error "job_kind_invalid";
}

abbrev pub payload_texts : List TextRule
payload_texts =
    record { key = "base_commit"; test = is_hex 40; raised = reviewer_error "base_commit_invalid" }
    ∷ record {
      key = "head_commit";
      test = is_hex 40;
      raised = reviewer_error "head_commit_invalid";
    }
    ∷ record { key = "branch"; test = is_branch; raised = reviewer_error "branch_invalid" }
    ∷ record {
      key = "implementation_evidence_sha256";
      test = is_hex 64;
      raised = reviewer_error "implementation_evidence_sha256_invalid";
    }
    ∷ record {
      key = "implementation_manifest_sha256";
      test = is_hex 64;
      raised = reviewer_error "implementation_manifest_sha256_invalid";
    }
    ∷ record { key = "objective"; test = has_ink; raised = reviewer_error "objective_invalid" }
    ∷ []

-- `isinstance(v, list) and all(isinstance(x, str) for x in v)`
abbrev pub is_texts : Value → Bool
is_texts (list xs) = all is_str (elements xs)
is_texts _ = false

-- `isinstance(v, list) and all(isinstance(x, str) and x for x in v)`
abbrev pub is_filled_texts : Value → Bool
is_filled_texts (list xs) = all_texts xs
is_filled_texts _ = false

module _ (strings : Strings) where
  unfoldable pub check_payload : Dict → Result Exn (Unit {0})
  unfolding check_uuid check_texts check_paths is_filled_list lookup
  check_payload payload = do
    check_uuid strings (reviewer_error "implementation_job_id_invalid") "implementation_job_id"
        payload
    check_texts payload_texts payload
    guard (is_filled_list (lookup "allowed_paths" payload))
        (reviewer_error "allowed_paths_required")
    check_paths reviewer_error strings (allowed_list (lookup "allowed_paths" payload))
    guard (is_filled_texts (entry_or_nil (lookup "acceptance_criteria" payload)))
        (reviewer_error "acceptance_criteria_invalid")
    guard (is_texts (entry_or_nil (lookup "context_paths" payload)))
        (reviewer_error "context_paths_invalid")

  unfoldable pub check_envelope : Dict → Result Exn (Unit {0})
  unfolding check_uuid require_dict check_payload check_texts lookup
  check_envelope d = do
    check_texts (job_kind ∷ []) d
    check_uuid strings (reviewer_error "invalid_job_id") "job_id" d
    check_uuid strings (reviewer_error "invalid_lease_token") "lease_token" d
    payload ← require_dict (lookup "payload" d) (reviewer_error "payload_invalid")
    check_payload payload

  unfoldable pub validate_envelope : Value → Result Exn Dict
  unfolding check_envelope
  validate_envelope (dict fs) = check_envelope (entries fs) >> ok (entries fs)
  validate_envelope _ = err (reviewer_error "job_kind_invalid")
