-- ===== src/Worker/Envelope.antt =====
-- `validate_envelope` of scripts/engineering_worker/worker.py.
pub mod Valid
use frankensteinz_hermes.Base.{
  not, Bool, List, Result, guard, err, ok, [], ◌>>◌, ◌>>=◌, ◌==◌, ◌||◌, ◌∷◌,
}
use frankensteinz_hermes.Python.{
  entries, lookup, Dict, Exn, worker_error, Value, eq_text, dict, null,
}
use frankensteinz_hermes.Checks.Envelope.{
  is_list, check_paths, check_uuid, check_texts, TextRule, Strings,
}
use frankensteinz_hermes.Checks.{get_or, is_filled_list, require_dict, is_hex, has_ink}
use frankensteinz_hermes.Paths.Allowed.{entry_or_nil, allowed_list}

abbrev pub job_kind : TextRule
job_kind = record {
  key = "job_kind";
  test = λ s. s == "engineering.implement";
  raised = worker_error "job_kind_invalid";
}

abbrev pub payload_texts : List TextRule
payload_texts =
    record { key = "objective"; test = has_ink; raised = worker_error "objective_invalid" }
    ∷ record {
      key = "base_commit";
      test = is_hex 40;
      raised = worker_error "base_commit_must_be_sha40";
    }
    ∷ []

unfoldable pub is_production_branch : Value → Bool
unfolding eq_text
is_production_branch v = eq_text v "main" || eq_text v "master"

module _ (strings : Strings) where
  unfoldable pub check_payload : Dict → Result Exn (Unit {0})
  unfolding check_texts check_paths is_filled_list is_production_branch lookup
  check_payload payload = do
    check_texts payload_texts payload
    guard (is_filled_list (lookup "allowed_paths" payload)) (worker_error "allowed_paths_required")
    check_paths worker_error strings (allowed_list (lookup "allowed_paths" payload))
    guard (is_list (entry_or_nil (lookup "context_paths" payload)))
        (worker_error "context_paths_invalid")
    guard (is_list (entry_or_nil (lookup "test_ids" payload))) (worker_error "test_ids_invalid")
    guard (not (is_production_branch (get_or null (lookup "output_branch" payload))))
        (worker_error "production_branch_denied")

  unfoldable pub check_envelope : Dict → Result Exn (Unit {0})
  unfolding check_uuid require_dict check_payload check_texts lookup
  check_envelope d = do
    check_texts (job_kind ∷ []) d
    check_uuid strings (worker_error "job_uuid_invalid") "job_id" d
    check_uuid strings (worker_error "job_uuid_invalid") "lease_token" d
    payload ← require_dict (lookup "payload" d) (worker_error "payload_invalid")
    check_payload payload

  unfoldable pub validate_envelope : Value → Result Exn Dict
  unfolding check_envelope
  validate_envelope (dict fs) = check_envelope (entries fs) >> ok (entries fs)
  validate_envelope _ = err (worker_error "job_kind_invalid")
