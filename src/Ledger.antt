-- ===== src/Ledger.antt =====
-- The adapters of the job ledger: `validate_request` of scripts/engineering_worker/ledger_psql.py,
-- and `validate` of scripts/engineering_reviewer/ledger_psql.py and
-- scripts/engineering_qa/ledger_psql.py.
use frankensteinz_hermes.Base.{
  text_length, contains, leb, is_empty_text, not, ℕ, Bool, List, Result, Option, String, guard,
  false, true, none, some, err, ok, [], ◌>>◌, ◌>>=◌, if◌then◌else◌, ◌==◌, ◌||◌, ◌&&◌, ◌∷◌,
}
use frankensteinz_hermes.Python.{
  value_error, entries, lookup, eq_nat, Exn, Value, Dict, dict, bool, null,
}
use frankensteinz_hermes.Checks.{require_dict, is_safe_id, is_hex, is_text, in_range_or, Range}
use frankensteinz_hermes.Checks.Envelope.{check_uuid, Strings}
use frankensteinz_hermes.Reviewer.Findings.{member_or}
pub mod Accepts
pub mod Confined

abbrev pub decisions : List String
decisions = "allow" ∷ "approval_required" ∷ "deny" ∷ []

abbrev pub writer_operations : List String
writer_operations =
    "record_gate" ∷ "start" ∷ "heartbeat" ∷ "begin_effect" ∷ "commit_effect" ∷ "complete" ∷ "fail"
    ∷ []

abbrev pub reviewer_operations : List String
reviewer_operations = "start" ∷ "heartbeat" ∷ "complete" ∷ "fail" ∷ []

abbrev pub lease : Range
lease = record { key = "lease_seconds"; low = 15; high = 3600 }

abbrev pub delay : Range
delay = record { key = "retry_delay_seconds"; low = 0; high = 3600 }

-- `s and len(s) <= max`
abbrev pub is_short : ℕ → String → Bool
is_short max s = not (is_empty_text s) && leb (text_length s) max

abbrev pub is_bool : Option Value → Bool
is_bool (some (bool b)) = true
is_bool _ = false

-- `v in (None, False)`
abbrev pub is_unset : Option Value → Bool
is_unset none = true
is_unset (some null) = true
is_unset (some v) = eq_nat v 0

unfoldable pub check_heartbeat : Dict → Result Exn (Unit {0})
unfolding in_range_or
check_heartbeat d = guard (in_range_or 900 lease d) (value_error "invalid lease_seconds")

unfoldable pub check_fail : Exn → Dict → Result Exn (Unit {0})
unfolding is_text in_range_or lookup
check_fail delay_error d = do
  guard (is_text (is_short 128) (lookup "error_code" d)) (value_error "invalid error_code")
  guard (is_text (λ s. leb (text_length s) 2048) (lookup "error_summary" d))
      (value_error "invalid error_summary")
  guard (is_bool (lookup "retryable" d)) (value_error "retryable must be boolean")
  guard (in_range_or 60 delay d) delay_error

module _ (strings : Strings) where
  unfoldable pub check_ids : Dict → Result Exn (Unit {0})
  unfolding check_uuid
  check_ids d = do
    check_uuid strings (value_error "invalid job_id") "job_id" d
    check_uuid strings (value_error "invalid lease_token") "lease_token" d

  unfoldable pub check_gate : Exn → Dict → Result Exn (Unit {0})
  unfolding is_text is_hex check_uuid lookup
  check_gate reason_error d = do
    guard (is_text (is_hex 64) (lookup "request_sha256" d)) (value_error "invalid request_sha256")
    guard (is_text (is_hex 64) (lookup "policy_sha256" d)) (value_error "invalid policy_sha256")
    check_uuid strings (value_error "invalid audit_event_id") "audit_event_id" d
    guard (is_text (is_short 512) (lookup "reason" d)) reason_error

  -- The fields of a request of the worker, by its operation.
  unfoldable pub worker_fields : String → Dict → Result Exn (Unit {0})
  unfolding check_gate check_fail check_heartbeat is_text is_hex require_dict lookup
  worker_fields op d =
      let record_gate =
        guard (is_text (contains decisions) (lookup "decision" d)) (value_error "invalid decision")
        >> check_gate (value_error "invalid reason") d in
      let commit_effect =
        guard (is_text (is_hex 40) (lookup "head_commit" d)) (value_error "invalid head_commit") in
      let complete =
        require_dict (lookup "result" d) (value_error "complete result must be object")
        >>= λ result. ok tt in
      if op == "record_gate"
      then record_gate
      else if op == "commit_effect"
      then commit_effect
      else if op == "complete"
      then complete
      else if op == "fail"
      then check_fail (value_error "invalid retry_delay_seconds") d
      else if op == "heartbeat"
      then check_heartbeat d
      else ok tt

  unfoldable pub check_worker : Dict → Result Exn (Unit {0})
  unfolding member_or check_ids worker_fields lookup
  check_worker d = do
    op ← member_or writer_operations (value_error "unsupported operation") (lookup "operation" d)
    check_ids d
    worker_fields op d

  unfoldable pub reviewer_fields : String → Dict → Result Exn (Unit {0})
  unfolding check_fail check_heartbeat member_or require_dict lookup
  reviewer_fields op d =
      let complete = do
        result ← require_dict (lookup "result" d) (value_error "complete result must be object")
        verdict ←
            member_or ("approve" ∷ "changes_required" ∷ "reject" ∷ [])
              (value_error "invalid review verdict") (lookup "verdict" result)
        ok tt
      in if op == "heartbeat"
        then check_heartbeat d
        else if op == "complete"
        then complete
        else if op == "fail"
        then check_fail (value_error "invalid retry delay") d
        else ok tt

  unfoldable pub check_reviewer : Dict → Result Exn (Unit {0})
  unfolding member_or check_ids reviewer_fields lookup
  check_reviewer d = do
    op ← member_or reviewer_operations (value_error "unsupported operation") (lookup "operation" d)
    check_ids d
    reviewer_fields op d

  unfoldable pub qa_effect : Bool → Dict → Result Exn (Unit {0})
  unfolding is_text is_safe_id is_hex lookup
  qa_effect commits d = do
    guard (is_text (is_safe_id 64) (lookup "profile_id" d)) (value_error "invalid profile_id")
    guard (not commits || is_text (is_hex 64) (lookup "result_sha256" d))
        (value_error "invalid result_sha256")

  unfoldable pub qa_complete : Dict → Result Exn (Unit {0})
  unfolding member_or require_dict lookup eq_nat
  qa_complete d = do
    result ← require_dict (lookup "result" d) (value_error "invalid QA completion result")
    status ←
        member_or ("qa_passed" ∷ "qa_failed" ∷ "reject" ∷ [])
          (value_error "invalid QA completion result") (lookup "qa_status" result)
    guard (is_unset (lookup "promotion_authorized" result))
        (value_error "B034 cannot authorize promotion")

  unfoldable pub qa_fields : String → Dict → Result Exn (Unit {0})
  unfolding check_gate check_fail check_heartbeat qa_effect qa_complete member_or lookup
  qa_fields op d =
      let record_gate =
        member_or decisions (value_error "invalid gate decision") (lookup "decision" d)
        >>= λ decision. check_gate (value_error "invalid gate reason") d in
      if op == "record_gate"
      then record_gate
      else if op == "heartbeat"
      then check_heartbeat d
      else if op == "begin_effect" || op == "commit_effect"
      then qa_effect (op == "commit_effect") d
      else if op == "complete"
      then qa_complete d
      else if op == "fail"
      then check_fail (value_error "invalid retry delay") d
      else ok tt

  unfoldable pub check_qa : Dict → Result Exn (Unit {0})
  unfolding member_or check_ids qa_fields lookup
  check_qa d = do
    op ← member_or writer_operations (value_error "unsupported operation") (lookup "operation" d)
    check_ids d
    qa_fields op d

-- The three functions on any value of JSON.
unfoldable pub validate_with : (Dict → Result Exn (Unit {0})) → Value → Result Exn Dict
validate_with check (dict fs) = check (entries fs) >> ok (entries fs)
validate_with check _ = err (value_error "request must be object")
