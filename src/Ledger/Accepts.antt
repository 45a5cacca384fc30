-- ===== src/Ledger/Accepts.antt =====
-- The requests that scripts/engineering_worker/worker.py sends to its ledger adapter.
use frankensteinz_hermes.Base.{
  contains, text_length, leb, ℕ, Bool, String, arith, true, ok, refl, [], ◌≡◌, ◌∷◌,
}
use frankensteinz_hermes.Python.{
  as_int, lookup, str, Fields, Dict, ℤ, within, Value, negsuc, pos, dict, int, bool,
}
use frankensteinz_hermes.Ledger.{
  decisions, is_short, check_gate, check_fail, check_heartbeat, worker_fields, check_ids,
  check_worker,
}
use frankensteinz_hermes.Checks.{require_dict, is_text, in_range, in_range_or, is_hex}
use frankensteinz_hermes.Checks.Envelope.{Strings, check_uuid}
use frankensteinz_hermes.Reviewer.Findings.{text_or, member_or}

-- `ledger_request(operation, envelope, **extra)`
abbrev pub ledger_request : String → Value → Value → Dict → Dict
ledger_request operation job lease extra =
    ("operation", str operation) ∷ ("job_id", job) ∷ ("lease_token", lease) ∷ extra

-- The calls of `main`.
pub data Call : Type 0 where
  record_gate : String → String → String → Value → String → Call
  start : Call
  heartbeat : ℤ → Call
  begin_effect : Call
  commit_effect : String → Call
  complete : Fields → Call
  fail : String → ℤ → Bool → Call

abbrev pub to_request : Value → Value → Call → Dict
to_request job lease (record_gate decision request policy event reason) =
    ledger_request "record_gate" job lease (
      ("decision", str decision)
      ∷ ("request_sha256", str request)
      ∷ ("policy_sha256", str policy)
      ∷ ("audit_event_id", event)
      ∷ ("reason", str reason)
      ∷ [])
to_request job lease start = ledger_request "start" job lease []
to_request job lease (heartbeat seconds) =
    ledger_request "heartbeat" job lease (("lease_seconds", int seconds) ∷ [])
to_request job lease begin_effect = ledger_request "begin_effect" job lease []
to_request job lease (commit_effect head) =
    ledger_request "commit_effect" job lease (("head_commit", str head) ∷ [])
to_request job lease (complete result) =
    ledger_request "complete" job lease (("result", dict result) ∷ [])
to_request job lease (fail summary delay effect_started) = ledger_request "fail" job lease (
    ("error_code", str "b032_execution_failed")
    ∷ ("error_summary", str summary)
    ∷ ("retryable", bool true)
    ∷ ("retry_delay_seconds", int delay)
    ∷ ("effect_started", bool effect_started)
    ∷ [])

-- What the worker has made sure of when it makes the call: the answer of the gate has passed
-- `call_gate`, its config bounds the times, the head is a commit hash, and the summary is cut at 1800
-- characters. The reason of the gate is not checked by the worker: a reason that is empty or longer
-- than 512 characters is left out here.
abbrev pub IsCall : Strings → Call → Type 0
IsCall strings (record_gate decision request policy event reason) =
    (contains decisions decision ≡ true)
    × (is_hex 64 request ≡ true)
    × (is_hex 64 policy ≡ true)
    × (strings.uuid event ≡ true)
    × (is_short 512 reason ≡ true)
IsCall strings start = Unit
IsCall strings (heartbeat seconds) = within 60 3600 seconds ≡ true
IsCall strings begin_effect = Unit
IsCall strings (commit_effect head) = is_hex 40 head ≡ true
IsCall strings (complete result) = Unit
IsCall strings (fail summary delay effect_started) =
    (leb (text_length summary) 1800 ≡ true) × (within 0 3600 delay ≡ true)

within-wider :
    (low low' high : ℕ) (z : ℤ)
    → leb low' low ≡ true
    → within low high z ≡ true
    → within low' high z ≡ true
unfolding within
within-wider low low' high (pos n) e h = ground arith
within-wider low low' high (negsuc n) e h = cc

-- Every call that the worker makes for a job with UUIDs passes the checks of its adapter; the record
-- of the gate's answer does so where the reason of the gate has 1 to 512 characters.
pub check_worker-accepts :
    (strings : Strings) (job lease : Value) (call : Call)
    → strings.uuid job ≡ true
    → strings.uuid lease ≡ true
    → IsCall strings call
    → check_worker strings (to_request job lease call) ≡ ok tt
unfolding check_worker check_ids check_uuid worker_fields check_heartbeat check_fail check_gate
    member_or text_or lookup in_range_or in_range as_int is_text require_dict
check_worker-accepts strings job lease (record_gate decision request policy event reason) j l
      (known, digest, policy_digest, logged, short) =
    rw (j, l, known, digest, policy_digest, logged, short) refl
check_worker-accepts strings job lease start j l c = rw (j, l) refl
check_worker-accepts strings job lease (heartbeat seconds) j l c =
    rw (j, l, within-wider 60 15 3600 seconds refl c) refl
check_worker-accepts strings job lease begin_effect j l c = rw (j, l) refl
check_worker-accepts strings job lease (commit_effect head) j l c = rw (j, l, c) refl
check_worker-accepts strings job lease (complete result) j l c = rw (j, l) refl
check_worker-accepts strings job lease (fail summary delay effect_started) j l c =
    let short : leb (text_length summary) 2048 ≡ true = ground arith in rw (j, l, short, c.1) refl
