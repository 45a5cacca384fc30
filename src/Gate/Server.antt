-- ===== src/Gate/Server.antt =====
-- scripts/action_gate/server.py: one request from a connection, the audit log, and the serving loop.
use frankensteinz_hermes.Base.{
  ℕ, ◌+◌, String, Bool, List, [], ◌∷◌, ◌++◌, ◌<>◌, Result, ok, err, ◌>>=◌, length, ltb, eqb, any,
  is_empty, if◌then◌else◌,
}
use frankensteinz_hermes.Python.{
  Exn, gate_error, worker_error, reviewer_error, integrity_error, qa_error, qa_integrity_error,
  value_error, runtime_error, type_error, attribute_error, key_error, json_decode_error,
  unicode_error, overflow_error, os_error, Value, str, dict, end, field,
}
use frankensteinz_hermes.Gate.Policy.{LoadedPolicy}
use frankensteinz_hermes.Gate.Decide.{Hashes, Response, decide}

abbrev pub Bytes : Type 0
Bytes = List ℕ

abbrev pub max_request_bytes : ℕ
max_request_bytes = 65536

abbrev pub has_newline : Bytes → Bool
has_newline chunk = any (eqb b'\n') chunk

-- `raw.split(b'\n', 1)[0]`
abbrev pub first_line : Bytes → Bytes
first_line [] = []
first_line (b ∷ bs) = let rest = first_line bs in if eqb b'\n' b then [] else b ∷ rest

-- The loop of `recv_request` over what `conn.recv(4096)` returns; the list ends at the end of the
-- stream, as an empty chunk does.
unfoldable pub receive : List Bytes → ℕ → Bytes → Result Exn Bytes
receive [] total received = ok received
receive (chunk ∷ chunks) total received =
    let more = receive chunks (total + length chunk) (received ++ chunk) in
    if is_empty chunk
    then ok received
    else if ltb max_request_bytes (total + length chunk)
    then err (value_error "request_too_large")
    else if has_newline chunk
    then ok (received ++ chunk)
    else more

unfoldable pub request_line : List Bytes → Result Exn Bytes
unfolding receive
request_line chunks = do
  received ← receive chunks 0 []
  if is_empty (first_line received)
      then err (value_error "empty_request")
      else ok (first_line received)

-- `loads` decodes the line as UTF-8 and parses it.
unfoldable pub recv_request : (Bytes → Result Exn Value) → List Bytes → Result Exn Value
unfolding request_line
recv_request loads chunks = do line ← request_line chunks; loads line

abbrev pub class_name : Exn → String
class_name (gate_error m) = "GateError"
class_name (worker_error m) = "WorkerError"
class_name (reviewer_error m) = "ReviewerError"
class_name (integrity_error m) = "IntegrityError"
class_name (qa_error m) = "QAError"
class_name (qa_integrity_error m) = "QAIntegrityError"
class_name (value_error m) = "ValueError"
class_name (runtime_error m) = "RuntimeError"
class_name (os_error c) = c
class_name type_error = "TypeError"
class_name attribute_error = "AttributeError"
class_name key_error = "KeyError"
class_name json_decode_error = "JSONDecodeError"
class_name unicode_error = "UnicodeDecodeError"
class_name overflow_error = "OverflowError"

abbrev pub invalid_request : Value
invalid_request = dict (
    field "request_id" (str "invalid")
      (field "actor" (str "unknown") (field "action_type" (str "invalid_request") end)))

-- What a connection brings, with what `KILL_SWITCH_PATH.exists()` says at the decision, and again
-- if the decision raises.
pub record Connection : Type 0 where
  pub chunks : List Bytes
  pub kill_switch : Bool
  pub kill_switch_on_failure : Bool

-- `except Exception`
abbrev recover : (Exn → Result Exn Response) → Result Exn Response → Result Exn Response
recover f (ok response) = ok response
recover f (err e) = f e

module _ (h : Hashes) (loads : Bytes → Result Exn Value) (policy : LoadedPolicy) where
  unfoldable pub transport_failure : Bool → Exn → Result Exn Response
  transport_failure kill e = do
    response ← decide h invalid_request policy kill
    ok (record response { reason = "fail_closed:transport:" <> class_name e })

  unfoldable pub answer : Connection → Result Exn Response
  unfolding transport_failure
  answer c =
      recover (transport_failure c.kill_switch_on_failure)
        (do request ← recv_request loads c.chunks; decide h request policy c.kill_switch)
