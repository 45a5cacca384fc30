-- ===== src/Gate/Client.antt =====
-- `main` of scripts/action_gate/client.py: what is printed, and the exit code.
pub mod Exits
use frankensteinz_hermes.Base.{
  ◌>>◌, ◌>>=◌, ◌==◌, ltb, is_empty, length, List, Result, Option, String, none, some, err, ok, [],
  if◌then◌else◌, ◌+◌, ◌<>◌, ◌++◌, ◌∷◌, ℕ,
}
use frankensteinz_hermes.Gate.Server.{Bytes, has_newline, first_line, class_name}
use frankensteinz_hermes.Python.{
  runtime_error, entries, eq_text, lookup, Value, Exn, list, str, field, end, dict,
}

abbrev pub max_response_bytes : ℕ
max_response_bytes = 65536

-- What the process prints and how it ends; `none` is an exception that nobody catches.
pub record Exit : Type 0 where
  pub printed : Value
  pub code : Option ℕ

denial : String → Value
denial reason = dict (field "decision" (str "deny") (field "reason" (str reason) end))

-- The loop over what `sock.recv(4096)` returns.
unfoldable pub collect : List Bytes → ℕ → Bytes → Result Exn Bytes
collect [] total received = ok received
collect (chunk ∷ chunks) total received =
    let more = collect chunks (total + length chunk) (received ++ chunk) in
    if is_empty chunk
    then ok received
    else if ltb max_response_bytes (total + length chunk)
    then err (runtime_error "response_too_large")
    else if has_newline chunk
    then ok (received ++ chunk)
    else more

-- `EXIT_CODES.get(decision, 30)`; a list or a dict cannot be hashed.
abbrev pub decision_code : Option Value → Option ℕ
decision_code none = some 30
decision_code (some (list xs)) = none
decision_code (some (dict fs)) = none
decision_code (some (str s)) =
    if s == "allow" then some 0 else if s == "approval_required" then some 20 else some 30
decision_code (some v) = some 30

-- The exit code of a response that was printed: `response.get` wants a dict.
unfoldable pub exit_code : Value → Option ℕ
unfolding lookup
exit_code (dict fs) = decision_code (lookup "decision" (entries fs))
exit_code v = none

-- The `try` block: connect, send the request and read the chunks that come back (`transport`), and
-- decode and parse the first line (`loads`).
unfoldable pub gate_response :
    (Value → Result Exn (List Bytes)) → (Bytes → Result Exn Value) → Value → Result Exn Value
unfolding collect
gate_response transport loads request = do
  chunks ← transport request
  received ← collect chunks 0 []
  loads (first_line received)

finish : Result Exn Value → Exit
unfolding denial exit_code
finish (err e) = record { printed = denial ("gate_unavailable:" <> class_name e); code = some 30 }
finish (ok response) = record { printed = response; code = exit_code response }

-- `stdin` is what reading the standard input gives.
unfoldable pub client :
    Result Exn Value → (Value → Result Exn (List Bytes)) → (Bytes → Result Exn Value) → Exit
unfolding denial gate_response finish
client (err e) transport loads = record {
  printed = denial ("client_invalid_json:" <> class_name e);
  code = some 30;
}
client (ok request) transport loads = finish (gate_response transport loads request)
