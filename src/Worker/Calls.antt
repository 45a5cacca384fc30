-- ===== src/Worker/Calls.antt =====
-- The processes that scripts/engineering_worker/worker.py runs: `remaining`, `run_command`,
-- `require_ok`, `call_gate`, `call_ledger` and `call_model`. What a process does is an argument.
pub mod Answered
use frankensteinz_hermes.Ledger.{decisions}
use frankensteinz_hermes.Base.{
  is_empty_text, contains, all, suc, is_empty, not, ltb, leb, eqb, ◌>>◌, ℕ, Bool, List, Result,
  Option, String, guard, false, true, none, some, err, ok, [], ◌>>=◌, if◌then◌else◌, ◌-◌, ◌+◌, ◌==◌,
  ◌&&◌, ◌<>◌, ◌∷◌,
}
use frankensteinz_hermes.Python.{
  os_error, attribute_error, lookup, entries, worker_error, as_int, Dict, ℤ, Value, Exn, negsuc,
  pos, dict,
}
use frankensteinz_hermes.Checks.Envelope.{check_uuid, Strings}
use frankensteinz_hermes.Checks.{is_hex, is_text, require_dict}
use frankensteinz_hermes.Reviewer.Findings.{text_or}

-- A process that has ended: its code, the bytes that it printed on both pipes, what `json.loads`
-- gives of its output, and the end of its error output as text.
pub record Completed : Type 0 where
  pub returncode : ℤ
  pub printed : ℕ
  pub parsed : Result Exn Value
  pub error_tail : String

pub data Process : Type 0 where
  timed_out : Process
  missing : Process
  completed : Completed → Process

-- `elapsed` is the whole seconds since the start.
unfoldable pub remaining : ℕ → ℕ → Result Exn ℕ
remaining elapsed wall =
    if leb wall elapsed
    then err (worker_error "wall_clock_budget_exhausted")
    else ok (wall - elapsed)

abbrev pub command_name : List String → String
command_name [] = ""
command_name (name ∷ arguments) = name

unfoldable pub run_command : List String → ℕ → Process → Result Exn Completed
run_command cmd max_output p = do
  guard (not (is_empty cmd) && all (λ s. not (is_empty_text s)) cmd)
      (worker_error "invalid_command")
  c ← elim p [
    | missing ↦ err (os_error "FileNotFoundError")
    | timed_out ↦ err (worker_error ("command_timeout:" <> command_name cmd))
    | completed c ↦ ok c
  ]
  guard (leb c.printed max_output) (worker_error ("command_output_too_large:" <> command_name cmd))
  ok c

abbrev pub is_zero : ℤ → Bool
is_zero (pos n) = eqb n 0
is_zero (negsuc n) = false

unfoldable pub require_ok : Completed → String → Result Exn Completed
require_ok c label = do
  guard (is_zero c.returncode) (worker_error (label <> ("_failed:" <> c.error_tail)))
  ok c

-- `except json.JSONDecodeError`
abbrev pub parse_or : Exn → Result Exn Value → Result Exn Value
parse_or e (err Exn.json_decode_error) = err e
parse_or e r = r

-- `{"allow": 0, "approval_required": 20, "deny": 30}[decision]`
abbrev pub expected_code : String → ℕ
expected_code decision =
    if decision == "allow" then 0 else if decision == "approval_required" then 20 else 30

abbrev pub is_code : ℤ → ℕ → Bool
is_code (pos n) m = eqb n m
is_code (negsuc n) m = false

-- The checks on the response of the gate: `response.get` wants a dict. `decide` is the test of the
-- decision, which the worker looks for in a tuple and the QA coordinator in a set.
unfoldable pub gate_answer :
    (Option Value → Result Exn String) → (String → Exn) → Strings → ℤ → Value → Result Exn Dict
unfolding is_text is_hex check_uuid lookup
gate_answer decide raise strings code (dict fs) =
    let d = entries fs in
    do
      decision ← decide (lookup "decision" d)
      guard (is_text (is_hex 64) (lookup "request_sha256" d))
          (raise "gate_evidence_invalid:request_sha256")
      guard (is_text (is_hex 64) (lookup "policy_sha256" d))
          (raise "gate_evidence_invalid:policy_sha256")
      check_uuid strings (raise "gate_evidence_invalid:event_id") "event_id" d
      guard (is_code code (expected_code decision)) (raise "gate_exit_decision_mismatch")
      ok d
gate_answer decide raise strings code _ = err attribute_error

unfoldable pub call_gate : Strings → List String → ℕ → ℕ → Process → Result Exn Dict
unfolding remaining run_command gate_answer text_or
call_gate strings gate_cmd elapsed wall p = do
  left ← remaining elapsed wall
  c ← run_command gate_cmd 65536 p
  response ← parse_or (worker_error "gate_response_invalid") c.parsed
  gate_answer (text_or (contains decisions) (worker_error "gate_decision_invalid")) worker_error
      strings c.returncode response

unfoldable pub call_ledger : List String → ℕ → ℕ → Process → Result Exn Dict
unfolding remaining run_command require_dict
call_ledger adapter elapsed wall p = do
  left ← remaining elapsed wall
  c ← run_command adapter 131072 p
  guard (is_zero c.returncode) (worker_error "ledger_adapter_failed")
  response ← parse_or (worker_error "ledger_response_invalid") c.parsed
  require_dict (some response) (worker_error "ledger_response_not_object")

-- The entries of `config["model"]` that `call_model` reads, checked by `validate_config`.
pub record ModelBudget : Type 0 where
  pub adapter : List String
  pub max_calls : ℕ
  pub max_prompt_bytes : ℕ
  pub max_response_bytes : ℕ
  pub max_output_tokens : ℕ

-- The part of `usage` that the budgets concern.
pub record Usage : Type 0 where
  pub model_calls : ℕ
  pub model_prompt_bytes : ℕ
  pub model_response_bytes : ℕ

-- `isinstance(v, int) and v > n`
abbrev pub exceeds : ℕ → Option ℤ → Bool
exceeds n none = false
exceeds n (some (pos m)) = ltb n m
exceeds n (some (negsuc m)) = false

-- `response.get("usage")` where it is a dict, else `{}`
abbrev pub usage_of : Option Value → Dict
usage_of (some (dict fs)) = entries fs
usage_of _ = []

abbrev pub int_of : Option Value → Option ℤ
int_of none = none
int_of (some v) = as_int v

-- The checks on the response: the patch, by its length in UTF-8, which `bytes` gives.
unfoldable pub model_answer : (String → ℕ) → ModelBudget → Value → Result Exn String
unfolding text_or as_int lookup
model_answer bytes m (dict fs) =
    let d = entries fs in
    do
      patch ← text_or (λ s. true) (worker_error "model_patch_missing") (lookup "patch" d)
      guard (leb (bytes patch) m.max_response_bytes) (worker_error "model_patch_too_large")
      guard
          (not (
            exceeds m.max_output_tokens
              (int_of (lookup "completion_tokens" (usage_of (lookup "usage" d))))))
          (worker_error "model_reported_output_token_budget_exceeded")
      ok patch
model_answer bytes m _ = err attribute_error

-- The patch, and the usage after the call. `prompt_bytes` is the length of the prompt.
unfoldable pub call_model :
    (String → ℕ) → ModelBudget → ℕ → Usage → ℕ → ℕ → Process → Result Exn (String × Usage)
unfolding remaining run_command model_answer
call_model bytes m prompt_bytes usage elapsed wall p = do
  guard (leb (suc usage.model_calls) m.max_calls) (worker_error "model_call_budget_exhausted")
  guard (leb prompt_bytes m.max_prompt_bytes) (worker_error "model_prompt_budget_exhausted")
  left ← remaining elapsed wall
  c ← run_command m.adapter m.max_response_bytes p
  guard (is_zero c.returncode) (worker_error "model_adapter_failed")
  response ← parse_or (worker_error "model_response_invalid_json") c.parsed
  patch ← model_answer bytes m response
  ok (
    patch,
    record {
      model_calls = suc usage.model_calls;
      model_prompt_bytes = usage.model_prompt_bytes + prompt_bytes;
      model_response_bytes = usage.model_response_bytes + bytes patch;
    },
  )
