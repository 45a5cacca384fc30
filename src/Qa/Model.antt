-- ===== src/Qa/Model.antt =====
-- `call_gate` and `call_model` of scripts/engineering_qa/coordinator_core.py, on what their processes
-- do.
use frankensteinz_hermes.Base.{ℕ, String, not, List, some, Result, ok, guard, ◌>>=◌, ◌>>◌, leb}
use frankensteinz_hermes.Python.{of_dict, Dict, Exn, Value, lookup, dict, qa_error}
use frankensteinz_hermes.Qa.Git.{run, remaining}
use frankensteinz_hermes.Checks.{require_dict}
use frankensteinz_hermes.Worker.Calls.{
  usage_of, int_of, exceeds, parse_or, is_zero, Process, gate_answer,
}
use frankensteinz_hermes.Reviewer.Findings.{member_or}
use frankensteinz_hermes.Ledger.{decisions}
use frankensteinz_hermes.Qa.Selection.{Selection, validate_model_selection}
use frankensteinz_hermes.Checks.Envelope.{Strings}

unfoldable pub call_gate : Strings → List String → ℕ → ℕ → Process → Result Exn Dict
unfolding remaining run gate_answer member_or
call_gate strings command elapsed wall p = do
  left ← remaining elapsed wall
  c ← run command 65536 p
  response ← parse_or (qa_error "gate_response_invalid") c.parsed
  gate_answer (member_or decisions (qa_error "gate_decision_invalid")) qa_error strings c.returncode
      response

-- The entries of `config["model"]` that `call_model` reads, checked by `validate_config`.
pub record SelectionBudget : Type 0 where
  pub adapter : List String
  pub max_prompt_bytes : ℕ
  pub max_response_bytes : ℕ
  pub max_output_tokens : ℕ
  pub max_suggestions : ℕ

-- The dict and its selection, which is a dict too.
unfoldable pub selection_of : Value → Result Exn (Dict × Dict)
unfolding require_dict lookup
selection_of v = do
  envelope ← require_dict (some v) (qa_error "qa_model_envelope_invalid")
  selection ← require_dict (lookup "selection" envelope) (qa_error "qa_model_envelope_invalid")
  ok (envelope, selection)

-- `prompt_bytes` is the length of the prompt. The metadata is left out.
unfoldable pub call_model :
    SelectionBudget → List String → ℕ → ℕ → ℕ → Process → Result Exn Selection
unfolding remaining run selection_of validate_model_selection lookup
call_model m allowed prompt_bytes elapsed wall p = do
  guard (leb prompt_bytes m.max_prompt_bytes) (qa_error "qa_model_prompt_budget_exhausted")
  left ← remaining elapsed wall
  c ← run m.adapter m.max_response_bytes p
  guard (is_zero c.returncode) (qa_error "qa_model_adapter_failed")
  value ← parse_or (qa_error "qa_model_invalid_json") c.parsed
  dicts ← selection_of value
  guard
      (not (
        exceeds m.max_output_tokens
          (int_of (lookup "completion_tokens" (usage_of (lookup "usage" dicts.0))))))
      (qa_error "qa_model_output_token_budget_exceeded")
  answer ← validate_model_selection m.max_suggestions allowed (dict (of_dict dicts.1))
  ok answer.0
