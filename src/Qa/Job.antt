-- ===== src/Qa/Job.antt =====
-- What `main` of scripts/engineering_qa/coordinator_core.py works with, and its calls of the gate, of
-- the ledger and of the model.
use frankensteinz_hermes.Base.{
  ℕ, String, Bool, ◌==◌, ◌<>◌, List, [], Result, ok, err, guard, ◌>>=◌, ◌>>◌, if◌then◌else◌,
}
use frankensteinz_hermes.Python.{Value, truthy, lookup, Exn, Dict, null, qa_error}
use frankensteinz_hermes.Qa.Model.{SelectionBudget, call_model, call_gate}
use frankensteinz_hermes.Qa.Git.{call_ledger}
use frankensteinz_hermes.Checks.{get_or, is_text}
use frankensteinz_hermes.Checks.Envelope.{Strings}
use frankensteinz_hermes.Reviewer.Scope.{text_at}
use frankensteinz_hermes.Checks.Files.{Directory}
use frankensteinz_hermes.Checks.Steps.{Repository}
use frankensteinz_hermes.Worker.Calls.{Process}

-- The job, the sections and the limits of the config, and what the run finds outside: the directory
-- of the review, the repository, what the processes do and when they are called, the length of the
-- prompt, whether a bundle can be written, and whether the workspace is there in the end.
pub record QaJob : Type 0 where
  pub payload : Dict
  pub ledger : Dict
  pub adapter : List String
  pub strings : Strings
  pub gate_command : List String
  pub allowed : List String
  pub baseline : List String
  pub required : List String
  pub max_profiles : ℕ
  pub max_evidence : ℕ
  pub model_enabled : Bool
  pub model : SelectionBudget
  pub source : String
  pub workspace : String
  pub paths_exist : Bool
  pub is_toplevel : String → Bool
  pub directory : Directory
  pub repository : Repository
  pub gate_process : Process
  pub gate_elapsed : ℕ
  pub ledger_process : String → Process
  pub ledger_elapsed : String → ℕ
  pub model_process : Process
  pub model_elapsed : ℕ
  pub prompt_bytes : List String → ℕ
  pub sandbox : String → Result Exn (ℕ × Result Exn Value)
  pub bundle : String → Result Exn (Unit {0})
  pub workspace_left : Bool

module _ (w : QaJob) where
  unfoldable pub ask_ledger : String → Result Exn Dict
  unfolding call_ledger
  ask_ledger operation =
      call_ledger w.adapter (w.ledger_elapsed operation) w.repository.wall
        (w.ledger_process operation)

  abbrev pub has_status : String → Dict → Bool
  has_status status response = is_text (λ s. s == status) (lookup "status" response)

  -- `call_ledger`, and the status that the run wants of it
  unfoldable pub expect_status : String → String → String → Result Exn (Unit {0})
  unfolding ask_ledger is_text lookup
  expect_status operation status raised = do
    response ← ask_ledger operation
    guard (has_status status response) (qa_error raised)

  unfoldable pub expect_lease : Result Exn (Unit {0})
  unfolding ask_ledger truthy lookup
  expect_lease = do
    response ← ask_ledger "heartbeat"
    guard (truthy (get_or null (lookup "lease_expires_at" response)))
        (qa_error "qa_ledger_heartbeat_failed")

  unfoldable pub answer_of : Result Exn Dict
  unfolding call_gate
  answer_of = call_gate w.strings w.gate_command w.gate_elapsed w.repository.wall w.gate_process

  abbrev pub waiting_status : String → String
  waiting_status decision = if decision == "approval_required" then "waiting_approval" else "denied"

  -- What the run does with the decision: only an allowed job that is still leased goes on.
  unfoldable pub decision_recorded : String → Dict → Result Exn (Unit {0})
  unfolding is_text lookup
  decision_recorded decision response =
      if decision == "allow"
      then guard (has_status "leased" response) (qa_error "qa_gate_allow_not_leased")
      else guard (has_status (waiting_status decision) response)
          (qa_error "qa_gate_ledger_state_mismatch")
        >> err (qa_error ("gate_not_allowed:" <> decision))

  -- The decision is recorded in the ledger.
  unfoldable pub gate_answered : Dict → Result Exn (Unit {0})
  unfolding ask_ledger decision_recorded lookup
  gate_answered gate = do
    response ← ask_ledger "record_gate"
    decision_recorded (text_at "decision" gate) response

  unfoldable pub ask_model : List String → Result Exn (List String)
  unfolding call_model
  ask_model selected = do
    sel ←
        call_model w.model w.allowed (w.prompt_bytes selected) w.model_elapsed w.repository.wall
          w.model_process
    ok sel.accepted

  -- The profiles that the model proposes, where it is enabled.
  unfoldable pub propose : List String → Result Exn (List String)
  unfolding ask_model
  propose selected = if w.model_enabled then ask_model selected else ok []
