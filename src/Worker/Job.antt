-- ===== src/Worker/Job.antt =====
-- The calls of the gate and of the ledger in `main` of scripts/engineering_worker/worker.py, and what
-- it wants of their answers.
pub mod Permitted
use frankensteinz_hermes.Worker.Run.{
  Step, call_gate, record_gate, start, heartbeat, begin_effect, commit_effect, complete, Trace,
  main, gate_recorded,
}
use frankensteinz_hermes.Worker.Calls
use frankensteinz_hermes.Worker.Calls.{Process, call_ledger}
use frankensteinz_hermes.Reviewer.Scope.{text_at}
use frankensteinz_hermes.Checks.Envelope.{Strings}
use frankensteinz_hermes.Checks.{get_or, is_text}
use frankensteinz_hermes.Python.{
  list, str, str, Value, truthy, lookup, Exn, Dict, null, worker_error,
}
use frankensteinz_hermes.Qa.Sandbox.{is_true}
use frankensteinz_hermes.Base.{
  Bool, Bool, List, Result, Option, String, guard, ok, ◌>>◌, ◌>>=◌, ◌==◌, ℕ,
}

-- What the run finds outside: what the processes of the gate and of the ledger do and when they are
-- called, the delay of the config, and which of the other steps raise.
pub record WorkerJob : Type 0 where
  pub strings : Strings
  pub gate_command : List String
  pub adapter : List String
  pub wall : ℕ
  pub gate_process : Process
  pub gate_elapsed : ℕ
  pub ledger_process : String → Process
  pub ledger_elapsed : String → ℕ
  pub retry_delay : Option Value
  pub other : Step → Result Exn (Unit {0})

abbrev pub has_text : String → String → Dict → Bool
has_text key text response = is_text (λ s. s == text) (lookup key response)

-- `str(v)`, which is the text itself of a text
abbrev pub shown : Strings → Value → String
shown strings (str s) = s
shown strings v = strings.show v

module _ (w : WorkerJob) where
  unfoldable pub ask_ledger : String → Result Exn Dict
  unfolding call_ledger
  ask_ledger operation =
      call_ledger w.adapter (w.ledger_elapsed operation) w.wall (w.ledger_process operation)

  -- `call_ledger`, and the test of its answer
  unfoldable pub expect : String → (Dict → Bool) → String → Result Exn (Unit {0})
  unfolding ask_ledger
  expect operation test raised = do
    response ← ask_ledger operation
    guard (test response) (worker_error raised)

  unfoldable pub answer_of : Result Exn Dict
  unfolding Calls.call_gate
  answer_of = Calls.call_gate w.strings w.gate_command w.gate_elapsed w.wall w.gate_process

  -- The decision is recorded in the ledger.
  unfoldable pub gate_answered : Result Exn (Unit {0})
  unfolding answer_of ask_ledger gate_recorded lookup
  gate_answered = do
    gate ← answer_of
    response ← ask_ledger "record_gate"
    gate_recorded (text_at "decision" gate)
        (shown w.strings (get_or (str "unknown") (lookup "reason" gate))) (lookup "status" response)

  -- What a step does. The steps but those that call the gate or the ledger are an argument.
  unfoldable pub outcome : Step → Result Exn (Unit {0})
  unfolding expect answer_of gate_answered is_text truthy lookup
  outcome call_gate = do gate ← answer_of; ok tt
  outcome record_gate = gate_answered
  outcome start = expect "start" (has_text "status" "running") "ledger_start_failed"
  outcome heartbeat =
      expect "heartbeat" (λ r. truthy (get_or null (lookup "lease_expires_at" r)))
        "ledger_heartbeat_failed"
  outcome begin_effect =
      expect "begin_effect" (has_text "state" "started") "ledger_effect_begin_failed"
  outcome commit_effect =
      expect "commit_effect" (λ r. is_true (lookup "committed" r)) "ledger_effect_commit_failed"
  outcome complete = expect "complete" (has_text "status" "succeeded") "ledger_complete_failed"
  outcome s = w.other s

  unfoldable pub run_job : Trace
  unfolding main outcome
  run_job =
      main outcome
        (record { delay = w.retry_delay; elapsed = w.ledger_elapsed "fail"; wall = w.wall })
