-- ===== src/Worker/Job/Permitted.antt =====
-- What has been established where `main` of scripts/engineering_worker/worker.py keeps the branch that
-- it has made.
use frankensteinz_hermes.Worker.Job.{
  WorkerJob, has_text, ask_ledger, expect, answer_of, gate_answered, outcome, run_job,
}
use frankensteinz_hermes.Worker.Run.{check_commit, run_tests, gate_recorded}
use frankensteinz_hermes.Worker.Run.Effects.{keeps_branch}
use frankensteinz_hermes.Worker.Run.Ordered.{main-Returned}
use frankensteinz_hermes.Worker.Calls.{expected_code, is_code, Completed, completed}
use frankensteinz_hermes.Worker.Calls.Answered.{IsGateAnswer, call_gate-IsGateAnswer}
use frankensteinz_hermes.Reviewer.Scope.{text_at, text_of}
use frankensteinz_hermes.Qa.Sandbox.{is_true}
use frankensteinz_hermes.Python.{Dict, Exn, lookup}
use frankensteinz_hermes.Base.{
  subst, ap, sym, ◌∙◌, any, guard, false, err, refl, ◌>>◌, if◌then◌else◌, Bool, String, true, ok,
  ◌≡◌, ◌==◌, >>=-eq-ok, guard->>-eq-ok, guard-eq-ok,
}
use frankensteinz_hermes.Reviewer.Scope.Kept.{==-≡}

-- The ledger has answered to the operation, and the answer passes the test.
abbrev pub Confirmed : WorkerJob → String → (Dict → Bool) → Type 0
Confirmed w operation test = (r : Dict) × (ask_ledger w operation ≡ ok r) × (test r ≡ true)

-- What has been established: the answer of the gate, the answers of the ledger, and the steps between
-- them that have returned.
pub record IsPermitted (w : WorkerJob) : Type 0 where
  pub gate : Dict
  pub process : Completed
  pub ended : w.gate_process ≡ completed process
  pub answered : IsGateAnswer w.strings process.returncode gate
  pub zero : is_code process.returncode 0 ≡ true
  pub allowed : text_at "decision" gate ≡ "allow"
  pub leased : Confirmed w "record_gate" (has_text "status" "leased")
  pub running : Confirmed w "start" (has_text "status" "running")
  pub tested : w.other run_tests ≡ ok tt
  pub started : Confirmed w "begin_effect" (has_text "state" "started")
  pub checked : w.other check_commit ≡ ok tt
  pub committed : Confirmed w "commit_effect" (λ r. is_true (lookup "committed" r))
  pub succeeded : Confirmed w "complete" (has_text "status" "succeeded")

expect-Confirmed :
    (w : WorkerJob) (operation : String) (test : Dict → Bool) (raised : String)
    → expect w operation test raised ≡ ok tt
    → Confirmed w operation test
unfolding expect
expect-Confirmed w operation test raised h =
    let (r, e, h₁) = >>=-eq-ok (ask_ledger w operation) _ h in (r, e, guard-eq-ok (test r) _ h₁)

-- A decision that is no permission ends the run.
allowed_leased :
    (allow leased waiting : Bool) (e₁ e₂ e₃ : Exn)
    → (if allow then guard leased e₁ else guard waiting e₂ >> err e₃) ≡ ok tt
    → (allow ≡ true) × (leased ≡ true)
allowed_leased true leased waiting e₁ e₂ e₃ h = (refl, guard-eq-ok leased e₁ h)
allowed_leased false leased waiting e₁ e₂ e₃ h =
    let (waits, raised) = guard->>-eq-ok waiting e₂ (err e₃) h in cc raised

-- The gate's answer, and what the ledger has said of its record.
record IsRecorded (w : WorkerJob) : Type 0 where
  pub gate : Dict
  pub answered : answer_of w ≡ ok gate
  pub allowed : text_at "decision" gate ≡ "allow"
  pub leased : Confirmed w "record_gate" (has_text "status" "leased")

gate_answered-IsRecorded : (w : WorkerJob) → gate_answered w ≡ ok tt → IsRecorded w
unfolding gate_answered gate_recorded
gate_answered-IsRecorded w h =
    let (gate, answered, h₁) = >>=-eq-ok (answer_of w) _ h in
    let (r, recorded, h₂) = >>=-eq-ok (ask_ledger w "record_gate") _ h₁ in
    let (allow, leased) =
      allowed_leased (text_at "decision" gate == "allow") (has_text "status" "leased" r) _ _ _ _
        h₂ in
    record {
      gate = gate;
      answered = answered;
      allowed = ==-≡ (text_at "decision" gate) "allow" allow;
      leased = (r, recorded, leased);
    }

-- Where `main` keeps the branch, the gate has allowed the job and its client has ended with the code
-- of an allowance; the ledger had the job leased and then running, and the effect started; the steps
-- of the tests and of the check of the commit have returned; and the ledger has confirmed the effect
-- and the completion.
pub run_job-IsPermitted :
    (w : WorkerJob) → any keeps_branch (run_job w).effects ≡ true → IsPermitted w
unfolding run_job outcome answer_of
run_job-IsPermitted w h =
    let (admitted, executed, completes) =
      main-Returned (outcome w)
        (record { delay = w.retry_delay; elapsed = w.ledger_elapsed "fail"; wall = w.wall }) h in
    let record { gate = gate; answered = answered; allowed = allowed; leased = leased } =
      gate_answered-IsRecorded w admitted.1.1.0 in
    let (c, ended, few, good) =
      call_gate-IsGateAnswer w.strings w.gate_command w.gate_elapsed w.wall w.gate_process gate
        answered in
    record {
      gate = gate;
      process = c;
      ended = ended;
      answered = good;
      zero =
          subst (λ d. is_code c.returncode (expected_code d) ≡ true)
            (sym (ap text_of good.found) ∙ allowed) good.agrees;
      allowed = allowed;
      leased = leased;
      running = expect-Confirmed w "start" _ _ admitted.1.1.1.0;
      tested = executed.1.1.0;
      started = expect-Confirmed w "begin_effect" _ _ executed.1.1.1.0;
      checked = executed.1.1.1.1.1.1.0;
      committed = expect-Confirmed w "commit_effect" _ _ executed.1.1.1.1.1.1.1.0;
      succeeded = expect-Confirmed w "complete" _ _ completes;
    }
