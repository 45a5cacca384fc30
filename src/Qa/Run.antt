-- ===== src/Qa/Run.antt =====
-- `main` of scripts/engineering_qa/coordinator_core.py after its arguments are read and the config
-- and the envelope are validated: which calls it makes, in which order, and how it ends. The runs of
-- the sandbox are in Qa.Trial.
pub mod Completed
pub mod Passed
use frankensteinz_hermes.Checks.Steps.{
  ◌>>=◌, ◌>>◌, lift, check, continue_with, Repository, Trace, step, stop,
}
use frankensteinz_hermes.Base.{
  ℕ, String, Bool, true, false, not, ◌||◌, ◌<>◌, List, [], ◌∷◌, ◌++◌, Option, none, some, Result,
  ok, err, guard, strip, if◌then◌else◌,
}
use frankensteinz_hermes.Python.{Exn, lookup, Value, null, key_error, qa_error, qa_integrity_error}
use frankensteinz_hermes.Qa.Job.{
  QaJob, expect_status, expect_lease, gate_answered, answer_of, propose,
}
use frankensteinz_hermes.Checks.Reports.{Reporting, arguments}
use frankensteinz_hermes.Qa.Git.{remaining, GitBudget}
use frankensteinz_hermes.Qa.Selection.{plan}
use frankensteinz_hermes.Qa.Candidate.{verify_candidate, Budgeted, read_text}
use frankensteinz_hermes.Qa.Bundle.{verify_review_bundle}
use frankensteinz_hermes.Qa.Trial.{qa_status, run_profiles, prepare_workspace}
use frankensteinz_hermes.Reviewer.Scope.{text_at}

-- What the run does outside of the process, as far as it has been attempted.
pub data Effect : Type 0 where
  call_gate record_gate call_start call_heartbeat : Effect
  write_bundle complete : String → Effect
  report_failure print_path remove_workspace : Effect

-- The handler of the `try` statement, behind the arguments of its call. An exception of its own is
-- dropped.
abbrev pub handled : Result Exn (Unit {0}) → Result Exn (Unit {0}) → List Effect
handled (err e) r = []
handled (ok u) (err e) = report_failure ∷ []
handled (ok u) (ok v) = []

-- `finally`
abbrev pub finally : Bool → List Effect
finally workspace_left = if workspace_left then remove_workspace ∷ [] else []

-- What the handler reads before its call.
abbrev pub reporting : QaJob → Reporting
reporting w = record {
  delay = lookup "retry_delay_seconds" w.ledger;
  elapsed = w.ledger_elapsed "fail";
  wall = w.repository.wall;
}

module _ (w : QaJob) where
  -- The evidence of the review and the candidate are whole.
  unfoldable pub admit : Budgeted (Unit {0})
  unfolding verify_review_bundle verify_candidate
  admit = do
    bundle ← lift (verify_review_bundle w.directory w.payload w.max_evidence)
    verify_candidate w.repository w.payload

  -- The status of the trial of an admitted candidate.
  unfoldable pub try_candidate : Budgeted String
  unfolding plan propose prepare_workspace run_profiles qa_status
  try_candidate = do
    selected ← lift (plan w.allowed w.baseline w.required (propose w) w.max_profiles)
    prepare_workspace w.repository w.source w.workspace (text_at "head_commit" w.payload)
    results ← run_profiles w.repository w.sandbox selected
    lift (ok (qa_status results))

  -- The bundle, the completion and the last `print`.
  unfoldable pub finish : String → Trace Effect
  unfolding step expect_status
  finish status = step (write_bundle status ∷ []) (w.bundle status) (λ u.
      step (complete status ∷ [])
        (expect_status w "complete" "succeeded" "qa_ledger_complete_failed")
        (λ v. record { effects = print_path ∷ []; result = ok tt }))

  -- `except QAIntegrityError`, which stands around the admission only, completes the job with a
  -- rejection.
  unfoldable pub decide : GitBudget × Result Exn (Unit {0}) → Trace Effect
  unfolding step try_candidate finish
  decide (g, err (qa_integrity_error m)) = finish "reject"
  decide (g, err e) = stop e
  decide (g, ok u) = step [] (try_candidate g).1 finish

  -- The body of the `try` statement.
  unfoldable pub body : Option Value → GitBudget → Trace Effect
  unfolding step expect_lease decide admit
  body none g = stop key_error
  body (some seconds) g = step (call_heartbeat ∷ []) (expect_lease w) (λ u. decide (admit g))

  unfoldable pub attempt : GitBudget → Trace Effect
  unfolding body lookup arguments remaining
  attempt g =
      let t = body (lookup "heartbeat_seconds" w.ledger) g in
      record {
        effects =
            t.effects
            ++ (handled (arguments remaining (reporting w)) t.result ++ finally w.workspace_left);
        result = t.result;
      }

  -- The paths of the run are new, and the repository is the top of its working tree.
  unfoldable pub check_repository : Budgeted (Unit {0})
  unfolding read_text strip
  check_repository = do
    check (not w.paths_exist) (qa_error "qa_workspace_or_output_exists")
    top ← read_text w.repository ("rev-parse" ∷ "--show-toplevel" ∷ [])
    check (w.is_toplevel (strip top)) (qa_error "source_repo_must_be_toplevel")

  unfoldable pub start : GitBudget → Result Exn (Unit {0}) → Trace Effect
  unfolding step expect_status attempt gate_answered answer_of
  start g (err e) = stop e
  start g (ok u) = step (call_gate ∷ []) (answer_of w) (λ gate.
      step (record_gate ∷ []) (gate_answered w gate) (λ v.
        step (call_start ∷ []) (expect_status w "start" "running" "qa_ledger_start_failed")
          (λ x. attempt g)))

  unfoldable pub main : GitBudget → Trace Effect
  unfolding start check_repository
  main g = let checked = check_repository g in start checked.0 checked.1
