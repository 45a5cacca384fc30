-- ===== src/Reviewer/Run.antt =====
-- `main` of scripts/engineering_reviewer/reviewer.py after its arguments are read and the config and
-- the envelope are validated: which calls it makes, in which order, and how it ends.
pub mod Rejected
pub mod Completed
pub mod Approved
pub mod Failed
use frankensteinz_hermes.Checks.Steps.{
  stop, step, Trace, ◌>>=◌, ◌>>◌, continue_with, lift, check, Repository, Output,
}
use frankensteinz_hermes.Reviewer.Reading.{Reads, read_text}
use frankensteinz_hermes.Base.{
  ℕ, String, Bool, true, false, not, ◌==◌, ◌<>◌, List, [], ◌∷◌, ◌++◌, Option, none, some, Result,
  ok, err, guard, strip,
}
use frankensteinz_hermes.Python.{
  reviewer_error, lookup, Value, Exn, null, key_error, integrity_error,
}
use frankensteinz_hermes.Reviewer.Job.{expect_status, expect_lease, ReviewJob}
use frankensteinz_hermes.Checks.Reports.{Reporting, arguments}
use frankensteinz_hermes.Reviewer.Git.{remaining, GitReader}
use frankensteinz_hermes.Reviewer.Context.{decoded_or, build_context}
use frankensteinz_hermes.Reviewer.Evidence.{verify_manifest}
use frankensteinz_hermes.Reviewer.Candidate.{reconstruct_candidate, Candidate}
use frankensteinz_hermes.Reviewer.Model.{call_model}
use frankensteinz_hermes.Reviewer.Verdict.{derive_verdict}

-- What the run does outside of the process, as far as it has been attempted.
pub data Effect : Type 0 where
  call_start call_heartbeat : Effect
  write_bundle complete : String → Effect
  report_failure print_path : Effect

-- The handler of the `try` statement, behind the arguments of its call. An exception of its own is
-- dropped.
abbrev pub handled : Result Exn (Unit {0}) → Result Exn (Unit {0}) → List Effect
handled (err e) r = []
handled (ok u) (err e) = report_failure ∷ []
handled (ok u) (ok v) = []

-- What the handler reads before its call.
abbrev pub reporting : ReviewJob → Reporting
reporting w = record {
  delay = lookup "retry_delay_seconds" w.ledger;
  elapsed = w.ledger_elapsed "fail";
  wall = w.repository.wall;
}

module _ (w : ReviewJob) where
  -- The candidate, where the evidence and the candidate are whole.
  unfoldable pub verified : Reads Candidate
  unfolding verify_manifest reconstruct_candidate
  verified = do
    files ← lift (verify_manifest w.directory w.payload)
    reconstruct_candidate w.repository w.payload files.1 w.config w.max_diff

  -- The verdict on it.
  unfoldable pub assess : Candidate → Reads String
  unfolding build_context call_model derive_verdict
  assess c = do
    context ← build_context w.repository w.payload w.config w.max_context
    diff ← lift (decoded_or (reviewer_error "reconstructed_diff_not_utf8") c.diff.text)
    review ← lift (
        call_model w.model (w.prompt_bytes c context) c.changed_paths w.model_elapsed
          w.repository.wall w.model_process)
    lift (derive_verdict review.findings w.policy)

  -- The bundle, the completion and the last `print`.
  unfoldable pub finish : String → Trace Effect
  unfolding step expect_status
  finish verdict = step (write_bundle verdict ∷ []) (w.bundle verdict) (λ u.
      step (complete verdict ∷ []) (expect_status w "complete" "succeeded" "ledger_complete_failed")
        (λ v. record { effects = print_path ∷ []; result = ok tt }))

  -- `except IntegrityError` completes the job with a rejection.
  unfoldable pub decide : GitReader × Result Exn Candidate → Trace Effect
  unfolding step assess finish
  decide (g, err (integrity_error m)) = finish "reject"
  decide (g, err e) = stop e
  decide (g, ok c) = step [] (assess c g).1 finish

  -- The body of the `try` statement.
  unfoldable pub body : Option Value → GitReader → Trace Effect
  unfolding step expect_lease decide verified
  body none g = stop key_error
  body (some seconds) g = step (call_heartbeat ∷ []) (expect_lease w) (λ u. decide (verified g))

  unfoldable pub attempt : GitReader → Trace Effect
  unfolding body lookup arguments remaining
  attempt g =
      let t = body (lookup "heartbeat_seconds" w.ledger) g in
      record {
        effects = t.effects ++ handled (arguments remaining (reporting w)) t.result;
        result = t.result;
      }

  -- The repository that the arguments name is the top of its working tree.
  unfoldable pub check_repository : Reads (Unit {0})
  unfolding read_text strip
  check_repository = do
    check (not w.output_exists) (reviewer_error "review_output_already_exists")
    top ← read_text w.repository ("rev-parse" ∷ "--show-toplevel" ∷ []) "source_repo"
    check (w.is_toplevel (strip top)) (reviewer_error "source_repo_must_be_toplevel")

  unfoldable pub start : GitReader → Result Exn (Unit {0}) → Trace Effect
  unfolding step expect_status attempt
  start g (err e) = stop e
  start g (ok u) =
      step (call_start ∷ []) (expect_status w "start" "running" "ledger_start_failed")
        (λ v. attempt g)

  unfoldable pub main : GitReader → Trace Effect
  unfolding start check_repository
  main g = let checked = check_repository g in start checked.0 checked.1
