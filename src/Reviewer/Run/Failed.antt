-- ===== src/Reviewer/Run/Failed.antt =====
-- When `main` of scripts/engineering_reviewer/reviewer.py reports a failure.
use frankensteinz_hermes.Base.{
  ◌&&◌, not, ltb, any-append, ap, ◌∙◌, ◌||◌, any, Result, Option, String, false, refl, ◌≡◌, ok, err,
  some, none, [], ◌∷◌,
}
use frankensteinz_hermes.Checks.Reports.{
  arguments, arguments-can_report, can_report, is_ok, is_present,
}
use frankensteinz_hermes.Reviewer.Git.{remaining}
use frankensteinz_hermes.Reviewer.Run.{
  reporting, handled, verified, check_repository, assess, attempt, start, main, finish, decide,
  body, call_start, call_heartbeat, write_bundle, complete,
}
use frankensteinz_hermes.Python.{
  lookup, Exn, Value, type_error, attribute_error, key_error, json_decode_error, unicode_error,
  overflow_error, os_error, runtime_error, value_error, qa_integrity_error, qa_error, worker_error,
  gate_error, integrity_error, reviewer_error,
}
use frankensteinz_hermes.Reviewer.Job.{expect_status, expect_lease, ReviewJob}
use frankensteinz_hermes.Reviewer.Git.{GitReader}
use frankensteinz_hermes.Reviewer.Run.Completed.{reports}
use frankensteinz_hermes.Reviewer.Candidate.{Candidate}
use frankensteinz_hermes.Checks.Steps.{step-quiet, step}

module _ (w : ReviewJob) where
  finish-reports : (verdict : String) → any reports (finish w verdict).effects ≡ false
  unfolding finish
  finish-reports verdict =
      step-quiet reports (write_bundle verdict ∷ []) (w.bundle verdict) _ refl (λ u.
        step-quiet reports (complete verdict ∷ [])
          (expect_status w "complete" "succeeded" "ledger_complete_failed") _ refl (λ x. refl))

  decide-reports : (s : GitReader × Result Exn Candidate) → any reports (decide w s).effects ≡ false
  unfolding decide
  decide-reports (g, ok c) = step-quiet reports [] (assess w c g).1 (finish w) refl finish-reports
  decide-reports (g, err (integrity_error m)) = finish-reports "reject"
  decide-reports (g, err (gate_error m)) = refl
  decide-reports (g, err (worker_error m)) = refl
  decide-reports (g, err (reviewer_error m)) = refl
  decide-reports (g, err (qa_error m)) = refl
  decide-reports (g, err (qa_integrity_error m)) = refl
  decide-reports (g, err (value_error m)) = refl
  decide-reports (g, err (runtime_error m)) = refl
  decide-reports (g, err (os_error m)) = refl
  decide-reports (g, err type_error) = refl
  decide-reports (g, err attribute_error) = refl
  decide-reports (g, err key_error) = refl
  decide-reports (g, err json_decode_error) = refl
  decide-reports (g, err unicode_error) = refl
  decide-reports (g, err overflow_error) = refl

  body-reports : (o : Option Value) (g : GitReader) → any reports (body w o g).effects ≡ false
  unfolding body
  body-reports none g = refl
  body-reports (some seconds) g =
      step-quiet reports (call_heartbeat ∷ []) (expect_lease w) _ refl
        (λ u. decide-reports (verified w g))

  handled-reports :
      (a r : Result Exn (Unit {0})) → any reports (handled a r) ≡ (not (is_ok r) && is_ok a)
  handled-reports (err x) (err e) = refl
  handled-reports (err x) (ok v) = refl
  handled-reports (ok u) (err e) = refl
  handled-reports (ok u) (ok v) = refl

  called : is_ok (arguments remaining (reporting w)) ≡ can_report (reporting w)
  unfolding remaining
  called =
      arguments-can_report remaining (reviewer_error "wall_clock_budget_exhausted") (reporting w)
        (λ elapsed wall. refl)

  attempt-reports :
      (g : GitReader)
      → any reports (attempt w g).effects
        ≡ (not (is_ok (attempt w g).result) && can_report (reporting w))
  unfolding attempt
  attempt-reports g =
      let seconds = lookup "heartbeat_seconds" w.ledger in
      let t = body w seconds g in
      let a = arguments remaining (reporting w) in
      any-append reports t.effects (handled a t.result)
      ∙ (ap (λ b. b || any reports (handled a t.result)) (body-reports seconds g)
          ∙ (handled-reports a t.result ∙ ap (λ b. not (is_ok t.result) && b) called))

  -- What a failure of the run leads to, behind the check of the repository and the start.
  start-reports :
      (g : GitReader) (checked : Result Exn (Unit {0}))
      → any reports (start w g checked).effects ≡ (
          is_ok checked
          && is_ok (expect_status w "start" "running" "ledger_start_failed")
          && not (is_ok (start w g checked).result)
          && can_report (reporting w))
  unfolding start step
  start-reports g (err e) = refl
  start-reports g (ok u) =
      go (expect_status w "start" "running" "ledger_start_failed") (attempt-reports g)
    where
      go :
          (r : Result Exn (Unit {0}))
          → any reports (attempt w g).effects
            ≡ (not (is_ok (attempt w g).result) && can_report (reporting w))
          → any reports (step (call_start ∷ []) r (λ v. attempt w g)).effects ≡ (
              is_ok r
              && not (is_ok (step (call_start ∷ []) r (λ v. attempt w g)).result)
              && can_report (reporting w))
      go (err e) h = refl
      go (ok v) h = h

  -- A failure is reported to the ledger exactly where the repository has passed its check, the ledger
  -- has started the job, the run ends in an exception, the config has a retry delay, and the handler
  -- is reached before the wall clock is exhausted: it is not reported in any other case.
  pub main-failure :
      (g : GitReader)
      → any reports (main w g).effects ≡ (
          is_ok (check_repository w g).1
          && is_ok (expect_status w "start" "running" "ledger_start_failed")
          && not (is_ok (main w g).result)
          && (is_present (lookup "retry_delay_seconds" w.ledger)
              && ltb (w.ledger_elapsed "fail") w.repository.wall))
  unfolding main
  main-failure g = start-reports (check_repository w g).0 (check_repository w g).1
