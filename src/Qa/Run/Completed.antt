-- ===== src/Qa/Run/Completed.antt =====
-- The effects by which `main` of scripts/engineering_qa/coordinator_core.py ends a job.
use frankensteinz_hermes.Checks.Steps.{step-quiet}
use frankensteinz_hermes.Base.{
  Bool-cases, any, Bool, Result, String, inr, inl, false, true, refl, ◌≡◌, ◌==◌, ◌++◌, ok, err, [],
  ◌∷◌,
}
use frankensteinz_hermes.Python.{
  Exn, type_error, attribute_error, key_error, json_decode_error, unicode_error, overflow_error,
  os_error, runtime_error, value_error, qa_integrity_error, qa_error, worker_error, gate_error,
  integrity_error, reviewer_error,
}
use frankensteinz_hermes.Qa.Run.{write_bundle, complete, Effect, handled, finally, finish, decide}
use frankensteinz_hermes.Qa.Job.{QaJob, expect_status}
use frankensteinz_hermes.Qa.Git.{GitBudget}
use frankensteinz_hermes.Reviewer.Scope.Kept.{==-≡}

-- The ledger is asked to complete the job with the status.
abbrev pub completes : String → Effect → Bool
completes status (complete s) = s == status
completes status e = false

module _ (w : QaJob) where
  finish-quiet :
      (status s : String)
      → (status == s) ≡ false
      → any (completes s) (finish w status).effects ≡ false
  unfolding finish
  finish-quiet status s differs =
      step-quiet (completes s) (write_bundle status ∷ []) (w.bundle status) _ refl (λ u.
        step-quiet (completes s) (complete status ∷ [])
          (expect_status w "complete" "succeeded" "qa_ledger_complete_failed") _ (rw differs refl)
          (λ x. refl))

  pub finish-completes :
      (status s : String) → any (completes s) (finish w status).effects ≡ true → status ≡ s
  finish-completes status s h = elim (Bool-cases (status == s)) [
    | inl same ↦ ==-≡ status s same
    | inr differs ↦ cc (h, finish-quiet status s differs)
  ]

  -- An exception of the admission leads to no completion as passed.
  pub decide-raised :
      (g : GitBudget) (e : Exn) → any (completes "qa_passed") (decide w (g, err e)).effects ≡ false
  unfolding decide
  decide-raised g (qa_integrity_error m) = finish-quiet "reject" "qa_passed" refl
  decide-raised g (gate_error m) = refl
  decide-raised g (worker_error m) = refl
  decide-raised g (reviewer_error m) = refl
  decide-raised g (integrity_error m) = refl
  decide-raised g (qa_error m) = refl
  decide-raised g (value_error m) = refl
  decide-raised g (runtime_error m) = refl
  decide-raised g (os_error m) = refl
  decide-raised g type_error = refl
  decide-raised g attribute_error = refl
  decide-raised g key_error = refl
  decide-raised g json_decode_error = refl
  decide-raised g unicode_error = refl
  decide-raised g overflow_error = refl

  pub last-quiet :
      (a r : Result Exn (Unit {0})) (b : Bool)
      → any (completes "qa_passed") (handled a r ++ finally b) ≡ false
  last-quiet (err x) r true = refl
  last-quiet (err x) r false = refl
  last-quiet (ok u) (err e) true = refl
  last-quiet (ok u) (err e) false = refl
  last-quiet (ok u) (ok v) true = refl
  last-quiet (ok u) (ok v) false = refl
