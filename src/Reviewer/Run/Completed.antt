-- ===== src/Reviewer/Run/Completed.antt =====
-- The effects by which `main` of scripts/engineering_reviewer/reviewer.py ends a job.
use frankensteinz_hermes.Checks.Steps.{step-quiet}
use frankensteinz_hermes.Base.{
  Bool-cases, inr, inl, any, Bool, String, false, true, refl, ◌≡◌, ◌==◌, err, [], ◌∷◌,
}
use frankensteinz_hermes.Reviewer.Run.{
  decide, finish, Effect, write_bundle, complete, report_failure,
}
use frankensteinz_hermes.Reviewer.Job.{expect_status, ReviewJob}
use frankensteinz_hermes.Python.{
  type_error, attribute_error, key_error, json_decode_error, unicode_error, overflow_error,
  os_error, runtime_error, value_error, qa_integrity_error, qa_error, worker_error, gate_error,
  integrity_error, reviewer_error, Exn,
}
use frankensteinz_hermes.Reviewer.Git.{GitReader}
use frankensteinz_hermes.Reviewer.Scope.Kept.{==-≡}

-- The ledger is asked to complete the job with the verdict.
abbrev pub completes : String → Effect → Bool
completes verdict (complete v) = v == verdict
completes verdict e = false

abbrev pub reports : Effect → Bool
reports report_failure = true
reports e = false

module _ (w : ReviewJob) where
  finish-quiet :
      (verdict v : String)
      → (verdict == v) ≡ false
      → any (completes v) (finish w verdict).effects ≡ false
  unfolding finish
  finish-quiet verdict v differs =
      step-quiet (completes v) (write_bundle verdict ∷ []) (w.bundle verdict) _ refl (λ u.
        step-quiet (completes v) (complete verdict ∷ [])
          (expect_status w "complete" "succeeded" "ledger_complete_failed") _ (rw differs refl)
          (λ x. refl))

  pub finish-completes :
      (verdict v : String) → any (completes v) (finish w verdict).effects ≡ true → verdict ≡ v
  finish-completes verdict v h = elim (Bool-cases (verdict == v)) [
    | inl same ↦ ==-≡ verdict v same
    | inr differs ↦ cc (h, finish-quiet verdict v differs)
  ]

  -- An exception of the verification leads to no approval.
  pub decide-raised :
      (g : GitReader) (e : Exn) → any (completes "approve") (decide w (g, err e)).effects ≡ false
  unfolding decide
  decide-raised g (integrity_error m) = finish-quiet "reject" "approve" refl
  decide-raised g (gate_error m) = refl
  decide-raised g (worker_error m) = refl
  decide-raised g (reviewer_error m) = refl
  decide-raised g (qa_error m) = refl
  decide-raised g (qa_integrity_error m) = refl
  decide-raised g (value_error m) = refl
  decide-raised g (runtime_error m) = refl
  decide-raised g (os_error m) = refl
  decide-raised g type_error = refl
  decide-raised g attribute_error = refl
  decide-raised g key_error = refl
  decide-raised g json_decode_error = refl
  decide-raised g unicode_error = refl
  decide-raised g overflow_error = refl
