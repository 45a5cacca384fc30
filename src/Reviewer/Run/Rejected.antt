-- ===== src/Reviewer/Run/Rejected.antt =====
-- When `main` of scripts/engineering_reviewer/reviewer.py rejects a candidate.
use frankensteinz_hermes.Checks.Reports.{arguments}
use frankensteinz_hermes.Checks.Steps.{step-any, any-first, continue_with-eq-ok}
use frankensteinz_hermes.Reviewer.Candidate.{Candidate}
use frankensteinz_hermes.Reviewer.Context.{build_context, decoded_or}
use frankensteinz_hermes.Reviewer.Git.{GitReader, remaining}
use frankensteinz_hermes.Reviewer.Job.{expect_status, expect_lease, ReviewJob}
use frankensteinz_hermes.Reviewer.Model.{call_model}
use frankensteinz_hermes.Reviewer.Run.{
  call_start, call_heartbeat, handled, reporting, verified, check_repository, assess, attempt, body,
  decide, finish, start, main,
}
use frankensteinz_hermes.Reviewer.Run.Completed.{completes, finish-completes}
use frankensteinz_hermes.Reviewer.Verdict.{
  reaches, derive_verdict, by_mediums, mediums, threshold_of, is_serious,
}
use frankensteinz_hermes.Python.{
  Exn, Value, lookup, reviewer_error, integrity_error, type_error, attribute_error, key_error,
  json_decode_error, unicode_error, overflow_error, os_error, runtime_error, value_error,
  qa_integrity_error, qa_error, worker_error, gate_error, Dict,
}
use frankensteinz_hermes.Reviewer.Findings.{Finding}
use frankensteinz_hermes.Base.{
  ◌>>=◌, if◌then◌else◌, map, Bool, map, if◌then◌else◌, >>=-eq-ok, ok-injective, eq_iff, any, List,
  Result, Option, String, ap, ◌∙◌, arith, false, true, none, some, err, ok, refl, [], ◌≢◌, ◌≡◌, ◌∷◌,
}

changes_ne_reject : ◌≢◌ {A = String} "changes_required" "reject"
changes_ne_reject h = grind (arith, h, eq_iff "changes_required" "reject")

approve_ne_reject : ◌≢◌ {A = String} "approve" "reject"
approve_ne_reject h = grind (arith, h, eq_iff "approve" "reject")

-- The findings of the model never lead to a rejection.
derive_verdict-ne-reject :
    (findings : List Finding) (policy : Dict) → derive_verdict findings policy ≢ ok "reject"
unfolding derive_verdict
derive_verdict-ne-reject findings policy h = go (is_serious (map (λ f. f.severity) findings)) h
  where
    neither : (b : Bool) → ◌≢◌ {A = String} (if b then "changes_required" else "approve") "reject"
    neither true = changes_ne_reject
    neither false = approve_ne_reject

    counted : Result Exn String
    counted = threshold_of policy >>= λ threshold.
        ok (by_mediums (mediums (map (λ f. f.severity) findings)) threshold)

    go : (b : Bool) → (if b then ok "changes_required" else counted) ≢ ok "reject"
    go true h = changes_ne_reject (ok-injective refl h)
    go false h =
        let (threshold, e, h₁) = >>=-eq-ok (threshold_of policy) _ h in
        neither (reaches (mediums (map (λ f. f.severity) findings)) threshold)
          (ok-injective refl h₁)

module _ (w : ReviewJob) where
  -- The verification of the candidate has raised `IntegrityError`.
  abbrev pub IsBroken : GitReader → Type 0
  IsBroken g = (m : String) × ((verified w g).1 ≡ err (integrity_error m))

  assess-ne-reject : (c : Candidate) (g : GitReader) → (assess w c g).1 ≢ ok "reject"
  unfolding assess
  assess-ne-reject c g h =
      let (g₁, context, e₁, h₁) =
        continue_with-eq-ok (build_context w.repository w.payload w.config w.max_context g) _ h in
      let (g₂, diff, e₂, h₂) =
        continue_with-eq-ok
          (g₁, decoded_or (reviewer_error "reconstructed_diff_not_utf8") c.diff.text) _ h₁ in
      let (g₃, review, e₃, h₃) =
        continue_with-eq-ok
          (
            g₂,
            call_model w.model (w.prompt_bytes c context) c.changed_paths w.model_elapsed
                w.repository.wall w.model_process,
          )
          _ h₂ in
      derive_verdict-ne-reject review.findings w.policy h₃

  decide-rejects :
      (s : GitReader × Result Exn Candidate)
      → any (completes "reject") (decide w s).effects ≡ true
      → (m : String) × (s.1 ≡ err (integrity_error m))
  unfolding decide
  decide-rejects (g, ok c) h =
      let (verdict, assessed, h₁) =
        step-any (completes "reject") [] (assess w c g).1 (finish w) refl h in
      absurd (assess-ne-reject c g (assessed ∙ ap ok (finish-completes w verdict "reject" h₁)))
  decide-rejects (g, err (integrity_error m)) h = (m, refl)
  decide-rejects (g, err (gate_error m)) h = cc
  decide-rejects (g, err (worker_error m)) h = cc
  decide-rejects (g, err (reviewer_error m)) h = cc
  decide-rejects (g, err (qa_error m)) h = cc
  decide-rejects (g, err (qa_integrity_error m)) h = cc
  decide-rejects (g, err (value_error m)) h = cc
  decide-rejects (g, err (runtime_error m)) h = cc
  decide-rejects (g, err (os_error m)) h = cc
  decide-rejects (g, err type_error) h = cc
  decide-rejects (g, err attribute_error) h = cc
  decide-rejects (g, err key_error) h = cc
  decide-rejects (g, err json_decode_error) h = cc
  decide-rejects (g, err unicode_error) h = cc
  decide-rejects (g, err overflow_error) h = cc

  handled-quiet : (a r : Result Exn (Unit {0})) → any (completes "reject") (handled a r) ≡ false
  handled-quiet (err x) r = refl
  handled-quiet (ok u) (err e) = refl
  handled-quiet (ok u) (ok v) = refl

  body-rejects :
      (o : Option Value) (g : GitReader)
      → any (completes "reject") (body w o g).effects ≡ true
      → IsBroken g
  unfolding body
  body-rejects none g h = cc
  body-rejects (some seconds) g h =
      let (u, leased, h₁) =
        step-any (completes "reject") (call_heartbeat ∷ []) (expect_lease w) _ refl h in
      decide-rejects (verified w g) h₁

  attempt-rejects :
      (g : GitReader) → any (completes "reject") (attempt w g).effects ≡ true → IsBroken g
  unfolding attempt
  attempt-rejects g h =
      let t = body w (lookup "heartbeat_seconds" w.ledger) g in
      let called = arguments remaining (reporting w) in
      body-rejects (lookup "heartbeat_seconds" w.ledger) g (
        any-first (completes "reject") t.effects (handled called t.result) h
          (handled-quiet called t.result))

  start-rejects :
      (g : GitReader) (r : Result Exn (Unit {0}))
      → any (completes "reject") (start w g r).effects ≡ true
      → IsBroken g
  unfolding start
  start-rejects g (err e) h = cc
  start-rejects g (ok u) h =
      let (v, started, h₁) =
        step-any (completes "reject") (call_start ∷ [])
          (expect_status w "start" "running" "ledger_start_failed") _ refl h in
      attempt-rejects g h₁

  -- The ledger is asked to complete the job with a rejection only where the verification of the
  -- evidence and of the candidate has raised `IntegrityError`: neither the findings of the model nor
  -- any other exception lead to one.
  pub main-IsBroken :
      (g : GitReader)
      → any (completes "reject") (main w g).effects ≡ true
      → IsBroken (check_repository w g).0
  unfolding main
  main-IsBroken g h = start-rejects (check_repository w g).0 (check_repository w g).1 h
