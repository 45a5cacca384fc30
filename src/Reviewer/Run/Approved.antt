-- ===== src/Reviewer/Run/Approved.antt =====
-- What has been established where the reviewer completes its job with an approval, and what it does
-- where the run fails.
use frankensteinz_hermes.Checks.Steps.{step-any, any-first, continue_with-eq-ok}
use frankensteinz_hermes.Base.{
  Option, ◌∙◌, All, any, List, Result, ap, false, true, refl, ◌≡◌, ok, err, some, none, [], ◌∷◌,
}
use frankensteinz_hermes.Checks.Reports.{arguments}
use frankensteinz_hermes.Reviewer.Git.{remaining}
use frankensteinz_hermes.Reviewer.Run.{
  reporting, check_repository, start, main, handled, decide, body, attempt, verified, finish,
  assess, call_start, call_heartbeat,
}
use frankensteinz_hermes.Reviewer.Job.{expect_status, expect_lease, ReviewJob}
use frankensteinz_hermes.Reviewer.Candidate.{Candidate}
use frankensteinz_hermes.Python.{lookup, reviewer_error, Value, Exn, Dict}
use frankensteinz_hermes.Reviewer.Context.{decoded_or, build_context, Excerpt}
use frankensteinz_hermes.Reviewer.Git.{GitReader}
use frankensteinz_hermes.Reviewer.Evidence.Verified.{verify_manifest-IsHandedOver, IsHandedOver}
use frankensteinz_hermes.Reviewer.Candidate.Reconstructed.{
  reconstruct_candidate-IsCandidate, IsCandidate,
}
use frankensteinz_hermes.Reviewer.Evidence.{verify_manifest}
use frankensteinz_hermes.Reviewer.Findings.{validate_model_response, Review}
use frankensteinz_hermes.Reviewer.Model.{call_model}
use frankensteinz_hermes.Reviewer.Model.Answered.{call_model-validated, IsAnswer}
use frankensteinz_hermes.Reviewer.Verdict.{derive_verdict}
use frankensteinz_hermes.Reviewer.Context.Scoped.{build_context-InScope, InScope}
use frankensteinz_hermes.Reviewer.Run.Completed.{completes, finish-completes, decide-raised}

-- The verdict is an approval, of the candidate that this job names and that the evidence of the
-- implementation describes, by a review of a context in its scope.
pub record IsApproval (w : ReviewJob) : Type 0 where
  pub implementation : Dict
  pub handed_over : IsHandedOver w.directory w.payload implementation
  pub candidate : Candidate
  pub is_candidate : IsCandidate w.repository w.payload implementation w.config w.max_diff candidate
  pub context : List Excerpt
  pub built :
      (g : GitReader) × ((build_context w.repository w.payload w.config w.max_context g).1
        ≡ ok context)
  pub in_scope : All (InScope w.repository w.payload w.config w.max_context) context
  pub value : Value
  pub review : Review
  pub answered : IsAnswer w.model_process value
  pub reviewed :
      call_model w.model
        (w.prompt_bytes candidate context)
        candidate.changed_paths
        w.model_elapsed
        w.repository.wall
        w.model_process
      ≡ ok review
  pub validated :
      validate_model_response w.model.max_findings candidate.changed_paths value ≡ ok review
  pub approved : derive_verdict review.findings w.policy ≡ ok "approve"

module _ (w : ReviewJob) where
  -- What is known of a candidate that is verified.
  abbrev IsVerified : Candidate → Type 0
  IsVerified c =
      (implementation : Dict) × IsHandedOver w.directory w.payload implementation
      × IsCandidate w.repository w.payload implementation w.config w.max_diff c

  verified-IsVerified : (g : GitReader) (c : Candidate) → (verified w g).1 ≡ ok c → IsVerified c
  unfolding verified
  verified-IsVerified g c h =
      let (g₁, (manifest, implementation), e, h₁) =
        continue_with-eq-ok (g, verify_manifest w.directory w.payload) _ h in
      (
        implementation,
        (verify_manifest-IsHandedOver w.directory w.payload manifest implementation
            (ap (λ x. x.1) e)).0,
        reconstruct_candidate-IsCandidate w.repository w.payload implementation w.config w.max_diff
            g₁ c h₁,
      )

  -- What is known where the verdict is an approval.
  abbrev IsAssessed : Candidate → Type 0
  IsAssessed c =
      (context : List Excerpt) × ((g : GitReader) × ((build_context w.repository w.payload w.config
            w.max_context g).1
          ≡ ok context))
      × All (InScope w.repository w.payload w.config w.max_context) context
      × ((value : Value) × (review : Review) × (call_model w.model (w.prompt_bytes c context)
              c.changed_paths w.model_elapsed w.repository.wall w.model_process
            ≡ ok review)
          × IsAnswer w.model_process value
          × (validate_model_response w.model.max_findings c.changed_paths value ≡ ok review)
          × (derive_verdict review.findings w.policy ≡ ok "approve"))

  assess-IsAssessed :
      (c : Candidate) (g : GitReader) → (assess w c g).1 ≡ ok "approve" → IsAssessed c
  unfolding assess
  assess-IsAssessed c g h =
      let (g₁, context, e₁, h₁) =
        continue_with-eq-ok (build_context w.repository w.payload w.config w.max_context g) _ h in
      let (g₂, diff, e₂, h₂) =
        continue_with-eq-ok
          (g₁, decoded_or (reviewer_error "reconstructed_diff_not_utf8") c.diff.text) _ h₁ in
      let (g₃, review, e₃, h₃) =
        continue_with-eq-ok
          (
            g₂,
            call_model w.model (w.prompt_bytes c context) c.changed_paths w.model_elapsed
                w.repository.wall w.model_process,
          )
          _ h₂ in
      let (value, answered, validated) =
        call_model-validated w.model (w.prompt_bytes c context) c.changed_paths w.model_elapsed
          w.repository.wall w.model_process review (ap (λ x. x.1) e₃) in
      (
        context,
        (g, ap (λ x. x.1) e₁),
        (build_context-InScope w.repository w.payload w.config w.max_context g context
            (ap (λ x. x.1) e₁)).0,
        (value, review, ap (λ x. x.1) e₃, answered, validated, h₃),
      )

  decide-approves :
      (s : GitReader × Result Exn Candidate)
      → any (completes "approve") (decide w s).effects ≡ true
      → (c : Candidate) × (s.1 ≡ ok c) × IsAssessed c
  unfolding decide
  decide-approves (g, ok c) h =
      let (verdict, assessed, h₁) =
        step-any (completes "approve") [] (assess w c g).1 (finish w) refl h in
      (c, refl, assess-IsAssessed c g (assessed ∙ ap ok (finish-completes w verdict "approve" h₁)))
  decide-approves (g, err e) h = cc (h, decide-raised w g e)

  handled-quiet : (a r : Result Exn (Unit {0})) → any (completes "approve") (handled a r) ≡ false
  handled-quiet (err x) r = refl
  handled-quiet (ok u) (err e) = refl
  handled-quiet (ok u) (ok v) = refl

  body-approves :
      (o : Option Value) (g : GitReader)
      → any (completes "approve") (body w o g).effects ≡ true
      → (c : Candidate) × IsVerified c × IsAssessed c
  unfolding body
  body-approves none g h = cc
  body-approves (some seconds) g h =
      let (u, leased, h₁) =
        step-any (completes "approve") (call_heartbeat ∷ []) (expect_lease w) _ refl h in
      let (c, e, assessed) = decide-approves (verified w g) h₁ in
      (c, verified-IsVerified g c e, assessed)

  attempt-approves :
      (g : GitReader)
      → any (completes "approve") (attempt w g).effects ≡ true
      → (c : Candidate) × IsVerified c × IsAssessed c
  unfolding attempt
  attempt-approves g h =
      let t = body w (lookup "heartbeat_seconds" w.ledger) g in
      let called = arguments remaining (reporting w) in
      body-approves (lookup "heartbeat_seconds" w.ledger) g (
        any-first (completes "approve") t.effects (handled called t.result) h
          (handled-quiet called t.result))

  start-approves :
      (g : GitReader) (r : Result Exn (Unit {0}))
      → any (completes "approve") (start w g r).effects ≡ true
      → (c : Candidate) × IsVerified c × IsAssessed c
  unfolding start
  start-approves g (err e) h = cc
  start-approves g (ok u) h =
      let (v, started, h₁) =
        step-any (completes "approve") (call_start ∷ [])
          (expect_status w "start" "running" "ledger_start_failed") _ refl h in
      attempt-approves g h₁

  -- Where the ledger is asked to complete the job with an approval, the evidence of the
  -- implementation has the digests that the job names and was handed to the reviewer; the candidate
  -- is one commit on the base at the tip of the branch, with changes in the scope of the job that
  -- the evidence describes; the context is the one that has been built from the job, and every file
  -- of it is in the scope; and the verdict is the one derived from what the process of the model has
  -- printed, validated against the changed paths.
  pub main-IsApproval :
      (g : GitReader) → any (completes "approve") (main w g).effects ≡ true → IsApproval w
  unfolding main
  main-IsApproval g h =
      let (
        c,
        (implementation, handed, whole),
        (context, built, scoped, (value, review, reviewed, answered, valid, approved)),
      ) =
        start-approves (check_repository w g).0 (check_repository w g).1 h in
      record {
        implementation = implementation;
        handed_over = handed;
        candidate = c;
        is_candidate = whole;
        context = context;
        built = built;
        in_scope = scoped;
        value = value;
        review = review;
        answered = answered;
        reviewed = reviewed;
        validated = valid;
        approved = approved;
      }
