-- ===== src/Qa/Run/Passed.antt =====
-- What has been established where the QA coordinator completes its job as passed, and what it does
-- where its run fails.
use frankensteinz_hermes.Checks.Steps.{continue_with-eq-ok, step-any, any-first}
use frankensteinz_hermes.Base.{
  ◌>>◌, guard->>-eq-ok, if◌then◌else◌, ok-injective, >>=-eq-ok, All, any, Bool, List, Result,
  Option, String, guard, ap, ◌∙◌, false, true, refl, ◌≡◌, ◌==◌, ◌++◌, ok, err, some, none, [], ◌∷◌,
}
use frankensteinz_hermes.Python.{lookup, Exn, Value, Dict}
use frankensteinz_hermes.Checks.Reports.{arguments}
use frankensteinz_hermes.Qa.Git.{remaining}
use frankensteinz_hermes.Qa.Run.{
  reporting, call_gate, record_gate, call_start, call_heartbeat, handled, finally, finish, decide,
  body, attempt, start, main, admit, try_candidate, check_repository,
}
use frankensteinz_hermes.Qa.Job.{
  ask_ledger, decision_recorded, QaJob, expect_status, expect_lease, gate_answered, answer_of,
  propose,
}
use frankensteinz_hermes.Qa.Git.{GitBudget}
use frankensteinz_hermes.Qa.Selection.{plan}
use frankensteinz_hermes.Qa.Bundle.Verified.{
  verify_review_bundle-IsApproved, verify_review_bundle-IsApproved, IsBundle,
}
use frankensteinz_hermes.Qa.Trial.{qa_status-Passes, run_profiles, Passes, prepare_workspace}
use frankensteinz_hermes.Reviewer.Scope.{text_at}
use frankensteinz_hermes.Qa.Bundle.{verify_review_bundle}
use frankensteinz_hermes.Reviewer.Scope.Kept.{==-≡}
use frankensteinz_hermes.Reviewer.Candidate.Reconstructed.{IsCommit}
use frankensteinz_hermes.Qa.Candidate.{verify_candidate-IsCommit}
use frankensteinz_hermes.Qa.Run.Completed.{completes, finish-completes, decide-raised, last-quiet}

-- The gate has allowed the job; the review is approved and of this candidate, which is one commit on
-- its base at the tip of its branch; and every selected profile has passed in the sandbox.
pub record IsPassed (w : QaJob) : Type 0 where
  pub gate : Dict
  pub gate_given : answer_of w ≡ ok gate
  pub allowed : text_at "decision" gate ≡ "allow"
  pub evidence : Dict
  pub bundle : IsBundle w.directory w.payload evidence
  pub commit :
      IsCommit w.repository
        (text_at "base_commit" w.payload)
        (text_at "head_commit" w.payload)
        (text_at "branch" w.payload)
  pub selected : List String
  pub planned : plan w.allowed w.baseline w.required (propose w) w.max_profiles ≡ ok selected
  pub passed : All (Passes w.repository w.sandbox) selected

allowed_only :
    (allow t u : Bool) (e₁ e₂ e₃ : Exn)
    → (if allow then guard t e₁ else guard u e₂ >> err e₃) ≡ ok tt
    → allow ≡ true
allowed_only true t u e₁ e₂ e₃ h = refl
allowed_only false t u e₁ e₂ e₃ h =
    let (waits, raised) = guard->>-eq-ok u e₂ (err e₃) h in cc raised

module _ (w : QaJob) where
  -- What is known of a candidate that is admitted.
  abbrev IsAdmitted : Type 0
  IsAdmitted =
      (evidence : Dict) × IsBundle w.directory w.payload evidence
      × IsCommit w.repository (text_at "base_commit" w.payload) (text_at "head_commit" w.payload)
          (text_at "branch" w.payload)

  admit-IsAdmitted : (g : GitBudget) → (admit w g).1 ≡ ok tt → IsAdmitted
  unfolding admit
  admit-IsAdmitted g h =
      let (g₁, (evidence, diff), e, h₁) =
        continue_with-eq-ok (g, verify_review_bundle w.directory w.payload w.max_evidence) _ h in
      (
        evidence,
        verify_review_bundle-IsApproved w.directory w.payload w.max_evidence evidence diff
            (ap (λ x. x.1) e),
        verify_candidate-IsCommit w.repository w.payload g₁ h₁,
      )

  -- What is known of a trial that has passed.
  abbrev IsTried : Type 0
  IsTried =
      (selected : List String) × (plan w.allowed w.baseline w.required (propose w) w.max_profiles
        ≡ ok selected)
      × All (Passes w.repository w.sandbox) selected

  try_candidate-IsTried : (g : GitBudget) → (try_candidate w g).1 ≡ ok "qa_passed" → IsTried
  unfolding try_candidate
  try_candidate-IsTried g h =
      let (g₁, selected, e₁, h₁) =
        continue_with-eq-ok (g, plan w.allowed w.baseline w.required (propose w) w.max_profiles) _
          h in
      let (g₂, u, e₂, h₂) =
        continue_with-eq-ok
          (prepare_workspace w.repository w.source w.workspace (text_at "head_commit" w.payload) g₁)
          _ h₁ in
      let (g₃, results, e₃, h₃) =
        continue_with-eq-ok (run_profiles w.repository w.sandbox selected g₂) _ h₂ in
      (
        selected,
        ap (λ x. x.1) e₁,
        qa_status-Passes w.repository w.sandbox selected g₂ results (ap (λ x. x.1) e₃)
            (ok-injective refl h₃),
      )

  decide-passes :
      (s : GitBudget × Result Exn (Unit {0}))
      → any (completes "qa_passed") (decide w s).effects ≡ true
      → (s.1 ≡ ok tt) × IsTried
  unfolding decide
  decide-passes (g, ok u) h =
      let (status, tried, h₁) =
        step-any (completes "qa_passed") [] (try_candidate w g).1 (finish w) refl h in
      (refl, try_candidate-IsTried g (tried ∙ ap ok (finish-completes w status "qa_passed" h₁)))
  decide-passes (g, err e) h = cc (h, decide-raised w g e)

  body-passes :
      (o : Option Value) (g : GitBudget)
      → any (completes "qa_passed") (body w o g).effects ≡ true
      → IsAdmitted × IsTried
  unfolding body
  body-passes none g h = cc
  body-passes (some seconds) g h =
      let (u, leased, h₁) =
        step-any (completes "qa_passed") (call_heartbeat ∷ []) (expect_lease w) _ refl h in
      let (admitted, tried) = decide-passes (admit w g) h₁ in (admit-IsAdmitted g admitted, tried)

  attempt-passes :
      (g : GitBudget)
      → any (completes "qa_passed") (attempt w g).effects ≡ true
      → IsAdmitted × IsTried
  unfolding attempt
  attempt-passes g h =
      let t = body w (lookup "heartbeat_seconds" w.ledger) g in
      let called = arguments remaining (reporting w) in
      body-passes (lookup "heartbeat_seconds" w.ledger) g (
        any-first (completes "qa_passed") t.effects
          (handled called t.result ++ finally w.workspace_left) h
          (last-quiet w called t.result w.workspace_left))

  -- A decision that is no permission ends the run.
  gate_answered-allow :
      (gate : Dict) → gate_answered w gate ≡ ok tt → text_at "decision" gate ≡ "allow"
  unfolding gate_answered decision_recorded
  gate_answered-allow gate h =
      let (response, e, h₁) = >>=-eq-ok (ask_ledger w "record_gate") _ h in
      ==-≡ (text_at "decision" gate) "allow"
        (allowed_only (text_at "decision" gate == "allow") _ _ _ _ _ h₁)

  start-passes :
      (g : GitBudget) (r : Result Exn (Unit {0}))
      → any (completes "qa_passed") (start w g r).effects ≡ true
      → (gate : Dict) × (answer_of w ≡ ok gate)
        × (text_at "decision" gate ≡ "allow")
        × IsAdmitted
        × IsTried
  unfolding start
  start-passes g (err e) h = cc
  start-passes g (ok u) h =
      let (gate, given, h₁) =
        step-any (completes "qa_passed") (call_gate ∷ []) (answer_of w) _ refl h in
      let (v, recorded, h₂) =
        step-any (completes "qa_passed") (record_gate ∷ []) (gate_answered w gate) _ refl h₁ in
      let (x, started, h₃) =
        step-any (completes "qa_passed") (call_start ∷ [])
          (expect_status w "start" "running" "qa_ledger_start_failed") _ refl h₂ in
      let (admitted, tried) = attempt-passes g h₃ in
      (gate, given, gate_answered-allow gate recorded, admitted, tried)

  -- Where the ledger is asked to complete the job as passed, the gate has allowed it; the review is
  -- approved, of this candidate, and authorizes no promotion; git has named the base as the only
  -- parent of the head, which is the tip of the branch; and every profile of the plan has been run
  -- in the sandbox and has passed.
  pub main-IsPassed :
      (g : GitBudget) → any (completes "qa_passed") (main w g).effects ≡ true → IsPassed w
  unfolding main
  main-IsPassed g h =
      let (gate, given, allow, (evidence, approved, commit), (selected, planned, passes)) =
        start-passes (check_repository w g).0 (check_repository w g).1 h in
      record {
        gate = gate;
        gate_given = given;
        allowed = allow;
        evidence = evidence;
        bundle = approved;
        commit = commit;
        selected = selected;
        planned = planned;
        passed = passes;
      }
