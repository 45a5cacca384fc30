-- ===== src/Qa/Trial.antt =====
-- The clone of the candidate and the runs of the selected profiles, in `main` of
-- scripts/engineering_qa/coordinator_core.py.
use frankensteinz_hermes.Checks.Steps.{◌>>=◌, ◌>>◌, lift, check, continue_with-eq-ok, Repository}
use frankensteinz_hermes.Base.{
  false, and-eq-true, ok-injective, eq_iff, subst, sym, arith, if◌then◌else◌, ℕ, suc, String, Bool,
  true, ◌==◌, List, [], ◌∷◌, ◌≡◌, refl, ap, Result, ok, strip, All, all,
}
use frankensteinz_hermes.Python.{qa_integrity_error, lookup, Value, Exn, Dict}
use frankensteinz_hermes.Qa.Sandbox.{call_sandbox}
use frankensteinz_hermes.Qa.Git.{GitBudget, clone_detached}
use frankensteinz_hermes.Checks.{is_text}
use frankensteinz_hermes.Qa.Candidate.{Budgeted, read_text, read_git}
use frankensteinz_hermes.Worker.Calls.{Completed}

abbrev clone_command : String → String → List String
clone_command source workspace =
    "clone" ∷ "--quiet" ∷ "--no-checkout" ∷ "--local" ∷ source ∷ workspace ∷ []

abbrev checkout_command : String → List String
checkout_command head = "checkout" ∷ "--quiet" ∷ "--detach" ∷ head ∷ []

abbrev pub status_command : List String
status_command = "status" ∷ "--porcelain=v1" ∷ "--untracked-files=all" ∷ []

-- `result["status"] == "pass"`
abbrev pub is_pass : Dict → Bool
is_pass result = is_text (λ s. s == "pass") (lookup "status" result)

-- `"qa_failed" if failed else "qa_passed"`
abbrev pub status_of : Bool → String
status_of passed = if passed then "qa_passed" else "qa_failed"

unfoldable pub qa_status : List Dict → String
unfolding is_text lookup
qa_status results = status_of (all is_pass results)

status_of-passed : (b : Bool) → status_of b ≡ "qa_passed" → b ≡ true
status_of-passed true h = refl
status_of-passed false h = grind (arith, h, eq_iff "qa_failed" "qa_passed")

module _ (r : Repository) where
  -- `git.clone_detached(source, workspace, head)`
  unfoldable pub clone_candidate : String → String → String → Budgeted Completed
  unfolding clone_detached
  clone_candidate source workspace head g =
      clone_detached g source workspace head (r.elapsed g.used, r.elapsed (suc g.used)) r.wall
        (
          r.process g.used (clone_command source workspace),
          r.process (suc g.used) (checkout_command head),
        )

  unfoldable pub check_clean : Exn → Budgeted (Unit {0})
  unfolding read_git
  check_clean raised = do answer ← read_git r status_command; check answer.1.is_blank raised

  unfoldable pub prepare_workspace : String → String → String → Budgeted (Unit {0})
  unfolding clone_candidate read_text check_clean strip
  prepare_workspace source workspace head = do
    clone_candidate source workspace head
    tip ← read_text r ("rev-parse" ∷ "HEAD" ∷ [])
    check (strip tip == head) (qa_integrity_error "qa_clone_head_mismatch")
    check_clean (qa_integrity_error "qa_clone_not_clean")

  -- The loop over the selected profiles. `sandbox` is what the process of the adapter does.
  unfoldable pub run_profiles :
      (String → Result Exn (ℕ × Result Exn Value)) → List String → Budgeted (List Dict)
  unfolding call_sandbox check_clean
  run_profiles sandbox [] = lift (ok [])
  run_profiles sandbox (id ∷ ids) = do
    result ← lift (call_sandbox id (sandbox id))
    check_clean (qa_integrity_error "sandbox_modified_host_candidate_clone")
    rest ← run_profiles sandbox ids
    lift (ok (result ∷ rest))

  -- The sandbox has run the profile, and it has passed.
  abbrev pub Passes : (String → Result Exn (ℕ × Result Exn Value)) → String → Type 0
  Passes sandbox id =
      (result : Dict) × (call_sandbox id (sandbox id) ≡ ok result) × (is_pass result ≡ true)

  run_profiles-Passes :
      (sandbox : String → Result Exn (ℕ × Result Exn Value)) (ids : List String) (g : GitBudget)
      (results : List Dict)
      → (run_profiles sandbox ids g).1 ≡ ok results
      → all is_pass results ≡ true
      → All (Passes sandbox) ids
  unfolding run_profiles
  run_profiles-Passes sandbox [] g results h passed = tt
  run_profiles-Passes sandbox (id ∷ ids) g results h passed =
      let (g₁, result, e₁, h₁) = continue_with-eq-ok (g, call_sandbox id (sandbox id)) _ h in
      let (g₂, u, e₂, h₂) =
        continue_with-eq-ok
          (check_clean (qa_integrity_error "sandbox_modified_host_candidate_clone") g₁) _ h₁ in
      let (g₃, rest, e₃, h₃) = continue_with-eq-ok (run_profiles sandbox ids g₂) _ h₂ in
      let both = subst (λ xs. all is_pass xs ≡ true) (sym (ok-injective refl h₃)) passed in
      let (first, others) = and-eq-true (is_pass result) (all is_pass rest) both in
      (
        (result, ap (λ x. x.1) e₁, first),
        run_profiles-Passes sandbox ids g₂ rest (ap (λ x. x.1) e₃) others,
      )

  -- Where the status is that the trial has passed, every selected profile has been run by the
  -- sandbox and has passed.
  pub qa_status-Passes :
      (sandbox : String → Result Exn (ℕ × Result Exn Value)) (ids : List String) (g : GitBudget)
      (results : List Dict)
      → (run_profiles sandbox ids g).1 ≡ ok results
      → qa_status results ≡ "qa_passed"
      → All (Passes sandbox) ids
  unfolding qa_status
  qa_status-Passes sandbox ids g results h passed =
      run_profiles-Passes sandbox ids g results h (status_of-passed (all is_pass results) passed)
