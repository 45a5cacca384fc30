-- ===== src/Qa/Candidate.antt =====
-- `verify_candidate` of scripts/engineering_qa/coordinator_core.py, and its readings of git.
use frankensteinz_hermes.Checks.Steps.{
  ◌>>=◌, ◌>>◌, lift, check, continue_with-eq-ok, Steps, Repository, Output, with_output,
  with_output-ok,
}
use frankensteinz_hermes.Base.{
  String, true, ◌==◌, ◌<>◌, List, [], ◌∷◌, ◌≡◌, ap, ◌∙◌, Result, ok, strip, guard-eq-ok,
}
use frankensteinz_hermes.Python.{Exn, qa_integrity_error, Dict}
use frankensteinz_hermes.Qa.Git.{spend, run, read, charge, GitBudget}
use frankensteinz_hermes.Worker.Calls.{Completed, is_zero}
use frankensteinz_hermes.Paths.Patch.{words}
use frankensteinz_hermes.Reviewer.Candidate.Reconstructed.{history_of, tip_of, Said, IsCommit}
use frankensteinz_hermes.Reviewer.Scope.{text_at, equal_texts}
use frankensteinz_hermes.Reviewer.Scope.Kept.{equal_texts-≡, ==-≡}

abbrev pub Budgeted : Type 0 → Type 0
Budgeted A = Steps GitBudget A

abbrev pub kept_output :
    GitBudget × Result Exn Completed → Output → GitBudget × Result Exn (Completed × Output)
kept_output (g, r) output = (g, with_output output r)

module _ (r : Repository) where
  -- `git.read(…, integrity=True)`
  unfoldable pub read_git : List String → Budgeted (Completed × Output)
  unfolding read
  read_git args g =
      kept_output (read g args true (r.elapsed g.used) r.wall (r.process g.used args))
        (r.output g.used args)

  -- `git.read(…, integrity=True).decode()`
  unfoldable pub read_text : List String → Budgeted String
  unfolding read_git
  read_text args = do answer ← read_git args; lift answer.1.text

  -- A pass of the loop over `("base", base), ("head", head)`.
  unfoldable pub resolve : String → String → Budgeted (Unit {0})
  unfolding read_text strip
  resolve name sha = do
    resolved ← read_text ("rev-parse" ∷ "--verify" ∷ (sha <> "^{commit}") ∷ [])
    check (strip resolved == sha) (qa_integrity_error (name <> "_commit_mismatch"))

  unfoldable pub check_branch : String → String → Budgeted (Unit {0})
  unfolding read_text strip
  check_branch branch head = do
    tip ← read_text ("rev-parse" ∷ "--verify" ∷ ("refs/heads/" <> (branch <> "^{commit}")) ∷ [])
    check (strip tip == head) (qa_integrity_error "candidate_branch_head_mismatch")

  -- A command that has run before it is charged, whatever the budget and the clock.
  unfoldable pub run_uncharged : List String → Budgeted Completed
  unfolding run
  run_uncharged args g = (g, run ("git" ∷ args) 2000000 (r.process g.used args))

  -- `git._charge()`
  unfoldable pub charge_budget : Budgeted (Unit {0})
  unfolding charge
  charge_budget g = (spend g, charge g)

  unfoldable pub check_ancestor : String → String → Budgeted (Unit {0})
  unfolding run_uncharged charge_budget
  check_ancestor base head = do
    c ← run_uncharged ("merge-base" ∷ "--is-ancestor" ∷ base ∷ head ∷ [])
    charge_budget
    check (is_zero c.returncode) (qa_integrity_error "candidate_base_not_ancestor")

  unfoldable pub check_parent : String → String → Budgeted (Unit {0})
  unfolding read_text strip words
  check_parent base head = do
    parents ← read_text ("rev-list" ∷ "--parents" ∷ "-n" ∷ "1" ∷ head ∷ [])
    check (equal_texts (words parents) (head ∷ base ∷ []))
        (qa_integrity_error "candidate_history_changed")

  unfoldable pub verify_candidate : Dict → Budgeted (Unit {0})
  unfolding resolve check_branch check_ancestor check_parent
  verify_candidate payload =
      let base = text_at "base_commit" payload in
      let head = text_at "head_commit" payload in
      do
        resolve "base" base
        resolve "head" head
        check_branch (text_at "branch" payload) head
        check_ancestor base head
        check_parent base head

  read_text-Said :
      (args : List String) (g : GitBudget) (text : String)
      → (read_text args g).1 ≡ ok text
      → Said r args text
  unfolding read_text read_git
  read_text-Said args g text h =
      let (g₁, (c, o), e, h₁) = continue_with-eq-ok (read_git args g) _ h in
      let same = with_output-ok (r.output g.used args) _ c o (ap (λ x. x.1) e) in
      (g.used, ap (λ p. p.text) same ∙ h₁)

  -- The candidate that the job names is at the tip of its branch, and git has named the base as its
  -- only parent.
  pub verify_candidate-IsCommit :
      (payload : Dict) (g : GitBudget)
      → (verify_candidate payload g).1 ≡ ok tt
      → IsCommit r
          (text_at "base_commit" payload)
          (text_at "head_commit" payload)
          (text_at "branch" payload)
  unfolding verify_candidate check_branch check_parent
  verify_candidate-IsCommit payload g h =
      let base = text_at "base_commit" payload in
      let head = text_at "head_commit" payload in
      let branch = text_at "branch" payload in
      let (g₁, u₁, e₁, h₁) = continue_with-eq-ok (resolve "base" base g) _ h in
      let (g₂, u₂, e₂, h₂) = continue_with-eq-ok (resolve "head" head g₁) _ h₁ in
      let (g₃, u₃, e₃, h₃) = continue_with-eq-ok (check_branch branch head g₂) _ h₂ in
      let (g₄, u₄, e₄, h₄) = continue_with-eq-ok (check_ancestor base head g₃) _ h₃ in
      let (g₅, tip, e₅, h₅) =
        continue_with-eq-ok (read_text (tip_of branch) g₂) _ (ap (λ x. x.1) e₃) in
      let (g₆, history, e₆, h₆) = continue_with-eq-ok (read_text (history_of head) g₄) _ h₄ in
      record {
        tip = tip;
        tip_said = read_text-Said (tip_of branch) g₂ tip (ap (λ x. x.1) e₅);
        tip_head = ==-≡ (strip tip) head (guard-eq-ok (strip tip == head) _ h₅);
        history = history;
        history_said = read_text-Said (history_of head) g₄ history (ap (λ x. x.1) e₆);
        one_parent =
            equal_texts-≡ (words history) (head ∷ base ∷ [])
              (guard-eq-ok (equal_texts (words history) (head ∷ base ∷ [])) _ h₆);
      }
