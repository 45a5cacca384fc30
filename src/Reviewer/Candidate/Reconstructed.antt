-- ===== src/Reviewer/Candidate/Reconstructed.antt =====
-- What `reconstruct_candidate` of scripts/engineering_reviewer/reviewer.py guarantees.
use frankensteinz_hermes.Checks.Steps.{with_output-ok, continue_with-eq-ok, Repository, Output}
use frankensteinz_hermes.Reviewer.Reading.{output_of, ask, require, read_text}
use frankensteinz_hermes.Base.{
  All, not-eq-true, leb→le, not, leb, is_empty, subst, false, ◌≤◌, ◌+◌, ok-injective, guard-eq-ok,
  strip, ◌<>◌, ℕ, List, Result, String, guard, ap, ◌∙◌, true, err, ok, refl, [], ◌≡◌, ◌==◌, ◌∷◌,
}
use frankensteinz_hermes.Python.{str, reviewer_error, Dict, integrity_error, Exn}
use frankensteinz_hermes.Reviewer.Git.{require_ok, GitReader}
use frankensteinz_hermes.Reviewer.Candidate.{
  changed_names, names_command, diff_command, Candidate, reconstruct_candidate, read_diff,
  read_changed, check_ancestor, resolve, check_history, check_commits, check_branch,
}
use frankensteinz_hermes.Reviewer.Scope.{
  review_path_allowed, check_scope, check_binding, text_at, equal_texts,
}
use frankensteinz_hermes.Worker.Calls.{Completed}
use frankensteinz_hermes.Paths.Patch.{words}
use frankensteinz_hermes.Reviewer.Scope.Kept.{
  check_scope-allowed, check_binding-IsBound, IsBound, equal_texts-≡, ==-≡,
}

-- At some command, git has printed the text.
abbrev pub Said : Repository → List String → String → Type 0
Said r args text = (n : ℕ) × ((r.output n args).text ≡ ok text)

output_of-ok : (o p : Output) (s : Result Exn Completed) → output_of o s ≡ ok p → o ≡ p
output_of-ok o p (err e) h = cc
output_of-ok o p (ok d) h = ok-injective refl h

require-Output :
    (r : Repository) (args : List String) (maximum : ℕ) (label : String) (g : GitReader)
    (o : Output)
    → (require r args maximum label g).1 ≡ ok o
    → r.output g.used args ≡ o
unfolding require ask
require-Output r args maximum label g o h =
    let (g₁, (c, p), e, h₁) = continue_with-eq-ok (ask r args maximum g) _ h in
    let same = with_output-ok (r.output g.used args) _ c p (ap (λ x. x.1) e) in
    same ∙ output_of-ok p o (require_ok c label) h₁

read_text-Said :
    (r : Repository) (args : List String) (label : String) (g : GitReader) (text : String)
    → (read_text r args label g).1 ≡ ok text
    → Said r args text
unfolding read_text
read_text-Said r args label g text h =
    let (g₁, o, e, h₁) = continue_with-eq-ok (require r args 2000000 label g) _ h in
    let same = require-Output r args 2000000 label g o (ap (λ x. x.1) e) in
    (g.used, ap (λ p. p.text) same ∙ h₁)

abbrev pub history_of : String → List String
history_of head = "rev-list" ∷ "--parents" ∷ "-n" ∷ "1" ∷ head ∷ []

abbrev pub tip_of : String → List String
tip_of branch = "rev-parse" ∷ "--verify" ∷ ("refs/heads/" <> (branch <> "^{commit}")) ∷ []

-- The branch is at the head, whose only parent is the base.
pub record IsCommit (r : Repository) (base head branch : String) : Type 0 where
  pub tip : String
  pub tip_said : Said r (tip_of branch) tip
  pub tip_head : strip tip ≡ head
  pub history : String
  pub history_said : Said r (history_of head) history
  pub one_parent : words history ≡ head ∷ base ∷ []

check_branch-tip :
    (r : Repository) (branch head : String) (g : GitReader)
    → (check_branch r branch head g).1 ≡ ok tt
    → (tip : String) × Said r (tip_of branch) tip × (strip tip ≡ head)
unfolding check_branch
check_branch-tip r branch head g h =
    let (g₁, tip, e, h₁) = continue_with-eq-ok (read_text r (tip_of branch) _ g) _ h in
    (
      tip,
      read_text-Said r (tip_of branch) _ g tip (ap (λ x. x.1) e),
      ==-≡ (strip tip) head (guard-eq-ok (strip tip == head) _ h₁),
    )

check_history-parent :
    (r : Repository) (base head : String) (g : GitReader)
    → (check_history r base head g).1 ≡ ok tt
    → (history : String) × Said r (history_of head) history × (words history ≡ head ∷ base ∷ [])
unfolding check_history
check_history-parent r base head g h =
    let (g₁, history, e, h₁) = continue_with-eq-ok (read_text r (history_of head) _ g) _ h in
    let one = equal_texts (words history) (head ∷ base ∷ []) in
    let (g₂, u, e₂, h₂) =
      continue_with-eq-ok (g₁, guard one (integrity_error "candidate_not_single_commit_on_base")) _
        h₁ in
    (
      history,
      read_text-Said r (history_of head) _ g history (ap (λ x. x.1) e),
      equal_texts-≡ (words history) (head ∷ base ∷ []) (guard-eq-ok one _ (ap (λ x. x.1) e₂)),
    )

check_commits-IsCommit :
    (r : Repository) (base head branch : String) (g : GitReader)
    → (check_commits r base head branch g).1 ≡ ok tt
    → IsCommit r base head branch
unfolding check_commits
check_commits-IsCommit r base head branch g h =
    let (g₁, u₁, e₁, h₁) = continue_with-eq-ok (resolve r "base" base g) _ h in
    let (g₂, u₂, e₂, h₂) = continue_with-eq-ok (resolve r "head" head g₁) _ h₁ in
    let (g₃, u₃, e₃, h₃) = continue_with-eq-ok (check_branch r branch head g₂) _ h₂ in
    let (g₄, u₄, e₄, h₄) = continue_with-eq-ok (check_ancestor r base head g₃) _ h₃ in
    let (tip, said, at_head) = check_branch-tip r branch head g₂ (ap (λ x. x.1) e₃) in
    let (history, told, parent) = check_history-parent r base head g₄ h₄ in
    record {
      tip = tip;
      tip_said = said;
      tip_head = at_head;
      history = history;
      history_said = told;
      one_parent = parent;
    }

-- The diff is within the budget.
read_diff-small :
    (r : Repository) (base head : String) (maximum : ℕ) (g : GitReader) (o : Output)
    → (read_diff r base head maximum g).1 ≡ ok o
    → o.size ≤ maximum
unfolding read_diff
read_diff-small r base head maximum g o h =
    let (g₁, p, e, h₁) =
      continue_with-eq-ok (require r (diff_command base head) (maximum + 1) "candidate_diff" g) _
        h in
    let (g₂, u, e₂, h₂) =
      continue_with-eq-ok (g₁, guard (leb p.size maximum) (reviewer_error "diff_budget_exhausted"))
        _ h₁ in
    subst (λ x. x.size ≤ maximum) (ok-injective refl h₂)
      (leb→le p.size maximum (guard-eq-ok (leb p.size maximum) _ (ap (λ x. x.1) e₂)))

read_changed-filled :
    (r : Repository) (base head : String) (g : GitReader) (paths : List String)
    → (read_changed r base head g).1 ≡ ok paths
    → is_empty paths ≡ false
unfolding read_changed
read_changed-filled r base head g paths h =
    let (g₁, names, e, h₁) =
      continue_with-eq-ok (read_text r (names_command base head) "candidate_changed_paths" g) _ h in
    let (g₂, changed, e₂, h₂) = continue_with-eq-ok (g₁, changed_names names) _ h₁ in
    let (g₃, u, e₃, h₃) =
      continue_with-eq-ok
        (g₂, guard (not (is_empty changed)) (integrity_error "candidate_has_no_changes")) _ h₂ in
    subst (λ x. is_empty x ≡ false) (ok-injective refl h₃)
      (not-eq-true (is_empty changed) (guard-eq-ok (not (is_empty changed)) _ (ap (λ x. x.1) e₃)))

-- The candidate is one commit on the base, at the tip of the branch; it has changes, all of them
-- within the scope of the job, and the evidence of the implementation describes it.
pub record IsCandidate (r : Repository) (payload implementation config : Dict) (maximum : ℕ)
    (c : Candidate) : Type 0 where
  pub commit :
      IsCommit r
        (text_at "base_commit" payload)
        (text_at "head_commit" payload)
        (text_at "branch" payload)
  pub has_changes : is_empty c.changed_paths ≡ false
  pub small : c.diff.size ≤ maximum
  pub bound : IsBound payload implementation c.diff.size c.changed_paths
  pub in_scope :
      All (λ path. review_path_allowed payload config (str path) ≡ ok true) c.changed_paths

-- A candidate that is reconstructed is one commit on the base of the job, at the tip of its branch:
-- git has named the base as the only parent of the head. It has changes, whose paths the job allows
-- and the config does not forbid; its diff is within the budget; and the evidence of the
-- implementation names the same paths, size, commits, branch and job.
pub reconstruct_candidate-IsCandidate :
    (r : Repository) (payload implementation config : Dict) (maximum : ℕ) (g : GitReader)
    (c : Candidate)
    → (reconstruct_candidate r payload implementation config maximum g).1 ≡ ok c
    → IsCandidate r payload implementation config maximum c
unfolding reconstruct_candidate
reconstruct_candidate-IsCandidate r payload implementation config maximum g c h =
    let base = text_at "base_commit" payload in
    let head = text_at "head_commit" payload in
    let branch = text_at "branch" payload in
    let (g₁, u, e₁, h₁) = continue_with-eq-ok (check_commits r base head branch g) _ h in
    let (g₂, diff, e₂, h₂) = continue_with-eq-ok (read_diff r base head maximum g₁) _ h₁ in
    let (g₃, changed, e₃, h₃) = continue_with-eq-ok (read_changed r base head g₂) _ h₂ in
    let (g₄, u₄, e₄, h₄) =
      continue_with-eq-ok (g₃, check_binding payload implementation diff changed) _ h₃ in
    let (g₅, u₅, e₅, h₅) = continue_with-eq-ok (g₄, check_scope payload config changed) _ h₄ in
    subst (IsCandidate r payload implementation config maximum) (ok-injective refl h₅) (record {
      commit = check_commits-IsCommit r base head branch g (ap (λ x. x.1) e₁);
      has_changes = read_changed-filled r base head g₂ changed (ap (λ x. x.1) e₃);
      small = read_diff-small r base head maximum g₁ diff (ap (λ x. x.1) e₂);
      bound = check_binding-IsBound payload implementation diff changed (ap (λ x. x.1) e₄);
      in_scope = check_scope-allowed payload config changed (ap (λ x. x.1) e₅);
    })
