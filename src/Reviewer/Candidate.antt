-- ===== src/Reviewer/Candidate.antt =====
-- `path_allowed` and `reconstruct_candidate` of scripts/engineering_reviewer/reviewer.py.
pub mod Reconstructed
use frankensteinz_hermes.Checks.Steps.{◌>>=◌, ◌>>◌, lift, check, Repository, Output}
use frankensteinz_hermes.Reviewer.Reading.{Reads, ask, require, read_text}
use frankensteinz_hermes.Base.{
  ◌+◌, ◌||◌, ℕ, zero, suc, ◌≤◌, String, Bool, true, false, not, ◌&&◌, ◌==◌, ◌<>◌, List, [], ◌∷◌,
  Option, none, some, Result, ok, err, guard, leb, eqb, ltb, if◌then◌else◌, codes, is_empty,
  is_empty_text, strip, ◌≡◌, map,
}
use frankensteinz_hermes.Python.{
  Exn, Dict, reviewer_error, integrity_error, list, str, float, int, bool, null,
}
use frankensteinz_hermes.Reviewer.Scope.{text_at, equal_texts, check_scope, check_binding}
use frankensteinz_hermes.Worker.Calls.{is_zero}
use frankensteinz_hermes.Paths.Allowed.{traverse}
use frankensteinz_hermes.Paths.Patch.{splitlines, words}
use frankensteinz_hermes.Paths.Relative.{validate_rel_path, validate_text}

-- What `reconstruct_candidate` returns: the diff, which it only measures here, and the paths.
pub record Candidate : Type 0 where
  pub diff : Output
  pub changed_paths : List String

abbrev pub filled : List String → List String
filled [] = []
filled (s ∷ ss) = if is_empty_text s then filled ss else s ∷ filled ss

abbrev pub diff_command : String → String → List String
diff_command base head =
    "diff" ∷ "--binary" ∷ "--no-ext-diff" ∷ "--no-renames" ∷ base ∷ head ∷ "--" ∷ []

abbrev pub names_command : String → String → List String
names_command base head = "diff" ∷ "--name-only" ∷ "--no-renames" ∷ base ∷ head ∷ "--" ∷ []

-- `[validate_rel_path(x) for x in names.splitlines() if x]`
unfoldable pub changed_names : String → Result Exn (List String)
unfolding traverse validate_rel_path splitlines
changed_names names =
    traverse (λ s. validate_rel_path reviewer_error (str s)) (filled (splitlines names))

module _ (r : Repository) where
  -- A pass of the loop over `("base", base), ("head", head)`.
  unfoldable pub resolve : String → String → Reads (Unit {0})
  unfolding read_text strip
  resolve name sha = do
    resolved ←
        read_text r ("rev-parse" ∷ "--verify" ∷ (sha <> "^{commit}") ∷ [])
          (name <> "_commit_resolve")
    check (strip resolved == sha) (integrity_error (name <> "_commit_mismatch"))

  unfoldable pub check_branch : String → String → Reads (Unit {0})
  unfolding read_text strip
  check_branch branch head = do
    tip ←
        read_text r ("rev-parse" ∷ "--verify" ∷ ("refs/heads/" <> (branch <> "^{commit}")) ∷ [])
          "candidate_branch_resolve"
    check (strip tip == head) (integrity_error "candidate_branch_head_mismatch")

  unfoldable pub check_ancestor : String → String → Reads (Unit {0})
  unfolding ask
  check_ancestor base head = do
    answer ← ask r ("merge-base" ∷ "--is-ancestor" ∷ base ∷ head ∷ []) 2000000
    check (is_zero answer.0.returncode) (integrity_error "base_not_ancestor_of_head")

  -- The candidate is one commit on the base.
  unfoldable pub check_history : String → String → Reads (Unit {0})
  unfolding read_text strip words
  check_history base head = do
    history ← read_text r ("rev-list" ∷ "--parents" ∷ "-n" ∷ "1" ∷ head ∷ []) "head_parents"
    check (equal_texts (words history) (head ∷ base ∷ []))
        (integrity_error "candidate_not_single_commit_on_base")
    count ←
        read_text r ("rev-list" ∷ "--count" ∷ (base <> (".." <> head)) ∷ [])
          "candidate_commit_count"
    check (strip count == "1") (integrity_error "candidate_history_not_linear_single_commit")

  unfoldable pub read_diff : String → String → ℕ → Reads Output
  unfolding require
  read_diff base head maximum = do
    diff ← require r (diff_command base head) (maximum + 1) "candidate_diff"
    check (leb diff.size maximum) (reviewer_error "diff_budget_exhausted")
    lift (ok diff)

  unfoldable pub read_changed : String → String → Reads (List String)
  unfolding read_text changed_names
  read_changed base head = do
    names ← read_text r (names_command base head) "candidate_changed_paths"
    changed ← lift (changed_names names)
    check (not (is_empty changed)) (integrity_error "candidate_has_no_changes")
    lift (ok changed)

  -- The commits that the job names.
  unfoldable pub check_commits : String → String → String → Reads (Unit {0})
  unfolding resolve check_branch check_ancestor check_history
  check_commits base head branch = do
    resolve "base" base
    resolve "head" head
    check_branch branch head
    check_ancestor base head
    check_history base head

  -- `maximum` is the entry `max_diff_bytes` of the budgets.
  unfoldable pub reconstruct_candidate : Dict → Dict → Dict → ℕ → Reads Candidate
  unfolding check_commits read_diff read_changed check_binding check_scope
  reconstruct_candidate payload implementation config maximum =
      let base = text_at "base_commit" payload in
      let head = text_at "head_commit" payload in
      do
        check_commits base head (text_at "branch" payload)
        diff ← read_diff base head maximum
        changed ← read_changed base head
        lift (check_binding payload implementation diff changed)
        lift (check_scope payload config changed)
        lift (ok (record { diff = diff; changed_paths = changed }))
