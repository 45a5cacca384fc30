-- ===== src/Reviewer/Context.antt =====
-- `build_context` of scripts/engineering_reviewer/reviewer.py.
pub mod Scoped
use frankensteinz_hermes.Checks.Steps.{
  continue_with-eq-ok, ◌>>=◌, ◌>>◌, lift, check, Repository, Output,
}
use frankensteinz_hermes.Reviewer.Reading.{Reads, require}
use frankensteinz_hermes.Base.{
  leb→le, ok-injective, guard-eq-ok, subst, ap, ℕ, ◌+◌, ◌≤◌, String, Bool, true, ◌<>◌, List, [],
  ◌∷◌, Result, ok, err, guard, leb, ◌≡◌, All, refl, arith,
}
use frankensteinz_hermes.Python.{reviewer_error, lookup, Value, Exn, Dict, str}
use frankensteinz_hermes.Reviewer.Git.{GitReader}
use frankensteinz_hermes.Paths.Allowed.{entry_or_nil, iterate}
use frankensteinz_hermes.Reviewer.Scope.{text_at, review_path_allowed}
use frankensteinz_hermes.Paths.Relative.{validate_rel_path}

-- A file that the model is shown, at the head.
pub record Excerpt : Type 0 where
  pub path : String
  pub output : Output
  pub content : String

abbrev pub decoded_or : Exn → Result Exn String → Result Exn String
decoded_or e (err Exn.unicode_error) = err e
decoded_or e r = r

-- `if not path_allowed(…): raise e`
abbrev pub require_allowed : Exn → Result Exn Bool → Result Exn (Unit {0})
require_allowed e (err raised) = err raised
require_allowed e (ok b) = guard b e

abbrev pub total_size : List Excerpt → ℕ
total_size [] = 0
total_size (e ∷ es) = e.output.size + total_size es

module _ (r : Repository) (payload config : Dict) (maximum : ℕ) where
  -- A pass of the loop, with the bytes that the passes before it have used.
  unfoldable pub read_excerpt : ℕ → Value → Reads Excerpt
  unfolding validate_rel_path review_path_allowed require
  read_excerpt used raw = do
    path ← lift (validate_rel_path reviewer_error raw)
    lift (
        require_allowed (reviewer_error ("context_path_not_allowed:" <> path))
          (review_path_allowed payload config (str path)))
    output ←
        require r ("show" ∷ (text_at "head_commit" payload <> (":" <> path)) ∷ []) (maximum + 1)
          ("context_show:" <> path)
    check (leb (used + output.size) maximum) (reviewer_error "review_context_budget_exhausted")
    content ← lift (decoded_or (reviewer_error ("review_context_not_utf8:" <> path)) output.text)
    lift (ok (record { path = path; output = output; content = content }))

  unfoldable pub read_excerpts : ℕ → List Value → Reads (List Excerpt)
  unfolding read_excerpt
  read_excerpts used [] = lift (ok [])
  read_excerpts used (raw ∷ raws) = do
    excerpt ← read_excerpt used raw
    rest ← read_excerpts (used + excerpt.output.size) raws
    lift (ok (excerpt ∷ rest))

  unfoldable pub build_context : Reads (List Excerpt)
  unfolding iterate read_excerpts lookup
  build_context = do
    raws ← lift (iterate (entry_or_nil (lookup "context_paths" payload)))
    read_excerpts 0 raws
