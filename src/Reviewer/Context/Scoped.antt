-- ===== src/Reviewer/Context/Scoped.antt =====
-- What the context of scripts/engineering_reviewer/reviewer.py holds.
use frankensteinz_hermes.Checks.Steps.{continue_with-eq-ok, Repository}
use frankensteinz_hermes.Base.{
  leb→le, leb, ok-injective, guard-eq-ok, All, ℕ, Bool, List, Result, guard, subst, ap, arith, true,
  refl, ◌≤◌, ◌+◌, ◌≡◌, ◌<>◌, [], ◌∷◌, ok, err,
}
use frankensteinz_hermes.Python.{lookup, reviewer_error, str, Value, Exn, Dict}
use frankensteinz_hermes.Reviewer.Context.{
  decoded_or, total_size, require_allowed, read_excerpts, read_excerpt, build_context, Excerpt,
}
use frankensteinz_hermes.Reviewer.Git.{GitReader}
use frankensteinz_hermes.Reviewer.Scope.{text_at, review_path_allowed}
use frankensteinz_hermes.Paths.Relative.{validate_rel_path}
use frankensteinz_hermes.Paths.Allowed.{entry_or_nil, iterate}
use frankensteinz_hermes.Reviewer.Reading.{require}

module _ (r : Repository) (payload config : Dict) (maximum : ℕ) where
  -- The file is in the scope of the job.
  abbrev pub InScope : Excerpt → Type 0
  InScope e = review_path_allowed payload config (str e.path) ≡ ok true

  require_allowed-ok : (e : Exn) (s : Result Exn Bool) → require_allowed e s ≡ ok tt → s ≡ ok true
  require_allowed-ok e (err raised) h = cc
  require_allowed-ok e (ok b) h = ap ok (guard-eq-ok b e h)

  read_excerpt-InScope :
      (used : ℕ) (raw : Value) (g : GitReader) (e : Excerpt)
      → (read_excerpt r payload config maximum used raw g).1 ≡ ok e
      → InScope e × (used + e.output.size ≤ maximum)
  unfolding read_excerpt
  read_excerpt-InScope used raw g e h =
      let (g₁, path, e₁, h₁) = continue_with-eq-ok (g, validate_rel_path reviewer_error raw) _ h in
      let (g₂, u₂, e₂, h₂) =
        continue_with-eq-ok
          (
            g₁,
            require_allowed (reviewer_error ("context_path_not_allowed:" <> path))
                (review_path_allowed payload config (str path)),
          )
          _ h₁ in
      let (g₃, output, e₃, h₃) =
        continue_with-eq-ok
          (require r ("show" ∷ (text_at "head_commit" payload <> (":" <> path)) ∷ []) (maximum + 1)
            ("context_show:" <> path) g₂)
          _ h₂ in
      let (g₄, u₄, e₄, h₄) =
        continue_with-eq-ok
          (
            g₃,
            guard (leb (used + output.size) maximum)
                (reviewer_error "review_context_budget_exhausted"),
          )
          _ h₃ in
      let (g₅, content, e₅, h₅) =
        continue_with-eq-ok
          (g₄, decoded_or (reviewer_error ("review_context_not_utf8:" <> path)) output.text) _ h₄ in
      subst (λ x. InScope x × (used + x.output.size ≤ maximum)) (ok-injective refl h₅)
        (
          require_allowed-ok _ (review_path_allowed payload config (str path)) (ap (λ x. x.1) e₂),
          leb→le (used + output.size) maximum
              (guard-eq-ok (leb (used + output.size) maximum) _ (ap (λ x. x.1) e₄)),
        )

  read_excerpts-InScope :
      (used : ℕ) (raws : List Value) (g : GitReader) (es : List Excerpt)
      → used ≤ maximum
      → (read_excerpts r payload config maximum used raws g).1 ≡ ok es
      → All InScope es × (used + total_size es ≤ maximum)
  unfolding read_excerpts
  read_excerpts-InScope used [] g es small h =
      subst (λ x. All InScope x × (used + total_size x ≤ maximum)) (ok-injective refl h)
        (tt, omega arith)
  read_excerpts-InScope used (raw ∷ raws) g es small h =
      let (g₁, e, e₁, h₁) =
        continue_with-eq-ok (read_excerpt r payload config maximum used raw g) _ h in
      let (allowed, fits) = read_excerpt-InScope used raw g e (ap (λ x. x.1) e₁) in
      let (g₂, rest, e₂, h₂) =
        continue_with-eq-ok (read_excerpts r payload config maximum (used + e.output.size) raws g₁)
          _ h₁ in
      let (others, total) =
        read_excerpts-InScope (used + e.output.size) raws g₁ rest fits (ap (λ x. x.1) e₂) in
      subst (λ x. All InScope x × (used + total_size x ≤ maximum)) (ok-injective refl h₂)
        ((allowed, others), omega (arith, total))

  -- The context is within its budget, and every file of it is one that the job allows and the
  -- config does not forbid.
  pub build_context-InScope :
      (g : GitReader) (es : List Excerpt)
      → (build_context r payload config maximum g).1 ≡ ok es
      → All InScope es × (total_size es ≤ maximum)
  unfolding build_context
  build_context-InScope g es h =
      let (g₁, raws, e₁, h₁) =
        continue_with-eq-ok (g, iterate (entry_or_nil (lookup "context_paths" payload))) _ h in
      let (allowed, total) = read_excerpts-InScope 0 raws g₁ es (omega arith) h₁ in
      (allowed, omega (arith, total))
