-- ===== src/Reviewer/Scope/Kept.antt =====
-- What the tests on the evidence of the implementation and on the changed paths guarantee.
use frankensteinz_hermes.Base.{
  ok-injective, guard->>-eq-ok, Bool-cases, >>=-eq-ok, and-eq-true, All, suc, eq_iff, ℕ, Bool, List,
  Option, String, subst, ap, sym, ◌∙◌, arith, inr, inl, false, true, none, some, err, ok, refl,
  if◌then◌else◌, ◌≡◌, ◌==◌, ◌&&◌, ◌<>◌, [], ◌∷◌,
}
use frankensteinz_hermes.Python.{eq_nat, lookup, integrity_error, str, Value, Dict, null}
use frankensteinz_hermes.Reviewer.Scope.{
  text_at, binds_text, is_unordered, sorted_texts, review_path_allowed, all_text_values,
  check_facts, sort_texts, same_sorted, insert_text, equal_texts, check_scope, check_binding,
}
use frankensteinz_hermes.Checks.Steps.{Output}
use frankensteinz_hermes.Paths.Allowed.{entry_or_nil, iterate}
use frankensteinz_hermes.Checks.{get_or}
use frankensteinz_hermes.Qa.Bundle.{binds}

pub ==-≡ : (s t : String) → (s == t) ≡ true → s ≡ t
==-≡ s t h = ground (arith, eq_iff s t)

pub equal_texts-≡ : (ss ts : List String) → equal_texts ss ts ≡ true → ss ≡ ts
equal_texts-≡ [] [] h = refl
equal_texts-≡ [] (t ∷ ts) h = cc
equal_texts-≡ (s ∷ ss) [] h = cc
equal_texts-≡ (s ∷ ss) (t ∷ ts) h =
    let (first, rest) = and-eq-true (s == t) (equal_texts ss ts) h in
    let same = ==-≡ s t first in let others = equal_texts-≡ ss ts rest in cc

-- How often a text stands in a list.
abbrev pub count : String → List String → ℕ
count a [] = 0
count a (s ∷ ss) = if s == a then suc (count a ss) else count a ss

count-insert_text :
    (a s : String) (ts : List String) → count a (insert_text s ts) ≡ count a (s ∷ ts)
unfolding insert_text
count-insert_text a s [] = refl
count-insert_text a s (t ∷ ts) = ground (arith, count-insert_text a s ts)

count-sort_texts : (a : String) (ts : List String) → count a (sort_texts ts) ≡ count a ts
unfolding sort_texts
count-sort_texts a [] = refl
count-sort_texts a (t ∷ ts) =
    count-insert_text a t (sort_texts ts)
    ∙ ap (λ n. if t == a then suc n else n) (count-sort_texts a ts)

-- The evidence names the same paths, in any order, and the same size, commits, branch and job.
pub record IsBound (payload implementation : Dict) (size : ℕ) (changed : List String) : Type 0 where
  pub values : List Value
  pub listed : iterate (entry_or_nil (lookup "changed_paths" implementation)) ≡ ok values
  pub names : List String
  pub are_texts : all_text_values values ≡ some names
  pub same_paths : (a : String) → count a changed ≡ count a names
  pub measured : eq_nat (get_or null (lookup "changed_bytes" implementation)) size ≡ true
  pub base : binds_text "base_commit" (text_at "base_commit" payload) implementation ≡ true
  pub head : binds_text "head_commit" (text_at "head_commit" payload) implementation ≡ true
  pub branch : binds_text "branch" (text_at "branch" payload) implementation ≡ true
  pub job : binds implementation payload "job_id" "implementation_job_id" ≡ true

same_sorted-true :
    (changed : List String) (vs : List Value)
    → same_sorted changed vs ≡ ok true
    → (ts : List String) × (all_text_values vs ≡ some ts)
      × ((a : String) → count a changed ≡ count a ts)
unfolding same_sorted
same_sorted-true changed vs h = go (all_text_values vs) refl h
  where
    go :
        (o : Option (List String))
        → all_text_values vs ≡ o
        → sorted_texts changed vs o ≡ ok true
        → (ts : List String) × (all_text_values vs ≡ some ts)
          × ((a : String) → count a changed ≡ count a ts)
    go none e h = elim (Bool-cases (is_unordered vs)) [
      | inl u ↦ absurd (ground (arith))
      | inr u ↦ absurd (ground (arith))
    ]
    go (some ts) e h =
        let same = equal_texts-≡ (sort_texts changed) (sort_texts ts) (ok-injective refl h) in
        (ts, e, λ a. sym (count-sort_texts a changed) ∙ (ap (count a) same ∙ count-sort_texts a ts))

pub check_binding-IsBound :
    (payload implementation : Dict) (diff : Output) (changed : List String)
    → check_binding payload implementation diff changed ≡ ok tt
    → IsBound payload implementation diff.size changed
unfolding check_binding check_facts
check_binding-IsBound payload implementation diff changed h =
    let (vs, listed, h₁) =
      >>=-eq-ok (iterate (entry_or_nil (lookup "changed_paths" implementation))) _ h in
    let (b, sorted, h₂) = >>=-eq-ok (same_sorted changed vs) _ h₁ in
    let (agree, h₃) = guard->>-eq-ok b _ _ h₂ in
    let (names, are_texts, same) =
      same_sorted-true changed vs (subst (λ x. same_sorted changed vs ≡ ok x) agree sorted) in
    let (measured, h₄) =
      guard->>-eq-ok (eq_nat (get_or null (lookup "changed_bytes" implementation)) diff.size) _ _
        h₃ in
    let base = binds_text "base_commit" (text_at "base_commit" payload) implementation in
    let head = binds_text "head_commit" (text_at "head_commit" payload) implementation in
    let branch = binds_text "branch" (text_at "branch" payload) implementation in
    let (git, h₅) = guard->>-eq-ok (base && head && branch) _ _ h₄ in
    let (job, h₆) =
      guard->>-eq-ok (binds implementation payload "job_id" "implementation_job_id") _ _ h₅ in
    let (commits, third) = and-eq-true (base && head) branch git in
    let (first, second) = and-eq-true base head commits in
    record {
      values = vs;
      listed = listed;
      names = names;
      are_texts = are_texts;
      same_paths = same;
      measured = measured;
      base = first;
      head = second;
      branch = third;
      job = job;
    }

pub check_scope-allowed :
    (payload config : Dict) (paths : List String)
    → check_scope payload config paths ≡ ok tt
    → All (λ path. review_path_allowed payload config (str path) ≡ ok true) paths
unfolding check_scope
check_scope-allowed payload config [] h = tt
check_scope-allowed payload config (path ∷ paths) h =
    let (b, e, h₁) = >>=-eq-ok (review_path_allowed payload config (str path)) _ h in
    go b e h₁ (check_scope-allowed payload config paths)
  where
    go :
        (b : Bool)
        → review_path_allowed payload config (str path) ≡ ok b
        → (if b
            then check_scope payload config paths
            else err (integrity_error ("review_scope_violation:" <> path)))
          ≡ ok tt
        → (check_scope payload config paths ≡ ok tt
            → All (λ p. review_path_allowed payload config (str p) ≡ ok true) paths)
        → All (λ p. review_path_allowed payload config (str p) ≡ ok true) (path ∷ paths)
    go true e h later = (e, later h)
    go false e h later = cc
