-- ===== src/Qa/Selection/Planned.antt =====
-- What the selection of `main` in scripts/engineering_qa/coordinator_core.py guarantees.
use frankensteinz_hermes.Base.{
  leb→le, ok-injective, contains-append, leb, >>=-eq-ok, guard->>-eq-ok, all-contains, contains,
  is_subset, all_distinct, ℕ, List, Result, String, length, subst, arith, true, ok, refl, [], ◌≤◌,
  ◌≡◌, ◌||◌, ◌++◌,
}
use frankensteinz_hermes.Qa.Selection.{add_all, plan}
use frankensteinz_hermes.Python.{Exn}
use frankensteinz_hermes.Qa.Selection.Distinct.{
  is_subset-intro, all_distinct-add_all, contains-add_all,
}

pub record IsPlan (allowed baseline required selected : List String) (max : ℕ) : Type 0 where
  pub distinct : all_distinct selected ≡ true
  pub has_baseline : is_subset baseline selected ≡ true
  pub has_required : is_subset required selected ≡ true
  pub only_allowed : is_subset selected allowed ≡ true
  pub within_budget : length selected ≤ max

is_subset-member :
    (xs ys : List String) (a : String)
    → is_subset xs ys ≡ true
    → contains xs a ≡ true
    → contains ys a ≡ true
is_subset-member xs ys a h m = all-contains (contains ys) xs a h m

-- Where the baseline is allowed and the model suggests allowed profiles only, the selection has no
-- repetition, holds every baseline and every required profile, holds only allowed ones, and is no
-- longer than the config allows.
pub plan-IsPlan :
    (allowed baseline required : List String) (ask : List String → Result Exn (List String))
    (max : ℕ) (selected : List String)
    → is_subset baseline allowed ≡ true
    → ((so_far proposed : List String)
        → ask so_far ≡ ok proposed
        → is_subset proposed allowed ≡ true)
    → plan allowed baseline required ask max ≡ ok selected
    → IsPlan allowed baseline required selected max
unfolding plan
plan-IsPlan allowed baseline required ask max selected base asked h =
    let first = add_all [] (baseline ++ required) in
    let (req, h₁) = guard->>-eq-ok (is_subset required allowed) _ _ h in
    let (proposed, p, h₂) = >>=-eq-ok (ask first) _ h₁ in
    let (few, h₃) = guard->>-eq-ok (leb (length (add_all first proposed)) max) _ _ h₂ in
    let members : (a : String)
        → contains (add_all first proposed) a
          ≡ ((contains baseline a || contains required a) || contains proposed a) =
      λ a.
        rw
          (
            contains-add_all first proposed a,
            contains-add_all [] (baseline ++ required) a,
            contains-append baseline required a,
          )
          refl in
    subst (λ selected. IsPlan allowed baseline required selected max) (ok-injective refl h₃)
      (record {
        distinct =
            all_distinct-add_all first proposed
              (all_distinct-add_all [] (baseline ++ required) refl);
        has_baseline =
            is_subset-intro baseline (add_all first proposed)
              (λ a m. rw (members a) (ground arith));
        has_required =
            is_subset-intro required (add_all first proposed)
              (λ a m. rw (members a) (ground arith));
        only_allowed = is_subset-intro (add_all first proposed) allowed (λ a m. ground (
          arith,
          members a,
          is_subset-member baseline allowed a base,
          is_subset-member required allowed a req,
          is_subset-member proposed allowed a (asked first proposed p),
        ));
        within_budget = leb→le (length (add_all first proposed)) max few;
      })
