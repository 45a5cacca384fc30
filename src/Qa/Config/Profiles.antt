-- ===== src/Qa/Config/Profiles.antt =====
-- The catalog of profiles of a config that passes `validate_config` of
-- scripts/engineering_qa/coordinator_core.py.
use frankensteinz_hermes.Base.{
  guard-eq-ok, is_subset, guard->>-eq-ok, Bool-cases, >>=-eq-ok, all_distinct, all, List, String,
  map, length, subst, ap, sym, ◌∙◌, arith, inr, inl, true, ok, refl, [], ◌≡◌, ◌&&◌, ◌∷◌,
}
use frankensteinz_hermes.Python.{
  distinct_values-texts, distinct_values, lookup, Value, Dict, list, str, dict, float, int, bool,
  null,
}
use frankensteinz_hermes.Qa.Config.{holds_profiles, profile_id, distinct_profiles, check_profiles}
use frankensteinz_hermes.Paths.Allowed.{allowed_list, traverse}
use frankensteinz_hermes.Checks.{is_filled_list, is_safe_id}

profile_id-ok :
    (v : Value) (s : String) → profile_id v ≡ ok s → (v ≡ str s) × (is_safe_id 64 s ≡ true)
unfolding profile_id
profile_id-ok (str t) s h = elim (Bool-cases (is_safe_id 64 t)) [
  | inl e ↦ let p : t ≡ s = ground arith in (ap str p, subst (λ s. is_safe_id 64 s ≡ true) p e)
  | inr e ↦ ground arith
]
profile_id-ok null s h = cc
profile_id-ok (bool b) s h = cc
profile_id-ok (int z) s h = cc
profile_id-ok (float x) s h = cc
profile_id-ok (list xs) s h = cc
profile_id-ok (dict fs) s h = cc

pub profile_ids-ok :
    (vs : List Value) (ids : List String)
    → traverse profile_id vs ≡ ok ids
    → (vs ≡ map str ids) × (all (is_safe_id 64) ids ≡ true)
unfolding traverse
profile_ids-ok [] ids h =
    let e : [] ≡ ids = cc h in
    subst (λ ids. ([] ≡ map str ids) × (all (is_safe_id 64) ids ≡ true)) e (refl, refl)
profile_ids-ok (v ∷ vs) ids h =
    let (y, e, h₁) = >>=-eq-ok (profile_id v) _ h in
    let (ys, es, h₂) = >>=-eq-ok (traverse profile_id vs) _ h₁ in
    let same : y ∷ ys ≡ ids = cc h₂ in
    let (ve, safe) = profile_id-ok v y e in
    let (vse, all_safe) = profile_ids-ok vs ys es in
    subst (λ ids. (v ∷ vs ≡ map str ids) × (all (is_safe_id 64) ids ≡ true)) same
      (rw (ve, vse) refl, ground arith)

-- What the catalog of profiles is.
pub record IsCatalog (sandbox : Dict) : Type 0 where
  pub allowed : List String
  pub baseline : List String
  pub allowed_found : allowed_list (lookup "allowed_profile_ids" sandbox) ≡ map str allowed
  pub baseline_found : allowed_list (lookup "baseline_profile_ids" sandbox) ≡ map str baseline
  pub allowed_safe : all (is_safe_id 64) allowed ≡ true
  pub allowed_distinct : all_distinct allowed ≡ true
  pub baseline_distinct : all_distinct baseline ≡ true
  pub baseline_allowed : is_subset baseline allowed ≡ true
  pub baseline_fits : holds_profiles (length baseline) (lookup "max_profiles" sandbox) ≡ true

distinct_profiles-ok :
    (vs : List Value) (ids : List String)
    → vs ≡ map str ids
    → distinct_profiles vs ≡ ok tt
    → all_distinct ids ≡ true
unfolding distinct_profiles
distinct_profiles-ok vs ids e h =
    let (b, is_b, h₁) = >>=-eq-ok (distinct_values vs) _ h in
    let same : ok b ≡ ok (all_distinct ids) =
      sym is_b ∙ ap distinct_values e ∙ distinct_values-texts ids in
    let t = guard-eq-ok b _ h₁ in cc (same, t)

pub check_profiles-IsCatalog : (sandbox : Dict) → check_profiles sandbox ≡ ok tt → IsCatalog sandbox
unfolding check_profiles
check_profiles-IsCatalog sandbox h =
    let allowed = allowed_list (lookup "allowed_profile_ids" sandbox) in
    let baseline = allowed_list (lookup "baseline_profile_ids" sandbox) in
    let (filled, h₁) =
      guard->>-eq-ok
        (is_filled_list (lookup "allowed_profile_ids" sandbox)
          && is_filled_list (lookup "baseline_profile_ids" sandbox))
        _ _ h in
    let (u, distinct_a, h₂) = >>=-eq-ok (distinct_profiles allowed) _ h₁ in
    let (v, distinct_b, h₃) = >>=-eq-ok (distinct_profiles baseline) _ h₂ in
    let (a, is_a, h₄) = >>=-eq-ok (traverse profile_id allowed) _ h₃ in
    let (b, is_b, h₅) = >>=-eq-ok (traverse profile_id baseline) _ h₄ in
    let (subset, h₆) = guard->>-eq-ok (is_subset b a) _ _ h₅ in
    let (a_texts, a_safe) = profile_ids-ok allowed a is_a in
    let (b_texts, b_safe) = profile_ids-ok baseline b is_b in
    record {
      allowed = a;
      baseline = b;
      allowed_found = a_texts;
      baseline_found = b_texts;
      allowed_safe = a_safe;
      allowed_distinct = distinct_profiles-ok allowed a a_texts distinct_a;
      baseline_distinct = distinct_profiles-ok baseline b b_texts distinct_b;
      baseline_allowed = subset;
      baseline_fits = guard-eq-ok (holds_profiles (length b) (lookup "max_profiles" sandbox)) _ h₆;
    }
