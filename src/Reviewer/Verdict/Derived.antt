-- ===== src/Reviewer/Verdict/Derived.antt =====
-- The verdict against its rule, and the config that has no threshold.
use frankensteinz_hermes.Base.{
  Bool-cases, inr, inl, true, leb, Result, ℕ, Bool, List, String, map, arith, false, none, some,
  err, ok, refl, if◌then◌else◌, ◌<◌, ◌↔◌, ◌⊎◌, ◌≡◌,
}
use frankensteinz_hermes.Python.{
  key_error, entries, lookup, Fields, within, as_int, Exn, Dict, pos, dict,
}
use frankensteinz_hermes.Reviewer.Findings.{Finding}
use frankensteinz_hermes.Reviewer.Config.{check_policy}
use frankensteinz_hermes.Reviewer.Verdict.{
  threshold_value, mediums, is_serious, threshold_of, derive_verdict,
}
use frankensteinz_hermes.Checks.{in_range, in_range_or, require_dict}

-- The outcome, by the two tests that decide it.
abbrev outcome : Bool → Bool → Result Exn String
outcome serious many =
    if serious then ok "changes_required" else ok (if many then "changes_required" else "approve")

outcome-cases :
    (serious : Bool) (m n : ℕ)
    → ((outcome serious (leb n m) ≡ ok "approve") ↔ ((serious ≡ false) × (m < n)))
      × ((outcome serious (leb n m) ≡ ok "approve")
          ⊎ (outcome serious (leb n m) ≡ ok "changes_required"))
outcome-cases true m n = ((λ e. cc e, λ p. cc (p.0)), inr refl)
outcome-cases false m n = elim (Bool-cases (leb n m)) [
  | inl t ↦ rw t ((λ e. cc e, λ p. ground arith), inr refl)
  | inr t ↦ rw t ((λ e. (refl, ground arith), λ p. refl), inl refl)
]

-- Where the policy has a threshold, the verdict is an approval exactly when no finding is critical
-- or high and fewer findings than the threshold are medium; otherwise it asks for changes.
pub derive_verdict-approve :
    (findings : List Finding) (policy : Dict) (n : ℕ)
    → threshold_of policy ≡ ok (pos n)
    → ((derive_verdict findings policy ≡ ok "approve") ↔ (
        (is_serious (map (λ f. f.severity) findings) ≡ false)
        × (mediums (map (λ f. f.severity) findings) < n)))
      × ((derive_verdict findings policy ≡ ok "approve")
          ⊎ (derive_verdict findings policy ≡ ok "changes_required"))
unfolding derive_verdict
derive_verdict-approve findings policy n h =
    let severities = map (λ f. f.severity) findings in
    rw h (outcome-cases (is_serious severities) (mediums severities) n)

-- A policy without the threshold passes the checks of the config, and where no finding is critical
-- or high the verdict on it raises `KeyError`, not the default.
pub derive_verdict-missing :
    (findings : List Finding) (policy : Fields)
    → lookup "medium_findings_require_changes" (entries policy) ≡ none
    → is_serious (map (λ f. f.severity) findings) ≡ false
    → (check_policy (some (dict policy)) ≡ ok tt)
      × (derive_verdict findings (entries policy) ≡ err key_error)
unfolding check_policy require_dict in_range_or in_range as_int within derive_verdict threshold_of
    threshold_value
derive_verdict-missing findings policy h calm = (rw h refl, rw (calm, h) refl)
