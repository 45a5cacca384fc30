-- ===== src/Reviewer/Verdict.antt =====
-- `derive_verdict` of scripts/engineering_reviewer/reviewer.py.
pub mod Derived
use frankensteinz_hermes.Base.{
  Option, leb, suc, contains, ◌>>◌, ℕ, Bool, List, Result, String, map, true, none, some, err, ok,
  [], ◌>>=◌, if◌then◌else◌, ◌==◌, ◌||◌, ◌∷◌,
}
use frankensteinz_hermes.Python.{
  Value, type_error, key_error, Exn, lookup, Dict, ℤ, as_int, negsuc, pos,
}
use frankensteinz_hermes.Reviewer.Findings.{Finding}

-- `"critical" in severities or "high" in severities`
abbrev pub is_serious : List String → Bool
is_serious severities = contains severities "critical" || contains severities "high"

-- `sum(1 for value in severities if value == "medium")`
abbrev pub mediums : List String → ℕ
mediums [] = 0
mediums (s ∷ ss) = if s == "medium" then suc (mediums ss) else mediums ss

abbrev pub integer : Option ℤ → Result Exn ℤ
integer none = err type_error
integer (some z) = ok z

unfoldable pub threshold_value : Option Value → Result Exn ℤ
unfolding as_int
threshold_value none = err key_error
threshold_value (some v) = integer (as_int v)

-- `policy["medium_findings_require_changes"]`, which the config's checks leave an integer
unfoldable pub threshold_of : Dict → Result Exn ℤ
unfolding threshold_value lookup
threshold_of policy = threshold_value (lookup "medium_findings_require_changes" policy)

-- `n >= z`
abbrev pub reaches : ℕ → ℤ → Bool
reaches n (pos m) = leb m n
reaches n (negsuc m) = true

abbrev pub by_mediums : ℕ → ℤ → String
by_mediums n threshold = if reaches n threshold then "changes_required" else "approve"

unfoldable pub derive_verdict : List Finding → Dict → Result Exn String
unfolding threshold_of
derive_verdict findings policy =
    let severities = map (λ f. f.severity) findings in
    let verdict =
      threshold_of policy >>= λ threshold. ok (by_mediums (mediums severities) threshold) in
    if is_serious severities then ok "changes_required" else verdict
