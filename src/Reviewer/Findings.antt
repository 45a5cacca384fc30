-- ===== src/Reviewer/Findings.antt =====
-- `validate_model_response` of scripts/engineering_reviewer/reviewer.py.
pub mod Entries
pub mod Checked
use frankensteinz_hermes.Base.{
  text_length, contains, leb, ◌>>◌, ℕ, Bool, List, Result, Option, String, guard, length, none,
  some, err, ok, [], ◌>>=◌, if◌then◌else◌, ◌&&◌, ◌∷◌,
}
use frankensteinz_hermes.Python.{
  elements, type_error, reviewer_error, entries, lookup, Value, Exn, list, str, dict, null,
}
use frankensteinz_hermes.Checks.{in_range, has_ink}
use frankensteinz_hermes.Paths.Allowed.{traverse}
use frankensteinz_hermes.Paths.Relative.{validate_rel_path}
use frankensteinz_hermes.Gate.Policy.{has_schema_version}

abbrev pub severities : List String
severities = "info" ∷ "low" ∷ "medium" ∷ "high" ∷ "critical" ∷ []

abbrev pub categories : List String
categories =
    "correctness" ∷ "regression_risk" ∷ "task_compliance" ∷ "maintainability" ∷ "scope_expansion"
    ∷ "missing_tests" ∷ "concurrency_state" ∷ "error_handling" ∷ "evidence_consistency"
    ∷ "security_obvious" ∷ []

pub record Finding : Type 0 where
  pub severity : String
  pub category : String
  pub path : Option String
  pub line : Value
  pub rationale : String
  pub remediation : String

pub record Review : Type 0 where
  pub summary : String
  pub findings : List Finding

-- The text, where it passes the test.
unfoldable pub text_or : (String → Bool) → Exn → Option Value → Result Exn String
text_or p e (some (str s)) = if p s then ok s else err e
text_or p e _ = err e

-- The member of a set of texts: a list or a dict cannot be hashed.
unfoldable pub member_or : List String → Exn → Option Value → Result Exn String
unfolding text_or
member_or set e (some (list xs)) = err type_error
member_or set e (some (dict fs)) = err type_error
member_or set e o = text_or (contains set) e o

-- `s.strip() and len(s) <= 4000`
abbrev pub is_bounded : String → Bool
is_bounded s = has_ink s && leb (text_length s) 4000

-- The path of a finding, where it has one, is one of the changed paths.
unfoldable pub finding_path : List String → Option Value → Result Exn (Option String)
unfolding validate_rel_path
finding_path changed none = ok none
finding_path changed (some null) = ok none
finding_path changed (some v) = do
  path ← validate_rel_path reviewer_error v
  if contains changed path
      then ok (some path)
      else err (reviewer_error "review_finding_path_not_changed")

-- Its line, where it has one, is an integer from 1 to ten millions.
unfoldable pub finding_line : Option Value → Result Exn Value
unfolding in_range
finding_line none = ok null
finding_line (some null) = ok null
finding_line (some v) =
    if in_range 1 10000000 (some v)
    then ok v
    else err (reviewer_error "review_finding_line_invalid")

abbrev classification_error : Exn
classification_error = reviewer_error "review_finding_classification_invalid"

-- An item of the list, in its normal form.
unfoldable pub normalize : List String → Value → Result Exn Finding
unfolding member_or text_or finding_path finding_line lookup
normalize changed (dict fs) =
    let d = entries fs in
    do
      severity ← member_or severities classification_error (lookup "severity" d)
      category ← member_or categories classification_error (lookup "category" d)
      rationale ←
          text_or is_bounded (reviewer_error "review_finding_rationale_invalid")
            (lookup "rationale" d)
      remediation ←
          text_or is_bounded (reviewer_error "review_finding_remediation_invalid")
            (lookup "remediation" d)
      path ← finding_path changed (lookup "path" d)
      line ← finding_line (lookup "line" d)
      ok (record {
        severity = severity;
        category = category;
        path = path;
        line = line;
        rationale = rationale;
        remediation = remediation;
      })
normalize changed _ = err classification_error

-- `isinstance(findings, list) and len(findings) <= max_findings`
unfoldable pub items_up_to : ℕ → Exn → Option Value → Result Exn (List Value)
items_up_to max e (some (list xs)) =
    if leb (length (elements xs)) max then ok (elements xs) else err e
items_up_to max e _ = err e

-- `max_findings` is the entry of the config, an integer from 1 to 100.
unfoldable pub validate_model_response : ℕ → List String → Value → Result Exn Review
unfolding text_or items_up_to normalize traverse lookup
validate_model_response max_findings changed (dict fs) = do
  guard (has_schema_version (entries fs)) (reviewer_error "review_model_schema_invalid")
  summary ←
      text_or is_bounded (reviewer_error "review_model_summary_invalid")
        (lookup "summary" (entries fs))
  items ←
      items_up_to max_findings (reviewer_error "review_model_findings_invalid")
        (lookup "findings" (entries fs))
  findings ← traverse (normalize changed) items
  ok (record { summary = summary; findings = findings })
validate_model_response max_findings changed _ = err (reviewer_error "review_model_schema_invalid")
