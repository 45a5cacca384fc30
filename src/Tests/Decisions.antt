-- ===== src/Tests/Decisions.antt =====
-- Reviews, verdicts, selections and runs at samples.
use frankensteinz_hermes.Tests.Samples.{fields}
use frankensteinz_hermes.Tests.Envelopes.{strings}
use frankensteinz_hermes.Checks.{is_safe_id, has_ink}
use frankensteinz_hermes.Base.{
  strip, contains, ok-injective, is_subset, List, Result, String, subst, false, true, none, some,
  err, ok, refl, [], ◌<◌, ◌≤◌, ◌+◌, ◌↔◌, ◌⊎◌, ◌≡◌, ◌∷◌,
}
use frankensteinz_hermes.Python.{
  list, str, key_error, eq_nat, entries, lookup, Value, Fields, Exn, Dict, pos, end, cons, nil,
  dict, int, bool,
}
use frankensteinz_hermes.Qa.Sandbox.{durable_call_sandbox, World, Traced, Context}
use frankensteinz_hermes.Reviewer.Findings.{validate_model_response, Review, Finding}
use frankensteinz_hermes.Qa.Sandbox.Durable.{
  durable_call_sandbox-IsOrdered, durable_call_sandbox-IsCommitted, IsOrdered, IsCommitted,
}
use frankensteinz_hermes.Qa.Selection.Planned.{plan-IsPlan, IsPlan}
use frankensteinz_hermes.Reviewer.Findings.Checked.{validate_model_response-IsReview, IsReview}
use frankensteinz_hermes.Qa.Selection.Accepted.{validate_model_selection-IsSelection, IsSelection}
use frankensteinz_hermes.Qa.Selection.{validate_model_selection, plan, Selection}
use frankensteinz_hermes.Reviewer.Config.{check_policy}
use frankensteinz_hermes.Ledger.{is_unset, check_reviewer, check_qa}
use frankensteinz_hermes.Reviewer.Verdict.{mediums, is_serious, threshold_of, derive_verdict}
use frankensteinz_hermes.Ledger.Accepts.{ledger_request}
use frankensteinz_hermes.Reviewer.Verdict.Derived.{derive_verdict-approve, derive_verdict-missing}
use frankensteinz_hermes.Ledger.Confined.{check_qa-IsConfined}

abbrev finding_of : String → Value
finding_of severity = fields (
    ("severity", str severity)
    ∷ ("category", str "correctness")
    ∷ ("path", str "docs/a.md")
    ∷ ("line", int (pos 3))
    ∷ ("rationale", str "the page is wrong")
    ∷ ("remediation", str "correct it")
    ∷ [])

abbrev response : Value
response = fields (
    ("schema_version", int (pos 1))
    ∷ ("summary", str "one problem")
    ∷ ("findings", list (cons (finding_of "medium") nil))
    ∷ [])

abbrev medium : Finding
medium = record {
  severity = "medium";
  category = "correctness";
  path = some "docs/a.md";
  line = int (pos 3);
  rationale = "the page is wrong";
  remediation = "correct it";
}

abbrev review : Review
review = record { summary = "one problem"; findings = medium ∷ [] }

response_accepted : validate_model_response 30 ("docs/a.md" ∷ []) response ≡ ok review
unfolding validate_model_response eq_nat has_ink strip
response_accepted = refl

validate_model_response-IsReview_example : IsReview 30 ("docs/a.md" ∷ []) response review
validate_model_response-IsReview_example =
    validate_model_response-IsReview 30 ("docs/a.md" ∷ []) response review response_accepted

abbrev two : Dict
two = ("medium_findings_require_changes", int (pos 2)) ∷ []

two_read : threshold_of two ≡ ok (pos 2)
unfolding threshold_of
two_read = refl

derive_verdict-approve_example :
    ((derive_verdict (medium ∷ []) two ≡ ok "approve")
      ↔ ((is_serious ("medium" ∷ []) ≡ false) × (mediums ("medium" ∷ []) < 2)))
    × ((derive_verdict (medium ∷ []) two ≡ ok "approve")
        ⊎ (derive_verdict (medium ∷ []) two ≡ ok "changes_required"))
derive_verdict-approve_example = derive_verdict-approve (medium ∷ []) two 2 two_read

missing : lookup "medium_findings_require_changes" (entries end) ≡ none
unfolding lookup
missing = refl

derive_verdict-missing_example :
    (check_policy (some (dict end)) ≡ ok tt) × (derive_verdict (medium ∷ []) [] ≡ err key_error)
derive_verdict-missing_example = derive_verdict-missing (medium ∷ []) end missing refl

abbrev suggest : List String → Result Exn (List String)
suggest so_far = ok ("fuzz" ∷ [])

suggested :
    (so_far proposed : List String)
    → suggest so_far ≡ ok proposed
    → is_subset proposed ("unit" ∷ "fuzz" ∷ []) ≡ true
suggested so_far proposed h =
    subst (λ xs. is_subset xs ("unit" ∷ "fuzz" ∷ []) ≡ true) (ok-injective refl h) refl

planned :
    plan ("unit" ∷ "fuzz" ∷ []) ("unit" ∷ []) ("unit" ∷ []) suggest 4 ≡ ok ("unit" ∷ "fuzz" ∷ [])
unfolding plan
planned = refl

plan-IsPlan_example :
    IsPlan ("unit" ∷ "fuzz" ∷ []) ("unit" ∷ []) ("unit" ∷ []) ("unit" ∷ "fuzz" ∷ []) 4
plan-IsPlan_example =
    plan-IsPlan ("unit" ∷ "fuzz" ∷ []) ("unit" ∷ []) ("unit" ∷ []) suggest 4 ("unit" ∷ "fuzz" ∷ [])
      refl suggested planned

suggestion_of : String → Value
suggestion_of id = fields (("id", str id) ∷ ("hypothesis", str "it breaks") ∷ [])

abbrev suggestions : Value
suggestions = fields (
    ("schema_version", int (pos 1))
    ∷ ("summary", str "two ideas")
    ∷ ("profiles", list (cons (suggestion_of "fuzz") (cons (suggestion_of "root") nil)))
    ∷ [])

abbrev selection : Selection
selection = record {
  accepted = "fuzz" ∷ [];
  hypotheses = ("fuzz", "it breaks") ∷ [];
  rejected = "root" ∷ [];
}

suggestions_read :
    validate_model_selection 8 ("unit" ∷ "fuzz" ∷ []) suggestions ≡ ok (selection, "two ideas")
unfolding validate_model_selection eq_nat suggestion_of has_ink is_safe_id
suggestions_read = refl

validate_model_selection-IsSelection_example :
    IsSelection ("unit" ∷ "fuzz" ∷ []) selection × (1 + 1 ≤ 8)
validate_model_selection-IsSelection_example =
    validate_model_selection-IsSelection 8 ("unit" ∷ "fuzz" ∷ []) suggestions selection "two ideas"
      suggestions_read

abbrev review_start : Dict
review_start = ledger_request "start" (str "job") (str "lease") []

start_accepted : check_reviewer strings review_start ≡ ok tt
unfolding check_reviewer
start_accepted = refl

abbrev qa_done : Dict
qa_done = ledger_request "complete" (str "job") (str "lease") (
    ("result", fields (("qa_status", str "reject") ∷ ("promotion_authorized", bool false) ∷ []))
    ∷ [])

done_accepted : check_qa strings qa_done ≡ ok tt
unfolding check_qa
done_accepted = refl

done_completes : lookup "operation" qa_done ≡ some (str "complete")
unfolding lookup
done_completes = refl

check_qa-IsConfined_example :
    (result : Fields) × (status : String) × (lookup "result" qa_done ≡ some (dict result))
    × (lookup "qa_status" (entries result) ≡ some (str status))
    × (contains ("qa_passed" ∷ "qa_failed" ∷ "reject" ∷ []) status ≡ true)
    × (is_unset (lookup "promotion_authorized" (entries result)) ≡ true)
check_qa-IsConfined_example = check_qa-IsConfined strings qa_done done_accepted done_completes

abbrev qa_context : Context
qa_context = record { job_id = str "job"; lease_token = str "lease" }

abbrev profile_result : Dict
profile_result = ("status", str "pass") ∷ []

abbrev world : World
world = record {
  ledger = λ request. ok (("state", str "started") ∷ ("committed", bool true) ∷ []);
  sandbox = λ profile. ok profile_result;
  digest = λ d. "digest";
}

abbrev run : Traced
run = durable_call_sandbox world (some qa_context) (str "job") "unit"

durable_call_sandbox-IsOrdered_example : IsOrdered world qa_context "unit" run.events
durable_call_sandbox-IsOrdered_example =
    durable_call_sandbox-IsOrdered world qa_context (str "job") "unit"

run_result : run.result ≡ ok profile_result
unfolding durable_call_sandbox
run_result = refl

durable_call_sandbox-IsCommitted_example : IsCommitted world qa_context "unit" run profile_result
durable_call_sandbox-IsCommitted_example =
    durable_call_sandbox-IsCommitted world qa_context (str "job") "unit" profile_result run_result
