-- ===== src/Tests/Envelopes.antt =====
-- Envelopes of the three workers at samples.
use frankensteinz_hermes.Worker.Envelope.{validate_envelope as worker_validate_envelope}
use frankensteinz_hermes.Reviewer.Envelope.{validate_envelope as reviewer_validate_envelope}
use frankensteinz_hermes.Qa.Envelope.{validate_envelope as qa_validate_envelope}
use frankensteinz_hermes.Tests.Samples.{texts, fields}
use frankensteinz_hermes.Base.{List, List, String, true, ok, refl, [], ◌≡◌, ◌∷◌}
use frankensteinz_hermes.Python.{list, str, of_dict, entries, Value, Fields, dict}
use frankensteinz_hermes.Checks.Envelope.{is_str, Strings}
use frankensteinz_hermes.Ledger.{check_worker}
use frankensteinz_hermes.Checks.{is_branch, has_ink, is_hex}
use frankensteinz_hermes.Ledger.Accepts.{check_worker-accepts, commit_effect, to_request}

abbrev job : Value
job = str "11111111-2222-4333-8444-555555555555"

-- UUIDs by their length: enough for the samples.
abbrev pub strings : Strings
strings = record { uuid = λ v. is_str v; show = λ v. "value" }

abbrev pub sha40 : String
sha40 = "0123456789abcdef0123456789abcdef01234567"

abbrev pub sha64 : String
sha64 = "0123456789abcdef0123456789abcdef0123456789abcdef0123456789abcdef"

abbrev envelope : String → List (String × Value) → Fields
envelope kind payload = of_dict (
    ("job_kind", str kind)
    ∷ ("job_id", job)
    ∷ ("lease_token", job)
    ∷ ("payload", fields payload)
    ∷ [])

abbrev worker_job : Fields
worker_job = envelope "engineering.implement" (
    ("objective", str " add a page ")
    ∷ ("base_commit", str sha40)
    ∷ ("allowed_paths", list (texts ("docs/" ∷ [])))
    ∷ [])

worker_job_accepted : worker_validate_envelope strings (dict worker_job) ≡ ok (entries worker_job)
unfolding worker_validate_envelope is_hex has_ink
worker_job_accepted = refl

abbrev candidate : List (String × Value)
candidate =
    ("base_commit", str sha40)
    ∷ ("head_commit", str sha40)
    ∷ ("branch", str "fzh/job-0123456789ab")
    ∷ ("objective", str "add a page")
    ∷ []

abbrev review_job : Fields
review_job = envelope "engineering.review" (
    ("implementation_job_id", job)
    ∷ ("implementation_evidence_sha256", str sha64)
    ∷ ("implementation_manifest_sha256", str sha64)
    ∷ ("allowed_paths", list (texts ("docs/" ∷ [])))
    ∷ candidate)

review_job_accepted : reviewer_validate_envelope strings (dict review_job) ≡ ok (entries review_job)
unfolding reviewer_validate_envelope is_hex is_branch has_ink
review_job_accepted = refl

abbrev qa_job : Fields
qa_job = envelope "engineering.qa" (
    ("review_job_id", job)
    ∷ ("review_evidence_sha256", str sha64)
    ∷ ("review_manifest_sha256", str sha64)
    ∷ ("required_profile_ids", list (texts ("fuzz" ∷ [])))
    ∷ candidate)

qa_job_accepted : qa_validate_envelope strings (dict qa_job) ≡ ok (entries qa_job)
unfolding qa_validate_envelope is_hex is_branch has_ink
qa_job_accepted = refl

sha40_hex : is_hex 40 sha40 ≡ true
unfolding is_hex
sha40_hex = refl

check_worker-accepts_example :
    check_worker strings (to_request job job (commit_effect sha40)) ≡ ok tt
check_worker-accepts_example =
    check_worker-accepts strings job job (commit_effect sha40) refl refl sha40_hex
