-- ===== src/Tests/Bundles.antt =====
-- A bundle of the reviewer at a sample.
use frankensteinz_hermes.Tests.Samples.{fields}
use frankensteinz_hermes.Base.{ℕ, ℕ, String, false, true, err, ok, refl, [], ◌≡◌, ◌∷◌}
use frankensteinz_hermes.Python.{str, json_decode_error, Value, Dict, pos, int, bool}
use frankensteinz_hermes.Qa.Bundle.{verify_review_bundle}
use frankensteinz_hermes.Qa.Bundle.Verified.{verify_review_bundle-IsApproved, IsBundle}
use frankensteinz_hermes.Checks.Files.{File, Directory}

abbrev pub payload : Dict
payload =
    ("review_job_id", str "review")
    ∷ ("base_commit", str "base")
    ∷ ("head_commit", str "head")
    ∷ ("branch", str "fzh/job-0123456789ab")
    ∷ ("review_evidence_sha256", str "e")
    ∷ ("review_manifest_sha256", str "m")
    ∷ []

abbrev evidence : Dict
evidence =
    ("schema_version", int (pos 1))
    ∷ ("job_id", str "review")
    ∷ ("verdict", str "approve")
    ∷ ("integrity_verified", bool true)
    ∷ ("promotion_authorized", bool false)
    ∷ ("next_stage", str "B034 adversarial QA")
    ∷ ("base_commit", str "base")
    ∷ ("head_commit", str "head")
    ∷ ("branch", str "fzh/job-0123456789ab")
    ∷ ("reconstructed_diff_sha256", str "d")
    ∷ []

abbrev metadata : String → ℕ → Value
metadata digest size = fields (("sha256", str digest) ∷ ("bytes", int (pos size)) ∷ [])

abbrev manifest : Value
manifest = fields (
    ("schema_version", int (pos 1))
    ∷ (
      "files",
      fields
          (("review-evidence.json", metadata "e" 10) ∷ ("reconstructed.diff", metadata "d" 7) ∷ []),
    )
    ∷ [])

abbrev diff : File
diff = record { size = 7; digest = "d"; parsed = err json_decode_error }

abbrev pub bundle : Directory
bundle = record {
  exists = true;
  files =
      ("review-evidence.json", record { size = 10; digest = "e"; parsed = ok (fields evidence) })
      ∷ ("manifest.json", record { size = 20; digest = "m"; parsed = ok manifest })
      ∷ ("reconstructed.diff", diff)
      ∷ [];
}

bundle_verified : verify_review_bundle bundle payload 4096 ≡ ok (evidence, diff)
unfolding verify_review_bundle
bundle_verified = refl

verify_review_bundle-IsApproved_example : IsBundle bundle payload evidence
verify_review_bundle-IsApproved_example =
    verify_review_bundle-IsApproved bundle payload 4096 evidence diff bundle_verified
