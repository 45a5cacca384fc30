-- ===== src/Qa/Bundle/Verified.antt =====
-- What `verify_review_bundle` of scripts/engineering_qa/coordinator_core.py guarantees of a bundle.
use frankensteinz_hermes.Base.{
  ◌∙◌, some, ◌+◌, and-eq-true, is_subset, guard-eq-ok, leb, Result, arith, ok-injective,
  guard->>-eq-ok, >>=-eq-ok, All, ℕ, List, String, subst, ap, false, true, ok, refl, ◌≡◌, ◌==◌,
  ◌&&◌, ◌∷◌,
}
use frankensteinz_hermes.Python.{
  keys, lookup, entries, Value, Exn, Fields, Dict, list, str, dict, float, int, bool, null,
}
use frankensteinz_hermes.Qa.Bundle.{
  mismatch, invalid_name, check_anchors, is_bool_of, check_diff, json_or, verify_files, binds,
  verify_review_bundle, check_manifest, check_evidence,
}
use frankensteinz_hermes.Checks.{require_dict, is_text}
use frankensteinz_hermes.Gate.Policy.{has_schema_version}
use frankensteinz_hermes.Checks.Passed.{require_dict-ok}
use frankensteinz_hermes.Checks.Files.Described.{
  require_file-ok, IsManifest, check_entries-IsDescribed, IsDescribed,
}
use frankensteinz_hermes.Checks.Files.{find_file, require_file, file_names, File, Directory}

check_manifest-IsManifest :
    (files : List (String × File)) (v : Value) → check_manifest files v ≡ ok tt → IsManifest files v
unfolding check_manifest
check_manifest-IsManifest files (dict fs) h =
    let (versioned, h₁) = guard->>-eq-ok (has_schema_version (entries fs)) _ _ h in
    let (listed, l, h₂) = >>=-eq-ok (require_dict (lookup "files" (entries fs)) _) _ h₁ in
    let (ls, found, same) = require_dict-ok (lookup "files" (entries fs)) _ listed l in
    let a = is_subset (file_names files) ("manifest.json" ∷ keys listed) in
    let b = is_subset ("manifest.json" ∷ keys listed) (file_names files) in
    let (sets, h₃) = guard->>-eq-ok (a && b) _ _ h₂ in
    record {
      fields = fs;
      listed = ls;
      given = refl;
      found = found;
      no_other =
          subst (λ d. is_subset (file_names files) ("manifest.json" ∷ keys d) ≡ true) same
            (and-eq-true a b sets).0;
      described =
          subst (λ d. All (IsDescribed files) d) same
            (check_entries-IsDescribed invalid_name mismatch mismatch files listed h₃);
    }
check_manifest-IsManifest files null h = cc
check_manifest-IsManifest files (bool b) h = cc
check_manifest-IsManifest files (int z) h = cc
check_manifest-IsManifest files (float x) h = cc
check_manifest-IsManifest files (str s) h = cc
check_manifest-IsManifest files (list xs) h = cc

-- The evidence is of an approved review of this candidate that authorizes no promotion.
pub record IsApproved (payload evidence : Dict) : Type 0 where
  pub job : binds evidence payload "job_id" "review_job_id" ≡ true
  pub approved : is_text (λ s. s == "approve") (lookup "verdict" evidence) ≡ true
  pub verified : is_bool_of true (lookup "integrity_verified" evidence) ≡ true
  pub no_promotion : is_bool_of false (lookup "promotion_authorized" evidence) ≡ true
  pub base : binds evidence payload "base_commit" "base_commit" ≡ true
  pub head : binds evidence payload "head_commit" "head_commit" ≡ true
  pub branch : binds evidence payload "branch" "branch" ≡ true

check_evidence-IsApproved :
    (payload : Dict) (v : Value) (d : Dict) → check_evidence payload v ≡ ok d → IsApproved payload d
unfolding check_evidence
check_evidence-IsApproved payload (dict fs) d h =
    let e = entries fs in
    let (versioned, h₁) = guard->>-eq-ok (has_schema_version e) _ _ h in
    let (job, h₂) = guard->>-eq-ok (binds e payload "job_id" "review_job_id") _ _ h₁ in
    let approves = is_text (λ s. s == "approve") (lookup "verdict" e) in
    let verifies = is_bool_of true (lookup "integrity_verified" e) in
    let (a, h₃) = guard->>-eq-ok (approves && verifies) _ _ h₂ in
    let holds = is_bool_of false (lookup "promotion_authorized" e) in
    let hands = is_text (λ s. s == "B034 adversarial QA") (lookup "next_stage" e) in
    let (p, h₄) = guard->>-eq-ok (holds && hands) _ _ h₃ in
    let (base, h₅) = guard->>-eq-ok (binds e payload "base_commit" "base_commit") _ _ h₄ in
    let (head, h₆) = guard->>-eq-ok (binds e payload "head_commit" "head_commit") _ _ h₅ in
    let (branch, h₇) = guard->>-eq-ok (binds e payload "branch" "branch") _ _ h₆ in
    subst (IsApproved payload) (ok-injective refl h₇) (record {
      job = job;
      approved = (and-eq-true approves verifies a).0;
      verified = (and-eq-true approves verifies a).1;
      no_promotion = (and-eq-true holds hands p).0;
      base = base;
      head = head;
      branch = branch;
    })
check_evidence-IsApproved payload null d h = cc
check_evidence-IsApproved payload (bool b) d h = cc
check_evidence-IsApproved payload (int z) d h = cc
check_evidence-IsApproved payload (float x) d h = cc
check_evidence-IsApproved payload (str s) d h = cc
check_evidence-IsApproved payload (list xs) d h = cc

json_or-ok : (e : Exn) (r : Result Exn Value) (v : Value) → json_or e r ≡ ok v → r ≡ ok v
json_or-ok e r v h = ground arith

-- The evidence is what the file of the directory parses to, and the manifest too; each has the digest
-- that the job names.
pub record IsBundle (directory : Directory) (payload evidence : Dict) : Type 0 where
  pub evidence_file : File
  pub manifest_file : File
  pub evidence_found : find_file "review-evidence.json" directory.files ≡ some evidence_file
  pub manifest_found : find_file "manifest.json" directory.files ≡ some manifest_file
  pub evidence_anchor :
      is_text (λ s. s == evidence_file.digest) (lookup "review_evidence_sha256" payload) ≡ true
  pub manifest_anchor :
      is_text (λ s. s == manifest_file.digest) (lookup "review_manifest_sha256" payload) ≡ true
  pub fields : Fields
  pub parsed : evidence_file.parsed ≡ ok (dict fields)
  pub given : entries fields ≡ evidence
  pub approved : IsApproved payload evidence
  pub listing : Value
  pub manifest_parsed : manifest_file.parsed ≡ ok listing
  pub manifest : IsManifest directory.files listing

check_evidence-entries :
    (payload : Dict) (v : Value) (d : Dict)
    → check_evidence payload v ≡ ok d
    → (fs : Fields) × (v ≡ dict fs) × (entries fs ≡ d)
unfolding check_evidence
check_evidence-entries payload (dict fs) d h =
    let e = entries fs in
    let (versioned, h₁) = guard->>-eq-ok (has_schema_version e) _ _ h in
    let (job, h₂) = guard->>-eq-ok (binds e payload "job_id" "review_job_id") _ _ h₁ in
    let approves = is_text (λ s. s == "approve") (lookup "verdict" e) in
    let verifies = is_bool_of true (lookup "integrity_verified" e) in
    let (a, h₃) = guard->>-eq-ok (approves && verifies) _ _ h₂ in
    let holds = is_bool_of false (lookup "promotion_authorized" e) in
    let hands = is_text (λ s. s == "B034 adversarial QA") (lookup "next_stage" e) in
    let (p, h₄) = guard->>-eq-ok (holds && hands) _ _ h₃ in
    let (base, h₅) = guard->>-eq-ok (binds e payload "base_commit" "base_commit") _ _ h₄ in
    let (head, h₆) = guard->>-eq-ok (binds e payload "head_commit" "head_commit") _ _ h₅ in
    let (branch, h₇) = guard->>-eq-ok (binds e payload "branch" "branch") _ _ h₆ in
    (fs, refl, ok-injective refl h₇)
check_evidence-entries payload null d h = cc
check_evidence-entries payload (bool b) d h = cc
check_evidence-entries payload (int z) d h = cc
check_evidence-entries payload (float x) d h = cc
check_evidence-entries payload (str s) d h = cc
check_evidence-entries payload (list xs) d h = cc

check_anchors-ok :
    (payload : Dict) (maximum : ℕ) (ef mf : File)
    → check_anchors payload maximum ef mf ≡ ok tt
    → (is_text (λ s. s == ef.digest) (lookup "review_evidence_sha256" payload) ≡ true)
      × (is_text (λ s. s == mf.digest) (lookup "review_manifest_sha256" payload) ≡ true)
unfolding check_anchors
check_anchors-ok payload maximum ef mf h =
    let (small, h₁) = guard->>-eq-ok (leb (ef.size + mf.size) maximum) _ _ h in
    let (a, h₂) =
      guard->>-eq-ok (is_text (λ s. s == ef.digest) (lookup "review_evidence_sha256" payload)) _ _
        h₁ in
    (a, guard-eq-ok (is_text (λ s. s == mf.digest) (lookup "review_manifest_sha256" payload)) _ h₂)

-- A bundle that is verified holds, in the file of the evidence, an approved review of this job's
-- candidate, which authorizes no promotion; the evidence and the manifest have the digests that the
-- job names; and the manifest, as its file parses, lists every file of the directory, itself apart,
-- and gives the digest and the size of each file that it lists.
pub verify_review_bundle-IsApproved :
    (directory : Directory) (payload : Dict) (maximum : ℕ) (evidence : Dict) (diff : File)
    → verify_review_bundle directory payload maximum ≡ ok (evidence, diff)
    → IsBundle directory payload evidence
unfolding verify_review_bundle verify_files
verify_review_bundle-IsApproved directory payload maximum evidence diff h =
    let (exists, h₁) = guard->>-eq-ok directory.exists _ _ h in
    let (ef, e, h₂) =
      >>=-eq-ok (require_file _ (find_file "review-evidence.json" directory.files)) _ h₁ in
    let (mf, m, h₃) = >>=-eq-ok (require_file _ (find_file "manifest.json" directory.files)) _ h₂ in
    let (u, anchors, h₄) = >>=-eq-ok (check_anchors payload maximum ef mf) _ h₃ in
    let (ea, ma) = check_anchors-ok payload maximum ef mf anchors in
    verified ef mf (require_file-ok _ _ ef e) (require_file-ok _ _ mf m) ea ma h₄
  where
    verified :
        (ef mf : File)
        → find_file "review-evidence.json" directory.files ≡ some ef
        → find_file "manifest.json" directory.files ≡ some mf
        → is_text (λ s. s == ef.digest) (lookup "review_evidence_sha256" payload) ≡ true
        → is_text (λ s. s == mf.digest) (lookup "review_manifest_sha256" payload) ≡ true
        → verify_files payload maximum directory.files ef mf ≡ ok (evidence, diff)
        → IsBundle directory payload evidence
    verified ef mf e m ea ma h =
        let (ev, p, h₁) = >>=-eq-ok (json_or _ ef.parsed) _ h in
        let (mv, q, h₂) = >>=-eq-ok (json_or _ mf.parsed) _ h₁ in
        let (u, good, h₃) = >>=-eq-ok (check_manifest directory.files mv) _ h₂ in
        let (d, approved, h₄) = >>=-eq-ok (check_evidence payload ev) _ h₃ in
        let (f, g, h₅) = >>=-eq-ok (check_diff maximum d directory.files) _ h₄ in
        let same : d ≡ evidence = ap (λ x. x.0) (ok-injective refl h₅) in
        let (fs, is_dict, here) = check_evidence-entries payload ev d approved in
        record {
          evidence_file = ef;
          manifest_file = mf;
          evidence_found = e;
          manifest_found = m;
          evidence_anchor = ea;
          manifest_anchor = ma;
          fields = fs;
          parsed = json_or-ok _ ef.parsed ev p ∙ ap ok is_dict;
          given = here ∙ same;
          approved =
              subst (IsApproved payload) same (check_evidence-IsApproved payload ev d approved);
          listing = mv;
          manifest_parsed = json_or-ok _ mf.parsed mv q;
          manifest = check_manifest-IsManifest directory.files mv good;
        }
