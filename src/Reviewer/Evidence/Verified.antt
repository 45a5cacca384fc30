-- ===== src/Reviewer/Evidence/Verified.antt =====
-- What `verify_manifest` of scripts/engineering_reviewer/reviewer.py guarantees of the evidence.
use frankensteinz_hermes.Python.{
  lookup, keys, entries, Fields, Dict, Value, Exn, list, str, dict, float, int, bool, null,
}
use frankensteinz_hermes.Base.{
  All, guard-eq-ok, and-eq-true, ok-injective, >>=-eq-ok, leb, is_subset, guard->>-eq-ok, ℕ, List,
  Result, String, subst, ap, ◌∙◌, arith, false, true, some, ok, refl, ◌≡◌, ◌==◌, ◌&&◌, ◌∷◌,
}
use frankensteinz_hermes.Checks.Files.{
  require_file, check_entries, file_names, find_file, File, Directory,
}
use frankensteinz_hermes.Reviewer.Evidence.{
  required_files, mismatch, missing, invalid_name, max_job_bytes, is_anchored, verify_files,
  parsed_or, check_anchors, verify_manifest, load_json, check_manifest, check_evidence,
}
use frankensteinz_hermes.Checks.Files.Described.{
  check_entries-IsDescribed, IsDescribed, require_file-ok, IsManifest,
}
use frankensteinz_hermes.Gate.Policy.{has_schema_version}
use frankensteinz_hermes.Qa.Bundle.{is_bool_of}
use frankensteinz_hermes.Checks.{is_text, require_dict}
use frankensteinz_hermes.Checks.Passed.{require_dict-ok}

-- The evidence has the digest that the job names, is handed to the reviewer and authorizes nothing.
pub record IsHandedOver (directory : Directory) (payload evidence : Dict) : Type 0 where
  pub manifest_file : File
  pub evidence_file : File
  pub manifest_found : find_file "manifest.json" directory.files ≡ some manifest_file
  pub evidence_found : find_file "implementation-evidence.json" directory.files ≡ some evidence_file
  pub manifest_anchor : is_anchored "implementation_manifest_sha256" manifest_file payload ≡ true
  pub evidence_anchor : is_anchored "implementation_evidence_sha256" evidence_file payload ≡ true
  pub fields : Fields
  pub parsed : evidence_file.parsed ≡ ok (dict fields)
  pub given : entries fields ≡ evidence
  pub no_promotion : is_bool_of false (lookup "promotion_authorized" evidence) ≡ true
  pub stage : is_text (λ s. s == "B033 independent reviewer") (lookup "next_stage" evidence) ≡ true

-- The manifest lists the files of the directory, itself apart, the patch among them, and describes
-- each.
pub record IsManifestOf (files : List (String × File)) (v : Value) : Type 0 where
  pub manifest : IsManifest files v
  pub required : is_subset required_files (keys (entries manifest.listed)) ≡ true

check_manifest-IsManifestOf :
    (files : List (String × File)) (v : Value) (d : Dict)
    → check_manifest files v ≡ ok d
    → IsManifestOf files v
unfolding check_manifest
check_manifest-IsManifestOf files (dict fs) d h =
    let (versioned, h₁) = guard->>-eq-ok (has_schema_version (entries fs)) _ _ h in
    let (listed, l, h₂) = >>=-eq-ok (require_dict (lookup "files" (entries fs)) _) _ h₁ in
    let (ls, found, same) = require_dict-ok (lookup "files" (entries fs)) _ listed l in
    let (required, h₃) = guard->>-eq-ok (is_subset required_files (keys listed)) _ _ h₂ in
    let a = is_subset (file_names files) ("manifest.json" ∷ keys listed) in
    let b = is_subset ("manifest.json" ∷ keys listed) (file_names files) in
    let (sets, h₄) = guard->>-eq-ok (a && b) _ _ h₃ in
    let (u, described, h₅) =
      >>=-eq-ok (check_entries invalid_name missing mismatch files listed) _ h₄ in
    record {
      manifest = record {
        fields = fs;
        listed = ls;
        given = refl;
        found = found;
        no_other =
            subst (λ d. is_subset (file_names files) ("manifest.json" ∷ keys d) ≡ true) same
              (and-eq-true a b sets).0;
        described =
            subst (λ d. All (IsDescribed files) d) same
              (check_entries-IsDescribed invalid_name missing mismatch files listed described);
      };
      required = subst (λ d. is_subset required_files (keys d) ≡ true) same required;
    }
check_manifest-IsManifestOf files null d h = cc
check_manifest-IsManifestOf files (bool b) d h = cc
check_manifest-IsManifestOf files (int z) d h = cc
check_manifest-IsManifestOf files (float x) d h = cc
check_manifest-IsManifestOf files (str s) d h = cc
check_manifest-IsManifestOf files (list xs) d h = cc

-- What `check_evidence` returns.
abbrev IsHandedTo : Value → Dict → Type 0
IsHandedTo v evidence =
    (fs : Fields) × (v ≡ dict fs)
    × (entries fs ≡ evidence)
    × (is_bool_of false (lookup "promotion_authorized" evidence) ≡ true)
    × (is_text (λ s. s == "B033 independent reviewer") (lookup "next_stage" evidence) ≡ true)

check_evidence-IsHandedTo : (v : Value) (d : Dict) → check_evidence v ≡ ok d → IsHandedTo v d
unfolding check_evidence
check_evidence-IsHandedTo (dict fs) d h =
    let e = entries fs in
    let (versioned, h₁) = guard->>-eq-ok (has_schema_version e) _ _ h in
    let holds = is_bool_of false (lookup "promotion_authorized" e) in
    let hands = is_text (λ s. s == "B033 independent reviewer") (lookup "next_stage" e) in
    let (both, h₂) = guard->>-eq-ok (holds && hands) _ _ h₁ in
    subst (IsHandedTo (dict fs)) (ok-injective refl h₂)
      (fs, refl, refl, (and-eq-true holds hands both).0, (and-eq-true holds hands both).1)
check_evidence-IsHandedTo null d h = cc
check_evidence-IsHandedTo (bool b) d h = cc
check_evidence-IsHandedTo (int z) d h = cc
check_evidence-IsHandedTo (float x) d h = cc
check_evidence-IsHandedTo (str s) d h = cc
check_evidence-IsHandedTo (list xs) d h = cc

parsed_or-ok : (e : Exn) (r : Result Exn Value) (v : Value) → parsed_or e r ≡ ok v → r ≡ ok v
parsed_or-ok e r v h = ground arith

load_json-ok :
    (name : String) (file : File) (limit : ℕ) (v : Value)
    → load_json name file limit ≡ ok v
    → file.parsed ≡ ok v
unfolding load_json
load_json-ok name file limit v h =
    let (small, h₁) = guard->>-eq-ok (leb file.size limit) _ _ h in parsed_or-ok _ file.parsed v h₁

-- Evidence that is verified has the digests that the job names, is handed to the reviewer without
-- authorizing a promotion, and its manifest lists every file of the directory, itself apart, the
-- patch among them, with the digest and the size of each.
pub verify_manifest-IsHandedOver :
    (directory : Directory) (payload manifest evidence : Dict)
    → verify_manifest directory payload ≡ ok (manifest, evidence)
    → IsHandedOver directory payload evidence × ((v : Value) × IsManifestOf directory.files v)
unfolding verify_manifest check_anchors verify_files
verify_manifest-IsHandedOver directory payload manifest evidence h =
    let (exists, h₁) = guard->>-eq-ok directory.exists _ _ h in
    let (mf, m, h₂) = >>=-eq-ok (require_file _ (find_file "manifest.json" directory.files)) _ h₁ in
    let (ef, e, h₃) =
      >>=-eq-ok (require_file _ (find_file "implementation-evidence.json" directory.files)) _ h₂ in
    let (u, anchors, h₄) = >>=-eq-ok (check_anchors payload mf ef) _ h₃ in
    verified mf ef (require_file-ok _ _ mf m) (require_file-ok _ _ ef e) anchors h₄
  where
    verified :
        (mf ef : File)
        → find_file "manifest.json" directory.files ≡ some mf
        → find_file "implementation-evidence.json" directory.files ≡ some ef
        → check_anchors payload mf ef ≡ ok tt
        → verify_files directory.files mf ef ≡ ok (manifest, evidence)
        → IsHandedOver directory payload evidence × ((v : Value) × IsManifestOf directory.files v)
    verified mf ef m e anchors h =
        let (anchor, a) =
          guard->>-eq-ok (is_anchored "implementation_manifest_sha256" mf payload) _ _ anchors in
        let (mv, p, h₁) = >>=-eq-ok (load_json "manifest.json" mf max_job_bytes) _ h in
        let (ev, q, h₂) =
          >>=-eq-ok (load_json "implementation-evidence.json" ef max_job_bytes) _ h₁ in
        let (d, good, h₃) = >>=-eq-ok (check_manifest directory.files mv) _ h₂ in
        let (x, handed, h₄) = >>=-eq-ok (check_evidence ev) _ h₃ in
        let same : x ≡ evidence = ap (λ r. r.1) (ok-injective refl h₄) in
        let (fs, given, here, holds, hands) =
          subst (IsHandedTo ev) same (check_evidence-IsHandedTo ev x handed) in
        (
          record {
            manifest_file = mf;
            evidence_file = ef;
            manifest_found = m;
            evidence_found = e;
            manifest_anchor = anchor;
            evidence_anchor =
                guard-eq-ok (is_anchored "implementation_evidence_sha256" ef payload) _ a;
            fields = fs;
            parsed =
                load_json-ok "implementation-evidence.json" ef max_job_bytes ev q ∙ ap ok given;
            given = here;
            no_promotion = holds;
            stage = hands;
          },
          (mv, check_manifest-IsManifestOf directory.files mv d good),
        )
