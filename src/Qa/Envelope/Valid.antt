-- ===== src/Qa/Envelope/Valid.antt =====
-- What `validate_envelope` of scripts/engineering_qa/coordinator_core.py guarantees of a job.
use frankensteinz_hermes.Base.{
  guard-eq-ok, guard->>-eq-ok, >>=-eq-ok, All, subst, sym, true, ok, refl, [], ◌≡◌, ◌∷◌,
}
use frankensteinz_hermes.Python.{
  entries, lookup, Fields, Value, Dict, list, str, dict, float, int, bool, null,
}
use frankensteinz_hermes.Checks.Envelope.{check_texts-ok, check_texts, HasText, check_uuid, Strings}
use frankensteinz_hermes.Qa.Envelope.{
  is_profiles, payload_texts, job_kind, validate_envelope, check_payload, check_envelope,
}
use frankensteinz_hermes.Checks.{require_dict, get_or}
use frankensteinz_hermes.Checks.Passed.{find_section, HasSection}
use frankensteinz_hermes.Paths.Allowed.{entry_or_nil}

module _ (strings : Strings) where
  pub record IsPayload (payload : Dict) : Type 0 where
    pub job : strings.uuid (get_or null (lookup "review_job_id" payload)) ≡ true
    pub texts : All (HasText payload) payload_texts
    pub required : is_profiles (entry_or_nil (lookup "required_profile_ids" payload)) ≡ true

  pub record IsJob (d : Dict) : Type 0 where
    pub kind : All (HasText d) (job_kind ∷ [])
    pub job_id : strings.uuid (get_or null (lookup "job_id" d)) ≡ true
    pub lease_token : strings.uuid (get_or null (lookup "lease_token" d)) ≡ true
    pub payload : HasSection d "payload" IsPayload

  check_payload-IsPayload : (p : Dict) → check_payload strings p ≡ ok tt → IsPayload p
  unfolding check_payload check_uuid
  check_payload-IsPayload p h =
      let (job, h₁) =
        guard->>-eq-ok (strings.uuid (get_or null (lookup "review_job_id" p))) _ _ h in
      let (u, texts, h₂) = >>=-eq-ok (check_texts payload_texts p) _ h₁ in
      record {
        job = job;
        texts = check_texts-ok payload_texts p texts;
        required = guard-eq-ok (is_profiles (entry_or_nil (lookup "required_profile_ids" p))) _ h₂;
      }

  check_envelope-IsJob : (d : Dict) → check_envelope strings d ≡ ok tt → IsJob d
  unfolding check_envelope check_uuid
  check_envelope-IsJob d h =
      let (u, kind, h₁) = >>=-eq-ok (check_texts (job_kind ∷ []) d) _ h in
      let (job, h₂) = guard->>-eq-ok (strings.uuid (get_or null (lookup "job_id" d))) _ _ h₁ in
      let (lease, h₃) =
        guard->>-eq-ok (strings.uuid (get_or null (lookup "lease_token" d))) _ _ h₂ in
      let (payload, found, h₄) = >>=-eq-ok (require_dict (lookup "payload" d) _) _ h₃ in
      record {
        kind = check_texts-ok (job_kind ∷ []) d kind;
        job_id = job;
        lease_token = lease;
        payload =
            find_section d "payload" _ IsPayload payload found (check_payload-IsPayload payload h₄);
      }

  -- An envelope that the QA coordinator accepts is the dict that it was given. It is of the
  -- coordinator's kind, its job, its lease and its review have UUIDs, its commits, digests and branch
  -- have their forms, its objective is not blank, and the profiles that it requires are safe names.
  pub validate_envelope-IsQaJob :
      (v : Value) (d : Dict)
      → validate_envelope strings v ≡ ok d
      → IsJob d × ((fs : Fields) × (v ≡ dict fs) × (d ≡ entries fs))
  unfolding validate_envelope
  validate_envelope-IsQaJob (dict fs) d h =
      let (u, checked, h₁) = >>=-eq-ok (check_envelope strings (entries fs)) _ h in
      let e : entries fs ≡ d = cc h₁ in
      (subst IsJob e (check_envelope-IsJob (entries fs) checked), (fs, refl, sym e))
  validate_envelope-IsQaJob null d h = cc
  validate_envelope-IsQaJob (bool b) d h = cc
  validate_envelope-IsQaJob (int z) d h = cc
  validate_envelope-IsQaJob (float x) d h = cc
  validate_envelope-IsQaJob (str s) d h = cc
  validate_envelope-IsQaJob (list xs) d h = cc
