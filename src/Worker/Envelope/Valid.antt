-- ===== src/Worker/Envelope/Valid.antt =====
-- What `validate_envelope` of scripts/engineering_worker/worker.py guarantees of a job.
use frankensteinz_hermes.Base.{
  not, guard-eq-ok, not-eq-true, guard->>-eq-ok, All, >>=-eq-ok, subst, sym, false, true, ok, refl,
  [], ◌≡◌, ◌∷◌,
}
use frankensteinz_hermes.Python.{
  worker_error, lookup, entries, Fields, Value, Dict, list, str, dict, float, int, bool, null,
}
use frankensteinz_hermes.Checks.Envelope.{
  check_paths-ok, is_list, check_texts-ok, check_paths, IsAllowedPath, check_texts, HasText,
  check_uuid, Strings,
}
use frankensteinz_hermes.Worker.Envelope.{
  is_production_branch, payload_texts, job_kind, validate_envelope, check_payload, check_envelope,
}
use frankensteinz_hermes.Checks.{require_dict, is_filled_list, get_or}
use frankensteinz_hermes.Checks.Passed.{find_section, HasSection}
use frankensteinz_hermes.Paths.Allowed.{entry_or_nil, allowed_list}

module _ (strings : Strings) where
  pub record IsPayload (payload : Dict) : Type 0 where
    pub texts : All (HasText payload) payload_texts
    pub some_path : is_filled_list (lookup "allowed_paths" payload) ≡ true
    pub paths : All (IsAllowedPath strings) (allowed_list (lookup "allowed_paths" payload))
    pub context_paths : is_list (entry_or_nil (lookup "context_paths" payload)) ≡ true
    pub test_ids : is_list (entry_or_nil (lookup "test_ids" payload)) ≡ true
    pub no_production : is_production_branch (get_or null (lookup "output_branch" payload)) ≡ false

  pub record IsJob (d : Dict) : Type 0 where
    pub kind : All (HasText d) (job_kind ∷ [])
    pub job_id : strings.uuid (get_or null (lookup "job_id" d)) ≡ true
    pub lease_token : strings.uuid (get_or null (lookup "lease_token" d)) ≡ true
    pub payload : HasSection d "payload" IsPayload

  check_payload-IsPayload : (p : Dict) → check_payload strings p ≡ ok tt → IsPayload p
  unfolding check_payload
  check_payload-IsPayload p h =
      let (u, texts, h₁) = >>=-eq-ok (check_texts payload_texts p) _ h in
      let (filled, h₂) = guard->>-eq-ok (is_filled_list (lookup "allowed_paths" p)) _ _ h₁ in
      let (v, paths, h₃) =
        >>=-eq-ok (check_paths worker_error strings (allowed_list (lookup "allowed_paths" p))) _
          h₂ in
      let (context, h₄) =
        guard->>-eq-ok (is_list (entry_or_nil (lookup "context_paths" p))) _ _ h₃ in
      let (tests, h₅) = guard->>-eq-ok (is_list (entry_or_nil (lookup "test_ids" p))) _ _ h₄ in
      let branch = is_production_branch (get_or null (lookup "output_branch" p)) in
      record {
        texts = check_texts-ok payload_texts p texts;
        some_path = filled;
        paths = check_paths-ok worker_error strings (allowed_list (lookup "allowed_paths" p)) paths;
        context_paths = context;
        test_ids = tests;
        no_production = not-eq-true branch (guard-eq-ok (not branch) _ h₅);
      }

  check_envelope-IsJob : (d : Dict) → check_envelope strings d ≡ ok tt → IsJob d
  unfolding check_envelope check_uuid
  check_envelope-IsJob d h =
      let (u, kind, h₁) = >>=-eq-ok (check_texts (job_kind ∷ []) d) _ h in
      let (job, h₂) = guard->>-eq-ok (strings.uuid (get_or null (lookup "job_id" d))) _ _ h₁ in
      let (lease, h₃) =
        guard->>-eq-ok (strings.uuid (get_or null (lookup "lease_token" d))) _ _ h₂ in
      let (payload, found, h₄) = >>=-eq-ok (require_dict (lookup "payload" d) _) _ h₃ in
      record {
        kind = check_texts-ok (job_kind ∷ []) d kind;
        job_id = job;
        lease_token = lease;
        payload =
            find_section d "payload" _ IsPayload payload found (check_payload-IsPayload payload h₄);
      }

  -- An envelope that the worker accepts is the dict that it was given. It is of the worker's kind,
  -- its job and its lease have UUIDs, its objective is not blank, its base is a commit hash, it
  -- allows at least one path, every allowed path is a safe one when its last slashes are dropped,
  -- and its branch is neither main nor master.
  pub validate_envelope-IsJob :
      (v : Value) (d : Dict)
      → validate_envelope strings v ≡ ok d
      → IsJob d × ((fs : Fields) × (v ≡ dict fs) × (d ≡ entries fs))
  unfolding validate_envelope
  validate_envelope-IsJob (dict fs) d h =
      let (u, checked, h₁) = >>=-eq-ok (check_envelope strings (entries fs)) _ h in
      let e : entries fs ≡ d = cc h₁ in
      (subst IsJob e (check_envelope-IsJob (entries fs) checked), (fs, refl, sym e))
  validate_envelope-IsJob null d h = cc
  validate_envelope-IsJob (bool b) d h = cc
  validate_envelope-IsJob (int z) d h = cc
  validate_envelope-IsJob (float x) d h = cc
  validate_envelope-IsJob (str s) d h = cc
  validate_envelope-IsJob (list xs) d h = cc
