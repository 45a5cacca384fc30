-- ===== src/Ledger/Confined.antt =====
-- What the ledger adapters let through.
use frankensteinz_hermes.Base.{
  not, all-contains, not-eq-true, refl, >>=-eq-ok, guard-eq-ok, contains, guard->>-eq-ok, String,
  subst, false, true, some, ok, [], ◌≡◌, ◌∷◌,
}
use frankensteinz_hermes.Python.{entries, lookup, Fields, Dict, str, dict, null}
use frankensteinz_hermes.Checks.Envelope.{check_uuid, Strings}
use frankensteinz_hermes.Ledger.{
  qa_fields, writer_operations, reviewer_operations, is_unset, qa_complete, check_reviewer,
  check_qa, check_ids,
}
use frankensteinz_hermes.Checks.{require_dict, get_or}
use frankensteinz_hermes.Reviewer.Findings.{member_or}
use frankensteinz_hermes.Reviewer.Findings.Entries.{member_or-ok}
use frankensteinz_hermes.Checks.Passed.{require_dict-ok}

record HasIds (strings : Strings) (d : Dict) : Type 0 where
  job_id : strings.uuid (get_or null (lookup "job_id" d)) ≡ true
  lease_token : strings.uuid (get_or null (lookup "lease_token" d)) ≡ true

check_ids-ok : (strings : Strings) (d : Dict) → check_ids strings d ≡ ok tt → HasIds strings d
unfolding check_ids check_uuid
check_ids-ok strings d h =
    let (j, h₁) = guard->>-eq-ok (strings.uuid (get_or null (lookup "job_id" d))) _ _ h in
    record {
      job_id = j;
      lease_token = guard-eq-ok (strings.uuid (get_or null (lookup "lease_token" d))) _ h₁;
    }

-- A request of the reviewer that is let through is one of its four operations, none of which records
-- a gate's decision or an effect, and has UUIDs for its job and its lease.
pub check_reviewer-IsConfined :
    (strings : Strings) (d : Dict)
    → check_reviewer strings d ≡ ok tt
    → ((op : String) × (lookup "operation" d ≡ some (str op))
        × (contains reviewer_operations op ≡ true)
        × (contains ("record_gate" ∷ "begin_effect" ∷ "commit_effect" ∷ []) op ≡ false))
      × (strings.uuid (get_or null (lookup "job_id" d)) ≡ true)
      × (strings.uuid (get_or null (lookup "lease_token" d)) ≡ true)
unfolding check_reviewer
check_reviewer-IsConfined strings d h =
    let (op, is_op, h₁) = >>=-eq-ok (member_or reviewer_operations _ (lookup "operation" d)) _ h in
    let (u, ids, h₂) = >>=-eq-ok (check_ids strings d) _ h₁ in
    let (known, found) = member_or-ok reviewer_operations _ (lookup "operation" d) op is_op in
    let i = check_ids-ok strings d ids in
    ((op, found, known, no_effect op known), i.job_id, i.lease_token)
  where
    no_effect :
        (op : String)
        → contains reviewer_operations op ≡ true
        → contains ("record_gate" ∷ "begin_effect" ∷ "commit_effect" ∷ []) op ≡ false
    no_effect op known =
        not-eq-true (contains ("record_gate" ∷ "begin_effect" ∷ "commit_effect" ∷ []) op) (
          all-contains
            (λ op. not (contains ("record_gate" ∷ "begin_effect" ∷ "commit_effect" ∷ []) op))
            reviewer_operations op refl known)

qa_complete-ok :
    (strings : Strings) (d : Dict)
    → qa_complete strings d ≡ ok tt
    → (result : Fields) × (status : String) × (lookup "result" d ≡ some (dict result))
      × (lookup "qa_status" (entries result) ≡ some (str status))
      × (contains ("qa_passed" ∷ "qa_failed" ∷ "reject" ∷ []) status ≡ true)
      × (is_unset (lookup "promotion_authorized" (entries result)) ≡ true)
unfolding qa_complete
qa_complete-ok strings d h =
    let (r, is_r, h₁) = >>=-eq-ok (require_dict (lookup "result" d) _) _ h in
    let (fs, found, same) = require_dict-ok (lookup "result" d) _ r is_r in
    let (s, is_s, h₂) =
      >>=-eq-ok (member_or ("qa_passed" ∷ "qa_failed" ∷ "reject" ∷ []) _ (lookup "qa_status" r)) _
        h₁ in
    let (known, read) =
      member_or-ok ("qa_passed" ∷ "qa_failed" ∷ "reject" ∷ []) _ (lookup "qa_status" r) s is_s in
    let unset = guard-eq-ok (is_unset (lookup "promotion_authorized" r)) _ h₂ in
    (
      fs,
      s,
      found,
      subst (λ r. lookup "qa_status" r ≡ some (str s)) same read,
      known,
      subst (λ r. is_unset (lookup "promotion_authorized" r) ≡ true) same unset,
    )

-- A completion that the QA coordinator's adapter lets through has a result with one of the three
-- statuses, and does not authorize a promotion.
pub check_qa-IsConfined :
    (strings : Strings) (d : Dict)
    → check_qa strings d ≡ ok tt
    → lookup "operation" d ≡ some (str "complete")
    → (result : Fields) × (status : String) × (lookup "result" d ≡ some (dict result))
      × (lookup "qa_status" (entries result) ≡ some (str status))
      × (contains ("qa_passed" ∷ "qa_failed" ∷ "reject" ∷ []) status ≡ true)
      × (is_unset (lookup "promotion_authorized" (entries result)) ≡ true)
unfolding check_qa
check_qa-IsConfined strings d h completes =
    let (op, is_op, h₁) = >>=-eq-ok (member_or writer_operations _ (lookup "operation" d)) _ h in
    let (known, found) = member_or-ok writer_operations _ (lookup "operation" d) op is_op in
    let same : op ≡ "complete" = cc (found, completes) in
    let (u, ids, h₂) = >>=-eq-ok (check_ids strings d) _ h₁ in
    qa_complete-ok strings d (subst (λ op. qa_fields strings op d ≡ ok tt) same h₂)
