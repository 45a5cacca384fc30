-- ===== src/Gate/Decide.antt =====
-- `decide` of scripts/action_gate/action_gate.py. The digests come from `hashlib` and `json`.
use frankensteinz_hermes.Base.{String, Bool, none, some, Result, ok, err, ◌>>=◌, ◌<>◌}
use frankensteinz_hermes.Python.{Exn, gate_error, Value, null, str, dict, entries, of_dict, lookup}
use frankensteinz_hermes.Gate.Policy.{LoadedPolicy}
use frankensteinz_hermes.Gate.Request.{Request, validate_request}
use frankensteinz_hermes.Gate.Decision.{decision}

-- `sha256_json`, the SHA-256 digest of a text, and `str` of a value that is no text.
pub record Hashes : Type 0 where
  pub json : Value → String
  pub text : String → String
  pub show : Value → String

pub record Response : Type 0 where
  pub request_id : Value
  pub actor : Value
  pub action_type : Value
  pub risk_level : Value
  pub environment : Value
  pub data_classification : Value
  pub target_sha256 : Value
  pub decision : String
  pub reason : String
  pub request_sha256 : String
  pub policy_sha256 : String
  pub kill_switch_active : Bool

-- `request.get(key) if isinstance(request, dict) else None`
abbrev pub entry_or_null : String → Value → Value
entry_or_null key (dict fs) = elim (lookup key (entries fs)) [ none ↦ null | some v ↦ v ]
entry_or_null key v = null

abbrev target_digest : Hashes → Value → Value
target_digest h null = null
target_digest h (str s) = str (h.text s)
target_digest h v = str (h.text (h.show v))

unfoldable pub fail_closed : Hashes → Value → LoadedPolicy → Bool → String → Response
unfolding lookup
fail_closed h request policy kill_switch_active reason = record {
  request_id = entry_or_null "request_id" request;
  actor = entry_or_null "actor" request;
  action_type = entry_or_null "action_type" request;
  risk_level = entry_or_null "risk_level" request;
  environment = entry_or_null "environment" request;
  data_classification = entry_or_null "data_classification" request;
  target_sha256 = target_digest h (entry_or_null "target" request);
  decision = "deny";
  reason = "fail_closed:" <> reason;
  request_sha256 = h.json request;
  policy_sha256 = policy.digest;
  kill_switch_active = kill_switch_active;
}

unfoldable pub respond : Hashes → Request → LoadedPolicy → Bool → String × String → Response
respond h r policy kill_switch_active (verdict, reason) = record {
  request_id = str r.request_id;
  actor = str r.actor;
  action_type = str r.action_type;
  risk_level = str r.risk_level;
  environment = str r.environment;
  data_classification = str r.data_classification;
  target_sha256 = str (h.text r.target);
  decision = verdict;
  reason = reason;
  request_sha256 = h.json (dict (of_dict r.normalized));
  policy_sha256 = policy.digest;
  kill_switch_active = kill_switch_active;
}

-- `except GateError`
abbrev pub rescue : (String → Response) → Result Exn Response → Result Exn Response
rescue f (err (gate_error m)) = ok (f m)
rescue f r = r

unfoldable pub decide : Hashes → Value → LoadedPolicy → Bool → Result Exn Response
unfolding fail_closed respond
decide h request policy kill_switch_active =
    rescue (fail_closed h request policy kill_switch_active) (do
      r ← validate_request request
      verdict ← decision r policy.raw kill_switch_active
      ok (respond h r policy kill_switch_active verdict))
