-- ===== src/Tests/Gate.antt =====
-- The action gate at sample requests.
use frankensteinz_hermes.Tests.Samples.{policy, policy_file, hashes, branch_write, fields}
use frankensteinz_hermes.Gate.Policy.{load_policy, decisions}
use frankensteinz_hermes.Gate.Policy.Loaded.{IsLoaded, load_policy-IsLoaded}
use frankensteinz_hermes.Gate.Request.{Request, validate_request}
use frankensteinz_hermes.Gate.Decision.{decision, get_or}
use frankensteinz_hermes.Gate.Decision.Total.{HasSections}
use frankensteinz_hermes.Gate.Decide.{Response, decide}
use frankensteinz_hermes.Gate.Safety.{allow_reason, Admitted}
use frankensteinz_hermes.Gate.Sufficient.{Admitted-allow}
use frankensteinz_hermes.Gate.Guarantees.{decide-allow, decide_total, decide-malformed}
use frankensteinz_hermes.Base.{strip, contains, Result, String, false, true, err, ok, refl, ◌≡◌}
use frankensteinz_hermes.Python.{entries, Value, gate_error, Exn, str, lookup, Fields, dict}
use frankensteinz_hermes.Gate.Request.Normal.{validate_request-IsValid, IsValid}

abbrev branch_response : Response
branch_response = record {
  request_id = str "b032:1";
  actor = str "b032-engineering-worker";
  action_type = str "workspace_branch_write";
  risk_level = str "L1";
  environment = str "isolated";
  data_classification = str "INTERNAL";
  target_sha256 = str "repository";
  decision = "allow";
  reason = "risk_default:L1:allow";
  request_sha256 = "request";
  policy_sha256 = "policy";
  kill_switch_active = false;
}

branch_write_allowed : decide hashes branch_write policy false ≡ ok branch_response
unfolding decide validate_request decision strip
branch_write_allowed = refl

decide-allow_example :
    (false ≡ false)
    × ((r : Request) × (validate_request branch_write ≡ ok r) × Admitted r policy_file)
decide-allow_example =
    decide-allow hashes branch_write policy false branch_response branch_write_allowed refl

malformed : validate_request (str "hello") ≡ err (gate_error "request_not_object")
unfolding validate_request
malformed = refl

decide-malformed_example :
    (response : Response) × (decide hashes (str "hello") policy false ≡ ok response)
    × (response.decision ≡ "deny")
    × (response.policy_sha256 ≡ "policy")
    × (response.kill_switch_active ≡ false)
decide-malformed_example = decide-malformed hashes (str "hello") policy false _ malformed

policy_loads : load_policy (λ v. "policy") (ok (fields policy_file)) ≡ ok policy
unfolding load_policy
policy_loads = refl

load_policy-IsLoaded_example :
    IsLoaded policy_file
    × ((fs : Fields) × (◌≡◌ {A = Result Exn Value} (ok (fields policy_file)) (ok (dict fs)))
        × (policy_file ≡ entries fs)
        × (◌≡◌ {A = String} "policy" "policy"))
load_policy-IsLoaded_example =
    load_policy-IsLoaded (λ v. "policy") (ok (fields policy_file)) policy policy_loads

policy_sections : HasSections policy_file
unfolding get_or lookup
policy_sections = record {
  secret = _;
  secret_found = refl;
  l1 = _;
  l1_found = refl;
  environments = _;
  environments_found = refl;
  environments_hashable = refl;
}

decide_total_example :
    (response : Response) × (decide hashes branch_write policy false ≡ ok response)
    × (contains decisions response.decision ≡ true)
    × (response.policy_sha256 ≡ "policy")
    × (response.kill_switch_active ≡ false)
decide_total_example =
    decide_total hashes branch_write policy false load_policy-IsLoaded_example.0 policy_sections

branch_request : (r : Request) × (validate_request branch_write ≡ ok r)
branch_request = (decide-allow_example.1.0, decide-allow_example.1.1)

validate_request-IsValid_example :
    (fs : Fields) × (branch_write ≡ dict fs) × IsValid (entries fs) branch_request.0
validate_request-IsValid_example =
    validate_request-IsValid branch_write branch_request.0 branch_request.1

Admitted-allow_example :
    decision decide-allow_example.1.0 policy_file false
    ≡ ok ("allow", allow_reason decide-allow_example.1.0.risk_level)
Admitted-allow_example =
    Admitted-allow decide-allow_example.1.0 policy_file false decide-allow_example.1.2
