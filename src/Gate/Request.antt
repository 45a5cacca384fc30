-- ===== src/Gate/Request.antt =====
-- `validate_request` of scripts/action_gate/action_gate.py.
pub mod Entries
pub mod Raised
pub mod Normal
use frankensteinz_hermes.Base.{
  String, Bool, Option, none, some, ◌<>◌, Result, ok, err, ◌>>=◌, ◌>>◌, guard, contains,
  is_empty_text, strip, if◌then◌else◌,
}
use frankensteinz_hermes.Python.{
  list, Exn, gate_error, Value, bool, str, dict, end, Dict, entries, lookup, insert,
}
use frankensteinz_hermes.Gate.Policy.{risk_levels, environments, classifications}

-- The normalized request, with the entries that a decision reads beside it.
pub record Request : Type 0 where
  pub request_id : String
  pub actor : String
  pub action_type : String
  pub risk_level : String
  pub environment : String
  pub data_classification : String
  pub target : String
  pub side_effecting : Bool
  pub reversible : Bool
  pub external_side_effect : Bool
  pub uses_llm : Bool
  pub normalized : Dict

abbrev pub invalid : String → Exn
invalid key = gate_error ("request_" <> key <> "_invalid")

-- A text that is not blank.
abbrev pub text_entry : String → Option Value → Result Exn String
text_entry key (some (str s)) = if is_empty_text (strip s) then err (invalid key) else ok s
text_entry key _ = err (invalid key)

abbrev pub bool_entry : String → Option Value → Result Exn Bool
bool_entry key (some (bool b)) = ok b
bool_entry key _ = err (invalid key)

-- `request.get("metadata", {})`
abbrev pub metadata_entry : Option Value → Result Exn Value
metadata_entry none = ok (dict end)
metadata_entry (some (dict fs)) = ok (dict fs)
metadata_entry _ = err (gate_error "request_metadata_invalid")

-- The required texts as they stand in the request, and its flags.
pub record Texts : Type 0 where
  pub request_id : String
  pub actor : String
  pub action_type : String
  pub risk_level : String
  pub environment : String
  pub data_classification : String
  pub target : String

pub record Flags : Type 0 where
  pub side_effecting : Bool
  pub reversible : Bool
  pub external_side_effect : Bool
  pub uses_llm : Bool

-- `for key in required_strings:`
unfoldable pub required_texts : Dict → Result Exn Texts
unfolding lookup
required_texts d = do
  request_id ← text_entry "request_id" (lookup "request_id" d)
  actor ← text_entry "actor" (lookup "actor" d)
  action_type ← text_entry "action_type" (lookup "action_type" d)
  risk_level ← text_entry "risk_level" (lookup "risk_level" d)
  environment ← text_entry "environment" (lookup "environment" d)
  data_classification ← text_entry "data_classification" (lookup "data_classification" d)
  target ← text_entry "target" (lookup "target" d)
  ok (record {
    request_id = request_id;
    actor = actor;
    action_type = action_type;
    risk_level = risk_level;
    environment = environment;
    data_classification = data_classification;
    target = target;
  })

-- `for key in ("side_effecting", …):`
unfoldable pub required_flags : Dict → Result Exn Flags
unfolding lookup
required_flags d = do
  side_effecting ← bool_entry "side_effecting" (lookup "side_effecting" d)
  reversible ← bool_entry "reversible" (lookup "reversible" d)
  external_side_effect ← bool_entry "external_side_effect" (lookup "external_side_effect" d)
  uses_llm ← bool_entry "uses_llm" (lookup "uses_llm" d)
  ok (record {
    side_effecting = side_effecting;
    reversible = reversible;
    external_side_effect = external_side_effect;
    uses_llm = uses_llm;
  })

-- `normalized`, with its texts stripped in the order of `required_strings`
unfoldable pub normalize : Dict → Texts → Value → Dict
unfolding insert
normalize d t metadata = insert "metadata" metadata (
    insert "target" (str (strip t.target)) (
      insert "data_classification" (str (strip t.data_classification)) (
        insert "environment" (str (strip t.environment)) (
          insert "risk_level" (str (strip t.risk_level)) (
            insert "action_type" (str (strip t.action_type)) (
              insert "actor" (str (strip t.actor))
                (insert "request_id" (str (strip t.request_id)) d)))))))

unfoldable pub to_request : Dict → Texts → Flags → Value → Request
unfolding normalize
to_request d t f metadata = record {
  request_id = strip t.request_id;
  actor = strip t.actor;
  action_type = strip t.action_type;
  risk_level = strip t.risk_level;
  environment = strip t.environment;
  data_classification = strip t.data_classification;
  target = strip t.target;
  side_effecting = f.side_effecting;
  reversible = f.reversible;
  external_side_effect = f.external_side_effect;
  uses_llm = f.uses_llm;
  normalized = normalize d t metadata;
}

unfoldable pub validate_object : Dict → Result Exn Request
unfolding required_texts required_flags to_request lookup
validate_object d = do
  t ← required_texts d
  guard (contains risk_levels t.risk_level) (gate_error "request_risk_level_invalid")
  guard (contains environments t.environment) (gate_error "request_environment_invalid")
  guard (contains classifications t.data_classification)
      (gate_error "request_data_classification_invalid")
  f ← required_flags d
  metadata ← metadata_entry (lookup "metadata" d)
  ok (to_request d t f metadata)

unfoldable pub validate_request : Value → Result Exn Request
unfolding validate_object
validate_request (dict fs) = validate_object (entries fs)
validate_request _ = err (gate_error "request_not_object")
