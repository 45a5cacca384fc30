-- ===== src/Tests/Samples.antt =====
-- policy/action-gate.json, and requests to the gate.
use frankensteinz_hermes.Gate.Policy.{LoadedPolicy}
use frankensteinz_hermes.Gate.Decide.{Hashes}
use frankensteinz_hermes.Base.{Bool, List, String, false, true, [], ◌∷◌}
use frankensteinz_hermes.Python.{
  of_dict, Value, Items, Dict, list, str, pos, cons, nil, dict, int, bool,
}

abbrev pub texts : List String → Items
texts [] = nil
texts (s ∷ ss) = cons (str s) (texts ss)

abbrev pub fields : Dict → Value
fields d = dict (of_dict d)

abbrev pub policy_file : Dict
policy_file =
    ("schema_version", int (pos 1))
    ∷ (
      "risk_defaults",
      fields (
          ("L0", str "allow")
          ∷ ("L1", str "allow")
          ∷ ("L2", str "approval_required")
          ∷ ("L3", str "approval_required")
          ∷ []),
    )
    ∷ ("hard_deny_actions", list (texts ("credential_export" ∷ "secret_to_llm" ∷ [])))
    ∷ (
      "approval_required_actions",
      list (texts ("production_write" ∷ "paid_inference_enable" ∷ [])),
    )
    ∷ ("l0", fields (("side_effecting_must_be", bool false) ∷ []))
    ∷ (
      "l1",
      fields (
          ("reversible_must_be", bool true)
          ∷ ("forbidden_environments", list (texts ("production" ∷ "external" ∷ [])))
          ∷ ("external_side_effect_must_be", bool false)
          ∷ []),
    )
    ∷ (
      "secret",
      fields (("deny_if_uses_llm", bool true) ∷ ("deny_if_external_side_effect", bool true) ∷ []),
    )
    ∷ []

abbrev pub policy : LoadedPolicy
policy = record { raw = policy_file; digest = "policy" }

abbrev pub hashes : Hashes
hashes = record { json = λ v. "request"; text = λ s. s; show = λ v. "value" }

-- The request of the engineering worker, by its action, its risk level and its classification.
abbrev pub request_of : String → String → String → Bool → Dict
request_of action risk class uses_llm =
    ("request_id", str " b032:1 ")
    ∷ ("actor", str "b032-engineering-worker")
    ∷ ("action_type", str action)
    ∷ ("risk_level", str risk)
    ∷ ("environment", str "isolated")
    ∷ ("data_classification", str class)
    ∷ ("target", str "repository")
    ∷ ("side_effecting", bool true)
    ∷ ("reversible", bool true)
    ∷ ("external_side_effect", bool false)
    ∷ ("uses_llm", bool uses_llm)
    ∷ []

abbrev pub branch_write : Value
branch_write = fields (request_of "workspace_branch_write" "L1" "INTERNAL" true)
