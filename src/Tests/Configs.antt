-- ===== src/Tests/Configs.antt =====
-- Configs and envelopes of the three workers at samples.
use frankensteinz_hermes.Worker.Config.{validate_config as worker_validate_config}
use frankensteinz_hermes.Reviewer.Config.{validate_config as reviewer_validate_config}
use frankensteinz_hermes.Qa.Config.{validate_config as qa_validate_config}
use frankensteinz_hermes.Tests.Samples.{texts, fields}
use frankensteinz_hermes.Base.{ℕ, false, ok, refl, [], ◌≡◌, ◌∷◌}
use frankensteinz_hermes.Python.{
  eq_nat, of_dict, list, entries, Value, Fields, pos, dict, int, bool,
}

abbrev pub number : ℕ → Value
number n = int (pos n)

abbrev command : Value
command = list (texts ("/usr/local/libexec/adapter" ∷ []))

abbrev worker_config : Fields
worker_config = of_dict (
    ("schema_version", number 1)
    ∷ (
      "ledger",
      fields (
          ("adapter_command", command)
          ∷ ("heartbeat_seconds", number 900)
          ∷ ("retry_delay_seconds", number 60)
          ∷ []),
    )
    ∷ (
      "model",
      fields (
          ("adapter_command", command)
          ∷ ("max_calls", number 1)
          ∷ ("max_context_bytes", number 64000)
          ∷ ("max_prompt_bytes", number 96000)
          ∷ ("max_output_tokens", number 2048)
          ∷ ("max_response_bytes", number 200000)
          ∷ ("timeout_seconds", number 120)
          ∷ []),
    )
    ∷ ("test_allowlist", fields (("unit", command) ∷ []))
    ∷ (
      "budgets",
      fields (
          ("max_wall_seconds", number 900)
          ∷ ("max_tool_commands", number 40)
          ∷ ("max_changed_files", number 10)
          ∷ ("max_changed_bytes", number 200000)
          ∷ []),
    )
    ∷ [])

worker_config_accepted : worker_validate_config (dict worker_config) ≡ ok (entries worker_config)
unfolding worker_validate_config eq_nat
worker_config_accepted = refl

abbrev reviewer_config : Fields
reviewer_config = of_dict (
    ("schema_version", number 1)
    ∷ ("ledger", fields (("adapter_command", command) ∷ []))
    ∷ (
      "model",
      fields (
          ("adapter_command", command)
          ∷ ("max_calls", number 1)
          ∷ ("max_prompt_bytes", number 96000)
          ∷ ("max_output_tokens", number 2048)
          ∷ ("max_response_bytes", number 200000)
          ∷ ("timeout_seconds", number 120)
          ∷ ("max_findings", number 30)
          ∷ []),
    )
    ∷ (
      "budgets",
      fields (
          ("max_wall_seconds", number 900)
          ∷ ("max_git_commands", number 40)
          ∷ ("max_diff_bytes", number 200000)
          ∷ ("max_context_bytes", number 0)
          ∷ []),
    )
    ∷ ("verdict_policy", fields (("medium_findings_require_changes", number 2) ∷ []))
    ∷ [])

reviewer_config_accepted :
    reviewer_validate_config (dict reviewer_config) ≡ ok (entries reviewer_config)
unfolding reviewer_validate_config eq_nat
reviewer_config_accepted = refl

abbrev qa_config : Fields
qa_config = of_dict (
    ("schema_version", number 1)
    ∷ ("ledger", fields (("adapter_command", command) ∷ ("heartbeat_seconds", number 300) ∷ []))
    ∷ (
      "model",
      fields (
          ("enabled", bool false)
          ∷ ("max_calls", number 1)
          ∷ ("max_prompt_bytes", number 96000)
          ∷ ("max_output_tokens", number 2048)
          ∷ ("max_response_bytes", number 200000)
          ∷ ("timeout_seconds", number 120)
          ∷ ("max_profile_suggestions", number 8)
          ∷ []),
    )
    ∷ (
      "sandbox",
      fields (
          ("adapter_command", command)
          ∷ ("allowed_profile_ids", list (texts ("unit" ∷ "fuzz" ∷ [])))
          ∷ ("baseline_profile_ids", list (texts ("unit" ∷ [])))
          ∷ ("max_profiles", number 4)
          ∷ ("max_adapter_response_bytes", number 65536)
          ∷ []),
    )
    ∷ (
      "budgets",
      fields (
          ("max_wall_seconds", number 900)
          ∷ ("max_git_commands", number 40)
          ∷ ("max_review_diff_bytes", number 200000)
          ∷ ("max_evidence_bytes", number 400000)
          ∷ []),
    )
    ∷ [])

qa_config_accepted : qa_validate_config (dict qa_config) ≡ ok (entries qa_config)
unfolding qa_validate_config eq_nat
qa_config_accepted = refl
