-- ===== src/Qa/Config.antt =====
-- `validate_config` of scripts/engineering_qa/coordinator_core.py.
pub mod Profiles
pub mod Valid
use frankensteinz_hermes.Base.{
  not, is_subset, ℕ, Bool, List, Result, Option, String, guard, length, false, none, some, err, ok,
  [], ◌>>◌, ◌>>=◌, if◌then◌else◌, ◌||◌, ◌&&◌, ◌<>◌, ◌∷◌,
}
use frankensteinz_hermes.Python.{
  within, eq_nat, truthy, qa_error, lookup, entries, as_int, distinct_values, Value, Exn, Dict,
  list, str, dict, null,
}
use frankensteinz_hermes.Checks.{
  get_or, bounded, require_dict, is_safe_id, is_filled_list, is_command, in_range_or, in_range,
  check_ranges, Range,
}
use frankensteinz_hermes.Gate.Policy.{has_schema_version}
use frankensteinz_hermes.Paths.Allowed.{allowed_list, traverse}

abbrev pub heartbeat : Range
heartbeat = record { key = "heartbeat_seconds"; low = 15; high = 3600 }

abbrev pub retry_delay : Range
retry_delay = record { key = "retry_delay_seconds"; low = 0; high = 3600 }

abbrev pub max_response : Range
max_response = record { key = "max_adapter_response_bytes"; low = 4096; high = 4000000 }

abbrev pub budget_ranges : List Range
budget_ranges =
    record { key = "max_wall_seconds"; low = 30; high = 3600 }
    ∷ record { key = "max_git_commands"; low = 1; high = 50 }
    ∷ record { key = "max_review_diff_bytes"; low = 1; high = 2000000 }
    ∷ record { key = "max_evidence_bytes"; low = 4096; high = 4000000 }
    ∷ []

abbrev pub model_ranges : List Range
model_ranges =
    record { key = "max_calls"; low = 1; high = 2 }
    ∷ record { key = "max_prompt_bytes"; low = 4096; high = 1000000 }
    ∷ record { key = "max_output_tokens"; low = 128; high = 4096 }
    ∷ record { key = "max_response_bytes"; low = 1024; high = 512000 }
    ∷ record { key = "timeout_seconds"; low = 5; high = 300 }
    ∷ record { key = "max_profile_suggestions"; low = 0; high = 32 }
    ∷ []

abbrev pub budget_error : String → Exn
budget_error key = qa_error ("budget_invalid:" <> key)

abbrev pub model_budget_error : String → Exn
model_budget_error key = qa_error ("model_budget_invalid:" <> key)

-- The model is enabled or not, and has a command where it is.
unfoldable pub check_model : Dict → Result Exn (Unit {0})
unfolding is_command truthy eq_nat lookup
check_model model =
    let enabled = get_or null (lookup "enabled" model) in
    do
      guard (eq_nat enabled 1 || eq_nat enabled 0) (qa_error "model_enabled_invalid")
      guard (not (truthy enabled) || is_command (lookup "adapter_command" model))
          (qa_error "model_adapter_invalid")

-- `[x for x in xs]`, of identifiers
unfoldable pub profile_id : Value → Result Exn String
unfolding is_safe_id
profile_id (str s) = if is_safe_id 64 s then ok s else err (qa_error "invalid_qa_profile_id")
profile_id _ = err (qa_error "invalid_qa_profile_id")

unfoldable pub distinct_profiles : List Value → Result Exn (Unit {0})
unfolding distinct_values
distinct_profiles vs = do
  distinct ← distinct_values vs
  guard distinct (qa_error "duplicate_qa_profile_id")

-- `isinstance(v, int) and v >= count`
unfoldable pub holds_profiles : ℕ → Option Value → Bool
unfolding in_range as_int within
holds_profiles count none = false
holds_profiles count (some v) = bounded 1 32 (as_int v) && bounded count 32 (as_int v)

unfoldable pub check_profiles : Dict → Result Exn (Unit {0})
unfolding is_filled_list distinct_profiles profile_id traverse holds_profiles in_range lookup
check_profiles sandbox =
    let allowed = allowed_list (lookup "allowed_profile_ids" sandbox) in
    let baseline = allowed_list (lookup "baseline_profile_ids" sandbox) in
    do
      guard
          (is_filled_list (lookup "allowed_profile_ids" sandbox)
            && is_filled_list (lookup "baseline_profile_ids" sandbox))
          (qa_error "qa_profile_catalog_invalid")
      distinct_profiles allowed
      distinct_profiles baseline
      allowed_ids ← traverse profile_id allowed
      baseline_ids ← traverse profile_id baseline
      guard (is_subset baseline_ids allowed_ids) (qa_error "baseline_profile_not_allowed")
      guard (holds_profiles (length baseline_ids) (lookup "max_profiles" sandbox))
          (qa_error "max_profiles_invalid")

unfoldable pub check_times : Dict → Result Exn (Unit {0})
unfolding in_range_or
check_times ledger =
    guard (in_range_or 900 heartbeat ledger && in_range_or 60 retry_delay ledger)
      (qa_error "ledger_budget_invalid")

-- The four sections of a config.
pub record Sections : Type 0 where
  pub ledger : Dict
  pub model : Dict
  pub sandbox : Dict
  pub budgets : Dict

unfoldable pub sections : Dict → Result Exn Sections
unfolding require_dict lookup
sections d = do
  ledger ← require_dict (lookup "ledger" d) (qa_error "ledger_config_invalid")
  model ← require_dict (lookup "model" d) (qa_error "model_config_invalid")
  sandbox ← require_dict (lookup "sandbox" d) (qa_error "sandbox_config_invalid")
  budgets ← require_dict (lookup "budgets" d) (qa_error "budgets_config_invalid")
  ok (record { ledger = ledger; model = model; sandbox = sandbox; budgets = budgets })

unfoldable pub check_sections : Sections → Result Exn (Unit {0})
unfolding check_model check_ranges check_profiles check_times in_range lookup
check_sections s = do
  guard
      (is_command (lookup "adapter_command" s.ledger)
        && is_command (lookup "adapter_command" s.sandbox))
      (qa_error "adapter_command_invalid")
  check_model s.model
  check_ranges budget_error budget_ranges s.budgets
  check_ranges model_budget_error model_ranges s.model
  check_profiles s.sandbox
  guard (in_range max_response.low max_response.high (lookup max_response.key s.sandbox))
      (qa_error "sandbox_response_budget_invalid")
  check_times s.ledger

unfoldable pub check_config : Dict → Result Exn (Unit {0})
unfolding sections check_sections
check_config d = do
  guard (has_schema_version d) (qa_error "config_schema_invalid")
  s ← sections d
  check_sections s

unfoldable pub validate_config : Value → Result Exn Dict
unfolding check_config
validate_config (dict fs) = check_config (entries fs) >> ok (entries fs)
validate_config _ = err (qa_error "config_schema_invalid")
