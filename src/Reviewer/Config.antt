-- ===== src/Reviewer/Config.antt =====
-- `validate_config` of scripts/engineering_reviewer/reviewer.py.
pub mod Valid
use frankensteinz_hermes.Checks.{
  in_range_or, is_filled_list, require_dict, is_command, in_range, Range, get_or, check_ranges,
}
use frankensteinz_hermes.Base.{
  String, ℕ, Bool, List, Result, Option, guard, some, err, ok, [], ◌>>◌, ◌>>=◌, ◌<>◌, ◌∷◌,
}
use frankensteinz_hermes.Python.{reviewer_error, entries, lookup, Exn, Value, Dict, pos, dict, int}
use frankensteinz_hermes.Gate.Policy.{has_schema_version}

abbrev pub heartbeat : Range
heartbeat = record { key = "heartbeat_seconds"; low = 15; high = 3600 }

abbrev pub retry_delay : Range
retry_delay = record { key = "retry_delay_seconds"; low = 0; high = 3600 }

abbrev pub threshold : Range
threshold = record { key = "medium_findings_require_changes"; low = 1; high = 100 }

abbrev pub budget_ranges : List Range
budget_ranges =
    record { key = "max_wall_seconds"; low = 15; high = 1800 }
    ∷ record { key = "max_git_commands"; low = 1; high = 60 }
    ∷ record { key = "max_diff_bytes"; low = 1; high = 2000000 }
    ∷ record { key = "max_context_bytes"; low = 0; high = 512000 }
    ∷ []

abbrev pub budget_error : String → Exn
budget_error key = reviewer_error ("budget_invalid:" <> key)

abbrev pub model_budget_error : String → Exn
model_budget_error key = reviewer_error ("model_budget_invalid:" <> key)

abbrev pub model_ranges : List Range
model_ranges =
    record { key = "max_calls"; low = 1; high = 3 }
    ∷ record { key = "max_prompt_bytes"; low = 4096; high = 2500000 }
    ∷ record { key = "max_output_tokens"; low = 128; high = 8192 }
    ∷ record { key = "max_response_bytes"; low = 1024; high = 1000000 }
    ∷ record { key = "timeout_seconds"; low = 5; high = 300 }
    ∷ record { key = "max_findings"; low = 1; high = 100 }
    ∷ []

-- A section that has an adapter command.
unfoldable pub check_adapter : Exn → Option Value → Result Exn Dict
unfolding require_dict is_filled_list lookup
check_adapter raised o = do
  section ← require_dict o raised
  guard (is_filled_list (lookup "adapter_command" section)) raised
  ok section

unfoldable pub check_policy : Option Value → Result Exn (Unit {0})
unfolding require_dict in_range_or
check_policy o = do
  policy ← require_dict o (reviewer_error "verdict_policy_invalid")
  guard (in_range_or 1 threshold policy) (reviewer_error "medium_threshold_invalid")

unfoldable pub check_times : Dict → Result Exn (Unit {0})
unfolding in_range_or
check_times ledger = do
  guard (in_range_or 900 heartbeat ledger) (reviewer_error "ledger_heartbeat_invalid")
  guard (in_range_or 60 retry_delay ledger) (reviewer_error "ledger_retry_delay_invalid")

-- The checks on the budgets, the model and the verdict policy.
unfoldable pub check_budgets : Dict → Dict → Dict → Result Exn (Unit {0})
unfolding require_dict check_ranges check_policy check_times lookup
check_budgets d ledger model = do
  budgets ← require_dict (lookup "budgets" d) (reviewer_error "budgets_invalid")
  check_ranges budget_error budget_ranges budgets
  check_ranges model_budget_error model_ranges model
  check_policy (lookup "verdict_policy" d)
  check_times ledger

unfoldable pub check_config : Dict → Result Exn (Unit {0})
unfolding check_adapter check_budgets is_command lookup
check_config d = do
  guard (has_schema_version d) (reviewer_error "config_schema_invalid")
  ledger ← check_adapter (reviewer_error "ledger_config_invalid") (lookup "ledger" d)
  model ← check_adapter (reviewer_error "model_config_invalid") (lookup "model" d)
  guard (is_command (lookup "adapter_command" ledger)) (reviewer_error "adapter_command_invalid")
  guard (is_command (lookup "adapter_command" model)) (reviewer_error "adapter_command_invalid")
  check_budgets d ledger model

unfoldable pub validate_config : Value → Result Exn Dict
unfolding check_config
validate_config (dict fs) = check_config (entries fs) >> ok (entries fs)
validate_config _ = err (reviewer_error "config_schema_invalid")
