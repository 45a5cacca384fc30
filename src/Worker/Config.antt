-- ===== src/Worker/Config.antt =====
-- `validate_config` of scripts/engineering_worker/worker.py.
pub mod Valid
use frankensteinz_hermes.Base.{
  String, List, Result, Option, guard, some, err, ok, [], ◌>>◌, ◌>>=◌, ◌&&◌, ◌<>◌, ◌∷◌,
}
use frankensteinz_hermes.Python.{worker_error, entries, Exn, Dict, lookup, Value, dict}
use frankensteinz_hermes.Checks.{
  in_range, is_filled_list, is_command, check_ranges, require_dict, is_safe_id, Range,
}
use frankensteinz_hermes.Gate.Policy.{has_schema_version}

abbrev pub heartbeat : Range
heartbeat = record { key = "heartbeat_seconds"; low = 60; high = 3600 }

abbrev pub retry_delay : Range
retry_delay = record { key = "retry_delay_seconds"; low = 0; high = 3600 }

abbrev pub budget_ranges : List Range
budget_ranges =
    record { key = "max_wall_seconds"; low = 30; high = 3600 }
    ∷ record { key = "max_tool_commands"; low = 1; high = 100 }
    ∷ record { key = "max_changed_files"; low = 1; high = 100 }
    ∷ record { key = "max_changed_bytes"; low = 1; high = 2000000 }
    ∷ []

abbrev pub budget_error : String → Exn
budget_error key = worker_error ("budget_invalid:" <> key)

abbrev pub model_budget_error : String → Exn
model_budget_error key = worker_error ("model_budget_invalid:" <> key)

abbrev pub model_ranges : List Range
model_ranges =
    record { key = "max_calls"; low = 1; high = 5 }
    ∷ record { key = "max_context_bytes"; low = 1024; high = 512000 }
    ∷ record { key = "max_prompt_bytes"; low = 4096; high = 768000 }
    ∷ record { key = "max_output_tokens"; low = 128; high = 8192 }
    ∷ record { key = "max_response_bytes"; low = 1024; high = 1000000 }
    ∷ record { key = "timeout_seconds"; low = 5; high = 300 }
    ∷ []

unfoldable pub check_ledger : Option Value → Result Exn (Unit {0})
unfolding require_dict is_filled_list is_command in_range lookup
check_ledger section = do
  ledger ← require_dict section (worker_error "ledger_config_invalid")
  guard (is_filled_list (lookup "adapter_command" ledger)) (worker_error "ledger_config_invalid")
  guard (is_command (lookup "adapter_command" ledger))
      (worker_error "ledger_adapter_command_invalid")
  guard (in_range heartbeat.low heartbeat.high (lookup heartbeat.key ledger))
      (worker_error "ledger_heartbeat_invalid")
  guard (in_range retry_delay.low retry_delay.high (lookup retry_delay.key ledger))
      (worker_error "ledger_retry_delay_invalid")

unfoldable pub check_model : Option Value → Result Exn Dict
unfolding require_dict is_filled_list is_command lookup
check_model section = do
  model ← require_dict section (worker_error "model_config_invalid")
  guard (is_filled_list (lookup "adapter_command" model)) (worker_error "model_config_invalid")
  guard (is_command (lookup "adapter_command" model)) (worker_error "model_adapter_command_invalid")
  ok model

-- The loop over `allowlist.items()`.
unfoldable pub check_tests : Dict → Result Exn (Unit {0})
unfolding is_safe_id is_command
check_tests [] = ok tt
check_tests ((name, cmd) ∷ rest) =
    guard (is_safe_id 128 name && is_command (some cmd))
      (worker_error "test_allowlist_entry_invalid")
    >> check_tests rest

unfoldable pub check_budgets : Option Value → Dict → Result Exn (Unit {0})
unfolding require_dict check_ranges
check_budgets section model = do
  budgets ← require_dict section (worker_error "budgets_invalid")
  check_ranges budget_error budget_ranges budgets
  check_ranges model_budget_error model_ranges model

unfoldable pub check_config : Dict → Result Exn (Unit {0})
unfolding check_ledger check_model check_tests check_budgets lookup
check_config d = do
  guard (has_schema_version d) (worker_error "config_schema_invalid")
  check_ledger (lookup "ledger" d)
  model ← check_model (lookup "model" d)
  tests ← require_dict (lookup "test_allowlist" d) (worker_error "test_allowlist_invalid")
  check_tests tests
  check_budgets (lookup "budgets" d) model

unfoldable pub validate_config : Value → Result Exn Dict
unfolding check_config
validate_config (dict fs) = check_config (entries fs) >> ok (entries fs)
validate_config _ = err (worker_error "config_schema_invalid")
