-- ===== src/Worker/Config/Valid.antt =====
-- What `validate_config` of scripts/engineering_worker/worker.py guarantees of a config.
use frankensteinz_hermes.Base.{
  guard-eq-ok, and-eq-true, >>=-eq-ok, guard->>-eq-ok, All, Option, String, subst, ap, sym, ◌∙◌,
  true, some, ok, refl, [], ◌≡◌, ◌&&◌, ◌∷◌,
}
use frankensteinz_hermes.Python.{
  worker_error, entries, lookup, Fields, Value, Dict, list, str, dict, float, int, bool, null,
}
use frankensteinz_hermes.Worker.Config.{
  model_budget_error, budget_error, retry_delay, model_ranges, heartbeat, budget_ranges,
  check_budgets, validate_config, check_tests, check_model, check_ledger, check_config,
}
use frankensteinz_hermes.Checks.Passed.{
  find_section, in_range-true, check_ranges-ok, is_command-true, HasSection, HasInt, HasCommand,
}
use frankensteinz_hermes.Gate.Policy.{has_schema_version}
use frankensteinz_hermes.Checks.{
  in_range, is_filled_list, check_ranges, is_command, require_dict, is_safe_id,
}

-- A test that the worker may run: a name that is safe in a file name, and a command.
abbrev pub IsTest : String × Value → Type 0
IsTest (name, cmd) = (is_safe_id 128 name ≡ true) × (is_command (some cmd) ≡ true)

abbrev pub IsLedger : Dict → Type 0
IsLedger ledger =
    HasCommand ledger "adapter_command" × All (HasInt ledger) (heartbeat ∷ retry_delay ∷ [])

abbrev pub IsModel : Dict → Type 0
IsModel model = HasCommand model "adapter_command" × All (HasInt model) model_ranges

pub record IsConfig (d : Dict) : Type 0 where
  pub versioned : has_schema_version d ≡ true
  pub ledger : HasSection d "ledger" IsLedger
  pub model : HasSection d "model" IsModel
  pub tests : HasSection d "test_allowlist" (All IsTest)
  pub budgets : HasSection d "budgets" (λ budgets. All (HasInt budgets) budget_ranges)

check_ledger-ok :
    (d : Dict) → check_ledger (lookup "ledger" d) ≡ ok tt → HasSection d "ledger" IsLedger
unfolding check_ledger
check_ledger-ok d h =
    let (s, found, h₁) = >>=-eq-ok (require_dict (lookup "ledger" d) _) _ h in
    let (filled, h₂) = guard->>-eq-ok (is_filled_list (lookup "adapter_command" s)) _ _ h₁ in
    let (command, h₃) = guard->>-eq-ok (is_command (lookup "adapter_command" s)) _ _ h₂ in
    let (beat, h₄) = guard->>-eq-ok (in_range 60 3600 (lookup "heartbeat_seconds" s)) _ _ h₃ in
    let delay = guard-eq-ok (in_range 0 3600 (lookup "retry_delay_seconds" s)) _ h₄ in
    find_section d "ledger" _ IsLedger s found (
      is_command-true s "adapter_command" command,
      (
        in_range-true 60 3600 (lookup "heartbeat_seconds" s) beat,
        (in_range-true 0 3600 (lookup "retry_delay_seconds" s) delay, tt),
      ),
    )

check_model-ok :
    (o : Option Value) (s : Dict)
    → check_model o ≡ ok s
    → (require_dict o (worker_error "model_config_invalid") ≡ ok s) × HasCommand s "adapter_command"
unfolding check_model
check_model-ok o s h =
    let (m, found, h₁) = >>=-eq-ok (require_dict o _) _ h in
    let (filled, h₂) = guard->>-eq-ok (is_filled_list (lookup "adapter_command" m)) _ _ h₁ in
    let (command, h₃) = guard->>-eq-ok (is_command (lookup "adapter_command" m)) _ _ h₂ in
    let e : m ≡ s = cc h₃ in
    (
      found ∙ ap ok e,
      subst (λ m. HasCommand m "adapter_command") e (is_command-true m "adapter_command" command),
    )

check_tests-ok : (d : Dict) → check_tests d ≡ ok tt → All IsTest d
unfolding check_tests
check_tests-ok [] h = tt
check_tests-ok ((name, cmd) ∷ rest) h =
    let (passed, h₁) = guard->>-eq-ok (is_safe_id 128 name && is_command (some cmd)) _ _ h in
    (and-eq-true (is_safe_id 128 name) (is_command (some cmd)) passed, check_tests-ok rest h₁)

check_budgets-ok :
    (d model : Dict)
    → check_budgets (lookup "budgets" d) model ≡ ok tt
    → HasSection d "budgets" (λ budgets. All (HasInt budgets) budget_ranges)
      × All (HasInt model) model_ranges
unfolding check_budgets
check_budgets-ok d model h =
    let (budgets, found, h₁) = >>=-eq-ok (require_dict (lookup "budgets" d) _) _ h in
    let (w, ranges, h₂) = >>=-eq-ok (check_ranges budget_error budget_ranges budgets) _ h₁ in
    (
      find_section d "budgets" _ (λ b. All (HasInt b) budget_ranges) budgets found
          (check_ranges-ok budget_error budget_ranges budgets ranges),
      check_ranges-ok model_budget_error model_ranges model h₂,
    )

check_config-IsConfig : (d : Dict) → check_config d ≡ ok tt → IsConfig d
unfolding check_config
check_config-IsConfig d h =
    let (versioned, h₁) = guard->>-eq-ok (has_schema_version d) _ _ h in
    let (u, ledger, h₂) = >>=-eq-ok (check_ledger (lookup "ledger" d)) _ h₁ in
    let (model, is_model, h₃) = >>=-eq-ok (check_model (lookup "model" d)) _ h₂ in
    let (tests, is_tests, h₄) = >>=-eq-ok (require_dict (lookup "test_allowlist" d) _) _ h₃ in
    let (v, tested, h₅) = >>=-eq-ok (check_tests tests) _ h₄ in
    let (model_found, command) = check_model-ok (lookup "model" d) model is_model in
    let (budgets, model_budgets) = check_budgets-ok d model h₅ in
    record {
      versioned = versioned;
      ledger = check_ledger-ok d ledger;
      model = find_section d "model" _ IsModel model model_found (command, model_budgets);
      tests =
          find_section d "test_allowlist" _ (All IsTest) tests is_tests
            (check_tests-ok tests tested);
      budgets = budgets;
    }

-- A config that the worker accepts is the dict that it was given; its ledger and model commands and
-- the commands of its tests are lists of texts that are not empty; every budget is an integer within
-- its bounds; and every test has a safe name.
pub validate_config-IsConfig :
    (v : Value) (d : Dict)
    → validate_config v ≡ ok d
    → IsConfig d × ((fs : Fields) × (v ≡ dict fs) × (d ≡ entries fs))
unfolding validate_config
validate_config-IsConfig (dict fs) d h =
    let (u, checked, h₁) = >>=-eq-ok (check_config (entries fs)) _ h in
    let e : entries fs ≡ d = cc h₁ in
    (subst IsConfig e (check_config-IsConfig (entries fs) checked), (fs, refl, sym e))
validate_config-IsConfig null d h = cc
validate_config-IsConfig (bool b) d h = cc
validate_config-IsConfig (int z) d h = cc
validate_config-IsConfig (float x) d h = cc
validate_config-IsConfig (str s) d h = cc
validate_config-IsConfig (list xs) d h = cc
