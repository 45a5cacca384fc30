-- ===== src/Qa/Config/Valid.antt =====
-- What `validate_config` of scripts/engineering_qa/coordinator_core.py guarantees of a config.
use frankensteinz_hermes.Base.{
  guard-eq-ok, and-eq-true, guard->>-eq-ok, All, >>=-eq-ok, subst, sym, true, ok, refl, [], ◌≡◌,
  ◌&&◌, ◌∷◌,
}
use frankensteinz_hermes.Python.{
  qa_error, entries, lookup, Fields, Value, Dict, list, str, dict, float, int, bool, null,
}
use frankensteinz_hermes.Qa.Config.{
  check_profiles, model_budget_error, budget_error, retry_delay, model_ranges, max_response,
  budget_ranges, heartbeat, check_model, validate_config, sections, check_times, check_sections,
  check_config, Sections,
}
use frankensteinz_hermes.Checks.Passed.{
  in_range-true, check_ranges-ok, is_command-true, in_range_or-true, find_section, HasSection,
  HasInt, HasIntOr, HasCommand,
}
use frankensteinz_hermes.Gate.Policy.{has_schema_version}
use frankensteinz_hermes.Checks.{in_range, in_range_or, check_ranges, require_dict, is_command}
use frankensteinz_hermes.Qa.Config.Profiles.{check_profiles-IsCatalog, IsCatalog}

abbrev pub IsLedger : Dict → Type 0
IsLedger ledger =
    HasCommand ledger "adapter_command"
    × HasIntOr 900 ledger heartbeat
    × HasIntOr 60 ledger retry_delay

abbrev pub IsModel : Dict → Type 0
IsModel model = (check_model model ≡ ok tt) × All (HasInt model) model_ranges

abbrev pub IsSandbox : Dict → Type 0
IsSandbox sandbox =
    HasCommand sandbox "adapter_command"
    × IsCatalog sandbox
    × All (HasInt sandbox) (max_response ∷ [])

pub record IsConfig (d : Dict) : Type 0 where
  pub versioned : has_schema_version d ≡ true
  pub ledger : HasSection d "ledger" IsLedger
  pub model : HasSection d "model" IsModel
  pub sandbox : HasSection d "sandbox" IsSandbox
  pub budgets : HasSection d "budgets" (λ budgets. All (HasInt budgets) budget_ranges)

record AreSections (d : Dict) (s : Sections) : Type 0 where
  ledger_found : require_dict (lookup "ledger" d) (qa_error "ledger_config_invalid") ≡ ok s.ledger
  model_found : require_dict (lookup "model" d) (qa_error "model_config_invalid") ≡ ok s.model
  sandbox_found :
      require_dict (lookup "sandbox" d) (qa_error "sandbox_config_invalid") ≡ ok s.sandbox
  budgets_found :
      require_dict (lookup "budgets" d) (qa_error "budgets_config_invalid") ≡ ok s.budgets

sections-ok : (d : Dict) (s : Sections) → sections d ≡ ok s → AreSections d s
unfolding sections
sections-ok d s h =
    let (ledger, l, h₁) = >>=-eq-ok (require_dict (lookup "ledger" d) _) _ h in
    let (model, m, h₂) = >>=-eq-ok (require_dict (lookup "model" d) _) _ h₁ in
    let (sandbox, b, h₃) = >>=-eq-ok (require_dict (lookup "sandbox" d) _) _ h₂ in
    let (budgets, u, h₄) = >>=-eq-ok (require_dict (lookup "budgets" d) _) _ h₃ in
    let e : record { ledger = ledger; model = model; sandbox = sandbox; budgets = budgets } ≡ s =
      cc h₄ in
    subst (AreSections d) e
      (record { ledger_found = l; model_found = m; sandbox_found = b; budgets_found = u })

record ArePassed (s : Sections) : Type 0 where
  ledger_passed : IsLedger s.ledger
  model_passed : IsModel s.model
  sandbox_passed : IsSandbox s.sandbox
  budgets_passed : All (HasInt s.budgets) budget_ranges

check_times-ok :
    (ledger : Dict)
    → check_times ledger ≡ ok tt
    → HasIntOr 900 ledger heartbeat × HasIntOr 60 ledger retry_delay
unfolding check_times
check_times-ok ledger h =
    let (b, d) =
      and-eq-true (in_range_or 900 heartbeat ledger) (in_range_or 60 retry_delay ledger)
        (guard-eq-ok _ _ h) in
    (in_range_or-true 900 heartbeat ledger b, in_range_or-true 60 retry_delay ledger d)

check_sections-ok : (s : Sections) → check_sections s ≡ ok tt → ArePassed s
unfolding check_sections
check_sections-ok s h =
    let l = is_command (lookup "adapter_command" s.ledger) in
    let b = is_command (lookup "adapter_command" s.sandbox) in
    let (commands, h₁) = guard->>-eq-ok (l && b) _ _ h in
    let (lc, bc) = and-eq-true l b commands in
    let (u, model, h₂) = >>=-eq-ok (check_model s.model) _ h₁ in
    let (v, budgets, h₃) = >>=-eq-ok (check_ranges budget_error budget_ranges s.budgets) _ h₂ in
    let (w, ranges, h₄) = >>=-eq-ok (check_ranges model_budget_error model_ranges s.model) _ h₃ in
    let (x, profiles, h₅) = >>=-eq-ok (check_profiles s.sandbox) _ h₄ in
    let (response, h₆) =
      guard->>-eq-ok (in_range 4096 4000000 (lookup max_response.key s.sandbox)) _ _ h₅ in
    record {
      ledger_passed = (
        is_command-true s.ledger "adapter_command" lc,
        (check_times-ok s.ledger h₆).0,
        (check_times-ok s.ledger h₆).1,
      );
      model_passed = (model, check_ranges-ok model_budget_error model_ranges s.model ranges);
      sandbox_passed = (
        is_command-true s.sandbox "adapter_command" bc,
        check_profiles-IsCatalog s.sandbox profiles,
        (in_range-true 4096 4000000 (lookup max_response.key s.sandbox) response, tt),
      );
      budgets_passed = check_ranges-ok budget_error budget_ranges s.budgets budgets;
    }

check_config-IsConfig : (d : Dict) → check_config d ≡ ok tt → IsConfig d
unfolding check_config
check_config-IsConfig d h =
    let (versioned, h₁) = guard->>-eq-ok (has_schema_version d) _ _ h in
    let (s, is_s, h₂) = >>=-eq-ok (sections d) _ h₁ in
    let found = sections-ok d s is_s in
    let passed = check_sections-ok s h₂ in
    record {
      versioned = versioned;
      ledger = find_section d "ledger" _ IsLedger s.ledger found.ledger_found passed.ledger_passed;
      model = find_section d "model" _ IsModel s.model found.model_found passed.model_passed;
      sandbox =
          find_section d "sandbox" _ IsSandbox s.sandbox found.sandbox_found passed.sandbox_passed;
      budgets =
          find_section d "budgets" _ (λ b. All (HasInt b) budget_ranges) s.budgets
            found.budgets_found passed.budgets_passed;
    }

-- A config that the QA coordinator accepts is the dict that it was given; its budgets are integers
-- within their bounds, the times of the ledger where they are present; its commands are lists of
-- texts that are not empty, the model's where it is enabled; and its catalog lists distinct safe
-- profiles, the baseline ones among the allowed ones and no more of them than fit.
pub validate_config-IsQaConfig :
    (v : Value) (d : Dict)
    → validate_config v ≡ ok d
    → IsConfig d × ((fs : Fields) × (v ≡ dict fs) × (d ≡ entries fs))
unfolding validate_config
validate_config-IsQaConfig (dict fs) d h =
    let (u, checked, h₁) = >>=-eq-ok (check_config (entries fs)) _ h in
    let e : entries fs ≡ d = cc h₁ in
    (subst IsConfig e (check_config-IsConfig (entries fs) checked), (fs, refl, sym e))
validate_config-IsQaConfig null d h = cc
validate_config-IsQaConfig (bool b) d h = cc
validate_config-IsQaConfig (int z) d h = cc
validate_config-IsQaConfig (float x) d h = cc
validate_config-IsQaConfig (str s) d h = cc
validate_config-IsQaConfig (list xs) d h = cc
