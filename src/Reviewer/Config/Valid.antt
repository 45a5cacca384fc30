-- ===== src/Reviewer/Config/Valid.antt =====
-- What `validate_config` of scripts/engineering_reviewer/reviewer.py guarantees of a config.
use frankensteinz_hermes.Checks.{is_filled_list, check_ranges, require_dict, is_command}
use frankensteinz_hermes.Reviewer.Config.{
  in_range_or, check_times, check_adapter, heartbeat, retry_delay, threshold, budget_ranges,
  model_ranges, check_config, check_policy, check_budgets, validate_config, budget_error,
  model_budget_error,
}
use frankensteinz_hermes.Base.{
  guard-eq-ok, All, guard->>-eq-ok, >>=-eq-ok, Option, subst, sym, ◌∙◌, arith, true, ok, refl, ◌≡◌,
}
use frankensteinz_hermes.Python.{
  entries, lookup, Fields, Exn, Value, Dict, list, str, dict, float, int, bool, null,
}
use frankensteinz_hermes.Checks.Passed.{
  in_range_or-true, HasIntOr, is_command-true, check_ranges-ok, find_section, HasInt, HasSection,
  HasCommand,
}
use frankensteinz_hermes.Gate.Policy.{has_schema_version}

abbrev pub IsLedger : Dict → Type 0
IsLedger ledger =
    HasCommand ledger "adapter_command"
    × HasIntOr 900 ledger heartbeat
    × HasIntOr 60 ledger retry_delay

abbrev pub IsModel : Dict → Type 0
IsModel model = HasCommand model "adapter_command" × All (HasInt model) model_ranges

pub record IsConfig (d : Dict) : Type 0 where
  pub versioned : has_schema_version d ≡ true
  pub ledger : HasSection d "ledger" IsLedger
  pub model : HasSection d "model" IsModel
  pub budgets : HasSection d "budgets" (λ budgets. All (HasInt budgets) budget_ranges)
  pub policy : HasSection d "verdict_policy" (λ policy. HasIntOr 1 policy threshold)

check_adapter-ok :
    (raised : Exn) (o : Option Value) (s : Dict)
    → check_adapter raised o ≡ ok s
    → require_dict o raised ≡ ok s
unfolding check_adapter
check_adapter-ok raised o s h =
    let (m, found, h₁) = >>=-eq-ok (require_dict o raised) _ h in
    let (filled, h₂) = guard->>-eq-ok (is_filled_list (lookup "adapter_command" m)) _ _ h₁ in
    found ∙ h₂

check_policy-ok :
    (d : Dict)
    → check_policy (lookup "verdict_policy" d) ≡ ok tt
    → HasSection d "verdict_policy" (λ policy. HasIntOr 1 policy threshold)
unfolding check_policy
check_policy-ok d h =
    let (s, found, h₁) = >>=-eq-ok (require_dict (lookup "verdict_policy" d) _) _ h in
    find_section d "verdict_policy" _ (λ policy. HasIntOr 1 policy threshold) s found
      (in_range_or-true 1 threshold s (ground arith))

-- What the last group of checks establishes, of the sections that it is given.
record Budgeted (d ledger model : Dict) : Type 0 where
  budgets : HasSection d "budgets" (λ budgets. All (HasInt budgets) budget_ranges)
  model_budgets : All (HasInt model) model_ranges
  policy : HasSection d "verdict_policy" (λ policy. HasIntOr 1 policy threshold)
  heartbeats : HasIntOr 900 ledger heartbeat
  delays : HasIntOr 60 ledger retry_delay

check_budgets-ok :
    (d ledger model : Dict) → check_budgets d ledger model ≡ ok tt → Budgeted d ledger model
unfolding check_budgets check_times
check_budgets-ok d ledger model h =
    let (budgets, found, h₁) = >>=-eq-ok (require_dict (lookup "budgets" d) _) _ h in
    let (u, ranges, h₂) = >>=-eq-ok (check_ranges budget_error budget_ranges budgets) _ h₁ in
    let (v, model_budgets, h₃) =
      >>=-eq-ok (check_ranges model_budget_error model_ranges model) _ h₂ in
    let (w, policy, h₄) = >>=-eq-ok (check_policy (lookup "verdict_policy" d)) _ h₃ in
    let (beats, h₅) = guard->>-eq-ok (in_range_or 900 heartbeat ledger) _ _ h₄ in
    record {
      budgets =
          find_section d "budgets" _ (λ b. All (HasInt b) budget_ranges) budgets found
            (check_ranges-ok budget_error budget_ranges budgets ranges);
      model_budgets = check_ranges-ok model_budget_error model_ranges model model_budgets;
      policy = check_policy-ok d policy;
      heartbeats = in_range_or-true 900 heartbeat ledger beats;
      delays =
          in_range_or-true 60 retry_delay ledger
            (guard-eq-ok (in_range_or 60 retry_delay ledger) _ h₅);
    }

check_config-IsConfig : (d : Dict) → check_config d ≡ ok tt → IsConfig d
unfolding check_config
check_config-IsConfig d h =
    let (versioned, h₁) = guard->>-eq-ok (has_schema_version d) _ _ h in
    let (ledger, l, h₂) = >>=-eq-ok (check_adapter _ (lookup "ledger" d)) _ h₁ in
    let (model, m, h₃) = >>=-eq-ok (check_adapter _ (lookup "model" d)) _ h₂ in
    let (lc, h₄) = guard->>-eq-ok (is_command (lookup "adapter_command" ledger)) _ _ h₃ in
    let (mc, h₅) = guard->>-eq-ok (is_command (lookup "adapter_command" model)) _ _ h₄ in
    let b = check_budgets-ok d ledger model h₅ in
    record {
      versioned = versioned;
      ledger =
          find_section d "ledger" _ IsLedger ledger
            (check_adapter-ok _ (lookup "ledger" d) ledger l)
            (is_command-true ledger "adapter_command" lc, b.heartbeats, b.delays);
      model =
          find_section d "model" _ IsModel model (check_adapter-ok _ (lookup "model" d) model m)
            (is_command-true model "adapter_command" mc, b.model_budgets);
      budgets = b.budgets;
      policy = b.policy;
    }

-- A config that the reviewer accepts is the dict that it was given; its two commands are lists of
-- texts that are not empty; every budget is an integer within its bounds; and the threshold of the
-- verdict and the times of the ledger are integers within theirs, where they are present.
pub validate_config-IsReviewerConfig :
    (v : Value) (d : Dict)
    → validate_config v ≡ ok d
    → IsConfig d × ((fs : Fields) × (v ≡ dict fs) × (d ≡ entries fs))
unfolding validate_config
validate_config-IsReviewerConfig (dict fs) d h =
    let (u, checked, h₁) = >>=-eq-ok (check_config (entries fs)) _ h in
    let e : entries fs ≡ d = cc h₁ in
    (subst IsConfig e (check_config-IsConfig (entries fs) checked), (fs, refl, sym e))
validate_config-IsReviewerConfig null d h = cc
validate_config-IsReviewerConfig (bool b) d h = cc
validate_config-IsReviewerConfig (int z) d h = cc
validate_config-IsReviewerConfig (float x) d h = cc
validate_config-IsReviewerConfig (str s) d h = cc
validate_config-IsReviewerConfig (list xs) d h = cc
