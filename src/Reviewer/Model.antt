-- ===== src/Reviewer/Model.antt =====
-- `call_model` of scripts/engineering_reviewer/reviewer.py, on what the process of the adapter does.
pub mod Answered
use frankensteinz_hermes.Base.{
  >>=-eq-ok, guard->>-eq-ok, ℕ, String, not, List, some, Result, ok, guard, ◌>>=◌, ◌>>◌, leb, ◌≡◌,
}
use frankensteinz_hermes.Python.{of_dict, reviewer_error, Dict, Exn, Value, lookup, dict}
use frankensteinz_hermes.Worker.Calls.{usage_of, int_of, exceeds, parse_or, is_zero, Process}
use frankensteinz_hermes.Reviewer.Git.{run, remaining}
use frankensteinz_hermes.Checks.{require_dict}
use frankensteinz_hermes.Reviewer.Findings.{validate_model_response, Review}

-- The entries of `config["model"]` that `call_model` reads, checked by `validate_config`.
pub record ReviewBudget : Type 0 where
  pub adapter : List String
  pub max_prompt_bytes : ℕ
  pub max_response_bytes : ℕ
  pub max_output_tokens : ℕ
  pub max_findings : ℕ

-- `raw` where it and its review are dicts.
unfoldable pub review_of : Value → Result Exn (Dict × Dict)
unfolding require_dict lookup
review_of v = do
  raw ← require_dict (some v) (reviewer_error "review_model_envelope_invalid")
  review ← require_dict (lookup "review" raw) (reviewer_error "review_model_envelope_invalid")
  ok (raw, review)

-- `prompt_bytes` is the length of the prompt. The metadata is left out.
unfoldable pub call_model : ReviewBudget → ℕ → List String → ℕ → ℕ → Process → Result Exn Review
unfolding remaining run review_of validate_model_response lookup
call_model m prompt_bytes changed elapsed wall p = do
  guard (leb prompt_bytes m.max_prompt_bytes) (reviewer_error "review_prompt_budget_exhausted")
  left ← remaining elapsed wall
  c ← run m.adapter m.max_response_bytes p
  guard (is_zero c.returncode) (reviewer_error "review_model_adapter_failed")
  value ← parse_or (reviewer_error "review_model_invalid_json") c.parsed
  dicts ← review_of value
  guard
      (not (
        exceeds m.max_output_tokens
          (int_of (lookup "completion_tokens" (usage_of (lookup "usage" dicts.0))))))
      (reviewer_error "review_model_output_token_budget_exceeded")
  validate_model_response m.max_findings changed (dict (of_dict dicts.1))
