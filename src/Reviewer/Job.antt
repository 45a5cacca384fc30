-- ===== src/Reviewer/Job.antt =====
-- What `main` of scripts/engineering_reviewer/reviewer.py works with, and its calls of the ledger.
use frankensteinz_hermes.Base.{ℕ, String, Bool, ◌==◌, List, Result, guard, ◌>>=◌}
use frankensteinz_hermes.Python.{reviewer_error, Exn, lookup, truthy, Dict, null}
use frankensteinz_hermes.Reviewer.Git.{call_ledger}
use frankensteinz_hermes.Reviewer.Model.{ReviewBudget}
use frankensteinz_hermes.Checks.{get_or, is_text}
use frankensteinz_hermes.Checks.Files.{Directory}
use frankensteinz_hermes.Checks.Steps.{Repository}
use frankensteinz_hermes.Worker.Calls.{Process}
use frankensteinz_hermes.Reviewer.Candidate.{Candidate}
use frankensteinz_hermes.Reviewer.Context.{Excerpt}

-- The job, the sections and the limits of the config, and what the run finds outside: the directory
-- of the evidence, the repository, what the ledger's adapter and the model's do at each call and
-- when, the length of the prompt, and whether a bundle can be written.
pub record ReviewJob : Type 0 where
  pub payload : Dict
  pub config : Dict
  pub ledger : Dict
  pub policy : Dict
  pub adapter : List String
  pub max_diff : ℕ
  pub max_context : ℕ
  pub model : ReviewBudget
  pub output_exists : Bool
  pub is_toplevel : String → Bool
  pub directory : Directory
  pub repository : Repository
  pub ledger_process : String → Process
  pub ledger_elapsed : String → ℕ
  pub model_process : Process
  pub model_elapsed : ℕ
  pub prompt_bytes : Candidate → List Excerpt → ℕ
  pub bundle : String → Result Exn (Unit {0})

module _ (w : ReviewJob) where
  -- `call_ledger`, and the status that the run wants of it
  unfoldable pub expect_status : String → String → String → Result Exn (Unit {0})
  unfolding call_ledger is_text lookup
  expect_status operation status raised = do
    response ←
        call_ledger w.adapter (w.ledger_elapsed operation) w.repository.wall
          (w.ledger_process operation)
    guard (is_text (λ s. s == status) (lookup "status" response)) (reviewer_error raised)

  unfoldable pub expect_lease : Result Exn (Unit {0})
  unfolding call_ledger truthy lookup
  expect_lease = do
    response ←
        call_ledger w.adapter (w.ledger_elapsed "heartbeat") w.repository.wall
          (w.ledger_process "heartbeat")
    guard (truthy (get_or null (lookup "lease_expires_at" response)))
        (reviewer_error "ledger_heartbeat_failed")
