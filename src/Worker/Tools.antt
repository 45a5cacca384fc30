-- ===== src/Worker/Tools.antt =====
-- `ToolBudget` of scripts/engineering_worker/worker.py.
use frankensteinz_hermes.Worker.Calls.{remaining, run_command, Process, Completed}
use frankensteinz_hermes.Base.{
  leb→le, leb, suc, guard->>-eq-ok, ◌>>◌, ℕ, List, Result, String, guard, ok, ◌>>=◌, ◌≤◌, ◌≡◌, ◌∷◌,
}
use frankensteinz_hermes.Python.{worker_error, Exn}

pub record ToolBudget : Type 0 where
  pub max_commands : ℕ
  pub used : ℕ

-- `self.used += 1`
abbrev pub spend : ToolBudget → ToolBudget
spend t = record { max_commands = t.max_commands; used = suc t.used }

-- A command that is charged to the budget: the count grows although the command is refused.
unfoldable pub charged :
    ToolBudget → List String → ℕ → ℕ → Process → ToolBudget × Result Exn Completed
unfolding remaining run_command
charged t cmd elapsed wall p = (
  spend t,
  do
    guard (leb (suc t.used) t.max_commands) (worker_error "tool_budget_exhausted")
    left ← remaining elapsed wall
    run_command cmd 2000000 p,
)

unfoldable pub git : ToolBudget → List String → ℕ → ℕ → Process → ToolBudget × Result Exn Completed
unfolding charged
git t args elapsed wall p = charged t ("git" ∷ args) elapsed wall p

unfoldable pub test : ToolBudget → List String → ℕ → ℕ → Process → ToolBudget × Result Exn Completed
unfolding charged
test t cmd elapsed wall p = charged t cmd elapsed wall p

-- A command that has run is within the budget.
pub charged_bounds :
    (t : ToolBudget) (cmd : List String) (elapsed wall : ℕ) (p : Process) (c : Completed)
    → (charged t cmd elapsed wall p).1 ≡ ok c
    → (charged t cmd elapsed wall p).0.used ≤ t.max_commands
unfolding charged
charged_bounds t cmd elapsed wall p c h =
    let (within_budget, h₁) = guard->>-eq-ok (leb (suc t.used) t.max_commands) _ _ h in
    leb→le (suc t.used) t.max_commands within_budget
