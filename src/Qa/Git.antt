-- ===== src/Qa/Git.antt =====
-- The processes of scripts/engineering_qa/coordinator_core.py: `remaining`, `run`, `require_ok`,
-- `call_ledger` and `GitBudget`.
use frankensteinz_hermes.Worker.Calls.{
  parse_or, Process, Completed, timed_out, missing, completed, command_name, is_zero,
}
use frankensteinz_hermes.Base.{
  some, leb→le, contains, leb, false, suc, guard->>-eq-ok, ◌>>◌, ℕ, Bool, List, Result, String,
  guard, err, ok, [], ◌>>=◌, if◌then◌else◌, ◌≤◌, ◌-◌, ◌≡◌, ◌<>◌, ◌∷◌,
}
use frankensteinz_hermes.Python.{Dict, qa_integrity_error, qa_error, Exn}
use frankensteinz_hermes.Checks.{require_dict}

unfoldable pub remaining : ℕ → ℕ → Result Exn ℕ
remaining elapsed wall =
    if leb wall elapsed then err (qa_error "wall_clock_budget_exhausted") else ok (wall - elapsed)

abbrev pub ended : List String → Process → Result Exn Completed
ended cmd timed_out =
    err (qa_error ("command_unavailable:" <> (command_name cmd <> ":TimeoutExpired")))
ended cmd missing =
    err (qa_error ("command_unavailable:" <> (command_name cmd <> ":FileNotFoundError")))
ended cmd (completed c) = ok c

unfoldable pub run : List String → ℕ → Process → Result Exn Completed
run cmd max_output p = do
  c ← ended cmd p
  guard (leb c.printed max_output) (qa_error ("command_output_too_large:" <> command_name cmd))
  ok c

-- `integrity` chooses the exception.
unfoldable pub require_ok : Bool → String → Completed → Result Exn Completed
require_ok integrity label c =
    let text = label <> ("_failed:" <> c.error_tail) in
    do
      guard (is_zero c.returncode) (if integrity then qa_integrity_error text else qa_error text)
      ok c

-- `call_ledger`, on what the process of the adapter does.
unfoldable pub call_ledger : List String → ℕ → ℕ → Process → Result Exn Dict
unfolding remaining run require_dict
call_ledger adapter elapsed wall p = do
  left ← remaining elapsed wall
  c ← run adapter 131072 p
  guard (is_zero c.returncode) (qa_error "ledger_adapter_failed")
  response ← parse_or (qa_error "ledger_response_invalid") c.parsed
  require_dict (some response) (qa_error "ledger_response_not_object")

abbrev pub read_only : List String
read_only = "rev-parse" ∷ "merge-base" ∷ "rev-list" ∷ "status" ∷ []

pub record GitBudget : Type 0 where
  pub maximum : ℕ
  pub used : ℕ

abbrev pub spend : GitBudget → GitBudget
spend g = record { maximum = g.maximum; used = suc g.used }

-- `_charge`, which raises behind the addition
unfoldable pub charge : GitBudget → Result Exn (Unit {0})
charge g = guard (leb (suc g.used) g.maximum) (qa_error "git_command_budget_exhausted")

-- A command of git, charged and run.
unfoldable pub charged :
    GitBudget → List String → Bool → String → ℕ → ℕ → Process → GitBudget × Result Exn Completed
unfolding charge remaining run require_ok
charged g args integrity label elapsed wall p = (
  spend g,
  do
    charge g
    left ← remaining elapsed wall
    c ← run ("git" ∷ args) 2000000 p
    require_ok integrity label c,
)

unfoldable pub read :
    GitBudget → List String → Bool → ℕ → ℕ → Process → GitBudget × Result Exn Completed
unfolding charged
read g [] integrity elapsed wall p = (g, err (qa_error "git_command_not_readonly"))
read g (name ∷ arguments) integrity elapsed wall p =
    let outcome = charged g (name ∷ arguments) integrity ("git_" <> name) elapsed wall p in
    if contains read_only name then outcome else (g, err (qa_error "git_command_not_readonly"))

-- The checkout, where the clone has returned.
abbrev pub check_out :
    GitBudget × Result Exn Completed → String → ℕ → ℕ → Process → GitBudget × Result Exn Completed
check_out (g, err e) head elapsed wall p = (g, err e)
check_out (g, ok c) head elapsed wall p =
    charged g ("checkout" ∷ "--quiet" ∷ "--detach" ∷ head ∷ []) false "qa_detached_checkout" elapsed
      wall p

-- The clock is read for each of the two commands.
unfoldable pub clone_detached :
    GitBudget
    → String
    → String
    → String
    → ℕ × ℕ
    → ℕ
    → Process × Process
    → GitBudget × Result Exn Completed
unfolding charged
clone_detached g source workspace head (first, second) wall (clone, checkout) =
    check_out
      (charged g ("clone" ∷ "--quiet" ∷ "--no-checkout" ∷ "--local" ∷ source ∷ workspace ∷ []) false
        "qa_clone" first wall clone)
      head second wall checkout

-- A command that has run is within the budget.
pub charged_bounds :
    (g : GitBudget) (args : List String) (integrity : Bool) (label : String) (elapsed wall : ℕ)
    (p : Process) (c : Completed)
    → (charged g args integrity label elapsed wall p).1 ≡ ok c
    → (charged g args integrity label elapsed wall p).0.used ≤ g.maximum
unfolding charged charge
charged_bounds g args integrity label elapsed wall p c h =
    let (few, h₁) = guard->>-eq-ok (leb (suc g.used) g.maximum) _ _ h in
    leb→le (suc g.used) g.maximum few
