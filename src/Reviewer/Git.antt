-- ===== src/Reviewer/Git.antt =====
-- The processes of scripts/engineering_reviewer/reviewer.py: `remaining`, `run`, `require_ok`,
-- `call_ledger` and `GitReader`.
use frankensteinz_hermes.Worker.Calls.{
  parse_or, Process, Completed, timed_out, missing, completed, command_name, is_zero,
}
use frankensteinz_hermes.Base.{
  some, refl, is_empty_text, all, is_empty, not, leb, suc, contains, ◌>>◌, ℕ, Bool, List, Result,
  String, guard, false, true, err, ok, [], ◌>>=◌, if◌then◌else◌, ◌-◌, ◌≡◌, ◌&&◌, ◌<>◌, ◌∷◌,
}
use frankensteinz_hermes.Python.{Dict, reviewer_error, integrity_error, Exn}
use frankensteinz_hermes.Checks.{require_dict}

unfoldable pub remaining : ℕ → ℕ → Result Exn ℕ
remaining elapsed wall =
    if leb wall elapsed
    then err (reviewer_error "wall_clock_budget_exhausted")
    else ok (wall - elapsed)

abbrev pub unavailable : List String → String → Exn
unavailable cmd reason =
    reviewer_error ("command_unavailable:" <> (command_name cmd <> (":" <> reason)))

abbrev pub ended : List String → Process → Result Exn Completed
ended cmd timed_out = err (unavailable cmd "TimeoutExpired")
ended cmd missing = err (unavailable cmd "FileNotFoundError")
ended cmd (completed c) = ok c

unfoldable pub run : List String → ℕ → Process → Result Exn Completed
run cmd max_output p = do
  guard (not (is_empty cmd) && all (λ s. not (is_empty_text s)) cmd)
      (reviewer_error "invalid_command")
  c ← ended cmd p
  guard (leb c.printed max_output)
      (reviewer_error ("command_output_too_large:" <> command_name cmd))
  ok c

unfoldable pub require_ok : Completed → String → Result Exn Completed
require_ok c label = do
  guard (is_zero c.returncode) (integrity_error (label <> ("_failed:" <> c.error_tail)))
  ok c

-- `call_ledger`, on what the process of the adapter does.
unfoldable pub call_ledger : List String → ℕ → ℕ → Process → Result Exn Dict
unfolding remaining run require_dict
call_ledger adapter elapsed wall p = do
  left ← remaining elapsed wall
  c ← run adapter 131072 p
  guard (is_zero c.returncode) (reviewer_error "ledger_adapter_failed")
  response ← parse_or (reviewer_error "ledger_response_invalid") c.parsed
  require_dict (some response) (reviewer_error "ledger_response_not_object")

abbrev pub read_only : List String
read_only = "rev-parse" ∷ "merge-base" ∷ "rev-list" ∷ "diff" ∷ "show" ∷ "cat-file" ∷ []

pub record GitReader : Type 0 where
  pub maximum : ℕ
  pub used : ℕ

abbrev pub spend : GitReader → GitReader
spend g = record { maximum = g.maximum; used = suc g.used }

-- `not args or args[0] not in READ_ONLY_GIT`, negated
abbrev pub is_read_only : List String → Bool
is_read_only [] = false
is_read_only (name ∷ arguments) = contains read_only name

-- A command that is counted.
unfoldable pub counted :
    GitReader → List String → ℕ → ℕ → ℕ → Process → GitReader × Result Exn Completed
unfolding remaining run
counted g args max_output elapsed wall p = (
  spend g,
  do
    guard (leb (suc g.used) g.maximum) (reviewer_error "git_command_budget_exhausted")
    left ← remaining elapsed wall
    run ("git" ∷ args) max_output p,
)

-- A command that is not one of those that read is refused before it is counted.
abbrev pub refuse_unless :
    Bool → GitReader → GitReader × Result Exn Completed → GitReader × Result Exn Completed
refuse_unless true g outcome = outcome
refuse_unless false g outcome = (g, err (reviewer_error "git_write_or_unknown_command_denied"))

unfoldable pub call :
    GitReader → List String → ℕ → ℕ → ℕ → Process → GitReader × Result Exn Completed
unfolding counted
call g args max_output elapsed wall p =
    refuse_unless (is_read_only args) g (counted g args max_output elapsed wall p)

refuse_unless_lem :
    (b : Bool) (g : GitReader) (outcome : GitReader × Result Exn Completed) (c : Completed)
    → (refuse_unless b g outcome).1 ≡ ok c
    → (b ≡ true) × (outcome.1 ≡ ok c)
refuse_unless_lem true g outcome c h = (refl, h)
refuse_unless_lem false g outcome c h = cc
