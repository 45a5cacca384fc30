-- ===== src/Reviewer/Reading.antt =====
-- The commands of git of scripts/engineering_reviewer/reviewer.py, through a `GitReader`.
use frankensteinz_hermes.Base.{ℕ, String, List, Result, ok, err}
use frankensteinz_hermes.Checks.Steps.{◌>>=◌, lift, Steps, Repository, Output, with_output}
use frankensteinz_hermes.Python.{Exn}
use frankensteinz_hermes.Reviewer.Git.{require_ok, call, GitReader}
use frankensteinz_hermes.Worker.Calls.{Completed}

abbrev pub Reads : Type 0 → Type 0
Reads A = Steps GitReader A

-- The output of a command that has ended well.
abbrev pub output_of : {A : Type 0} → A → Result Exn Completed → Result Exn A
output_of a (err e) = err e
output_of a (ok c) = ok a

module _ (r : Repository) where
  unfoldable pub ask : List String → ℕ → Reads (Completed × Output)
  unfolding call
  ask args max_output g =
      let (g', outcome) =
        call g args max_output (r.elapsed g.used) r.wall (r.process g.used args) in
      (g', with_output (r.output g.used args) outcome)

  -- `require_ok(git.call(args), label)`
  unfoldable pub require : List String → ℕ → String → Reads Output
  unfolding ask require_ok
  require args max_output label =
      ask args max_output >>= λ (c, output). lift (output_of output (require_ok c label))

  -- `require_ok(git.call(args), label).decode()`
  unfoldable pub read_text : List String → String → Reads String
  unfolding require
  read_text args label = require args 2000000 label >>= λ output. lift output.text
