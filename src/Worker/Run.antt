-- ===== src/Worker/Run.antt =====
-- `main` of scripts/engineering_worker/worker.py after its arguments are read, as the sequence of its
-- steps: which calls it makes, what it reports to the ledger, and what it leaves behind. Whether a
-- step returns or raises is an argument.
pub mod Effects
pub mod Ordered
use frankensteinz_hermes.Base.{
  Bool, List, Result, Option, String, guard, false, true, err, ok, [], ◌>>◌, if◌then◌else◌, ◌==◌,
  ◌&&◌, ◌<>◌, ◌++◌, ◌∷◌,
}
use frankensteinz_hermes.Python.{worker_error, Value, Exn}
use frankensteinz_hermes.Checks.{is_text}
use frankensteinz_hermes.Checks.Reports.{Reporting, arguments}
use frankensteinz_hermes.Worker.Calls.{remaining}

-- The steps, in the order of the code. `inspect` stands for the checks of the source repository,
-- `prepare` for the names and directories of the run, `propose` for the context, the patch and its
-- application, `check_commit` for the reading of the commit, `write_evidence` for the bundle, and
-- `report` for the last `print`.
pub data Step : Type 0 where
  inspect call_gate record_gate start heartbeat prepare : Step
  add_worktree propose run_tests begin_effect create_branch make_commit : Step
  check_commit commit_effect write_evidence complete report : Step

-- What a step does outside of the process.
pub data Effect : Type 0 where
  gate_call : Effect
  ledger_call : String → Effect
  worktree_added branch_created commit_made printed : Effect
  failure_call : Bool → Effect
  cleanup : Bool → Effect

abbrev pub effects_of : Step → List Effect
effects_of inspect = []
effects_of call_gate = gate_call ∷ []
effects_of record_gate = ledger_call "record_gate" ∷ []
effects_of start = ledger_call "start" ∷ []
effects_of heartbeat = ledger_call "heartbeat" ∷ []
effects_of prepare = []
effects_of add_worktree = worktree_added ∷ []
effects_of propose = []
effects_of run_tests = []
effects_of begin_effect = ledger_call "begin_effect" ∷ []
effects_of create_branch = branch_created ∷ []
effects_of make_commit = commit_made ∷ []
effects_of check_commit = []
effects_of commit_effect = ledger_call "commit_effect" ∷ []
effects_of write_evidence = []
effects_of complete = ledger_call "complete" ∷ []
effects_of report = printed ∷ []

abbrev pub all_effects : List Step → List Effect
all_effects [] = []
all_effects (s ∷ ss) = effects_of s ++ all_effects ss

-- The local variables that the handlers read.
pub record Flags : Type 0 where
  pub is_worktree_added : Bool
  pub is_effect_started : Bool
  pub is_branch_created : Bool
  pub is_success : Bool

abbrev pub no_flags : Flags
no_flags = record {
  is_worktree_added = false;
  is_effect_started = false;
  is_branch_created = false;
  is_success = false;
}

-- The assignment behind a step that has returned.
abbrev pub after : Step → Flags → Flags
after add_worktree f = record f { is_worktree_added = true }
after begin_effect f = record f { is_effect_started = true }
after create_branch f = record f { is_branch_created = true }
after complete f = record f { is_success = true }
after s f = f

-- The steps before the `try` statement, and those in it.
abbrev pub admission : List Step
admission = inspect ∷ call_gate ∷ record_gate ∷ start ∷ heartbeat ∷ prepare ∷ []

abbrev pub execution : List Step
execution =
    add_worktree ∷ propose ∷ run_tests ∷ begin_effect ∷ create_branch ∷ make_commit ∷ check_commit
    ∷ commit_effect ∷ write_evidence ∷ complete ∷ report ∷ []

pub record Trace : Type 0 where
  pub effects : List Effect
  pub flags : Flags
  pub result : Result Exn (Unit {0})

-- What `main` does when the gate's decision has been recorded: only an allowed job that is still
-- leased goes on.
unfoldable pub gate_recorded : String → String → Option Value → Result Exn (Unit {0})
unfolding is_text
gate_recorded decision reason status =
    let waiting =
      is_text (λ s. s == (if decision == "approval_required" then "waiting_approval" else "denied"))
        status in
    if decision == "allow"
    then guard (is_text (λ s. s == "leased") status) (worker_error "ledger_gate_allow_not_leased")
    else (guard waiting (worker_error "ledger_gate_state_mismatch")
        >> err (worker_error ("gate_not_allowed:" <> (decision <> (":" <> reason)))))

-- What a step and the ones behind it do: a step that raises ends the sequence.
unfoldable pub continue_steps : Step → Flags → Trace → Result Exn (Unit {0}) → Trace
continue_steps s f rest (err e) = record { effects = effects_of s; flags = f; result = err e }
continue_steps s f rest (ok u) = record {
  effects = effects_of s ++ rest.effects;
  flags = rest.flags;
  result = rest.result;
}

-- The handler of the `try` statement, which tells the ledger, behind the arguments of its call, and
-- raises again. An exception of its own is written down, not raised.
abbrev pub handled : Result Exn (Unit {0}) → Flags → Result Exn (Unit {0}) → List Effect
handled (err x) f r = []
handled (ok u) f (err e) = failure_call f.is_effect_started ∷ []
handled (ok u) f (ok v) = []

-- `finally`
abbrev pub finally : Flags → List Effect
finally f = if f.is_worktree_added then cleanup (f.is_success && f.is_branch_created) ∷ [] else []

-- What `main` does behind the admission, where it has not raised.
abbrev pub proceed : Trace → Trace → Result Exn (Unit {0}) → Trace
proceed t rest (err e) = t
proceed t rest (ok u) = record {
  effects = t.effects ++ rest.effects;
  flags = rest.flags;
  result = rest.result;
}

module _ (outcome : Step → Result Exn (Unit {0})) where
  unfoldable pub run_steps : List Step → Flags → Trace
  unfolding continue_steps
  run_steps [] f = record { effects = []; flags = f; result = ok tt }
  run_steps (s ∷ ss) f = let rest = run_steps ss (after s f) in continue_steps s f rest (outcome s)

  unfoldable pub attempt : Reporting → Trace
  unfolding run_steps arguments remaining
  attempt reporting =
      let t = run_steps execution no_flags in
      record {
        effects =
            t.effects
            ++ (handled (arguments remaining reporting) t.flags t.result ++ finally t.flags);
        flags = t.flags;
        result = t.result;
      }

  unfoldable pub main : Reporting → Trace
  unfolding run_steps attempt
  main reporting = let t = run_steps admission no_flags in proceed t (attempt reporting) t.result
