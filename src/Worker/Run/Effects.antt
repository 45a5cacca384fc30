-- ===== src/Worker/Run/Effects.antt =====
-- The effects of a step of `main` of scripts/engineering_worker/worker.py.
use frankensteinz_hermes.Worker.Run.{
  inspect, call_gate, record_gate, start, heartbeat, prepare, add_worktree, propose, run_tests,
  begin_effect, create_branch, make_commit, check_commit, commit_effect, write_evidence, complete,
  report, failure_call, cleanup, after, effects_of, Flags, Step, Effect,
}
use frankensteinz_hermes.Base.{any, Bool, false, true, refl, ◌≡◌}

-- The clean-up runs without deleting the branch.
abbrev pub keeps_branch : Effect → Bool
keeps_branch (cleanup kept) = kept
keeps_branch e = false

-- The ledger is told of a failure.
abbrev pub reports_failure : Effect → Bool
reports_failure (failure_call effect_started) = true
reports_failure e = false

pub effects_of_lem :
    (s : Step)
    → (any keeps_branch (effects_of s) ≡ false) × (any reports_failure (effects_of s) ≡ false)
effects_of_lem inspect = (refl, refl)
effects_of_lem call_gate = (refl, refl)
effects_of_lem record_gate = (refl, refl)
effects_of_lem start = (refl, refl)
effects_of_lem heartbeat = (refl, refl)
effects_of_lem prepare = (refl, refl)
effects_of_lem add_worktree = (refl, refl)
effects_of_lem propose = (refl, refl)
effects_of_lem run_tests = (refl, refl)
effects_of_lem begin_effect = (refl, refl)
effects_of_lem create_branch = (refl, refl)
effects_of_lem make_commit = (refl, refl)
effects_of_lem check_commit = (refl, refl)
effects_of_lem commit_effect = (refl, refl)
effects_of_lem write_evidence = (refl, refl)
effects_of_lem complete = (refl, refl)
effects_of_lem report = (refl, refl)

abbrev pub is_complete : Step → Bool
is_complete complete = true
is_complete s = false

pub after-success :
    (s : Step) (f : Flags) → is_complete s ≡ false → (after s f).is_success ≡ f.is_success
after-success inspect f e = refl
after-success call_gate f e = refl
after-success record_gate f e = refl
after-success start f e = refl
after-success heartbeat f e = refl
after-success prepare f e = refl
after-success add_worktree f e = refl
after-success propose f e = refl
after-success run_tests f e = refl
after-success begin_effect f e = refl
after-success create_branch f e = refl
after-success make_commit f e = refl
after-success check_commit f e = refl
after-success commit_effect f e = refl
after-success write_evidence f e = refl
after-success complete f e = cc
after-success report f e = refl
