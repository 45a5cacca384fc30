-- ===== src/Worker/Run/Ordered.antt =====
-- What `main` of scripts/engineering_worker/worker.py has done where it keeps the branch.
use frankensteinz_hermes.Worker.Run.{
  add_worktree, propose, run_tests, begin_effect, create_branch, make_commit, check_commit,
  commit_effect, write_evidence, complete, report, cleanup, proceed, no_flags, execution,
  continue_steps, admission, run_steps, main, handled, finally, attempt, after, effects_of, Flags,
  Step, Effect, Trace,
}
use frankensteinz_hermes.Checks.Reports.{
  Reporting, arguments, arguments-can_report, can_report, is_ok, is_present,
}
use frankensteinz_hermes.Worker.Calls.{remaining}
use frankensteinz_hermes.Base.{
  ltb, ◌||◌, ap, any-append, any, not-eq-true, and-eq-true, not, all, Result-cases, All, Bool, List,
  Result, ◌∙◌, arith, inr, inl, false, true, err, ok, refl, [], if◌then◌else◌, ◌≡◌, ◌&&◌, ◌++◌, ◌∷◌,
}
use frankensteinz_hermes.Python.{Exn, worker_error}
use frankensteinz_hermes.Worker.Run.Effects.{
  keeps_branch, reports_failure, effects_of_lem, is_complete, after-success,
}

module _ (outcome : Step → Result Exn (Unit {0})) where
  abbrev pub Returned : List Step → Type 0
  Returned = All (λ s. outcome s ≡ ok tt)

  run_steps_lem :
      (p : Effect → Bool) (ss : List Step) (f : Flags)
      → ((s : Step) → any p (effects_of s) ≡ false)
      → any p (run_steps outcome ss f).effects ≡ false
  unfolding run_steps continue_steps
  run_steps_lem p [] f quiet = refl
  run_steps_lem p (s ∷ ss) f quiet = elim (Result-cases (outcome s)) [
    | inr (e, raised) ↦ rw raised (quiet s)
    | inl (u, done) ↦ rw done (
        rw (any-append p (effects_of s) (run_steps outcome ss (after s f)).effects, quiet s)
          (run_steps_lem p ss (after s f) quiet))
  ]

  run_steps-Returned :
      (ss : List Step) (f : Flags) → (run_steps outcome ss f).result ≡ ok tt → Returned ss
  unfolding run_steps continue_steps
  run_steps-Returned [] f h = tt
  run_steps-Returned (s ∷ ss) f h = go (outcome s) refl (run_steps-Returned ss (after s f)) h
    where
      go :
          (r : Result Exn (Unit {0}))
          → outcome s ≡ r
          → ((run_steps outcome ss (after s f)).result ≡ ok tt → Returned ss)
          → (continue_steps s f (run_steps outcome ss (after s f)) r).result ≡ ok tt
          → Returned (s ∷ ss)
      go (err e) raised later h = cc
      go (ok u) done later h = (done, later h)

  -- The steps have returned, and the ones behind them start without success and end with it.
  abbrev Passed : List Step → List Step → Type 0
  Passed xs ys =
      Returned xs
      × ((g : Flags) × (g.is_success ≡ false) × ((run_steps outcome ys g).flags.is_success ≡ true))

  -- Where the run has succeeded in the end, the steps before the completion have returned.
  success-Passed :
      (xs ys : List Step) (f : Flags)
      → f.is_success ≡ false
      → all (λ s. not (is_complete s)) xs ≡ true
      → (run_steps outcome (xs ++ ys) f).flags.is_success ≡ true
      → Passed xs ys
  unfolding run_steps continue_steps
  success-Passed [] ys f fresh others h = (tt, (f, fresh, h))
  success-Passed (x ∷ xs) ys f fresh others h =
      let (first, rest) =
        and-eq-true (not (is_complete x)) (all (λ s. not (is_complete s)) xs) others in
      let still = after-success x f (not-eq-true (is_complete x) first) ∙ fresh in
      go (outcome x) refl (success-Passed xs ys (after x f) still rest) h
    where
      go :
          (r : Result Exn (Unit {0}))
          → outcome x ≡ r
          → ((run_steps outcome (xs ++ ys) (after x f)).flags.is_success ≡ true → Passed xs ys)
          → (continue_steps x f (run_steps outcome (xs ++ ys) (after x f)) r).flags.is_success
            ≡ true
          → Passed (x ∷ xs) ys
      go (err e) raised later h = cc
      go (ok u) done later h = let (good, more) = later h in ((done, good), more)

  abbrev pub before_completion : List Step
  before_completion =
      add_worktree ∷ propose ∷ run_tests ∷ begin_effect ∷ create_branch ∷ make_commit ∷ check_commit
      ∷ commit_effect ∷ write_evidence ∷ []

  completed_last :
      (g : Flags)
      → g.is_success ≡ false
      → (run_steps outcome (complete ∷ report ∷ []) g).flags.is_success ≡ true
      → outcome complete ≡ ok tt
  unfolding run_steps continue_steps
  completed_last g fresh h = go (outcome complete) refl h
    where
      go :
          (r : Result Exn (Unit {0}))
          → outcome complete ≡ r
          → (continue_steps complete g
              (run_steps outcome (report ∷ []) (after complete g))
              r).flags.is_success
            ≡ true
          → outcome complete ≡ ok tt
      go (err e) raised h = cc
      go (ok u) done h = done

  keeps-finally : (f : Flags) → any keeps_branch (finally f) ≡ true → f.is_success ≡ true
  keeps-finally f h = keeps_when f.is_worktree_added f.is_success f.is_branch_created h
    where
      keeps_when :
          (a s b : Bool)
          → any keeps_branch (if a then cleanup (s && b) ∷ [] else []) ≡ true
          → s ≡ true
      keeps_when false s b h = cc
      keeps_when true false b h = cc
      keeps_when true true b h = refl

  finally-quiet : (f : Flags) → any reports_failure (finally f) ≡ false
  finally-quiet f = quiet f.is_worktree_added
    where
      quiet :
          (b : Bool)
          → any reports_failure
              (if b then cleanup (f.is_success && f.is_branch_created) ∷ [] else [])
            ≡ false
      quiet true = refl
      quiet false = refl

  keeps-handled :
      (a : Result Exn (Unit {0})) (f : Flags) (r : Result Exn (Unit {0}))
      → any keeps_branch (handled a f r) ≡ false
  keeps-handled (err x) f r = refl
  keeps-handled (ok u) f (err e) = refl
  keeps-handled (ok u) f (ok v) = refl

  attempt-Returned :
      (reporting : Reporting)
      → any keeps_branch (attempt outcome reporting).effects ≡ true
      → Returned before_completion × (outcome complete ≡ ok tt)
  unfolding attempt
  attempt-Returned reporting h =
      let a = arguments remaining reporting in
      let t = run_steps outcome execution no_flags in
      let last = handled a t.flags t.result ++ finally t.flags in
      let kept : any keeps_branch (finally t.flags) ≡ true = ground (
        arith,
        any-append keeps_branch t.effects last,
        run_steps_lem keeps_branch execution no_flags (λ s. (effects_of_lem s).0),
        any-append keeps_branch (handled a t.flags t.result) (finally t.flags),
        keeps-handled a t.flags t.result,
      ) in
      let (good, more) =
        success-Passed before_completion (complete ∷ report ∷ []) no_flags refl refl
          (keeps-finally t.flags kept) in
      let (g, fresh, later) = more in (good, completed_last g fresh later)

  handled-reports :
      (a : Result Exn (Unit {0})) (f : Flags) (r : Result Exn (Unit {0}))
      → any reports_failure (handled a f r ++ finally f) ≡ (not (is_ok r) && is_ok a)
  handled-reports (err x) f (err e) = finally-quiet f
  handled-reports (err x) f (ok v) = finally-quiet f
  handled-reports (ok u) f (err e) = refl
  handled-reports (ok u) f (ok v) = finally-quiet f

  called : (reporting : Reporting) → is_ok (arguments remaining reporting) ≡ can_report reporting
  unfolding remaining
  called reporting =
      arguments-can_report remaining (worker_error "wall_clock_budget_exhausted") reporting
        (λ elapsed wall. refl)

  attempt-reports :
      (reporting : Reporting)
      → any reports_failure (attempt outcome reporting).effects
        ≡ (not (is_ok (run_steps outcome execution no_flags).result) && can_report reporting)
  unfolding attempt
  attempt-reports reporting =
      let t = run_steps outcome execution no_flags in
      let a = arguments remaining reporting in
      any-append reports_failure t.effects (handled a t.flags t.result ++ finally t.flags)
      ∙ (ap (λ b. b || any reports_failure (handled a t.flags t.result ++ finally t.flags))
            (run_steps_lem reports_failure execution no_flags (λ s. (effects_of_lem s).1))
          ∙ (handled-reports a t.flags t.result
              ∙ ap (λ b. not (is_ok t.result) && b) (called reporting)))

  -- A failure is reported to the ledger exactly where every step of the admission has returned, a
  -- step of the execution has raised, the config has a retry delay, and the handler is reached
  -- before the wall clock is exhausted. So an exception of the admission is not reported, also where
  -- the job has been started.
  pub main-reports_failure :
      (reporting : Reporting)
      → any reports_failure (main outcome reporting).effects ≡ (
          is_ok (run_steps outcome admission no_flags).result
          && not (is_ok (run_steps outcome execution no_flags).result)
          && (is_present reporting.delay && ltb reporting.elapsed reporting.wall))
  unfolding main
  main-reports_failure reporting =
      let a = run_steps outcome admission no_flags in
      go a.result a (attempt outcome reporting)
        (not (is_ok (run_steps outcome execution no_flags).result)) (can_report reporting)
        (run_steps_lem reports_failure admission no_flags (λ s. (effects_of_lem s).1))
        (attempt-reports reporting)
    where
      go :
          (r : Result Exn (Unit {0})) (t rest : Trace) (b c : Bool)
          → any reports_failure t.effects ≡ false
          → any reports_failure rest.effects ≡ (b && c)
          → any reports_failure (proceed t rest r).effects ≡ (is_ok r && b && c)
      go (err e) t rest b c quiet h = quiet
      go (ok u) t rest b c quiet h =
          any-append reports_failure t.effects rest.effects
          ∙ (ap (λ x. x || any reports_failure rest.effects) quiet ∙ h)

  -- Where `main` keeps the branch, every step of the admission has returned, and so has every step
  -- from the worktree to the evidence, the start and the commit of the effect among them; and the
  -- ledger has confirmed the completion.
  pub main-Returned :
      (reporting : Reporting)
      → any keeps_branch (main outcome reporting).effects ≡ true
      → Returned admission × Returned before_completion × (outcome complete ≡ ok tt)
  unfolding main
  main-Returned reporting h =
      let t = run_steps outcome admission no_flags in
      go t.result refl (run_steps-Returned admission no_flags)
        (run_steps_lem keeps_branch admission no_flags (λ s. (effects_of_lem s).0)) h
    where
      go :
          (r : Result Exn (Unit {0}))
          → (run_steps outcome admission no_flags).result ≡ r
          → ((run_steps outcome admission no_flags).result ≡ ok tt → Returned admission)
          → any keeps_branch (run_steps outcome admission no_flags).effects ≡ false
          → any keeps_branch
              (proceed (run_steps outcome admission no_flags) (attempt outcome reporting) r).effects
            ≡ true
          → Returned admission × Returned before_completion × (outcome complete ≡ ok tt)
      go (err e) raised admitted none_kept h = cc
      go (ok u) done admitted none_kept h =
          let kept : any keeps_branch (attempt outcome reporting).effects ≡ true = ground (
            arith,
            any-append keeps_branch (run_steps outcome admission no_flags).effects
                (attempt outcome reporting).effects,
          ) in
          let (good, last) = attempt-Returned reporting kept in (admitted done, good, last)
