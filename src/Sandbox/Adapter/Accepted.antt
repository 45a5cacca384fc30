-- ===== src/Sandbox/Adapter/Accepted.antt =====
-- The result that the sandbox adapter prints, as the QA coordinator reads it.
use frankensteinz_hermes.Base.{
  ◌≤◌, ◌<◌, leb, Result, ◌≢◌, eq_iff, some-injective, not, eqb, contains, ℕ, Bool, List, Option,
  String, subst, arith, false, true, refl, if◌then◌else◌, ◌≡◌, ◌==◌, [], ◌∷◌, some, none, ok, err,
}
use frankensteinz_hermes.Python.{Value, Exn, of_dict, Dict, eq_nat, lookup, ℤ, pos, negsuc, dict}
use frankensteinz_hermes.Sandbox.Adapter.{
  failed, is_rejected, run_request, nat_at, is_os_error, run_unit, report, command_of, read_request,
  fails_with, main, result_of, printed, AdapterRun,
}
use frankensteinz_hermes.Sandbox.Output.{
  nothing_read, read_all, finish, final_status, is_open, Finished, Round, collect_bounded, collect,
  Collected,
}
use frankensteinz_hermes.Qa.Sandbox.{statuses, check_response, sandbox_answer, call_sandbox}
use frankensteinz_hermes.Qa.Git.{run, remaining}
use frankensteinz_hermes.Worker.Calls.{Process, completed}
use frankensteinz_hermes.Checks.{is_text}
use frankensteinz_hermes.Reviewer.Findings.{text_or, member_or}
use frankensteinz_hermes.Sandbox.Request.{RunRequest}

abbrev ForcedKnown : Option (Option String × Collected) → Type 0
ForcedKnown (some (some s, c)) = contains statuses s ≡ true
ForcedKnown o = Unit

collect-ForcedKnown :
    (maximum : ℕ) (rounds : List Round) (c : Collected) → ForcedKnown (collect maximum rounds c)
unfolding collect
collect-ForcedKnown maximum [] c = go (is_open c)
  where
    go : (b : Bool) → ForcedKnown (if b then none else some (none, c))
    go true = tt
    go false = tt
collect-ForcedKnown maximum (r ∷ rounds) c =
    let (exhausted, d) = read_all maximum r.reads c in
    go (not (is_open c)) r.late exhausted d (collect maximum rounds d)
      (collect-ForcedKnown maximum rounds d)
  where
    go :
        (closed late exhausted : Bool) (d : Collected) (rest : Option (Option String × Collected))
        → ForcedKnown rest
        → ForcedKnown (
            if closed
            then some (none, c)
            else if late
            then some (some "timeout", c)
            else if exhausted
            then some (some "output_exhausted", d)
            else rest)
    go true late exhausted d rest known = tt
    go false true exhausted d rest known = refl
    go false false true d rest known = refl
    go false false false d rest known = known

final_status-known : (z : ℤ) → contains statuses (final_status none z) ≡ true
final_status-known (pos n) = go (eqb n 0)
  where
    go : (b : Bool) → contains statuses (if b then "pass" else "fail") ≡ true
    go true = refl
    go false = refl
final_status-known (negsuc n) = refl

-- The status of a run is one that the coordinator knows.
collect_bounded-status :
    (maximum : ℕ) (rounds : List Round) (z : ℤ) (f : Finished)
    → collect_bounded maximum rounds z ≡ some f
    → contains statuses f.status ≡ true
unfolding collect_bounded
collect_bounded-status maximum rounds z f h =
    go (collect maximum rounds nothing_read) (collect-ForcedKnown maximum rounds nothing_read) h
  where
    go :
        (o : Option (Option String × Collected))
        → ForcedKnown o
        → finish z o ≡ some f
        → contains statuses f.status ≡ true
    go none known h = cc
    go (some (some s, c)) known h =
        subst (λ x. contains statuses x.status ≡ true) (some-injective h) known
    go (some (none, c)) known h =
        subst (λ x. contains statuses x.status ≡ true) (some-injective h) (final_status-known z)

result_of-accepted :
    (c : AdapterRun) (profile_id : String) (profile : Dict) (f : Finished)
    → contains statuses f.status ≡ true
    → check_response profile_id (dict (of_dict (result_of c profile_id profile f)))
      ≡ ok (result_of c profile_id profile f)
unfolding check_response result_of lookup is_text member_or text_or eq_nat
result_of-accepted c profile_id profile f known =
    let same : (profile_id == profile_id) ≡ true = ground (arith, eq_iff profile_id profile_id) in
    rw (same, known) refl

fails_with-silent :
    (code : ℕ) (b : Bool) (e : Exn) (command : List String) (d : Dict)
    → fails_with code b e ≢ printed command d
fails_with-silent code true e command d h = cc
fails_with-silent code false e command d h = cc

-- What is known of a result that is printed: it passes the checks of the coordinator.
abbrev pub IsChecked : AdapterRun → List String → Dict → Type 0
IsChecked c command d =
    (request : RunRequest) × (profile : Dict) × (read_request c ≡ ok (request, profile))
    × (command ≡ command_of c request profile)
    × (check_response request.profile_id (dict (of_dict d)) ≡ ok d)

report-IsChecked :
    (c : AdapterRun) (request : RunRequest) (profile : Dict) (command : List String) (d : Dict)
    (o : Option Finished)
    → read_request c ≡ ok (request, profile)
    → ((f : Finished) → o ≡ some f → contains statuses f.status ≡ true)
    → report c request profile o ≡ printed command d
    → IsChecked c command d
report-IsChecked c request profile command d none read known h = cc
report-IsChecked c request profile command d (some f) read known h =
    let accepted = result_of-accepted c request.profile_id profile f (known f refl) in
    let same : result_of c request.profile_id profile f ≡ d = cc in
    (
      request,
      profile,
      read,
      cc,
      subst (λ x. check_response request.profile_id (dict (of_dict x)) ≡ ok x) same accepted,
    )

main-IsChecked :
    (c : AdapterRun) (command : List String) (d : Dict)
    → main c ≡ printed command d
    → IsChecked c command d
unfolding main
main-IsChecked c command d h = small (leb c.size 65536) h
  where
    started :
        (request : RunRequest) (profile : Dict) (s : Result Exn (Unit {0}))
        → read_request c ≡ ok (request, profile)
        → run_unit c request profile s ≡ printed command d
        → IsChecked c command d
    started request profile (err e) read h =
        absurd (fails_with-silent 3 (is_os_error e) e command d h)
    started request profile (ok u) read h =
        let maximum = nat_at "max_output_bytes" profile in
        report-IsChecked c request profile command d (collect_bounded maximum c.rounds c.returncode)
          read (collect_bounded-status maximum c.rounds c.returncode) h

    ready :
        (b : Bool) (request : RunRequest) (profile : Dict)
        → read_request c ≡ ok (request, profile)
        → (if b then run_unit c request profile c.started else failed 3) ≡ printed command d
        → IsChecked c command d
    ready true request profile read h = started request profile c.started read h
    ready false request profile read h = cc

    go :
        (r : Result Exn (RunRequest × Dict))
        → read_request c ≡ r
        → run_request c r ≡ printed command d
        → IsChecked c command d
    go (err e) refused h = absurd (fails_with-silent 2 (is_rejected e) e command d h)
    go (ok (request, profile)) read h = ready c.has_runtime request profile read h

    small :
        (b : Bool)
        → (if b then run_request c (read_request c) else failed 2) ≡ printed command d
        → IsChecked c command d
    small true h = go (read_request c) refl h
    small false h = cc

-- The process of the adapter, as the coordinator sees it: it has printed the result as JSON, which is
-- that many bytes long, and has exited with 0.
abbrev pub adapter_process : ℕ → Dict → Process
adapter_process bytes d = completed (record {
  returncode = pos 0;
  printed = bytes;
  parsed = ok (dict (of_dict d));
  error_tail = "";
})

-- The request that the adapter has read, and what `call_sandbox` makes of the result.
pub record IsAccepted (c : AdapterRun) (command : List String) (d : Dict)
    (answer : Result Exn (ℕ × Result Exn Value)) : Type 0 where
  pub request : RunRequest
  pub profile : Dict
  pub read : read_request c ≡ ok (request, profile)
  pub built : command ≡ command_of c request profile
  pub accepted : call_sandbox request.profile_id answer ≡ ok d

-- A result that the adapter prints is one of the request that it has read, of the command that is
-- built from the request and the profile that it names; and `call_sandbox` of the coordinator, which
-- has asked for that profile, returns the result, where the wall clock of the coordinator is not
-- exhausted and the result, as it is printed, has no more bytes than the coordinator's config allows.
pub main-IsAccepted :
    (c : AdapterRun) (command : List String) (d : Dict) (adapter : List String)
    (maximum bytes elapsed wall : ℕ)
    → main c ≡ printed command d
    → bytes ≤ maximum
    → elapsed < wall
    → IsAccepted c command d (sandbox_answer adapter maximum elapsed wall (adapter_process bytes d))
unfolding sandbox_answer run remaining call_sandbox
main-IsAccepted c command d adapter maximum bytes elapsed wall h few early =
    let (request, profile, read, built, checked) = main-IsChecked c command d h in
    let fits : leb bytes maximum ≡ true = ground arith in
    let left : leb wall elapsed ≡ false = ground arith in
    record {
      request = request;
      profile = profile;
      read = read;
      built = built;
      accepted = rw (left, fits) checked;
    }
