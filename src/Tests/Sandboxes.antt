-- ===== src/Tests/Sandboxes.antt =====
-- The sandbox adapter at a sample.
use frankensteinz_hermes.Tests.Samples.{fields}
use frankensteinz_hermes.Tests.Processes.{rounds, profiles, unit_profile}
use frankensteinz_hermes.Base.{arith, ◌≡◌, ◌≡◌, ok, some, refl, true, false, [], ◌∷◌, ◌==◌}
use frankensteinz_hermes.Python.{eq_nat, pos, int, str}
use frankensteinz_hermes.Sandbox.Adapter.{
  AdapterRun, result_of, limits_of, command_of, main, printed,
}
use frankensteinz_hermes.Sandbox.Output.{Finished}
use frankensteinz_hermes.Sandbox.Adapter.Accepted.{main-IsAccepted, IsAccepted, adapter_process}
use frankensteinz_hermes.Qa.Sandbox.{sandbox_answer}
use frankensteinz_hermes.Sandbox.Request.{RunRequest, Place}
use frankensteinz_hermes.Sandbox.Command.Isolated.{sandbox_words-isolated, isolation_of}
use frankensteinz_hermes.Checks.{is_safe_id}
use frankensteinz_hermes.Sandbox.Command.{program, sandbox_words}

abbrev workspace : Place
workspace = record {
  text = "/var/lib/frankensteinzhermes/qa-workspaces/job";
  resolved = "/var/lib/frankensteinzhermes/qa-workspaces/job";
  is_symlink = false;
  is_directory = true;
}

abbrev call : AdapterRun
call = record {
  system = record { uuid_text = λ v. some "job"; show = λ v. "300"; place = λ s. workspace };
  size = 200;
  parsed = ok (
      fields (
        ("operation", str "run_profile")
        ∷ ("job_id", str "job")
        ∷ ("workspace", str "/var/lib/frankensteinzhermes/qa-workspaces/job")
        ∷ ("profile_id", str "unit")
        ∷ []));
  profile_file = profiles;
  exists = λ path. path == "/usr";
  is_file = λ path. false;
  has_runtime = true;
  started = ok tt;
  rounds = rounds;
  returncode = pos 0;
  duration = int (pos 3);
  decode = λ bytes. "hi";
}

abbrev request : RunRequest
request = record { job_id = "job"; workspace = workspace; profile_id = "unit" }

abbrev finished_unit : Finished
finished_unit = record {
  status = "pass";
  returncode = pos 0;
  output = 104 ∷ 105 ∷ [];
  error_output = [];
}

adapter_prints :
    main call
    ≡ printed
        (command_of call request unit_profile)
        (result_of call "unit" unit_profile finished_unit)
unfolding main eq_nat is_safe_id
adapter_prints = refl

main-IsAccepted_example :
    IsAccepted call
      (command_of call request unit_profile)
      (result_of call "unit" unit_profile finished_unit)
      (sandbox_answer
        ("adapter" ∷ [])
        2097152
        3
        900
        (adapter_process 400 (result_of call "unit" unit_profile finished_unit)))
main-IsAccepted_example =
    main-IsAccepted call (command_of call request unit_profile)
      (result_of call "unit" unit_profile finished_unit) ("adapter" ∷ []) 2097152 400 3 900
      adapter_prints (omega arith) (omega arith)

sandbox_words-isolated_example :
    isolation_of (sandbox_words "/work" (limits_of call unit_profile)) ≡ record {
      unshared = true;
      networked = false;
      writable = [];
      program_words = program (limits_of call unit_profile).command;
    }
sandbox_words-isolated_example = sandbox_words-isolated "/work" (limits_of call unit_profile)
