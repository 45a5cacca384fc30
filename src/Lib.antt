-- ===== src/Lib.antt =====
-- A model of FrankensteinzHermes: the action gate, and the workers that implement, review and test
-- changes of a repository under its decisions.
--
-- The program. An agent asks the action gate (scripts/action_gate) for a decision on each action: a
-- client sends one line of JSON to a server on a local socket, the server decides by a policy file,
-- writes an audit record and answers. The engineering worker (scripts/engineering_worker) takes a job
-- from the ledger, asks the gate, lets a model propose a patch and commits it to a branch when its
-- paths are permitted and the tests pass. The reviewer (scripts/engineering_reviewer) verifies the
-- evidence of the worker and derives a verdict from the findings of a model. The QA coordinator
-- (scripts/engineering_qa) selects profiles and runs them in a sandbox, with each run recorded as an
-- effect in the ledger. The three talk to the ledger through adapters (ledger_psql.py) that check
-- every request. The resource governor (scripts/governor) runs a job only on a host that its policy
-- finds at rest, and a heavy job only with one of a few locks.
--
-- The files.
--   Base: shared tests, lists, results and texts. `Result E A` is the outcome of code that may
--     raise; `do` blocks are its statements, and `guard` is an `if` that raises.
--   Python: exceptions, the values of JSON, dicts as association lists in insertion order, and
--     Python's `==` and `len(set(xs))` on values.
--   Gate: Policy (load_policy), Request (validate_request), Decision (_decision) and Decide (decide)
--     of scripts/action_gate/action_gate.py; Server and Loop (recv_request, audit, main) of
--     server.py; Client (main) of client.py. Safety, Sufficient, Guarantees, Audit and Transport are proofs.
--   Paths: Posix (the parts of PurePosixPath), Relative (validate_rel_path), Allowed (path_allowed)
--     and Patch (parse_patch_paths) of scripts/engineering_worker/worker.py.
--   Checks: the tests that the three workers share on configs, envelopes and responses; Files (a
--     directory of evidence and the loop over its manifest); Steps (code that spends a budget of
--     commands, and runs with effects of which an exception skips the rest); Reports (the arguments of
--     the call with which a handler reports a failure, which may raise themselves).
--   Worker, Reviewer, Qa: Config (validate_config) and Envelope (validate_envelope) of each;
--     Worker.Calls (run_command, call_gate, call_ledger and call_model), Worker.Tools (ToolBudget),
--     Reviewer.Git (GitReader), Qa.Git (GitBudget), and Worker.Run (main, as
--     the sequence of its steps) and Worker.Job (its calls of the gate and of the ledger);
--     Reviewer.Findings (validate_model_response) and Reviewer.Verdict (derive_verdict);
--     Reviewer.Evidence (verify_manifest), Reviewer.Scope and Reviewer.Candidate (path_allowed and
--     reconstruct_candidate), Reviewer.Context (build_context), Reviewer.Model (call_model), and
--     Reviewer.Job and Reviewer.Run (main) of scripts/engineering_reviewer/reviewer.py;
--     Qa.Bundle (verify_review_bundle), Qa.Selection (validate_model_selection and the
--     selection of main), Qa.Candidate (verify_candidate), Qa.Model (call_gate, call_model), Qa.Trial
--     (the clone and the loop over the profiles), Qa.Job and Qa.Run (main) of
--     scripts/engineering_qa/coordinator_core.py; Qa.Sandbox (call_sandbox, and durable_call_sandbox
--     of scripts/engineering_qa/worker.py).
--   Ledger: the validations of the three ledger_psql.py, and the requests of the worker.
--   Sandbox: Request (validate_request), Profile (load_profile), Command (build_command), Output
--     (collect_bounded) and Adapter (main) of scripts/engineering_qa/bwrap_sandbox_adapter.py.
--     Command.Isolated reads the words of the command as the manual of Bubblewrap has them.
--   Governor: Numbers (the doubles), Snapshot (read_policy, snapshot), Slots (acquire_heavy_slot,
--     which tries one lock after the other, and what the governors of a host can do with the lock files
--     in any interleaving) and Command (main) of
--     scripts/governor/governor.py.
--   Tests: samples, and the theorems at them.
--
-- State and effects. A dict that the code reads is its list of entries; a function that raises
-- returns a `Result`. What another process answers is an argument: the chunks of a socket, the
-- answers of the ledger, the result of a sandbox. The calls that durable_call_sandbox makes are a
-- list of events, and the audit log is a list of records. The reviewer and the QA coordinator read the
-- repository through a budget that is passed along, with what git answers at each command as an
-- argument; their main and that of the governor give the effects that have been attempted, in order,
-- and the outcome.
--
-- Bounds. Numbers are natural numbers or integers without a width, as in Python; the limits of the
-- code (65536 bytes of a request, the budgets of the configs) are written out. All loops are
-- structural recursion over the list that the code iterates, so no fuel is needed; collect_bounded,
-- whose loop ends by the clock, recurs on the list of the rounds that the system gives it, and
-- returns nothing where they end too early.
--
-- Arguments of the model: the digests (hashlib over json.dumps), json.loads, str(v) of a value that
-- is no text, float(s) and int(s) of a text, and uuid.UUID(str(v)) as a test; what the kernel says of
-- the host and of the workspace; what git, the ledger, the models and the sandbox answer, and when; and whether a bundle
-- can be written. Not modelled: texts with lone surrogates, partial writes of os.write, the file
-- system itself; what the steps of the worker's main do that call neither the gate nor the ledger; the
-- contents of the bundles and of the prompts;
-- the psql processes of the adapters, the metrics of the governor,
-- scripts/models, the LiteLLM adapters, and the scripts that validate the repository.
pub mod Base
pub mod Python
pub mod Gate
pub mod Paths
pub mod Checks
pub mod Worker
pub mod Reviewer
pub mod Qa
pub mod Ledger
pub mod Sandbox
pub mod Governor
pub mod Tests
