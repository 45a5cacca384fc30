-- ===== src/Tests/Reviews.antt =====
-- A run of the reviewer at a sample.
use frankensteinz_hermes.Base.{
  ltb, not, not, ◌&&◌, All, ◌≤◌, any, List, ◌≡◌, ok, err, refl, true, false, [], ◌∷◌,
}
use frankensteinz_hermes.Python.{pos, int, same, eq_nat, os_error, lookup}
use frankensteinz_hermes.Reviewer.Run.{check_repository, main}
use frankensteinz_hermes.Reviewer.Run.Approved.{main-IsApproval, IsApproval}
use frankensteinz_hermes.Reviewer.Run.Completed.{reports, completes}
use frankensteinz_hermes.Checks.Steps.{Output}
use frankensteinz_hermes.Reviewer.Job.{expect_status, ReviewJob}
use frankensteinz_hermes.Reviewer.Candidate.{reconstruct_candidate, Candidate}
use frankensteinz_hermes.Reviewer.Context.{total_size, build_context, Excerpt}
use frankensteinz_hermes.Reviewer.Candidate.Reconstructed.{
  reconstruct_candidate-IsCandidate, IsCandidate,
}
use frankensteinz_hermes.Checks.{is_hex, has_ink}
use frankensteinz_hermes.Reviewer.Run.Failed.{main-failure}
use frankensteinz_hermes.Reviewer.Run.Rejected.{IsBroken, main-IsBroken}
use frankensteinz_hermes.Checks.Reports.{is_ok, is_present}
use frankensteinz_hermes.Reviewer.Context.Scoped.{build_context-InScope, InScope}
use frankensteinz_hermes.Tests.ReviewJobs.{payload, implementation, repository, review_run, reader}

approves : any (completes "approve") (main review_run reader).effects ≡ true
unfolding main has_ink
approves = refl

main-IsApproval_example : IsApproval review_run
main-IsApproval_example = main-IsApproval review_run reader approves

abbrev diff_output : Output
diff_output = record { text = ok "text"; is_blank = false; size = 7; digest = "d" }

abbrev candidate : Candidate
candidate = record { diff = diff_output; changed_paths = "docs/a.md" ∷ [] }

reconstructed :
    (reconstruct_candidate repository payload implementation [] 1000 reader).1 ≡ ok candidate
unfolding reconstruct_candidate eq_nat same is_hex
reconstructed = refl

reconstruct_candidate-IsCandidate_example :
    IsCandidate repository payload implementation [] 1000 candidate
reconstruct_candidate-IsCandidate_example =
    reconstruct_candidate-IsCandidate repository payload implementation [] 1000 reader candidate
      reconstructed

abbrev excerpts : List Excerpt
excerpts = record { path = "docs/b.md"; output = diff_output; content = "text" } ∷ []

context_built : (build_context repository payload [] 1000 reader).1 ≡ ok excerpts
unfolding build_context
context_built = refl

build_context-InScope_example :
    All (InScope repository payload [] 1000) excerpts × (total_size excerpts ≤ 1000)
build_context-InScope_example =
    build_context-InScope repository payload [] 1000 reader excerpts context_built

-- The bundle cannot be written.
abbrev full_disk : ReviewJob
full_disk = record review_run {
  bundle = λ verdict. err (os_error "no space");
  ledger = ("heartbeat_seconds", int (pos 300)) ∷ ("retry_delay_seconds", int (pos 60)) ∷ [];
}

main-failure_example : any reports (main full_disk reader).effects ≡ (
    is_ok (check_repository full_disk reader).1
    && is_ok (expect_status full_disk "start" "running" "ledger_start_failed")
    && not (is_ok (main full_disk reader).result)
    && (is_present (lookup "retry_delay_seconds" full_disk.ledger) && ltb 100 900))
main-failure_example = main-failure full_disk reader

-- There is no evidence.
abbrev no_evidence : ReviewJob
no_evidence = record review_run { directory = record { exists = false; files = [] } }

rejects : any (completes "reject") (main no_evidence reader).effects ≡ true
unfolding main
rejects = refl

main-IsBroken_example : IsBroken no_evidence (check_repository no_evidence reader).0
main-IsBroken_example = main-IsBroken no_evidence reader rejects
