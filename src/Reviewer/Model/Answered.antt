-- ===== src/Reviewer/Model/Answered.antt =====
-- Where the review that `call_model` of scripts/engineering_reviewer/reviewer.py returns comes from.
use frankensteinz_hermes.Reviewer.Model.{ReviewBudget, review_of, call_model}
use frankensteinz_hermes.Reviewer.Git.{run, remaining, ended}
use frankensteinz_hermes.Reviewer.Findings.{validate_model_response, Review}
use frankensteinz_hermes.Worker.Calls.{
  usage_of, int_of, exceeds, parse_or, is_zero, Process, Completed, completed, timed_out, missing,
}
use frankensteinz_hermes.Checks.{require_dict}
use frankensteinz_hermes.Checks.Passed.{require_dict-ok}
use frankensteinz_hermes.Python.{
  os_error, runtime_error, value_error, qa_integrity_error, qa_error, integrity_error, worker_error,
  gate_error, of_dict-entries, type_error, attribute_error, key_error, json_decode_error,
  unicode_error, overflow_error, of_dict, reviewer_error, Dict, Exn, Value, lookup, dict, entries,
  Fields,
}
use frankensteinz_hermes.Base.{
  sym, is_empty_text, all, is_empty, ok-injective, not, leb, ℕ, List, Result, String, ap, ◌∙◌, true,
  some, err, ok, refl, ◌≡◌, ◌&&◌, >>=-eq-ok, guard->>-eq-ok,
}

-- The adapter of the model has ended well, and has printed an object with the review.
pub record IsAnswer (p : Process) (review : Value) : Type 0 where
  pub process : Completed
  pub ended_well : p ≡ completed process
  pub zero : is_zero process.returncode ≡ true
  pub raw : Fields
  pub printed : process.parsed ≡ ok (dict raw)
  pub holds : lookup "review" (entries raw) ≡ some review

ended-completed :
    (cmd : List String) (p : Process) (c : Completed) → ended cmd p ≡ ok c → p ≡ completed c
ended-completed cmd timed_out c h = cc
ended-completed cmd missing c h = cc
ended-completed cmd (completed d) c h = ap completed (ok-injective refl h)

run-completed :
    (cmd : List String) (max : ℕ) (p : Process) (c : Completed)
    → run cmd max p ≡ ok c
    → p ≡ completed c
unfolding run
run-completed cmd max p c h =
    let (named, h₁) =
      guard->>-eq-ok (not (is_empty cmd) && all (λ s. not (is_empty_text s)) cmd) _ _ h in
    let (d, e, h₂) = >>=-eq-ok (ended cmd p) _ h₁ in
    let (few, h₃) = guard->>-eq-ok (leb d.printed max) _ _ h₂ in ended-completed cmd p c (e ∙ h₃)

parse_or-ok : (e : Exn) (r : Result Exn Value) (v : Value) → parse_or e r ≡ ok v → r ≡ ok v
parse_or-ok e (ok w) v h = h
parse_or-ok e (err (gate_error m)) v h = cc
parse_or-ok e (err (worker_error m)) v h = cc
parse_or-ok e (err (reviewer_error m)) v h = cc
parse_or-ok e (err (integrity_error m)) v h = cc
parse_or-ok e (err (qa_error m)) v h = cc
parse_or-ok e (err (qa_integrity_error m)) v h = cc
parse_or-ok e (err (value_error m)) v h = cc
parse_or-ok e (err (runtime_error m)) v h = cc
parse_or-ok e (err (os_error m)) v h = cc
parse_or-ok e (err type_error) v h = cc
parse_or-ok e (err attribute_error) v h = cc
parse_or-ok e (err key_error) v h = cc
parse_or-ok e (err json_decode_error) v h = cc
parse_or-ok e (err unicode_error) v h = cc
parse_or-ok e (err overflow_error) v h = cc

-- The value and its review are dicts.
review_of-ok :
    (v : Value) (dicts : Dict × Dict)
    → review_of v ≡ ok dicts
    → (raw : Fields) × (v ≡ dict raw)
      × (lookup "review" (entries raw) ≡ some (dict (of_dict dicts.1)))
unfolding review_of
review_of-ok v dicts h =
    let (envelope, e, h₁) = >>=-eq-ok (require_dict (some v) _) _ h in
    let (review, r, h₂) = >>=-eq-ok (require_dict (lookup "review" envelope) _) _ h₁ in
    let (raw, given, whole) = require_dict-ok (some v) _ envelope e in
    let (fs, found, same) = require_dict-ok (lookup "review" envelope) _ review r in
    let whole_pair = ok-injective refl h₂ in
    (
      raw,
      cc given,
      ap (lookup "review") (sym whole)
          ∙ found
          ∙ ap (λ fs. some (dict fs))
              (sym (of_dict-entries fs) ∙ ap of_dict (sym same ∙ ap (λ x. x.1) whole_pair)),
    )

-- A review that is returned comes from the answer of the model, and was validated against the changed
-- paths, within the budget of findings.
pub call_model-validated :
    (m : ReviewBudget) (prompt_bytes : ℕ) (changed : List String) (elapsed wall : ℕ) (p : Process)
    (review : Review)
    → call_model m prompt_bytes changed elapsed wall p ≡ ok review
    → (v : Value) × IsAnswer p v × (validate_model_response m.max_findings changed v ≡ ok review)
unfolding call_model
call_model-validated m prompt_bytes changed elapsed wall p review h =
    let (small, h₁) = guard->>-eq-ok (leb prompt_bytes m.max_prompt_bytes) _ _ h in
    let (left, e₂, h₂) = >>=-eq-ok (remaining elapsed wall) _ h₁ in
    let (c, ran, h₃) = >>=-eq-ok (run m.adapter m.max_response_bytes p) _ h₂ in
    let (zero, h₄) = guard->>-eq-ok (is_zero c.returncode) _ _ h₃ in
    let (value, parsed, h₅) = >>=-eq-ok (parse_or _ c.parsed) _ h₄ in
    let (dicts, both, h₆) = >>=-eq-ok (review_of value) _ h₅ in
    let (few, h₇) =
      guard->>-eq-ok
        (not (
          exceeds m.max_output_tokens
            (int_of (lookup "completion_tokens" (usage_of (lookup "usage" dicts.0))))))
        _ _ h₆ in
    let (raw, given, holds) = review_of-ok value dicts both in
    (
      dict (of_dict dicts.1),
      record {
        process = c;
        ended_well = run-completed m.adapter m.max_response_bytes p c ran;
        zero = zero;
        raw = raw;
        printed = parse_or-ok _ c.parsed value parsed ∙ ap ok given;
        holds = holds;
      },
      h₇,
    )
