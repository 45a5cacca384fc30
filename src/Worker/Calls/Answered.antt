-- ===== src/Worker/Calls/Answered.antt =====
-- What `call_gate` and `call_model` of scripts/engineering_worker/worker.py guarantee of an answer.
use frankensteinz_hermes.Worker.Calls.{
  missing, usage_of, int_of, exceeds, model_answer, is_zero, timed_out, completed, parse_or,
  remaining, is_code, expected_code, Usage, Completed, Process, ModelBudget, run_command,
  gate_answer, call_model, call_gate,
}
use frankensteinz_hermes.Base.{
  Option, sym, ◌∙◌, leb→le, ok-injective, leb, is_empty_text, all, is_empty, not, guard->>-eq-ok,
  >>=-eq-ok, suc, contains, ℕ, Bool, List, String, subst, ap, false, true, some, ok, refl,
  if◌then◌else◌, ◌≤◌, ◌+◌, ◌≡◌, ◌==◌, ◌&&◌,
}
use frankensteinz_hermes.Python.{
  worker_error, entries, lookup, Value, Dict, ℤ, Fields, list, str, dict, float, int, bool, null,
}
use frankensteinz_hermes.Checks.Envelope.{check_uuid, Strings}
use frankensteinz_hermes.Gate.Client.{exit_code}
use frankensteinz_hermes.Ledger.{decisions}
use frankensteinz_hermes.Reviewer.Findings.{text_or}
use frankensteinz_hermes.Checks.{get_or, is_hex, is_text}
use frankensteinz_hermes.Reviewer.Findings.Entries.{text_or-ok}

-- A response of the gate, and the code with which its client has ended.
pub record IsGateAnswer (strings : Strings) (code : ℤ) (d : Dict) : Type 0 where
  pub decision : String
  pub found : lookup "decision" d ≡ some (str decision)
  pub known : contains decisions decision ≡ true
  pub agrees : is_code code (expected_code decision) ≡ true
  pub request_digest : is_text (is_hex 64) (lookup "request_sha256" d) ≡ true
  pub policy_digest : is_text (is_hex 64) (lookup "policy_sha256" d) ≡ true
  pub event : strings.uuid (get_or null (lookup "event_id" d)) ≡ true

gate_answer-IsGateAnswer :
    (strings : Strings) (code : ℤ) (v : Value) (d : Dict)
    → gate_answer
        (text_or (contains decisions) (worker_error "gate_decision_invalid"))
        worker_error
        strings
        code
        v
      ≡ ok d
    → IsGateAnswer strings code d
unfolding gate_answer check_uuid
gate_answer-IsGateAnswer strings code (dict fs) d h =
    let e = entries fs in
    let (decision, is_decision, h₁) =
      >>=-eq-ok (text_or (contains decisions) _ (lookup "decision" e)) _ h in
    let (rd, h₂) = guard->>-eq-ok (is_text (is_hex 64) (lookup "request_sha256" e)) _ _ h₁ in
    let (pd, h₃) = guard->>-eq-ok (is_text (is_hex 64) (lookup "policy_sha256" e)) _ _ h₂ in
    let (event, h₄) = guard->>-eq-ok (strings.uuid (get_or null (lookup "event_id" e))) _ _ h₃ in
    let (agrees, h₅) = guard->>-eq-ok (is_code code (expected_code decision)) _ _ h₄ in
    let (known, found) =
      text_or-ok (contains decisions) _ (lookup "decision" e) decision is_decision in
    subst (IsGateAnswer strings code) (ok-injective refl h₅) (record {
      decision = decision;
      found = found;
      known = known;
      agrees = agrees;
      request_digest = rd;
      policy_digest = pd;
      event = event;
    })
gate_answer-IsGateAnswer strings code null d h = cc
gate_answer-IsGateAnswer strings code (bool b) d h = cc
gate_answer-IsGateAnswer strings code (int z) d h = cc
gate_answer-IsGateAnswer strings code (float x) d h = cc
gate_answer-IsGateAnswer strings code (str s) d h = cc
gate_answer-IsGateAnswer strings code (list xs) d h = cc

run_command-ok :
    (cmd : List String) (max : ℕ) (p : Process) (c : Completed)
    → run_command cmd max p ≡ ok c
    → (p ≡ completed c) × (c.printed ≤ max)
unfolding run_command
run_command-ok cmd max timed_out c h =
    let (named, h₁) =
      guard->>-eq-ok (not (is_empty cmd) && all (λ s. not (is_empty_text s)) cmd) _ _ h in
    cc h₁
run_command-ok cmd max missing c h =
    let (named, h₁) =
      guard->>-eq-ok (not (is_empty cmd) && all (λ s. not (is_empty_text s)) cmd) _ _ h in
    cc h₁
run_command-ok cmd max (completed d) c h =
    let (named, h₁) =
      guard->>-eq-ok (not (is_empty cmd) && all (λ s. not (is_empty_text s)) cmd) _ _ h in
    let (few, h₂) = guard->>-eq-ok (leb d.printed max) _ _ h₁ in
    let same : d ≡ c = ok-injective refl h₂ in
    (ap completed same, subst (λ (c : Completed). c.printed ≤ max) same (leb→le d.printed max few))

-- An answer of the gate is used only where its client has ended with the code of the decision, has
-- printed no more than 65536 bytes, and has given the two digests and the event that the ledger
-- records.
pub call_gate-IsGateAnswer :
    (strings : Strings) (cmd : List String) (elapsed wall : ℕ) (p : Process) (d : Dict)
    → call_gate strings cmd elapsed wall p ≡ ok d
    → (c : Completed) × (p ≡ completed c)
      × (c.printed ≤ 65536)
      × IsGateAnswer strings c.returncode d
unfolding call_gate
call_gate-IsGateAnswer strings cmd elapsed wall p d h =
    let (left, l, h₁) = >>=-eq-ok (remaining elapsed wall) _ h in
    let (c, ran, h₂) = >>=-eq-ok (run_command cmd 65536 p) _ h₁ in
    let (response, r, h₃) =
      >>=-eq-ok (parse_or (worker_error "gate_response_invalid") c.parsed) _ h₂ in
    let (same, few) = run_command-ok cmd 65536 p c ran in
    (c, same, few, gate_answer-IsGateAnswer strings c.returncode response d h₃)

-- The code that the gate's client ends with for a decision is the one that the worker expects.
pub exit_code-expected_code :
    (fs : Fields) (decision : String)
    → lookup "decision" (entries fs) ≡ some (str decision)
    → contains decisions decision ≡ true
    → exit_code (dict fs) ≡ some (expected_code decision)
unfolding exit_code
exit_code-expected_code fs decision found known =
    rw found (code_of (decision == "allow") (decision == "approval_required"))
  where
    code_of :
        (a b : Bool)
        → ◌≡◌ {A = Option ℕ}
            (if a then some 0 else if b then some 20 else some 30)
            (some (if a then 0 else if b then 20 else 30))
    code_of true b = refl
    code_of false true = refl
    code_of false false = refl

model_answer_bounds :
    (bytes : String → ℕ) (m : ModelBudget) (v : Value) (patch : String)
    → model_answer bytes m v ≡ ok patch
    → bytes patch ≤ m.max_response_bytes
unfolding model_answer
model_answer_bounds bytes m (dict fs) patch h =
    let d = entries fs in
    let (q, is_q, h₁) = >>=-eq-ok (text_or (λ s. true) _ (lookup "patch" d)) _ h in
    let (few, h₂) = guard->>-eq-ok (leb (bytes q) m.max_response_bytes) _ _ h₁ in
    let spent =
      exceeds m.max_output_tokens
        (int_of (lookup "completion_tokens" (usage_of (lookup "usage" d)))) in
    let (tokens, h₃) = guard->>-eq-ok (not spent) _ _ h₂ in
    subst (λ q. bytes q ≤ m.max_response_bytes) (ok-injective refl h₃)
      (leb→le (bytes q) m.max_response_bytes few)
model_answer_bounds bytes m null patch h = cc
model_answer_bounds bytes m (bool b) patch h = cc
model_answer_bounds bytes m (int z) patch h = cc
model_answer_bounds bytes m (float x) patch h = cc
model_answer_bounds bytes m (str s) patch h = cc
model_answer_bounds bytes m (list xs) patch h = cc

-- A patch is returned only within the budgets: the calls, the bytes of the prompt and the bytes of
-- the patch; and the usage counts this call and these bytes.
pub call_model_bounds :
    (bytes : String → ℕ) (m : ModelBudget) (prompt_bytes : ℕ) (usage : Usage) (elapsed wall : ℕ)
    (p : Process) (patch : String) (after : Usage)
    → call_model bytes m prompt_bytes usage elapsed wall p ≡ ok (patch, after)
    → (after.model_calls ≡ suc usage.model_calls)
      × (after.model_calls ≤ m.max_calls)
      × (prompt_bytes ≤ m.max_prompt_bytes)
      × (bytes patch ≤ m.max_response_bytes)
      × (after.model_prompt_bytes ≡ usage.model_prompt_bytes + prompt_bytes)
      × (after.model_response_bytes ≡ usage.model_response_bytes + bytes patch)
unfolding call_model
call_model_bounds bytes m prompt_bytes usage elapsed wall p patch after h =
    let (calls, h₁) = guard->>-eq-ok (leb (suc usage.model_calls) m.max_calls) _ _ h in
    let (prompt, h₂) = guard->>-eq-ok (leb prompt_bytes m.max_prompt_bytes) _ _ h₁ in
    let (left, l, h₃) = >>=-eq-ok (remaining elapsed wall) _ h₂ in
    let (c, ran, h₄) = >>=-eq-ok (run_command m.adapter m.max_response_bytes p) _ h₃ in
    let (zero, h₅) = guard->>-eq-ok (is_zero c.returncode) _ _ h₄ in
    let (v, parsed, h₆) = >>=-eq-ok (parse_or _ c.parsed) _ h₅ in
    let (q, answered, h₇) = >>=-eq-ok (model_answer bytes m v) _ h₆ in
    let few = model_answer_bounds bytes m v q answered in
    let pair = ok-injective refl h₇ in
    let same : q ≡ patch = ap (λ x. x.0) pair in
    let total : record {
      model_calls = suc usage.model_calls;
      model_prompt_bytes = usage.model_prompt_bytes + prompt_bytes;
      model_response_bytes = usage.model_response_bytes + bytes q;
    }
        ≡ after =
      ap (λ x. x.1) pair in
    (
      ap (λ (u : Usage). u.model_calls) (sym total),
      subst (λ (u : Usage). u.model_calls ≤ m.max_calls) total
          (leb→le (suc usage.model_calls) m.max_calls calls),
      leb→le prompt_bytes m.max_prompt_bytes prompt,
      subst (λ q. bytes q ≤ m.max_response_bytes) same few,
      ap (λ (u : Usage). u.model_prompt_bytes) (sym total),
      ap (λ (u : Usage). u.model_response_bytes) (sym total)
          ∙ ap (λ q. usage.model_response_bytes + bytes q) same,
    )
