-- ===== src/Gate/Client/Exits.antt =====
-- The exit codes of scripts/action_gate/client.py.
use frankensteinz_hermes.Gate.Client.{
  decision_code, client, exit_code, collect, finish, gate_response,
}
use frankensteinz_hermes.Gate.Server.{Bytes, first_line}
use frankensteinz_hermes.Base.{
  >>=-eq-ok, eq_iff, ◌≢◌, ℕ, List, Result, Option, ap, arith, none, some, err, ok, refl, [], ◌≡◌,
}
use frankensteinz_hermes.Python.{
  entries, lookup, Fields, Value, Exn, list, str, dict, float, int, bool, null,
}

decision_code-zero : (o : Option Value) → decision_code o ≡ some 0 → o ≡ some (str "allow")
decision_code-zero (some (str s)) h = ground (arith, eq_iff s "allow")
decision_code-zero none h = ground arith
decision_code-zero (some null) h = ground arith
decision_code-zero (some (bool b)) h = ground arith
decision_code-zero (some (int z)) h = ground arith
decision_code-zero (some (float x)) h = ground arith
decision_code-zero (some (list xs)) h = cc
decision_code-zero (some (dict fs)) h = cc

exit_code-zero :
    (v : Value)
    → exit_code v ≡ some 0
    → (fs : Fields) × (v ≡ dict fs) × (lookup "decision" (entries fs) ≡ some (str "allow"))
unfolding exit_code
exit_code-zero (dict fs) h = (fs, refl, decision_code-zero (lookup "decision" (entries fs)) h)
exit_code-zero null h = cc
exit_code-zero (bool b) h = cc
exit_code-zero (int z) h = cc
exit_code-zero (float x) h = cc
exit_code-zero (str s) h = cc
exit_code-zero (list xs) h = cc

not_zero : ◌≢◌ {A = Option ℕ} (some 30) (some 0)
not_zero = ground arith

finish-zero :
    (r : Result Exn Value)
    → (finish r).code ≡ some 0
    → (fs : Fields) × (r ≡ ok (dict fs))
      × ((finish r).printed ≡ dict fs)
      × (lookup "decision" (entries fs) ≡ some (str "allow"))
unfolding finish
finish-zero (err e) h = absurd (not_zero h)
finish-zero (ok v) h =
    let (fs, is_dict, allows) = exit_code-zero v h in (fs, ap ok is_dict, is_dict, allows)

-- The client exits with 0 only where the gate was reached and its whole answer, which is printed,
-- is an object that says "allow". Bad input, a gate that is missing or breaks off, and an answer
-- that does not parse never give 0.
pub client-zero :
    (stdin : Result Exn Value) (transport : Value → Result Exn (List Bytes))
    (loads : Bytes → Result Exn Value)
    → (client stdin transport loads).code ≡ some 0
    → (request : Value) × (chunks : List Bytes) × (received : Bytes) × (fs : Fields) × (stdin
        ≡ ok request)
      × (transport request ≡ ok chunks)
      × (collect chunks 0 [] ≡ ok received)
      × (loads (first_line received) ≡ ok (dict fs))
      × ((client stdin transport loads).printed ≡ dict fs)
      × (lookup "decision" (entries fs) ≡ some (str "allow"))
unfolding client gate_response
client-zero (err e) transport loads h = absurd (not_zero h)
client-zero (ok request) transport loads h =
    let (fs, answered, printed, allows) = finish-zero (gate_response transport loads request) h in
    let (chunks, sent, h₁) = >>=-eq-ok (transport request) _ answered in
    let (received, whole, h₂) = >>=-eq-ok (collect chunks 0 []) _ h₁ in
    (request, chunks, received, fs, refl, sent, whole, h₂, printed, allows)
