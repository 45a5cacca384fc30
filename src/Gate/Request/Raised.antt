-- ===== src/Gate/Request/Raised.antt =====
-- What `validate_request` of scripts/action_gate/action_gate.py raises.
use frankensteinz_hermes.Gate.Request.{
  required_texts, required_flags, validate_request, text_entry, bool_entry, metadata_entry,
  validate_object,
}
use frankensteinz_hermes.Base.{
  Bool-cases, Result, guard, inr, inl, err, ◌>>=◌, is_empty_text, strip, Bool, Option, String,
  false, true, none, some, ok, ◌≡◌,
}
use frankensteinz_hermes.Python.{
  entries, gate_error, Exn, Value, Dict, list, str, dict, float, int, bool, null,
}

-- The step raises nothing but `GateError`.
data RaisesGateError {A : Type 0} : Result Exn A → Type 0 where
  returns : (a : A) → RaisesGateError (ok a)
  raises : (m : String) → RaisesGateError (err (gate_error m))

RaisesGateError-bind :
    {A B : Type 0} {m : Result Exn A} {f : A → Result Exn B}
    → RaisesGateError m
    → ((a : A) → RaisesGateError (f a))
    → RaisesGateError (m >>= f)
RaisesGateError-bind (returns a) k = k a
RaisesGateError-bind (raises m) k = raises m

RaisesGateError-guard : (b : Bool) (m : String) → RaisesGateError (guard b (gate_error m))
RaisesGateError-guard true m = returns tt
RaisesGateError-guard false m = raises m

RaisesGateError-text : (key : String) (o : Option Value) → RaisesGateError (text_entry key o)
RaisesGateError-text key (some (str s)) = elim (Bool-cases (is_empty_text (strip s))) [
  | inl e ↦ rw e (raises _)
  | inr e ↦ rw e (returns s)
]
RaisesGateError-text key none = raises _
RaisesGateError-text key (some null) = raises _
RaisesGateError-text key (some (bool b)) = raises _
RaisesGateError-text key (some (int z)) = raises _
RaisesGateError-text key (some (float x)) = raises _
RaisesGateError-text key (some (list xs)) = raises _
RaisesGateError-text key (some (dict fs)) = raises _

RaisesGateError-bool : (key : String) (o : Option Value) → RaisesGateError (bool_entry key o)
RaisesGateError-bool key (some (bool b)) = returns b
RaisesGateError-bool key none = raises _
RaisesGateError-bool key (some null) = raises _
RaisesGateError-bool key (some (str s)) = raises _
RaisesGateError-bool key (some (int z)) = raises _
RaisesGateError-bool key (some (float x)) = raises _
RaisesGateError-bool key (some (list xs)) = raises _
RaisesGateError-bool key (some (dict fs)) = raises _

RaisesGateError-metadata : (o : Option Value) → RaisesGateError (metadata_entry o)
RaisesGateError-metadata none = returns _
RaisesGateError-metadata (some (dict fs)) = returns _
RaisesGateError-metadata (some null) = raises _
RaisesGateError-metadata (some (bool b)) = raises _
RaisesGateError-metadata (some (str s)) = raises _
RaisesGateError-metadata (some (int z)) = raises _
RaisesGateError-metadata (some (float x)) = raises _
RaisesGateError-metadata (some (list xs)) = raises _

ruleset gate_error_rules = (
  RaisesGateError-bind, RaisesGateError-guard, RaisesGateError-text, RaisesGateError-bool,
  RaisesGateError-metadata, returns, raises,
)

required_texts-raises : (d : Dict) → RaisesGateError (required_texts d)
unfolding required_texts
required_texts-raises d = search gate_error_rules depth 20

required_flags-raises : (d : Dict) → RaisesGateError (required_flags d)
unfolding required_flags
required_flags-raises d = search gate_error_rules depth 20

validate_object-raises : (d : Dict) → RaisesGateError (validate_object d)
unfolding validate_object
validate_object-raises d =
    search (gate_error_rules, required_texts-raises, required_flags-raises) depth 20

validate_request-raises : (v : Value) → RaisesGateError (validate_request v)
unfolding validate_request
validate_request-raises (dict fs) = validate_object-raises (entries fs)
validate_request-raises null = raises _
validate_request-raises (bool b) = raises _
validate_request-raises (int z) = raises _
validate_request-raises (float x) = raises _
validate_request-raises (str s) = raises _
validate_request-raises (list xs) = raises _

gate_error-inversion :
    {A : Type 0} {m : Result Exn A} {e : Exn}
    → RaisesGateError m
    → m ≡ err e
    → (text : String) × (e ≡ gate_error text)
gate_error-inversion (returns a) h = cc
gate_error-inversion (raises text) h = (text, cc)

-- Whatever is wrong with a request, validation raises `GateError`.
pub validate_request-err :
    (v : Value) (e : Exn) → validate_request v ≡ err e → (text : String) × (e ≡ gate_error text)
validate_request-err v e h = gate_error-inversion (validate_request-raises v) h
