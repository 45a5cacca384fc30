-- ===== src/Gate/Request/Normal.antt =====
-- What `validate_request` of scripts/action_gate/action_gate.py guarantees of a request.
use frankensteinz_hermes.Gate.Policy.{risk_levels, environments, classifications}
use frankensteinz_hermes.Gate.Request.{
  to_request, required_texts, required_flags, Texts, Flags, validate_request, Request, text_entry,
  metadata_entry, validate_object,
}
use frankensteinz_hermes.Base.{
  sym, subst, all-contains, guard->>-eq-ok, eq_iff, is_empty_text, contains, >>=-eq-ok, strip, all,
  List, String, false, true, some, ok, refl, ◌≡◌, ◌==◌,
}
use frankensteinz_hermes.Python.{
  entries, Fields, lookup, Value, Dict, list, str, dict, float, int, bool, null,
}
use frankensteinz_hermes.Gate.Request.Entries.{
  text_entry-ok, TextsFound, FlagsFound, required_texts-found, required_flags-found,
}

-- The entry is a text that is not blank, and the field is that text, stripped.
pub record HasText (key : String) (d : Dict) (raw field : String) : Type 0 where
  pub found : lookup key d ≡ some (str raw)
  pub not_blank : is_empty_text (strip raw) ≡ false
  pub stripped : field ≡ strip raw

-- A request that passes, and the dict that it comes from.
pub record IsValid (d : Dict) (r : Request) : Type 0 where
  pub request_id : (raw : String) × HasText "request_id" d raw r.request_id
  pub actor : (raw : String) × HasText "actor" d raw r.actor
  pub action_type : (raw : String) × HasText "action_type" d raw r.action_type
  pub target : (raw : String) × HasText "target" d raw r.target
  pub risk_level : HasText "risk_level" d r.risk_level r.risk_level
  pub environment : HasText "environment" d r.environment r.environment
  pub data_classification :
      HasText "data_classification" d r.data_classification r.data_classification
  pub known_risk : contains risk_levels r.risk_level ≡ true
  pub known_environment : contains environments r.environment ≡ true
  pub known_classification : contains classifications r.data_classification ≡ true
  pub side_effecting : lookup "side_effecting" d ≡ some (bool r.side_effecting)
  pub reversible : lookup "reversible" d ≡ some (bool r.reversible)
  pub external_side_effect : lookup "external_side_effect" d ≡ some (bool r.external_side_effect)
  pub uses_llm : lookup "uses_llm" d ≡ some (bool r.uses_llm)

-- A text of one of the fixed sets has no white space at its ends.
strip_known :
    (names : List String) (s : String)
    → all (λ n. strip n == n) names ≡ true
    → contains names s ≡ true
    → strip s ≡ s
strip_known names s fixed h = (eq_iff _ _).0 (all-contains (λ n. strip n == n) names s fixed h)

risk_levels_fixed : all (λ n. strip n == n) risk_levels ≡ true
unfolding strip
risk_levels_fixed = refl

environments_fixed : all (λ n. strip n == n) environments ≡ true
unfolding strip
environments_fixed = refl

classifications_fixed : all (λ n. strip n == n) classifications ≡ true
unfolding strip
classifications_fixed = refl

text_HasText :
    (key : String) (d : Dict) (raw : String)
    → text_entry key (lookup key d) ≡ ok raw
    → (t : String) × HasText key d t (strip raw)
text_HasText key d raw h =
    let (found, not_blank) = text_entry-ok key (lookup key d) raw h in
    (raw, record { found = found; not_blank = not_blank; stripped = refl })

known_HasText :
    (key : String) (d : Dict) (raw : String) (names : List String)
    → text_entry key (lookup key d) ≡ ok raw
    → all (λ n. strip n == n) names ≡ true
    → contains names raw ≡ true
    → HasText key d (strip raw) (strip raw) × (contains names (strip raw) ≡ true)
known_HasText key d raw names h fixed known =
    let (found, not_blank) = text_entry-ok key (lookup key d) raw h in
    let e = strip_known names raw fixed known in
    rw e (record { found = found; not_blank = not_blank; stripped = sym e }, known)

to_request-IsValid :
    (d : Dict) (t : Texts) (f : Flags) (m : Value)
    → TextsFound d t
    → FlagsFound d f
    → contains risk_levels t.risk_level ≡ true
    → contains environments t.environment ≡ true
    → contains classifications t.data_classification ≡ true
    → IsValid d (to_request d t f m)
unfolding to_request
to_request-IsValid d t f m texts flags risk_known env_known class_known =
    let (risk_text, risk_in) =
      known_HasText "risk_level" d t.risk_level risk_levels texts.risk_level risk_levels_fixed
        risk_known in
    let (env_text, env_in) =
      known_HasText "environment" d t.environment environments texts.environment environments_fixed
        env_known in
    let (class_text, class_in) =
      known_HasText "data_classification" d t.data_classification classifications
        texts.data_classification classifications_fixed class_known in
    record {
      request_id = text_HasText "request_id" d t.request_id texts.request_id;
      actor = text_HasText "actor" d t.actor texts.actor;
      action_type = text_HasText "action_type" d t.action_type texts.action_type;
      target = text_HasText "target" d t.target texts.target;
      risk_level = risk_text;
      environment = env_text;
      data_classification = class_text;
      known_risk = risk_in;
      known_environment = env_in;
      known_classification = class_in;
      side_effecting = flags.side_effecting;
      reversible = flags.reversible;
      external_side_effect = flags.external_side_effect;
      uses_llm = flags.uses_llm;
    }

validate_object-IsValid : (d : Dict) (r : Request) → validate_object d ≡ ok r → IsValid d r
unfolding validate_object
validate_object-IsValid d r h =
    let (t, t_ok, h₁) = >>=-eq-ok (required_texts d) _ h in
    let (risk_known, h₂) = guard->>-eq-ok (contains risk_levels t.risk_level) _ _ h₁ in
    let (env_known, h₃) = guard->>-eq-ok (contains environments t.environment) _ _ h₂ in
    let (class_known, h₄) =
      guard->>-eq-ok (contains classifications t.data_classification) _ _ h₃ in
    let (f, f_ok, h₅) = >>=-eq-ok (required_flags d) _ h₄ in
    let (m, m_ok, h₆) = >>=-eq-ok (metadata_entry (lookup "metadata" d)) _ h₅ in
    let e : to_request d t f m ≡ r = cc h₆ in
    subst (IsValid d) e (
      to_request-IsValid d t f m (required_texts-found d t t_ok) (required_flags-found d f f_ok)
        risk_known env_known class_known)

-- A request that passes is an object whose entries have the types, the values and the stripped
-- texts of the request's fields.
pub validate_request-IsValid :
    (v : Value) (r : Request)
    → validate_request v ≡ ok r
    → (fs : Fields) × (v ≡ dict fs) × IsValid (entries fs) r
unfolding validate_request
validate_request-IsValid (dict fs) r h = (fs, refl, validate_object-IsValid (entries fs) r h)
validate_request-IsValid null r h = cc
validate_request-IsValid (bool b) r h = cc
validate_request-IsValid (int z) r h = cc
validate_request-IsValid (float x) r h = cc
validate_request-IsValid (str s) r h = cc
validate_request-IsValid (list xs) r h = cc
