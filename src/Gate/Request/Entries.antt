-- ===== src/Gate/Request/Entries.antt =====
-- The entries that `required_text` and `required_bool` of scripts/action_gate/action_gate.py have read.
use frankensteinz_hermes.Gate.Request.{
  required_texts, required_flags, Texts, Flags, text_entry, bool_entry,
}
use frankensteinz_hermes.Base.{
  subst, is_empty_text, >>=-eq-ok, strip, Bool, Option, String, arith, false, none, some, ok, ◌≡◌,
}
use frankensteinz_hermes.Python.{lookup, Value, Dict, list, str, dict, float, int, bool, null}

pub text_entry-ok :
    (key : String) (o : Option Value) (s : String)
    → text_entry key o ≡ ok s
    → (o ≡ some (str s)) × (is_empty_text (strip s) ≡ false)
text_entry-ok key (some (str t)) s h = ground arith
text_entry-ok key none s h = cc
text_entry-ok key (some null) s h = cc
text_entry-ok key (some (bool b)) s h = cc
text_entry-ok key (some (int z)) s h = cc
text_entry-ok key (some (float x)) s h = cc
text_entry-ok key (some (list xs)) s h = cc
text_entry-ok key (some (dict fs)) s h = cc

bool_entry-ok :
    (key : String) (o : Option Value) (b : Bool) → bool_entry key o ≡ ok b → o ≡ some (bool b)
bool_entry-ok key (some (bool t)) b h = ground arith
bool_entry-ok key none b h = cc
bool_entry-ok key (some null) b h = cc
bool_entry-ok key (some (str s)) b h = cc
bool_entry-ok key (some (int z)) b h = cc
bool_entry-ok key (some (float x)) b h = cc
bool_entry-ok key (some (list xs)) b h = cc
bool_entry-ok key (some (dict fs)) b h = cc

pub record TextsFound (d : Dict) (t : Texts) : Type 0 where
  pub request_id : text_entry "request_id" (lookup "request_id" d) ≡ ok t.request_id
  pub actor : text_entry "actor" (lookup "actor" d) ≡ ok t.actor
  pub action_type : text_entry "action_type" (lookup "action_type" d) ≡ ok t.action_type
  pub risk_level : text_entry "risk_level" (lookup "risk_level" d) ≡ ok t.risk_level
  pub environment : text_entry "environment" (lookup "environment" d) ≡ ok t.environment
  pub data_classification :
      text_entry "data_classification" (lookup "data_classification" d) ≡ ok t.data_classification
  pub target : text_entry "target" (lookup "target" d) ≡ ok t.target

pub record FlagsFound (d : Dict) (f : Flags) : Type 0 where
  pub side_effecting : lookup "side_effecting" d ≡ some (bool f.side_effecting)
  pub reversible : lookup "reversible" d ≡ some (bool f.reversible)
  pub external_side_effect : lookup "external_side_effect" d ≡ some (bool f.external_side_effect)
  pub uses_llm : lookup "uses_llm" d ≡ some (bool f.uses_llm)

pub required_texts-found : (d : Dict) (t : Texts) → required_texts d ≡ ok t → TextsFound d t
unfolding required_texts
required_texts-found d t h =
    let (x0, x0_ok, h0) = >>=-eq-ok (text_entry "request_id" (lookup "request_id" d)) _ h in
    let (x1, x1_ok, h1) = >>=-eq-ok (text_entry "actor" (lookup "actor" d)) _ h0 in
    let (x2, x2_ok, h2) = >>=-eq-ok (text_entry "action_type" (lookup "action_type" d)) _ h1 in
    let (x3, x3_ok, h3) = >>=-eq-ok (text_entry "risk_level" (lookup "risk_level" d)) _ h2 in
    let (x4, x4_ok, h4) = >>=-eq-ok (text_entry "environment" (lookup "environment" d)) _ h3 in
    let (x5, x5_ok, h5) =
      >>=-eq-ok (text_entry "data_classification" (lookup "data_classification" d)) _ h4 in
    let (x6, x6_ok, h6) = >>=-eq-ok (text_entry "target" (lookup "target" d)) _ h5 in
    let e : ◌≡◌ {A = Texts}
        (record {
          request_id = x0;
          actor = x1;
          action_type = x2;
          risk_level = x3;
          environment = x4;
          data_classification = x5;
          target = x6;
        })
        t =
      cc h6 in
    subst (TextsFound d) e (record {
      request_id = x0_ok;
      actor = x1_ok;
      action_type = x2_ok;
      risk_level = x3_ok;
      environment = x4_ok;
      data_classification = x5_ok;
      target = x6_ok;
    })

pub required_flags-found : (d : Dict) (f : Flags) → required_flags d ≡ ok f → FlagsFound d f
unfolding required_flags
required_flags-found d f h =
    let (x0, x0_ok, h0) = >>=-eq-ok (bool_entry "side_effecting" (lookup "side_effecting" d)) _ h in
    let (x1, x1_ok, h1) = >>=-eq-ok (bool_entry "reversible" (lookup "reversible" d)) _ h0 in
    let (x2, x2_ok, h2) =
      >>=-eq-ok (bool_entry "external_side_effect" (lookup "external_side_effect" d)) _ h1 in
    let (x3, x3_ok, h3) = >>=-eq-ok (bool_entry "uses_llm" (lookup "uses_llm" d)) _ h2 in
    let e : ◌≡◌ {A = Flags}
        (record { side_effecting = x0; reversible = x1; external_side_effect = x2; uses_llm = x3 })
        f =
      cc h3 in
    subst (FlagsFound d) e (record {
      side_effecting = bool_entry-ok "side_effecting" _ _ x0_ok;
      reversible = bool_entry-ok "reversible" _ _ x1_ok;
      external_side_effect = bool_entry-ok "external_side_effect" _ _ x2_ok;
      uses_llm = bool_entry-ok "uses_llm" _ _ x3_ok;
    })
