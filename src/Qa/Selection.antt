-- ===== src/Qa/Selection.antt =====
-- The choice of the profiles to run in scripts/engineering_qa/coordinator_core.py:
-- `validate_model_selection`, and the loops of `main` over the baseline, the required and the
-- suggested profiles.
pub mod Distinct
pub mod Accepted
pub mod Planned
use frankensteinz_hermes.Base.{
  text_length, leb, is_subset, contains, ◌>>◌, ℕ, Bool, List, Result, String, guard, length, err,
  ok, [], ◌>>=◌, if◌then◌else◌, ◌&&◌, ◌++◌, ◌∷◌,
}
use frankensteinz_hermes.Python.{
  qa_error, qa_integrity_error, keys, entries, lookup, Value, Exn, Dict, dict,
}
use frankensteinz_hermes.Checks.{is_safe_id, has_ink}
use frankensteinz_hermes.Reviewer.Findings.{is_bounded, items_up_to, text_or}
use frankensteinz_hermes.Gate.Policy.{has_schema_version}

-- `if x not in xs: xs.append(x)`
unfoldable pub add_new : List String → String → List String
add_new xs x = if contains xs x then xs else xs ++ (x ∷ [])

-- The loop over `ys`.
unfoldable pub add_all : List String → List String → List String
unfolding add_new
add_all xs [] = xs
add_all xs (y ∷ ys) = add_all (add_new xs y) ys

pub record Suggestion : Type 0 where
  pub id : String
  pub hypothesis : String

-- `hypotheses` has one entry for each accepted profile.
pub record Selection : Type 0 where
  pub accepted : List String
  pub hypotheses : List (String × String)
  pub rejected : List String

abbrev pub suggestion_keys : List String
suggestion_keys = "id" ∷ "hypothesis" ∷ []

-- `set(item) == {"id", "hypothesis"}`
abbrev pub has_shape : Dict → Bool
has_shape d = is_subset (keys d) suggestion_keys && is_subset suggestion_keys (keys d)

abbrev pub is_hypothesis : String → Bool
is_hypothesis s = has_ink s && leb (text_length s) 2000

unfoldable pub suggestion : Value → Result Exn Suggestion
unfolding text_or lookup
suggestion (dict fs) = do
  guard (has_shape (entries fs)) (qa_error "qa_model_profile_shape_invalid")
  id ←
      text_or (is_safe_id 64) (qa_error "qa_model_profile_value_invalid") (lookup "id" (entries fs))
  hypothesis ←
      text_or is_hypothesis (qa_error "qa_model_profile_value_invalid")
        (lookup "hypothesis" (entries fs))
  ok (record { id = id; hypothesis = hypothesis })
suggestion _ = err (qa_error "qa_model_profile_shape_invalid")

-- The body of the loop, for a suggestion of the right form.
unfoldable pub consider : List String → Selection → Suggestion → Selection
consider allowed sel s =
    if contains allowed s.id
    then (if contains sel.accepted s.id then sel else record {
      accepted = sel.accepted ++ (s.id ∷ []);
      hypotheses = sel.hypotheses ++ ((s.id, s.hypothesis) ∷ []);
      rejected = sel.rejected;
    })
    else record {
      accepted = sel.accepted;
      hypotheses = sel.hypotheses;
      rejected = sel.rejected ++ (s.id ∷ []);
    }

unfoldable pub consider_all : List String → Selection → List Value → Result Exn Selection
unfolding consider suggestion
consider_all allowed sel [] = ok sel
consider_all allowed sel (v ∷ vs) = do
  s ← suggestion v
  consider_all allowed (consider allowed sel s) vs

abbrev pub nothing_selected : Selection
nothing_selected = record { accepted = []; hypotheses = []; rejected = [] }

-- `max_suggestions` and `allowed` are the entries of the config, checked by `validate_config`; the
-- summary is returned with the selection.
unfoldable pub validate_model_selection : ℕ → List String → Value → Result Exn (Selection × String)
unfolding text_or items_up_to consider_all lookup
validate_model_selection max_suggestions allowed (dict fs) = do
  guard (has_schema_version (entries fs)) (qa_error "qa_model_schema_invalid")
  summary ← text_or is_bounded (qa_error "qa_model_summary_invalid") (lookup "summary" (entries fs))
  items ←
      items_up_to max_suggestions (qa_error "qa_model_profiles_invalid")
        (lookup "profiles" (entries fs))
  sel ← consider_all allowed nothing_selected items
  ok (sel, summary)
validate_model_selection max_suggestions allowed _ = err (qa_error "qa_model_schema_invalid")

-- The selection of `main`. `ask` is the call of the model with the profiles selected so far; where
-- the model is disabled it suggests nothing.
unfoldable pub plan :
    List String
    → List String
    → List String
    → (List String → Result Exn (List String))
    → ℕ
    → Result Exn (List String)
unfolding add_all
plan allowed baseline required ask max_profiles =
    let selected = add_all [] (baseline ++ required) in
    do
      guard (is_subset required allowed) (qa_integrity_error "required_profile_not_allowed")
      proposed ← ask selected
      guard (leb (length (add_all selected proposed)) max_profiles)
          (qa_error "qa_profile_budget_exhausted")
      ok (add_all selected proposed)
