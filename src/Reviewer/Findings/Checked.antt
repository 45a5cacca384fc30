-- ===== src/Reviewer/Findings/Checked.antt =====
-- What `validate_model_response` of scripts/engineering_reviewer/reviewer.py guarantees of a review.
use frankensteinz_hermes.Base.{
  suc, guard->>-eq-ok, ℕ, length, ap, sym, ◌∙◌, refl, [], ◌≤◌, ◌∷◌, ok-injective, Bool-cases,
  >>=-eq-ok, contains, List, Option, String, subst, inr, inl, true, none, some, err, ok, ◌>>=◌,
  if◌then◌else◌, ◌⊎◌, ◌≡◌,
}
use frankensteinz_hermes.Python.{
  elements, Items, Fields, lookup, reviewer_error, entries, Value, list, str, dict, float, int,
  bool, null,
}
use frankensteinz_hermes.Reviewer.Findings.{
  validate_model_response, items_up_to, Review, is_bounded, categories, severities, text_or,
  normalize, member_or, finding_path, finding_line, Finding,
}
use frankensteinz_hermes.Paths.Relative.Safe.{validate_rel_path-idempotent, IsSafe}
use frankensteinz_hermes.Checks.{in_range, get_or}
use frankensteinz_hermes.Paths.Relative.{validate_rel_path}
use frankensteinz_hermes.Paths.Allowed.{traverse}
use frankensteinz_hermes.Gate.Policy.{has_schema_version}
use frankensteinz_hermes.Reviewer.Findings.Entries.{text_or-ok, member_or-ok, items_up_to-ok}

-- A finding is about the whole change, or about a path that it changes.
abbrev pub IsOnChange : List String → Option String → Type 0
IsOnChange changed none = Unit
IsOnChange changed (some path) = (contains changed path ≡ true) × IsSafe path

-- The path of a finding is the one that the item names, in its normal form, where it names one.
abbrev pub IsNamedBy : Option Value → Option String → Type 0
IsNamedBy o none = (o ≡ none) ⊎ (o ≡ some null)
IsNamedBy o (some path) =
    (v : Value) × (o ≡ some v) × (validate_rel_path reviewer_error v ≡ ok path)

-- A finding has the entries of its item.
pub record IsFinding (changed : List String) (v : Value) (f : Finding) : Type 0 where
  pub item : Fields
  pub given : v ≡ dict item
  pub severity_given : lookup "severity" (entries item) ≡ some (str f.severity)
  pub category_given : lookup "category" (entries item) ≡ some (str f.category)
  pub rationale_given : lookup "rationale" (entries item) ≡ some (str f.rationale)
  pub remediation_given : lookup "remediation" (entries item) ≡ some (str f.remediation)
  pub path_given : IsNamedBy (lookup "path" (entries item)) f.path
  pub line_given : f.line ≡ get_or null (lookup "line" (entries item))
  pub severity : contains severities f.severity ≡ true
  pub category : contains categories f.category ≡ true
  pub rationale : is_bounded f.rationale ≡ true
  pub remediation : is_bounded f.remediation ≡ true
  pub path : IsOnChange changed f.path
  pub line : (f.line ≡ null) ⊎ (in_range 1 10000000 (some f.line) ≡ true)

abbrev IsPicked : List String → Option Value → Option String → Type 0
IsPicked changed given o = IsOnChange changed o × IsNamedBy given o

picked_path_lem :
    (changed : List String) (v : Value) (o : Option String)
    → (validate_rel_path reviewer_error v >>= λ path.
        if contains changed path
        then ok (some path)
        else err (reviewer_error "review_finding_path_not_changed"))
      ≡ ok o
    → IsPicked changed (some v) o
picked_path_lem changed v o h =
    let (path, e, h₁) = >>=-eq-ok (validate_rel_path reviewer_error v) _ h in
    let (safe, _) = validate_rel_path-idempotent reviewer_error v path e in
    elim (Bool-cases (contains changed path)) [
      | inl found ↦
          subst (IsPicked changed (some v)) {x = some path} (cc (h₁, found))
            ((found, safe), (v, refl, e))
      | inr missing ↦ cc
    ]

finding_path-ok :
    (changed : List String) (v : Option Value) (o : Option String)
    → finding_path changed v ≡ ok o
    → IsPicked changed v o
unfolding finding_path
finding_path-ok changed none o h = subst (IsPicked changed none) {x = none} (cc h) (tt, inl refl)
finding_path-ok changed (some null) o h =
    subst (IsPicked changed (some null)) {x = none} (cc h) (tt, inr refl)
finding_path-ok changed (some (bool b)) o h = picked_path_lem changed (bool b) o h
finding_path-ok changed (some (int z)) o h = picked_path_lem changed (int z) o h
finding_path-ok changed (some (float x)) o h = picked_path_lem changed (float x) o h
finding_path-ok changed (some (str s)) o h = picked_path_lem changed (str s) o h
finding_path-ok changed (some (list xs)) o h = picked_path_lem changed (list xs) o h
finding_path-ok changed (some (dict fs)) o h = picked_path_lem changed (dict fs) o h

abbrev IsLine : Value → Type 0
IsLine v = (v ≡ null) ⊎ (in_range 1 10000000 (some v) ≡ true)

picked_line_lem :
    (v w : Value)
    → (if in_range 1 10000000 (some v)
        then ok v
        else err (reviewer_error "review_finding_line_invalid"))
      ≡ ok w
    → IsLine w × (w ≡ v)
picked_line_lem v w h = elim (Bool-cases (in_range 1 10000000 (some v))) [
  | inl e ↦ subst (λ w. IsLine w × (w ≡ v)) {x = v} (cc (h, e)) (inr e, refl)
  | inr e ↦ cc
]

finding_line-ok :
    (o : Option Value) (w : Value) → finding_line o ≡ ok w → IsLine w × (w ≡ get_or null o)
unfolding finding_line
finding_line-ok none w h = (inl (cc h), cc h)
finding_line-ok (some null) w h = (inl (cc h), cc h)
finding_line-ok (some (bool b)) w h = picked_line_lem (bool b) w h
finding_line-ok (some (int z)) w h = picked_line_lem (int z) w h
finding_line-ok (some (float x)) w h = picked_line_lem (float x) w h
finding_line-ok (some (str s)) w h = picked_line_lem (str s) w h
finding_line-ok (some (list xs)) w h = picked_line_lem (list xs) w h
finding_line-ok (some (dict fs)) w h = picked_line_lem (dict fs) w h

normalize-IsFinding :
    (changed : List String) (v : Value) (f : Finding)
    → normalize changed v ≡ ok f
    → IsFinding changed v f
unfolding normalize
normalize-IsFinding changed (dict fs) f h =
    let d = entries fs in
    let (severity, s, h₁) = >>=-eq-ok (member_or severities _ (lookup "severity" d)) _ h in
    let (category, c, h₂) = >>=-eq-ok (member_or categories _ (lookup "category" d)) _ h₁ in
    let (rationale, r, h₃) = >>=-eq-ok (text_or is_bounded _ (lookup "rationale" d)) _ h₂ in
    let (remediation, m, h₄) = >>=-eq-ok (text_or is_bounded _ (lookup "remediation" d)) _ h₃ in
    let (path, p, h₅) = >>=-eq-ok (finding_path changed (lookup "path" d)) _ h₄ in
    let (line, l, h₆) = >>=-eq-ok (finding_line (lookup "line" d)) _ h₅ in
    let (known, sev) = member_or-ok severities _ (lookup "severity" d) severity s in
    let (sorted, cat) = member_or-ok categories _ (lookup "category" d) category c in
    let (why, rat) = text_or-ok is_bounded _ (lookup "rationale" d) rationale r in
    let (how, rem) = text_or-ok is_bounded _ (lookup "remediation" d) remediation m in
    let (on_change, named) = finding_path-ok changed (lookup "path" d) path p in
    let (in_file, at) = finding_line-ok (lookup "line" d) line l in
    subst (IsFinding changed (dict fs)) (ok-injective refl h₆) (record {
      item = fs;
      given = refl;
      severity_given = sev;
      category_given = cat;
      rationale_given = rat;
      remediation_given = rem;
      path_given = named;
      line_given = at;
      severity = known;
      category = sorted;
      rationale = why;
      remediation = how;
      path = on_change;
      line = in_file;
    })
normalize-IsFinding changed null f h = cc
normalize-IsFinding changed (bool b) f h = cc
normalize-IsFinding changed (int z) f h = cc
normalize-IsFinding changed (float x) f h = cc
normalize-IsFinding changed (str s) f h = cc
normalize-IsFinding changed (list xs) f h = cc

-- Each item is a finding, in order.
abbrev pub AreFindings : List String → List Value → List Finding → Type 0
AreFindings changed [] [] = Unit
AreFindings changed [] (f ∷ fs) = ⊥
AreFindings changed (v ∷ vs) [] = ⊥
AreFindings changed (v ∷ vs) (f ∷ fs) = IsFinding changed v f × AreFindings changed vs fs

traverse-AreFindings :
    (changed : List String) (vs : List Value) (fs : List Finding)
    → traverse (normalize changed) vs ≡ ok fs
    → AreFindings changed vs fs × (length fs ≡ length vs)
unfolding traverse
traverse-AreFindings changed [] fs h =
    subst (λ fs. AreFindings changed [] fs × (length fs ≡ 0)) (ok-injective refl h) (tt, refl)
traverse-AreFindings changed (v ∷ vs) fs h =
    let (f, e, h₁) = >>=-eq-ok (normalize changed v) _ h in
    let (rest, es, h₂) = >>=-eq-ok (traverse (normalize changed) vs) _ h₁ in
    let (good, count) = traverse-AreFindings changed vs rest es in
    subst (λ fs. AreFindings changed (v ∷ vs) fs × (length fs ≡ length (v ∷ vs)))
      (ok-injective refl h₂) ((normalize-IsFinding changed v f e, good), ap suc count)

pub record IsReview (max : ℕ) (changed : List String) (v : Value) (r : Review) : Type 0 where
  pub fields : Fields
  pub given : v ≡ dict fields
  pub summary_given : lookup "summary" (entries fields) ≡ some (str r.summary)
  pub summary : is_bounded r.summary ≡ true
  pub items : Items
  pub listed : lookup "findings" (entries fields) ≡ some (list items)
  pub count : length r.findings ≡ length (elements items)
  pub bounded : length r.findings ≤ max
  pub findings : AreFindings changed (elements items) r.findings

-- A response of the model that the reviewer accepts has a summary that is neither blank nor too
-- long, and no more findings than the config allows; each item of the response is one finding, in order
-- and with the entries of the item: of a known severity and category, with a rationale and a remediation that are neither blank nor too
-- long, on a safe path that the candidate changes where it names one, and on a line in range.
pub validate_model_response-IsReview :
    (max : ℕ) (changed : List String) (v : Value) (r : Review)
    → validate_model_response max changed v ≡ ok r
    → IsReview max changed v r
unfolding validate_model_response
validate_model_response-IsReview max changed (dict fs) r h =
    let (versioned, h₁) = guard->>-eq-ok (has_schema_version (entries fs)) _ _ h in
    let (summary, s, h₂) = >>=-eq-ok (text_or is_bounded _ (lookup "summary" (entries fs))) _ h₁ in
    let (vs, items, h₃) = >>=-eq-ok (items_up_to max _ (lookup "findings" (entries fs))) _ h₂ in
    let (findings, normal, h₄) = >>=-eq-ok (traverse (normalize changed) vs) _ h₃ in
    let (xs, found, same, few) = items_up_to-ok max _ (lookup "findings" (entries fs)) vs items in
    let (good, count) = traverse-AreFindings changed vs findings normal in
    let (kept, told) = text_or-ok is_bounded _ (lookup "summary" (entries fs)) summary s in
    subst (IsReview max changed (dict fs)) (ok-injective refl h₄) (record {
      fields = fs;
      given = refl;
      summary_given = told;
      summary = kept;
      items = xs;
      listed = found;
      count = count ∙ ap length same;
      bounded = subst (λ n. n ≤ max) (sym count) few;
      findings = subst (λ vs. AreFindings changed vs findings) same good;
    })
validate_model_response-IsReview max changed null r h = cc
validate_model_response-IsReview max changed (bool b) r h = cc
validate_model_response-IsReview max changed (int z) r h = cc
validate_model_response-IsReview max changed (float x) r h = cc
validate_model_response-IsReview max changed (str s) r h = cc
validate_model_response-IsReview max changed (list xs) r h = cc
