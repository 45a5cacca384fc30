-- ===== src/Reviewer/Scope.antt =====
-- `path_allowed` of scripts/engineering_reviewer/reviewer.py, and the tests of its
-- `reconstruct_candidate` on the evidence of the implementation.
pub mod Kept
use frankensteinz_hermes.Base.{
  all, ℕ, String, Bool, true, false, not, ◌&&◌, ◌||◌, ◌==◌, ◌<>◌, List, [], ◌∷◌, Option, none, some,
  Result, ok, err, guard, ltb, eqb, if◌then◌else◌, codes, ◌>>=◌, ◌>>◌,
}
use frankensteinz_hermes.Python.{
  type_error, reviewer_error, integrity_error, same, lookup, Exn, eq_nat, Value, Dict, str, list,
  bool, int, float, null,
}
use frankensteinz_hermes.Paths.Allowed.{entry_or_nil, path_allowed, iterate}
use frankensteinz_hermes.Checks.{get_or, is_hex, is_text}
use frankensteinz_hermes.Checks.Steps.{Output}
use frankensteinz_hermes.Qa.Bundle.{binds}

unfoldable pub review_path_allowed : Dict → Dict → Value → Result Exn Bool
unfolding path_allowed
review_path_allowed payload config v = path_allowed reviewer_error v payload config

abbrev pub text_of : Option Value → String
text_of (some (str s)) = s
text_of _ = ""

-- `payload[key]`, of a text that `validate_envelope` has checked
abbrev pub text_at : String → Dict → String
text_at key d = text_of (lookup key d)

-- `s <= t`, by code points
unfoldable pub at_most_codes : List ℕ → List ℕ → Bool
at_most_codes [] ds = true
at_most_codes (c ∷ cs) [] = false
at_most_codes (c ∷ cs) (d ∷ ds) =
    let rest = at_most_codes cs ds in if eqb c d then rest else ltb c d

unfoldable pub insert_text : String → List String → List String
unfolding at_most_codes
insert_text s [] = s ∷ []
insert_text s (t ∷ ts) =
    let rest = insert_text s ts in
    if at_most_codes (codes s) (codes t) then s ∷ t ∷ ts else t ∷ rest

-- `sorted(ts)`
unfoldable pub sort_texts : List String → List String
unfolding insert_text
sort_texts [] = []
sort_texts (t ∷ ts) = insert_text t (sort_texts ts)

abbrev pub equal_texts : List String → List String → Bool
equal_texts [] [] = true
equal_texts (s ∷ ss) (t ∷ ts) = s == t && equal_texts ss ts
equal_texts _ _ = false

unfoldable pub all_text_values : List Value → Option (List String)
all_text_values [] = some []
all_text_values (str s ∷ vs) = elim (all_text_values vs) [ none ↦ none | some ts ↦ some (s ∷ ts) ]
all_text_values (v ∷ vs) = none

abbrev pub is_items : Value → Bool
is_items (list xs) = true
is_items v = false

abbrev pub is_number : Value → Bool
is_number (bool b) = true
is_number (int z) = true
is_number (float x) = true
is_number v = false

-- `sorted` has no order for these values, which are not all texts: a single one, numbers and lists
-- are ordered, where the elements of lists are taken to be.
abbrev pub is_unordered : List Value → Bool
is_unordered [] = false
is_unordered (v ∷ []) = false
is_unordered (v ∷ w ∷ vs) = not (all is_number (v ∷ w ∷ vs) || all is_items (v ∷ w ∷ vs))

-- `sorted(changed) != sorted(v)`, negated, for the texts `changed`
abbrev pub sorted_texts : List String → List Value → Option (List String) → Result Exn Bool
sorted_texts changed vs (some ts) = ok (equal_texts (sort_texts changed) (sort_texts ts))
sorted_texts changed vs none = if is_unordered vs then err type_error else ok false

unfoldable pub same_sorted : List String → List Value → Result Exn Bool
unfolding sort_texts all_text_values
same_sorted changed vs = sorted_texts changed vs (all_text_values vs)

-- `evidence.get(key) != text`, negated
abbrev pub binds_text : String → String → Dict → Bool
binds_text key s d = is_text (λ t. t == s) (lookup key d)

unfoldable pub check_facts : Dict → Dict → Output → Bool → Result Exn (Unit {0})
unfolding eq_nat same is_hex lookup is_text
check_facts payload implementation diff same_paths = do
  guard same_paths (integrity_error "changed_paths_evidence_mismatch")
  guard (eq_nat (get_or null (lookup "changed_bytes" implementation)) diff.size)
      (integrity_error "changed_bytes_evidence_mismatch")
  guard
      (binds_text "base_commit" (text_at "base_commit" payload) implementation
        && binds_text "head_commit" (text_at "head_commit" payload) implementation
        && binds_text "branch" (text_at "branch" payload) implementation)
      (integrity_error "implementation_git_binding_mismatch")
  guard (binds implementation payload "job_id" "implementation_job_id")
      (integrity_error "implementation_job_binding_mismatch")
  guard (is_text (is_hex 64) (lookup "patch_sha256" implementation))
      (integrity_error "implementation_patch_hash_invalid")

-- What the evidence of the implementation says of the candidate.
unfoldable pub check_binding : Dict → Dict → Output → List String → Result Exn (Unit {0})
unfolding iterate same_sorted check_facts lookup
check_binding payload implementation diff changed = do
  paths ← iterate (entry_or_nil (lookup "changed_paths" implementation))
  same_paths ← same_sorted changed paths
  check_facts payload implementation diff same_paths

-- The loop over the changed paths.
unfoldable pub check_scope : Dict → Dict → List String → Result Exn (Unit {0})
unfolding review_path_allowed
check_scope payload config [] = ok tt
check_scope payload config (path ∷ paths) =
    let rest = check_scope payload config paths in
    do
      allowed ← review_path_allowed payload config (str path)
      if allowed then rest else err (integrity_error ("review_scope_violation:" <> path))
