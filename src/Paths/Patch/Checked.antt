-- ===== src/Paths/Patch/Checked.antt =====
-- What the paths of a patch that `parse_patch_paths` of scripts/engineering_worker/worker.py returns are.
use frankensteinz_hermes.Paths.Posix.{drop_prefix, begins, occurs}
use frankensteinz_hermes.Paths.Relative.{validate_text}
use frankensteinz_hermes.Paths.Relative.Safe.{IsSafe, validate_text-IsSafe}
use frankensteinz_hermes.Paths.Patch.{
  splitlines, words, side, header_path, patch_lines, parse_patch_paths, is_rename, is_absolute_side,
  rename_error,
}
use frankensteinz_hermes.Base.{
  refl, err, some, ok-injective, Option-cases, ◌==◌, ap, ◌∙◌, not-eq-true, or-eq-false, not,
  if-else, guard->>-eq-ok, all_distinct, is_empty, Bool-cases, Bool, Result, false, true, ◌||◌, All,
  >>=-eq-ok, List, String, subst, inr, inl, ok, [], if◌then◌else◌, ◌≡◌, ◌∷◌,
}
use frankensteinz_hermes.Reviewer.Scope.Kept.{==-≡}
use frankensteinz_hermes.Python.{Exn, worker_error}

-- The line of the words names the path on both sides, behind the prefixes of its sides.
pub record IsHeader (ws : List String) (path : String) : Type 0 where
  pub first : String
  pub second : String
  pub old : String
  pub new : String
  pub left : String
  pub right : String
  pub four : ws ≡ first ∷ second ∷ old ∷ new ∷ []
  pub old_side : drop_prefix "a/" old ≡ some left
  pub new_side : drop_prefix "b/" new ≡ some right
  pub before : validate_text worker_error left ≡ ok path
  pub after : validate_text worker_error right ≡ ok path

side-drop_prefix :
    (prefix s rest : String) → side prefix s ≡ ok rest → drop_prefix prefix s ≡ some rest
unfolding side
side-drop_prefix prefix s rest h = elim (Option-cases (drop_prefix prefix s)) [
  | inl e ↦ cc (h, e)
  | inr (r, e) ↦ cc (h, e)
]

header_path-IsHeader :
    (ws : List String) (path : String) → header_path ws ≡ ok path → IsHeader ws path
unfolding header_path
header_path-IsHeader (w₀ ∷ w₁ ∷ w₂ ∷ w₃ ∷ []) path h =
    let (left, l, h₁) = >>=-eq-ok (side "a/" w₂) _ h in
    let (right, r, h₂) = >>=-eq-ok (side "b/" w₃) _ h₁ in
    let (before, b, h₃) = >>=-eq-ok (validate_text worker_error left) _ h₂ in
    let (after, a, h₄) = >>=-eq-ok (validate_text worker_error right) _ h₃ in
    let (same, h₅) = both (before == after) h₄ in
    record {
      first = w₀;
      second = w₁;
      old = w₂;
      new = w₃;
      left = left;
      right = right;
      four = refl;
      old_side = side-drop_prefix "a/" w₂ left l;
      new_side = side-drop_prefix "b/" w₃ right r;
      before = b ∙ ap ok (==-≡ before after same ∙ h₅);
      after = a ∙ ap ok h₅;
    }
  where
    both :
        {after : String} (t : Bool)
        → (if t then ok after else err rename_error) ≡ ok path
        → (t ≡ true) × (after ≡ path)
    both true h = (refl, ok-injective refl h)
    both false h = cc
header_path-IsHeader [] path h = cc
header_path-IsHeader (w₀ ∷ []) path h = cc
header_path-IsHeader (w₀ ∷ w₁ ∷ []) path h = cc
header_path-IsHeader (w₀ ∷ w₁ ∷ w₂ ∷ []) path h = cc
header_path-IsHeader (w₀ ∷ w₁ ∷ w₂ ∷ w₃ ∷ w₄ ∷ ws) path h = cc

-- The lines that name a file, in order.
abbrev pub headers : List String → List String
headers [] = []
headers (line ∷ rest) =
    let others = headers rest in if begins "diff --git " line then line ∷ others else others

-- Each path is the one that its header line names on both sides.
abbrev pub Named : List String → List String → Type 0
Named [] [] = Unit
Named [] (path ∷ paths) = ⊥
Named (line ∷ rest) [] = ⊥
Named (line ∷ rest) (path ∷ paths) = IsHeader (words line) path × Named rest paths

-- Each path is that of its header, and the lines between the headers are no renames.
record Reads (ls paths : List String) : Type 0 where
  named : Named (headers ls) paths
  no_rename : All (λ line. begins "diff --git " line ≡ false → is_rename line ≡ false) ls

patch_lines-Reads : (ls paths : List String) → patch_lines ls ≡ ok paths → Reads ls paths
unfolding patch_lines
patch_lines-Reads [] [] h = record { named = tt; no_rename = tt }
patch_lines-Reads [] (path ∷ paths) h = cc
patch_lines-Reads (line ∷ rest) paths h = elim (Bool-cases (begins "diff --git " line)) [
  | inl header ↦
      let (path, e, h₁) = >>=-eq-ok (header_path (words line)) _ (rw header at h) in
      let (others, es, h₂) = >>=-eq-ok (patch_lines rest) _ h₁ in
      let r = patch_lines-Reads rest others es in
      let same : path ∷ others ≡ paths = cc h₂ in
      subst (Reads (line ∷ rest)) same (record {
        named = rw header (header_path-IsHeader (words line) path e, r.named);
        no_rename = (λ n. cc, r.no_rename);
      })
  | inr other ↦
      let (no_rename, h₁) = if-else (is_rename line) (rw other at h) (λ e. cc) in
      let (relative, h₂) = if-else (is_absolute_side line) h₁ (λ e. cc) in
      let r = patch_lines-Reads rest paths h₂ in
      record { named = rw other r.named; no_rename = (λ _. no_rename, r.no_rename) }
]

Named-IsSafe : (ls paths : List String) → Named ls paths → All IsSafe paths
Named-IsSafe [] [] n = tt
Named-IsSafe [] (path ∷ paths) n = absurd n
Named-IsSafe (line ∷ rest) [] n = absurd n
Named-IsSafe (line ∷ rest) (path ∷ paths) (e, n) =
    ((validate_text-IsSafe worker_error e.right path e.after).0, Named-IsSafe rest paths n)

-- A patch that is accepted: what its text does not hold, and what its paths are.
pub record Accepted (text : String) (paths : List String) : Type 0 where
  pub no_symlink : occurs "new mode 120000" text ≡ false
  pub no_new_symlink : occurs "new file mode 120000" text ≡ false
  pub no_submodule : occurs "new mode 160000" text ≡ false
  pub no_new_submodule : occurs "new file mode 160000" text ≡ false
  pub named : Named (headers (splitlines text)) paths
  pub safe : All IsSafe paths
  pub no_rename :
      All (λ line. begins "diff --git " line ≡ false → is_rename line ≡ false) (splitlines text)
  pub some_file : is_empty paths ≡ false
  pub distinct : all_distinct paths ≡ true

-- The paths of a patch that is accepted are those of its header lines, one for each, which names it
-- on both sides, all safe and all different, and there is one at least; no other line starts with the
-- words of git for a rename or a copy from or to a path, and the text does not hold the words of git
-- for a new mode or a new file of mode 120000 or 160000. Other spellings of them are not looked for.
pub parse_patch_paths-Accepted :
    (has_nul : Bool) (decoded : Result Exn String) (paths : List String)
    → parse_patch_paths has_nul decoded ≡ ok paths
    → (has_nul ≡ false) × ((text : String) × (decoded ≡ ok text) × Accepted text paths)
unfolding parse_patch_paths
parse_patch_paths-Accepted has_nul decoded paths h =
    let (plain, h₁) = guard->>-eq-ok (not has_nul) _ _ h in
    let (text, found, h₂) = >>=-eq-ok decoded _ h₁ in
    let (links, h₃) =
      guard->>-eq-ok (not (occurs "new file mode 120000" text || occurs "new mode 120000" text)) _ _
        h₂ in
    let (modules, h₄) =
      guard->>-eq-ok (not (occurs "new file mode 160000" text || occurs "new mode 160000" text)) _ _
        h₃ in
    let (read, e, h₅) = >>=-eq-ok (patch_lines (splitlines text)) _ h₄ in
    let (filled, h₆) = guard->>-eq-ok (not (is_empty read)) _ _ h₅ in
    let (distinct, h₇) = guard->>-eq-ok (all_distinct read) _ _ h₆ in
    let same : read ≡ paths = cc h₇ in
    let r = patch_lines-Reads (splitlines text) read e in
    let (new_link, link) = or-eq-false _ _ (not-eq-true _ links) in
    let (new_module, module_mode) = or-eq-false _ _ (not-eq-true _ modules) in
    (
      not-eq-true has_nul plain,
      (
        text,
        found,
        subst (Accepted text) same (record {
          no_symlink = link;
          no_new_symlink = new_link;
          no_submodule = module_mode;
          no_new_submodule = new_module;
          named = r.named;
          safe = Named-IsSafe (headers (splitlines text)) read r.named;
          no_rename = r.no_rename;
          some_file = not-eq-true (is_empty read) filled;
          distinct = distinct;
        }),
      ),
    )
