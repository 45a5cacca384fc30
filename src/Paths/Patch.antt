-- ===== src/Paths/Patch.antt =====
-- `parse_patch_paths` of scripts/engineering_worker/worker.py.
pub mod Checked
use Prim.Native.Char.{code}
use Prim.Native.String.{[] as []ₛ, ◌∷◌ as ◌∷ₛ◌}
use frankensteinz_hermes.Paths.Posix.{split_on, keep, push_first, drop_prefix, begins, occurs}
use frankensteinz_hermes.Paths.Relative.{validate_text}
use frankensteinz_hermes.Base.{
  all_distinct, is_space, is_empty, is_empty_text, not, leb, eqb, ◌>>◌, ℕ, Bool, List, Result,
  String, guard, false, none, some, err, ok, [], ◌>>=◌, if◌then◌else◌, ◌==◌, ◌||◌, ◌&&◌, ◌∷◌,
}
use frankensteinz_hermes.Python.{worker_error, Exn}

-- The characters at which `str.splitlines` ends a line.
abbrev is_line_break : ℕ → Bool
is_line_break c =
    leb 10 c && leb c 13 || leb 28 c && leb c 30 || eqb c 0x85 || eqb c 0x2028 || eqb c 0x2029

-- "\r\n" ends one line: the text without each "\n" behind a "\r".
unfoldable pub merge_crlf : Bool → String → String
merge_crlf after_cr []ₛ = []ₛ
merge_crlf after_cr (c ∷ₛ s) =
    let rest = merge_crlf (eqb (code c) 13) s in
    if after_cr && eqb (code c) 10 then rest else c ∷ₛ rest

unfoldable pub lines : String → List String
lines []ₛ = []
lines (c ∷ₛ s) =
    let rest = lines s in if is_line_break (code c) then []ₛ ∷ rest else push_first c rest

-- `s.splitlines()`
unfoldable pub splitlines : String → List String
unfolding merge_crlf lines
splitlines s = lines (merge_crlf false s)

-- `s.split()`
unfoldable pub words : String → List String
unfolding split_on
words s = keep (λ w. not (is_empty_text w)) (split_on is_space s)

abbrev header_error : Exn
header_error = worker_error "invalid_diff_header"

abbrev pub rename_error : Exn
rename_error = worker_error "rename_or_copy_not_supported"

-- `s[2:]`, where `s` starts with the prefix of two characters
unfoldable pub side : String → String → Result Exn String
unfolding drop_prefix
side prefix s = elim (drop_prefix prefix s) [ none ↦ err header_error | some r ↦ ok r ]

-- The path of a line "diff --git a/… b/…".
unfoldable pub header_path : List String → Result Exn String
unfolding side validate_text
header_path (w₀ ∷ w₁ ∷ w₂ ∷ w₃ ∷ []) = do
  left ← side "a/" w₂
  right ← side "b/" w₃
  before ← validate_text worker_error left
  after ← validate_text worker_error right
  if before == after then ok after else err rename_error
header_path _ = err header_error

abbrev is_rename : String → Bool
is_rename line =
    begins "rename from " line
    || begins "rename to " line
    || begins "copy from " line
    || begins "copy to " line

abbrev is_absolute_side : String → Bool
is_absolute_side line =
    (begins "--- /" line || begins "+++ /" line)
    && not (line == "--- /dev/null" || line == "+++ /dev/null")

unfoldable pub patch_lines : List String → Result Exn (List String)
unfolding drop_prefix words header_path
patch_lines [] = ok []
patch_lines (line ∷ rest) =
    let others = patch_lines rest in
    if begins "diff --git " line
    then (do path ← header_path (words line); paths ← others; ok (path ∷ paths))
    else if is_rename line
    then err rename_error
    else if is_absolute_side line
    then err (worker_error "absolute_patch_path")
    else others

-- `decoded` is what `patch.decode("utf-8")` gives; its text has the NULs of the bytes.
unfoldable pub parse_patch_paths : Bool → Result Exn String → Result Exn (List String)
unfolding occurs splitlines patch_lines
parse_patch_paths has_nul decoded = do
  guard (not has_nul) (worker_error "patch_contains_nul")
  text ← decoded
  guard (not (occurs "new file mode 120000" text || occurs "new mode 120000" text))
      (worker_error "symlink_patch_denied")
  guard (not (occurs "new file mode 160000" text || occurs "new mode 160000" text))
      (worker_error "submodule_patch_denied")
  paths ← patch_lines (splitlines text)
  guard (not (is_empty paths)) (worker_error "patch_has_no_files")
  guard (all_distinct paths) (worker_error "duplicate_patch_file")
  ok paths
