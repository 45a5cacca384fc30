-- ===== src/Checks/Files.antt =====
-- The directories of evidence that the reviewer and the QA coordinator read, and the loop with which
-- each checks the files that a manifest lists.
pub mod Described
-- A regular file that is no symbolic link: its size, its digest and what `json.loads` gives of it.
use frankensteinz_hermes.Base.{
  ℕ, Bool, List, Result, Option, String, guard, none, some, err, ok, [], ◌>>◌, ◌>>=◌, if◌then◌else◌,
  ◌==◌, ◌&&◌, ◌∷◌,
}
use frankensteinz_hermes.Python.{entries, lookup, eq_nat, Value, Exn, Dict, dict, null}
use frankensteinz_hermes.Paths.Posix.{parts}
use frankensteinz_hermes.Checks.{get_or, is_text}

pub record File : Type 0 where
  pub size : ℕ
  pub digest : String
  pub parsed : Result Exn Value

-- `exists` says that the path is a directory and no symbolic link.
pub record Directory : Type 0 where
  pub exists : Bool
  pub files : List (String × File)

unfoldable pub find_file : String → List (String × File) → Option File
find_file name [] = none
find_file name ((other, file) ∷ files) = if other == name then some file else find_file name files

abbrev pub file_names : List (String × File) → List String
file_names [] = []
file_names ((name, file) ∷ files) = name ∷ file_names files

-- `if not path.is_file() or path.is_symlink(): raise e`
abbrev pub require_file : Exn → Option File → Result Exn File
require_file e none = err e
require_file e (some file) = ok file

abbrev pub last_part : List String → String
last_part [] = ""
last_part (part ∷ []) = part
last_part (part ∷ next ∷ rest) = last_part (next ∷ rest)

-- `PurePosixPath(name).name == name`
unfoldable pub is_file_name : String → Bool
unfolding parts
is_file_name name = last_part (parts name) == name

-- `metadata.get("sha256") == digest and metadata.get("bytes") == size`
abbrev pub describes : Dict → File → Bool
describes metadata file =
    is_text (λ s. s == file.digest) (lookup "sha256" metadata)
    && eq_nat (get_or null (lookup "bytes" metadata)) file.size

module _ (invalid : Exn) (missing mismatch : String → Exn) where
  unfoldable pub check_entry : List (String × File) → String → Value → Result Exn (Unit {0})
  unfolding is_file_name find_file is_text eq_nat lookup
  check_entry files name (dict fs) = do
    guard (is_file_name name) invalid
    file ← require_file (missing name) (find_file name files)
    guard (describes (entries fs) file) (mismatch name)
  check_entry files name _ = err invalid

  -- The loop over `manifest["files"].items()`.
  unfoldable pub check_entries : List (String × File) → Dict → Result Exn (Unit {0})
  unfolding check_entry
  check_entries files [] = ok tt
  check_entries files ((name, metadata) ∷ rest) =
      check_entry files name metadata >> check_entries files rest
