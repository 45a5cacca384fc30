-- ===== src/Checks/Files/Described.antt =====
-- What the files that pass the loop over a manifest are.
-- An entry of the manifest describes a file of the directory.
use frankensteinz_hermes.Base.{
  is_subset, guard-eq-ok, >>=-eq-ok, All, ok-injective, guard->>-eq-ok, List, Option, String, ap,
  true, none, some, ok, refl, [], ◌≡◌, ◌∷◌,
}
use frankensteinz_hermes.Python.{
  keys, lookup, entries, Fields, Dict, Value, Exn, list, str, dict, float, int, bool, null,
}
use frankensteinz_hermes.Checks.Files.{
  file_names, describes, find_file, is_file_name, require_file, check_entry, check_entries, File,
}

abbrev pub IsDescribed : List (String × File) → String × Value → Type 0
IsDescribed files (name, metadata) =
    (fs : Fields) × (file : File) × (metadata ≡ dict fs)
    × (is_file_name name ≡ true)
    × (find_file name files ≡ some file)
    × (describes (entries fs) file ≡ true)

pub require_file-ok :
    (e : Exn) (o : Option File) (file : File) → require_file e o ≡ ok file → o ≡ some file
require_file-ok e none file h = cc
require_file-ok e (some f) file h = ap some (ok-injective refl h)

-- The manifest lists the files of the directory, itself apart, and describes each.
pub record IsManifest (files : List (String × File)) (v : Value) : Type 0 where
  pub fields : Fields
  pub listed : Fields
  pub given : v ≡ dict fields
  pub found : lookup "files" (entries fields) ≡ some (dict listed)
  pub no_other : is_subset (file_names files) ("manifest.json" ∷ keys (entries listed)) ≡ true
  pub described : All (IsDescribed files) (entries listed)

module _ (invalid : Exn) (missing mismatch : String → Exn) where
  check_entry-IsDescribed :
      (files : List (String × File)) (name : String) (v : Value)
      → check_entry invalid missing mismatch files name v ≡ ok tt
      → IsDescribed files (name, v)
  unfolding check_entry
  check_entry-IsDescribed files name (dict fs) h =
      let (named, h₁) = guard->>-eq-ok (is_file_name name) _ _ h in
      let (file, found, h₂) = >>=-eq-ok (require_file _ (find_file name files)) _ h₁ in
      (
        fs,
        file,
        refl,
        named,
        require_file-ok _ (find_file name files) file found,
        guard-eq-ok (describes (entries fs) file) _ h₂,
      )
  check_entry-IsDescribed files name null h = cc
  check_entry-IsDescribed files name (bool b) h = cc
  check_entry-IsDescribed files name (int z) h = cc
  check_entry-IsDescribed files name (float x) h = cc
  check_entry-IsDescribed files name (str s) h = cc
  check_entry-IsDescribed files name (list xs) h = cc

  pub check_entries-IsDescribed :
      (files : List (String × File)) (d : Dict)
      → check_entries invalid missing mismatch files d ≡ ok tt
      → All (IsDescribed files) d
  unfolding check_entries
  check_entries-IsDescribed files [] h = tt
  check_entries-IsDescribed files ((name, v) ∷ rest) h =
      let (u, first, h₁) = >>=-eq-ok (check_entry invalid missing mismatch files name v) _ h in
      (check_entry-IsDescribed files name v first, check_entries-IsDescribed files rest h₁)
