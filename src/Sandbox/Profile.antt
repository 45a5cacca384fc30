-- ===== src/Sandbox/Profile.antt =====
-- `validate_root_owned_file` and `load_profile` of
-- scripts/engineering_qa/bwrap_sandbox_adapter.py.
pub mod Loaded
use frankensteinz_hermes.Base.{
  text_length, all_codes, ◌%◌, is_empty_text, ◌/◌, not, leb, eqb, ◌>>◌, ℕ, Bool, Result, Option,
  String, guard, false, true, some, err, ok, ◌>>=◌, ◌||◌, ◌&&◌,
}
use frankensteinz_hermes.Python.{
  entries, value_error, lookup, Dict, Value, Items, Exn, list, str, cons, nil, dict,
}
use frankensteinz_hermes.Checks.{is_text, require_dict, in_range, Range}
use frankensteinz_hermes.Gate.Policy.{has_schema_version}

-- `path.stat()`, `path.read_bytes()` and `json.loads`, of the file of profiles.
pub record ProfileFile : Type 0 where
  pub regular : Bool
  pub owner : ℕ
  pub mode : ℕ
  pub size : ℕ
  pub parsed : Result Exn Value

-- `st.st_mode & 0o022`, as a test: the write bits of the group and of the others
abbrev pub is_writable : ℕ → Bool
is_writable mode = eqb (mode / 16 % 2) 1 || eqb (mode / 2 % 2) 1

unfoldable pub validate_root_owned_file : ProfileFile → Result Exn (Unit {0})
validate_root_owned_file f =
    guard (f.regular && eqb f.owner 0 && not (is_writable f.mode))
      (value_error "QA profile config must be root-owned and non-group/world-writable")

abbrev pub max_config_bytes : ℕ
max_config_bytes = 262144

abbrev pub timeout_range : Range
timeout_range = record { key = "timeout_seconds"; low = 1; high = 900 }

abbrev pub tasks_range : Range
tasks_range = record { key = "tasks_max"; low = 8; high = 256 }

abbrev pub output_range : Range
output_range = record { key = "max_output_bytes"; low = 1024; high = 4194304 }

-- `isinstance(x, str) and x and len(x) <= 4096`, for each argument
abbrev pub are_arguments : Items → Bool
are_arguments nil = true
are_arguments (cons (str s) xs) =
    not (is_empty_text s) && leb (text_length s) 4096 && are_arguments xs
are_arguments (cons v xs) = false

abbrev pub is_profile_command : Option Value → Bool
is_profile_command (some (list (cons v xs))) = are_arguments (cons v xs)
is_profile_command _ = false

-- `[A-Za-z0-9.%]+`, as a full match
abbrev pub is_resource_code : ℕ → Bool
is_resource_code c =
    leb 65 c && leb c 90 || leb 97 c && leb c 122 || leb 48 c && leb c 57 || eqb c 46 || eqb c 37

unfoldable pub is_resource : String → Bool
is_resource s = not (is_empty_text s) && all_codes is_resource_code s

unfoldable pub check_profile : Dict → Result Exn (Unit {0})
unfolding in_range is_text is_resource lookup
check_profile p = do
  guard (is_profile_command (lookup "command" p)) (value_error "invalid QA profile command")
  guard (in_range timeout_range.low timeout_range.high (lookup timeout_range.key p))
      (value_error "invalid QA profile timeout")
  guard (in_range tasks_range.low tasks_range.high (lookup tasks_range.key p))
      (value_error "invalid QA profile task limit")
  guard (in_range output_range.low output_range.high (lookup output_range.key p))
      (value_error "invalid QA profile output limit")
  guard (is_text is_resource (lookup "memory_max" p)) (value_error "invalid QA memory limit")
  guard (is_text is_resource (lookup "cpu_quota" p)) (value_error "invalid QA CPU limit")

-- The profile in the parsed file.
unfoldable pub find_profile : String → Value → Result Exn Dict
unfolding require_dict lookup
find_profile profile_id (dict fs) = do
  guard (has_schema_version (entries fs)) (value_error "invalid QA profile config")
  profiles ← require_dict (lookup "profiles" (entries fs)) (value_error "invalid QA profile config")
  require_dict (lookup profile_id profiles) (value_error "unknown QA profile")
find_profile profile_id _ = err (value_error "invalid QA profile config")

unfoldable pub load_profile : ProfileFile → String → Result Exn Dict
unfolding validate_root_owned_file find_profile check_profile
load_profile f profile_id = do
  validate_root_owned_file f
  guard (leb f.size max_config_bytes) (value_error "QA profile config too large")
  value ← f.parsed
  profile ← find_profile profile_id value
  check_profile profile
  ok profile
