-- ===== src/Sandbox/Profile/Loaded.antt =====
-- What `load_profile` of scripts/engineering_qa/bwrap_sandbox_adapter.py guarantees of a profile.
use frankensteinz_hermes.Base.{
  leb→le, not-eq-true, eqb→≡, and-eq-true, ok-injective, guard-eq-ok, leb, not, eqb, >>=-eq-ok, All,
  guard->>-eq-ok, ℕ, Bool, String, subst, false, true, some, ok, refl, [], ◌≤◌, ◌≡◌, ◌&&◌, ◌∷◌,
}
use frankensteinz_hermes.Python.{
  entries, lookup, Fields, Value, Dict, list, str, dict, float, int, bool, null,
}
use frankensteinz_hermes.Sandbox.Profile.{
  output_range, max_config_bytes, tasks_range, timeout_range, is_resource, is_writable, ProfileFile,
  validate_root_owned_file, is_profile_command, load_profile, find_profile, check_profile,
}
use frankensteinz_hermes.Gate.Policy.{has_schema_version}
use frankensteinz_hermes.Checks.{require_dict, is_text, in_range}
use frankensteinz_hermes.Checks.Passed.{require_dict-ok, in_range-true, HasInt}

pub record IsProfile (p : Dict) : Type 0 where
  pub command : is_profile_command (lookup "command" p) ≡ true
  pub limits : All (HasInt p) (timeout_range ∷ tasks_range ∷ output_range ∷ [])
  pub memory : is_text is_resource (lookup "memory_max" p) ≡ true
  pub cpu : is_text is_resource (lookup "cpu_quota" p) ≡ true

check_profile-IsProfile : (p : Dict) → check_profile p ≡ ok tt → IsProfile p
unfolding check_profile
check_profile-IsProfile p h =
    let (command, h₁) = guard->>-eq-ok (is_profile_command (lookup "command" p)) _ _ h in
    let (time, h₂) = guard->>-eq-ok (in_range 1 900 (lookup "timeout_seconds" p)) _ _ h₁ in
    let (tasks, h₃) = guard->>-eq-ok (in_range 8 256 (lookup "tasks_max" p)) _ _ h₂ in
    let (output, h₄) =
      guard->>-eq-ok (in_range 1024 4194304 (lookup "max_output_bytes" p)) _ _ h₃ in
    let (memory, h₅) = guard->>-eq-ok (is_text is_resource (lookup "memory_max" p)) _ _ h₄ in
    record {
      command = command;
      limits = (
        in_range-true 1 900 (lookup "timeout_seconds" p) time,
        (
          in_range-true 8 256 (lookup "tasks_max" p) tasks,
          (in_range-true 1024 4194304 (lookup "max_output_bytes" p) output, tt),
        ),
      );
      memory = memory;
      cpu = guard-eq-ok (is_text is_resource (lookup "cpu_quota" p)) _ h₅;
    }

-- The profile is an entry of the file.
abbrev pub IsEntry : Value → String → Dict → Type 0
IsEntry v profile_id p =
    (fs : Fields) × (profiles : Fields) × (profile : Fields) × (v ≡ dict fs)
    × (lookup "profiles" (entries fs) ≡ some (dict profiles))
    × (lookup profile_id (entries profiles) ≡ some (dict profile))
    × (p ≡ entries profile)

find_profile-IsEntry :
    (profile_id : String) (v : Value) (p : Dict)
    → find_profile profile_id v ≡ ok p
    → IsEntry v profile_id p
unfolding find_profile
find_profile-IsEntry profile_id (dict fs) p h =
    let (versioned, h₁) = guard->>-eq-ok (has_schema_version (entries fs)) _ _ h in
    let (d, found, h₂) = >>=-eq-ok (require_dict (lookup "profiles" (entries fs)) _) _ h₁ in
    let (ps, e, same) = require_dict-ok (lookup "profiles" (entries fs)) _ d found in
    let (profile, e₂, same₂) = require_dict-ok (lookup profile_id d) _ p h₂ in
    (
      fs,
      ps,
      profile,
      refl,
      e,
      subst (λ d. lookup profile_id d ≡ some (dict profile)) same e₂,
      same₂,
    )
find_profile-IsEntry profile_id null p h = cc
find_profile-IsEntry profile_id (bool b) p h = cc
find_profile-IsEntry profile_id (int z) p h = cc
find_profile-IsEntry profile_id (float x) p h = cc
find_profile-IsEntry profile_id (str s) p h = cc
find_profile-IsEntry profile_id (list xs) p h = cc

root_owned :
    (regular : Bool) (owner : ℕ) (writable : Bool) (size : ℕ)
    → (regular && eqb owner 0 && not writable) ≡ true
    → leb size 262144 ≡ true
    → (regular ≡ true) × (owner ≡ 0) × (writable ≡ false) × (size ≤ 262144)
root_owned regular owner writable size o small =
    let (o₁, n) = and-eq-true (regular && eqb owner 0) (not writable) o in
    let (r, w) = and-eq-true regular (eqb owner 0) o₁ in
    (r, eqb→≡ owner 0 w, not-eq-true writable n, leb→le size 262144 small)

-- A profile that is loaded is the entry of its name in a file that is a regular one, belongs to
-- root and is not writable by its group or by others; its command is a list of arguments, its limits
-- are integers within their bounds, and its memory and CPU limits hold no other characters than
-- letters, digits, dots and percent signs.
pub load_profile-IsProfile :
    (f : ProfileFile) (profile_id : String) (p : Dict)
    → load_profile f profile_id ≡ ok p
    → ((f.regular ≡ true) × (f.owner ≡ 0) × (is_writable f.mode ≡ false) × (f.size ≤ 262144))
      × ((v : Value) × (f.parsed ≡ ok v) × IsEntry v profile_id p)
      × IsProfile p
unfolding load_profile validate_root_owned_file
load_profile-IsProfile f profile_id p h =
    let owned = f.regular && eqb f.owner 0 && not (is_writable f.mode) in
    let (o, h₁) = guard->>-eq-ok owned _ _ h in
    let (small, h₂) = guard->>-eq-ok (leb f.size max_config_bytes) _ _ h₁ in
    let (v, parsed, h₃) = >>=-eq-ok f.parsed _ h₂ in
    let (q, found, h₄) = >>=-eq-ok (find_profile profile_id v) _ h₃ in
    let (u, checked, h₅) = >>=-eq-ok (check_profile q) _ h₄ in
    let same : q ≡ p = ok-injective refl h₅ in
    (
      root_owned f.regular f.owner (is_writable f.mode) f.size o small,
      (v, parsed, subst (IsEntry v profile_id) same (find_profile-IsEntry profile_id v q found)),
      subst IsProfile same (check_profile-IsProfile q checked),
    )
