-- ===== src/Paths/Relative/Safe.antt =====
-- What a path that `validate_rel_path` of scripts/engineering_worker/worker.py returns is.
use frankensteinz_hermes.Paths.Posix.{parts, as_posix, is_absolute, has_code}
use frankensteinz_hermes.Paths.Posix.Join.{
  parts-IsPart, parts-as_posix, as_posix-Lacks, as_posix-relative,
}
use frankensteinz_hermes.Paths.Relative.{unsafe_part, validate_text, validate_rel_path}
use frankensteinz_hermes.Base.{
  if-else, is_empty_text, contains, any, Bool, String, ap, arith, false, ok, refl, ◌≡◌, ◌||◌,
}
use frankensteinz_hermes.Python.{Value, Exn, list, str, dict, float, int, bool, null}

-- A relative path in its normal form that neither leaves the tree nor enters its git metadata.
pub record IsSafe (path : String) : Type 0 where
  pub normal : as_posix (parts path) ≡ path
  pub relative : is_absolute path ≡ false
  pub no_parent : any unsafe_part (parts path) ≡ false
  pub no_git : contains (parts path) ".git" ≡ false
  pub no_nul : has_code 0 path ≡ false
  pub no_backslash : has_code b'\\' path ≡ false
  pub not_empty : is_empty_text path ≡ false

or-false : (a b c : Bool) → (a || b || c) ≡ false → (a ≡ false) × (b ≡ false) × (c ≡ false)
or-false a b c h = ground arith

module _ (raise : String → Exn) where
  -- The tests that a text passes, and the path that it gives.
  validate_text-ok :
      (raw path : String)
      → validate_text raise raw ≡ ok path
      → (path ≡ as_posix (parts raw))
        × ((is_empty_text raw || has_code 0 raw || has_code b'\\' raw) ≡ false)
        × ((is_absolute raw || any unsafe_part (parts raw)) ≡ false)
        × (contains (parts raw) ".git" ≡ false)
  unfolding validate_text
  validate_text-ok raw path h =
      let (plain, h₁) =
        if-else (is_empty_text raw || has_code 0 raw || has_code b'\\' raw) h (λ e. cc) in
      let (safe, h₂) = if-else (is_absolute raw || any unsafe_part (parts raw)) h₁ (λ e. cc) in
      let (no_git, h₃) = if-else (contains (parts raw) ".git") h₂ (λ e. cc) in
      (cc h₃, plain, safe, no_git)

  -- A path that is returned is safe: relative, in normal form, with no "..", no ".git", no NUL and
  -- no backslash; and it has the parts of the text that was given.
  pub validate_text-IsSafe :
      (raw path : String)
      → validate_text raise raw ≡ ok path
      → IsSafe path × (parts path ≡ parts raw)
  validate_text-IsSafe raw path h =
      let (e, plain, safe, no_git) = validate_text-ok raw path h in
      let (full, nul, backslash) =
        or-false (is_empty_text raw) (has_code 0 raw) (has_code b'\\' raw) plain in
      let same : parts (as_posix (parts raw)) ≡ parts raw =
        parts-as_posix (parts raw) (parts-IsPart raw) in
      let (filled, relative) = as_posix-relative (parts raw) (parts-IsPart raw) in
      rw e (
        record {
          normal = ap as_posix same;
          relative = relative;
          no_parent = rw same (ground arith);
          no_git = rw same no_git;
          no_nul = as_posix-Lacks 0 raw refl refl nul;
          no_backslash = as_posix-Lacks b'\\' raw refl refl backslash;
          not_empty = filled;
        },
        same,
      )

  -- A safe path is returned as it is, so validating twice is validating once.
  pub IsSafe-validate_text : (path : String) → IsSafe path → validate_text raise path ≡ ok path
  unfolding validate_text
  IsSafe-validate_text path s =
      rw (s.not_empty, s.no_nul, s.no_backslash, s.relative, s.no_parent, s.no_git) (ap ok s.normal)

  -- A path that is returned is safe: relative, not empty, in normal form, with no "..", no ".git",
  -- no NUL and no backslash; and validating it again returns it unchanged.
  pub validate_rel_path-idempotent :
      (raw : Value) (path : String)
      → validate_rel_path raise raw ≡ ok path
      → IsSafe path × (validate_rel_path raise (str path) ≡ ok path)
  unfolding validate_rel_path
  validate_rel_path-idempotent (str raw) path h =
      let (safe, _) = validate_text-IsSafe raw path h in (safe, IsSafe-validate_text path safe)
  validate_rel_path-idempotent null path h = cc
  validate_rel_path-idempotent (bool b) path h = cc
  validate_rel_path-idempotent (int z) path h = cc
  validate_rel_path-idempotent (float x) path h = cc
  validate_rel_path-idempotent (list xs) path h = cc
  validate_rel_path-idempotent (dict fs) path h = cc
