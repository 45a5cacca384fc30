-- ===== src/Checks/Envelope.antt =====
-- The tests of an envelope that the three workers share: UUIDs, texts and paths.
use frankensteinz_hermes.Base.{
  >>=-eq-ok, guard->>-eq-ok, rstrip, All, Bool, List, Result, String, guard, false, true, some, ok,
  [], ◌>>◌, ◌>>=◌, ◌≡◌, ◌∷◌,
}
use frankensteinz_hermes.Python.{lookup, Value, Exn, Dict, list, str, null}
use frankensteinz_hermes.Checks.{get_or, is_text}
use frankensteinz_hermes.Paths.Relative.{validate_text}
use frankensteinz_hermes.Paths.Relative.Safe.{validate_text-IsSafe, IsSafe}
use frankensteinz_hermes.Paths.Posix.{parts, is_slash}
use frankensteinz_hermes.Checks.Passed.{is_text-true}

-- `uuid` says whether `uuid.UUID(str(v))` accepts the value; `show` is `str(v)` of a value that is
-- not a text.
pub record Strings : Type 0 where
  pub uuid : Value → Bool
  pub show : Value → String

-- `str(v)`
abbrev pub shown : Strings → Value → String
shown strings (str s) = s
shown strings v = strings.show v

-- `uuid.UUID(str(d.get(key)))`
unfoldable pub check_uuid : Strings → Exn → String → Dict → Result Exn (Unit {0})
unfolding lookup
check_uuid strings e key d = guard (strings.uuid (get_or null (lookup key d))) e

-- A text that an object must have: its key, the test on it, and the exception.
pub record TextRule : Type 0 where
  pub key : String
  pub test : String → Bool
  pub raised : Exn

unfoldable pub check_texts : List TextRule → Dict → Result Exn (Unit {0})
unfolding is_text lookup
check_texts [] d = ok tt
check_texts (r ∷ rs) d = guard (is_text r.test (lookup r.key d)) r.raised >> check_texts rs d

-- `for path in allowed: validate_rel_path(str(path).rstrip("/"))`
unfoldable pub check_paths : (String → Exn) → Strings → List Value → Result Exn (Unit {0})
unfolding validate_text rstrip
check_paths raise strings [] = ok tt
check_paths raise strings (v ∷ vs) = do
  path ← validate_text raise (rstrip is_slash (shown strings v))
  check_paths raise strings vs

abbrev pub is_str : Value → Bool
is_str (str s) = true
is_str _ = false

abbrev pub is_list : Value → Bool
is_list (list xs) = true
is_list _ = false

abbrev pub HasText : Dict → TextRule → Type 0
HasText d r = (s : String) × (lookup r.key d ≡ some (str s)) × (r.test s ≡ true)

pub check_texts-ok : (rs : List TextRule) (d : Dict) → check_texts rs d ≡ ok tt → All (HasText d) rs
unfolding check_texts
check_texts-ok [] d h = tt
check_texts-ok (r ∷ rs) d h =
    let (passed, rest) = guard->>-eq-ok (is_text r.test (lookup r.key d)) _ _ h in
    (is_text-true r.test (lookup r.key d) passed, check_texts-ok rs d rest)

-- The entry, without the slashes at its end, denotes a path that stays below the repository.
abbrev pub IsAllowedPath : Strings → Value → Type 0
IsAllowedPath strings v =
    (path : String) × IsSafe path × (parts path ≡ parts (rstrip is_slash (shown strings v)))

pub check_paths-ok :
    (raise : String → Exn) (strings : Strings) (vs : List Value)
    → check_paths raise strings vs ≡ ok tt
    → All (IsAllowedPath strings) vs
unfolding check_paths
check_paths-ok raise strings [] h = tt
check_paths-ok raise strings (v ∷ vs) h =
    let raw = rstrip is_slash (shown strings v) in
    let (path, e, h₁) = >>=-eq-ok (validate_text raise raw) _ h in
    let (safe, same) = validate_text-IsSafe raise raw path e in
    ((path, safe, same), check_paths-ok raise strings vs h₁)
