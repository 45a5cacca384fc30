-- ===== src/Paths/Allowed.antt =====
-- `path_allowed` of scripts/engineering_worker/worker.py.
pub mod Scope
pub mod Permitted
use Prim.Native.String.{[] as []ₛ, ◌∷◌ as ◌∷ₛ◌}
use frankensteinz_hermes.Paths.Posix.{is_slash, begins, drop_prefix}
use frankensteinz_hermes.Paths.Relative.{validate_rel_path}
use frankensteinz_hermes.Base.{
  any, contains, rstrip, Bool, List, Result, Option, String, map, false, true, none, some, err, ok,
  [], ◌>>=◌, if◌then◌else◌, ◌==◌, ◌||◌, ◌<>◌, ◌∷◌,
}
use frankensteinz_hermes.Python.{
  type_error, entries, keys, Dict, lookup, elements, attribute_error, Value, Exn, list, str, nil,
  dict,
}

-- The entry of a dict that `d.get(key, [])` reads.
abbrev pub entry_or_nil : Option Value → Value
entry_or_nil none = list nil
entry_or_nil (some v) = v

abbrev characters : String → List Value
characters []ₛ = []
characters (c ∷ₛ s) = str (c ∷ₛ []ₛ) ∷ characters s

-- `for x in v`: a text is iterated by its characters, a dict by its keys.
unfoldable pub iterate : Value → Result Exn (List Value)
iterate (list xs) = ok (elements xs)
iterate (str s) = ok (characters s)
iterate (dict fs) = ok (map str (keys (entries fs)))
iterate _ = err type_error

-- `x.rstrip("/")`
unfoldable pub rstrip_slash : Value → Result Exn Value
unfolding rstrip
rstrip_slash (str s) = ok (str (rstrip is_slash s))
rstrip_slash _ = err attribute_error

-- `[f(x) for x in xs]`
unfoldable pub traverse {ℓ κ} :
    {A : Type ℓ} {B : Type κ} → (A → Result Exn B) → List A → Result Exn (List B)
traverse f [] = ok []
traverse f (x ∷ xs) = do y ← f x; ys ← traverse f xs; ok (y ∷ ys)

-- `path == base or path.startswith(base + "/")`
unfoldable pub is_within : String → String → Bool
unfolding drop_prefix
is_within path base = path == base || begins (base <> ("/" ∷ₛ []ₛ)) path

-- `isinstance(allowed, list) and allowed`
abbrev pub allowed_list : Option Value → List Value
allowed_list (some (list xs)) = elements xs
allowed_list _ = []

module _ (raise : String → Exn) where
  unfoldable pub validate_prefix : Value → Result Exn String
  unfolding rstrip_slash validate_rel_path
  validate_prefix x = do stripped ← rstrip_slash x; validate_rel_path raise stripped

  -- `any(path == … or path.startswith(…) for raw in allowed)`
  unfoldable pub any_within : String → List Value → Result Exn Bool
  unfolding validate_prefix is_within
  any_within path [] = ok false
  any_within path (raw ∷ rest) =
      let others = any_within path rest in
      do base ← validate_prefix raw; if is_within path base then ok true else others

  unfoldable pub path_allowed : Value → Dict → Dict → Result Exn Bool
  unfolding validate_rel_path iterate traverse any_within lookup
  path_allowed raw payload config = do
    path ← validate_rel_path raise raw
    forbidden_values ← iterate (entry_or_nil (lookup "forbidden_paths" config))
    forbidden ← traverse (validate_rel_path raise) forbidden_values
    prefix_values ← iterate (entry_or_nil (lookup "forbidden_path_prefixes" config))
    prefixes ← traverse validate_prefix prefix_values
    if contains forbidden path || any (is_within path) prefixes
        then ok false
        else any_within path (allowed_list (lookup "allowed_paths" payload))
