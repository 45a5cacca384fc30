-- ===== src/Paths/Relative.antt =====
-- `validate_rel_path` of scripts/engineering_worker/worker.py. The scripts of the reviewer have the
-- same function with an exception of their own, so the exception is an argument.
pub mod Safe
use frankensteinz_hermes.Paths.Posix.{parts, is_absolute, as_posix, has_code}
use frankensteinz_hermes.Base.{
  contains, any, is_empty_text, Bool, Result, String, err, ok, if◌then◌else◌, ◌==◌, ◌||◌, ◌<>◌,
}
use frankensteinz_hermes.Python.{str, Value, Exn}

abbrev pub unsafe_part : String → Bool
unsafe_part part = is_empty_text part || part == "." || part == ".."

module _ (raise : String → Exn) where
  unfoldable pub validate_text : String → Result Exn String
  unfolding parts as_posix
  validate_text raw =
      if is_empty_text raw || has_code 0 raw || has_code b'\\' raw
      then err (raise "invalid_path")
      else if is_absolute raw || any unsafe_part (parts raw)
      then err (raise ("unsafe_path:" <> raw))
      else if contains (parts raw) ".git"
      then err (raise ("git_metadata_path_denied:" <> raw))
      else ok (as_posix (parts raw))

  unfoldable pub validate_rel_path : Value → Result Exn String
  unfolding validate_text
  validate_rel_path (str raw) = validate_text raw
  validate_rel_path _ = err (raise "invalid_path")
