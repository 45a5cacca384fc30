-- ===== src/Tests/Paths.antt =====
-- Paths and patches at samples.
use frankensteinz_hermes.Tests.Samples.{texts}
use frankensteinz_hermes.Paths.Posix.{parts}
use frankensteinz_hermes.Paths.Relative.{validate_rel_path}
use frankensteinz_hermes.Paths.Relative.Safe.{IsSafe, validate_rel_path-idempotent}
use frankensteinz_hermes.Paths.Allowed.{is_within, path_allowed}
use frankensteinz_hermes.Paths.Allowed.Scope.{Below, is_within_iff}
use frankensteinz_hermes.Paths.Allowed.Permitted.{Permitted, path_allowed-Permitted}
use frankensteinz_hermes.Paths.Patch.{parse_patch_paths}
use frankensteinz_hermes.Paths.Patch.Checked.{Accepted, parse_patch_paths-Accepted}
use frankensteinz_hermes.Base.{
  is_empty, Result, String, false, true, err, ok, refl, [], ◌↔◌, ◌≡◌, ◌∷◌,
}
use frankensteinz_hermes.Python.{str, list, worker_error, Exn, Dict}

docs_normal : validate_rel_path worker_error (str "./docs//a.md") ≡ ok "docs/a.md"
unfolding validate_rel_path
docs_normal = refl

parent_refused :
    validate_rel_path worker_error (str "docs/../x") ≡ err (worker_error "unsafe_path:docs/../x")
unfolding validate_rel_path
parent_refused = refl

validate_rel_path-idempotent_example :
    IsSafe "docs/a.md" × (validate_rel_path worker_error (str "docs/a.md") ≡ ok "docs/a.md")
validate_rel_path-idempotent_example =
    validate_rel_path-idempotent worker_error (str "./docs//a.md") "docs/a.md" docs_normal

docs_dir : validate_rel_path worker_error (str "docs") ≡ ok "docs"
unfolding validate_rel_path
docs_dir = refl

docs_proper : is_empty (parts "docs") ≡ false
unfolding parts
docs_proper = refl

is_within_iff_example : (is_within "docs/a.md" "docs" ≡ true) ↔ Below "docs/a.md" "docs"
is_within_iff_example =
    is_within_iff "docs/a.md" "docs" validate_rel_path-idempotent_example.0
      (validate_rel_path-idempotent worker_error (str "docs") "docs" docs_dir).0 docs_proper

abbrev payload : Dict
payload = ("allowed_paths", list (texts ("src" ∷ "docs/" ∷ []))) ∷ []

abbrev config : Dict
config = ("forbidden_path_prefixes", list (texts (".github/" ∷ "policy" ∷ []))) ∷ []

docs_allowed : path_allowed worker_error (str "docs/a.md") payload config ≡ ok true
unfolding path_allowed
docs_allowed = refl

path_allowed-Permitted_example :
    (path : String) × Permitted worker_error (str "docs/a.md") payload config path
path_allowed-Permitted_example =
    path_allowed-Permitted worker_error (str "docs/a.md") payload config docs_allowed

abbrev patch : String
patch =
    "diff --git a/docs/a.md b/docs/a.md\n--- a/docs/a.md\n+++ b/docs/a.md\n@@ -1 +1 @@\n-old\n+new\n"

patch_read : parse_patch_paths false (ok patch) ≡ ok ("docs/a.md" ∷ [])
unfolding parse_patch_paths
patch_read = refl

parse_patch_paths-Accepted_example :
    (false ≡ false)
    × ((text : String) × (◌≡◌ {A = Result Exn String} (ok patch) (ok text))
        × Accepted text ("docs/a.md" ∷ []))
parse_patch_paths-Accepted_example =
    parse_patch_paths-Accepted false (ok patch) ("docs/a.md" ∷ []) patch_read
