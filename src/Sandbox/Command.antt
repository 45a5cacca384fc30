-- ===== src/Sandbox/Command.antt =====
-- `build_command` of scripts/engineering_qa/bwrap_sandbox_adapter.py.
pub mod Isolated
use Prim.Native.String.{[] as []ₛ, ◌∷◌ as ◌∷ₛ◌}
use Prim.Native.Char.{code}
use frankensteinz_hermes.Base.{
  ◌&&◌, ℕ, zero, suc, String, Bool, ◌<>◌, ◌++◌, List, [], ◌∷◌, if◌then◌else◌, eqb,
}
use frankensteinz_hermes.Python.{pos, int}

-- `s.replace(c, t)`, for a character
abbrev pub replace_code : ℕ → String → String → String
replace_code c t []ₛ = ""
replace_code c t (d ∷ₛ s) =
    let rest = replace_code c t s in if eqb (code d) c then t <> rest else d ∷ₛ rest

-- `s[:n]`
abbrev pub take_text : ℕ → String → String
take_text ℕ.zero s = ""
take_text (suc n) []ₛ = ""
take_text (suc n) (c ∷ₛ s) = c ∷ₛ take_text n s

-- What the command is built from: the texts of the limits, the command of the profile, and which of
-- the paths of the host are there.
pub record Limits : Type 0 where
  pub memory : String
  pub tasks : String
  pub cpu : String
  pub runtime : String
  pub command : List String
  pub exists : String → Bool
  pub is_file : String → Bool

abbrev pub unit_name : String → String → String
unit_name job_id profile_id =
    "fzh-qa-"
    <> (take_text 20 (replace_code 45 "" job_id)
        <> ("-" <> take_text 24 (replace_code 58 "-" profile_id)))

abbrev pub fixed_options : List String
fixed_options =
    "--die-with-parent" ∷ "--new-session" ∷ "--unshare-all" ∷ "--clearenv" ∷ "--proc" ∷ "/proc"
    ∷ "--dev" ∷ "/dev" ∷ "--tmpfs" ∷ "/tmp" ∷ "--tmpfs" ∷ "/home" ∷ "--dir" ∷ "/home/qa" ∷ "--tmpfs"
    ∷ "/workspace" ∷ "--setenv" ∷ "HOME" ∷ "/home/qa" ∷ "--setenv" ∷ "PATH"
    ∷ "/usr/local/bin:/usr/bin:/bin" ∷ "--setenv" ∷ "LANG" ∷ "C.UTF-8" ∷ []

abbrev pub optional_binds : (String → Bool) → List String → List String
optional_binds there [] = []
optional_binds there (path ∷ paths) =
    let rest = optional_binds there paths in
    if there path then "--ro-bind" ∷ path ∷ path ∷ rest else rest

abbrev pub system_directories : List String
system_directories = "/usr" ∷ "/usr/local" ∷ "/bin" ∷ "/lib" ∷ "/lib64" ∷ []

abbrev pub system_files : List String
system_files = "/etc/ld.so.cache" ∷ "/etc/nsswitch.conf" ∷ "/etc/passwd" ∷ "/etc/group" ∷ []

abbrev pub candidate_bind : String → List String
candidate_bind workspace = "--ro-bind" ∷ workspace ∷ "/candidate" ∷ []

abbrev pub program : List String → List String
program command =
    "/bin/sh" ∷ "-c" ∷ "cp -a /candidate/. /workspace/ && cd /workspace && exec \"$@\"" ∷ "fzh-qa"
    ∷ command

-- The words behind `bwrap`.
unfoldable pub sandbox_words : String → Limits → List String
sandbox_words workspace l =
    fixed_options
    ++ (candidate_bind workspace
        ++ (optional_binds l.exists system_directories
            ++ (optional_binds l.is_file system_files ++ program l.command)))

unfoldable pub build_command : String → String → String → Limits → String × List String
unfolding sandbox_words
build_command job_id workspace profile_id l =
    let unit = unit_name job_id profile_id in
    (
      unit,
      "systemd-run"
          ∷ "--user"
          ∷ "--quiet"
          ∷ "--wait"
          ∷ "--pipe"
          ∷ "--collect"
          ∷ ("--unit=" <> unit)
          ∷ "--property=NoNewPrivileges=yes"
          ∷ "--property=RestrictSUIDSGID=yes"
          ∷ ("--property=MemoryMax=" <> l.memory)
          ∷ ("--property=TasksMax=" <> l.tasks)
          ∷ ("--property=CPUQuota=" <> l.cpu)
          ∷ ("--property=RuntimeMaxSec=" <> l.runtime)
          ∷ "--"
          ∷ "bwrap"
          ∷ sandbox_words workspace l,
    )
