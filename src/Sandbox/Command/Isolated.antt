-- ===== src/Sandbox/Command/Isolated.antt =====
-- What the words behind `bwrap` mean, as its manual has it: options with their arguments, and then
-- the program.
use frankensteinz_hermes.Base.{
  append_assoc, Bool-cases, contains, append-nil, ℕ, Bool, List, String, ap, sym, ◌∙◌, inr, inl,
  false, true, refl, if◌then◌else◌, ◌≡◌, ◌==◌, ◌++◌, suc, [], ◌∷◌,
}
use Prim.Native.Nat.{ℕ}
use frankensteinz_hermes.Sandbox.Command.{
  system_directories, system_files, program, Limits, sandbox_words, optional_binds,
}

-- What Bubblewrap makes of the words: whether it leaves the namespaces of the host, whether it keeps
-- the network of the host all the same, the places at which the host can be written, and the program.
pub record Isolation : Type 0 where
  pub unshared : Bool
  pub networked : Bool
  pub writable : List String
  pub program_words : List String

-- What the next word is: an option or the program, an argument to pass over, the source and the
-- place of a writable mount, or a word of the program.
pub data Mode : Type 0 where
  ready : Mode
  passing : ℕ → Mode
  source place running : Mode

abbrev pub with_one : List String
with_one = "--proc" ∷ "--dev" ∷ "--tmpfs" ∷ "--dir" ∷ []

abbrev pub with_two : List String
with_two = "--setenv" ∷ "--ro-bind" ∷ []

abbrev pub with_none : List String
with_none = "--die-with-parent" ∷ "--new-session" ∷ "--clearenv" ∷ []

abbrev pub read_word : String → Mode × Isolation → Mode × Isolation
read_word word (ready, i) =
    if word == "--unshare-all"
    then (ready, record i { unshared = true })
    else if word == "--share-net"
    then (ready, record i { networked = true })
    else if word == "--bind"
    then (source, i)
    else if contains with_none word
    then (ready, i)
    else if contains with_one word
    then (passing 0, i)
    else if contains with_two word
    then (passing 1, i)
    else (running, record i { program_words = word ∷ [] })
read_word word (passing ℕ.zero, i) = (ready, i)
read_word word (passing (suc n), i) = (passing n, i)
read_word word (source, i) = (place, i)
read_word word (place, i) = (ready, record i { writable = word ∷ i.writable })
read_word word (running, i) = (running, record i { program_words = i.program_words ++ (word ∷ []) })

abbrev pub read_words : List String → Mode × Isolation → Mode × Isolation
read_words [] s = s
read_words (word ∷ words) s = read_words words (read_word word s)

abbrev pub host : Isolation
host = record { unshared = false; networked = false; writable = []; program_words = [] }

abbrev pub isolation_of : List String → Isolation
isolation_of words = (read_words words (ready, host)).1

read_words-append :
    (xs ys : List String) (s : Mode × Isolation)
    → read_words (xs ++ ys) s ≡ read_words ys (read_words xs s)
read_words-append [] ys s = refl
read_words-append (x ∷ xs) ys s = read_words-append xs ys (read_word x s)

-- The optional mounts are read-only.
read_words-optional_binds :
    (there : String → Bool) (paths : List String) (i : Isolation)
    → read_words (optional_binds there paths) (ready, i) ≡ (ready, i)
read_words-optional_binds there [] i = refl
read_words-optional_binds there (path ∷ paths) i = elim (Bool-cases (there path)) [
  | inl e ↦ rw e (read_words-optional_binds there paths i)
  | inr e ↦ rw e (read_words-optional_binds there paths i)
]

read_words-running :
    (words : List String) (i : Isolation)
    → read_words words (running, i)
      ≡ (running, record i { program_words = i.program_words ++ words })
read_words-running [] i =
    ap (λ ws. (running, record i { program_words = ws })) (sym (append-nil i.program_words))
read_words-running (word ∷ words) i =
    read_words-running words (record i { program_words = i.program_words ++ (word ∷ []) })
    ∙ ap (λ ws. (running, record i { program_words = ws }))
        (append_assoc i.program_words (word ∷ []) words)

abbrev isolated : List String → Isolation
isolated words = record { unshared = true; networked = false; writable = []; program_words = words }

-- Whatever the workspace, the profile and the host, the sandbox is one that leaves all namespaces of
-- the host, its network among them, and that has no place of the host to write to; and the program
-- that it runs is the shell that copies the candidate and starts the command of the profile.
pub sandbox_words-isolated :
    (workspace : String) (l : Limits)
    → isolation_of (sandbox_words workspace l) ≡ record {
      unshared = true;
      networked = false;
      writable = [];
      program_words = program l.command;
    }
unfolding sandbox_words
sandbox_words-isolated workspace l =
    let last = optional_binds l.is_file system_files ++ program l.command in
    ap (λ s. s.1)
      (read_words-append (optional_binds l.exists system_directories) last (ready, isolated [])
        ∙ (ap (read_words last)
              (read_words-optional_binds l.exists system_directories (isolated []))
            ∙ (read_words-append (optional_binds l.is_file system_files) (program l.command)
                  (ready, isolated [])
                ∙ (ap (read_words (program l.command))
                      (read_words-optional_binds l.is_file system_files (isolated []))
                    ∙ read_words-running l.command (
                        isolated (
                          "/bin/sh" ∷ "-c"
                          ∷ "cp -a /candidate/. /workspace/ && cd /workspace && exec \"$@\""
                          ∷ "fzh-qa" ∷ []))))))
