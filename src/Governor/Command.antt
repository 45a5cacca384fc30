-- ===== src/Governor/Command.antt =====
-- `main` of scripts/governor/governor.py behind its argument parser: what it prints, which slot it
-- takes and gives back, and how it exits. What the host says, the locks that it finds and what the
-- job's process does are arguments.
pub mod Governed
use frankensteinz_hermes.Governor.Snapshot.{
  snapshot, read_policy, light, heavy, WorkClass, Readings, Snapshot, item,
}
use frankensteinz_hermes.Governor.Slots.{Locks, acquire_heavy_slot, release}
use frankensteinz_hermes.Base.{
  suc, ◌>>◌, ℕ, Bool, List, Result, Option, String, false, true, [], ◌==◌, ◌/◌, ◌^◌, ◌∷◌, ◌++◌,
  ◌>>=◌, if◌then◌else◌, ok, err, some, none,
}
use frankensteinz_hermes.Python.{
  type_error, ℤ, Exn, list, Value, bool, int, float, str, Float, finite, infinite, nan, pos, negsuc,
  overflow_error, value_error,
}

pub data Request : Type 0 where
  status : WorkClass → Bool → Request
  run : WorkClass → List String → Request

pub data Effect : Type 0 where
  metrics_written shown : Effect
  acquired : ℕ → Effect
  executed : List String → Effect
  released : ℕ → Effect

-- `before` has the locks as the request has found them, at the attempt that has taken a slot where
-- there is one, and `locks` what the request itself leaves of them.
pub record Ending : Type 0 where
  pub effects : List Effect
  pub before : Locks
  pub locks : Locks
  pub code : Result Exn ℤ

-- What `main` reads: the parsers of `float` and `int` on texts, the policy file, the host, the locks
-- at the moment at which each slot is tried, the process and what running the job's command gives.
pub record Host : Type 0 where
  pub parse_float : String → Result Exn Float
  pub parse_int : String → Result Exn ℤ
  pub policy : Value
  pub readings : Readings
  pub seen : ℕ → Locks
  pub process : ℕ
  pub spawn : List String → Result Exn ℤ

-- `int(v)`
unfoldable pub to_int : (String → Result Exn ℤ) → Value → Result Exn ℤ
to_int parse (bool true) = ok (pos 1)
to_int parse (bool false) = ok (pos 0)
to_int parse (int z) = ok z
to_int parse (float (finite (pos m) k)) = ok (pos (m / 2 ^ k))
to_int parse (float (finite (negsuc m) k)) = elim (suc m / 2 ^ k) [
  | ℕ.zero ↦ ok (pos 0)
  | suc n ↦ ok (negsuc n)
]
to_int parse (float (infinite b)) = err overflow_error
to_int parse (float nan) = err (value_error "cannot convert float NaN to integer")
to_int parse (str s) = parse s
to_int parse v = err type_error

-- The length of `range(z)`.
abbrev pub range_length : ℤ → ℕ
range_length (pos n) = n
range_length (negsuc n) = 0

-- `int(policy["concurrency"]["heavy_slots"])`, behind the directory of the locks, which is read from
-- the policy also where the environment names one.
unfoldable pub heavy_slots : Host → Result Exn ℕ
unfolding item to_int
heavy_slots w = do
  runtime ← item "runtime" w.policy
  directory ← item "lock_directory" runtime
  concurrency ← item "concurrency" w.policy
  v ← item "heavy_slots" concurrency
  z ← to_int w.parse_int v
  ok (range_length z)

-- `read_policy`, then `snapshot`
unfoldable pub take_snapshot : Host → WorkClass → Result Exn Snapshot
unfolding read_policy snapshot
take_snapshot w work_class = do
  policy ← read_policy w.policy
  snapshot w.parse_float policy work_class w.readings

-- `if args.argv[0] == "--": args.argv = args.argv[1:]`
abbrev pub strip_dashes : List String → List String
strip_dashes [] = []
strip_dashes (first ∷ rest) = if first == "--" then rest else first ∷ rest

abbrev pub ended : Host → List Effect → Result Exn ℤ → Ending
ended w effects code = record {
  effects = effects;
  before = w.seen 0;
  locks = w.seen 0;
  code = code;
}

-- The `try` statement, with the slot that `finally` gives back.
unfoldable pub execute : Host → Option ℕ → List String → Ending
execute w none argv = ended w (executed argv ∷ []) (w.spawn argv)
execute w (some index) argv = record {
  effects = acquired index ∷ executed argv ∷ released index ∷ [];
  before = w.seen index;
  locks = release index ((index, w.process) ∷ w.seen index);
  code = w.spawn argv;
}

-- A slot, where there is one: otherwise the heavy job is refused.
abbrev pub execute_in : Host → List String → Option ℕ → Ending
execute_in w argv none = ended w (shown ∷ []) (ok (pos 75))
execute_in w argv (some index) = execute w (some index) argv

unfoldable pub run_heavy : Host → List String → Result Exn ℕ → Ending
unfolding acquire_heavy_slot execute
run_heavy w argv (err e) = ended w [] (err e)
run_heavy w argv (ok slots) = execute_in w argv (acquire_heavy_slot slots w.seen)

unfoldable pub run_admitted : Host → WorkClass → List String → Ending
unfolding execute run_heavy heavy_slots
run_admitted w light argv = execute w none argv
run_admitted w heavy argv = run_heavy w argv (heavy_slots w)

-- `run`, for the words behind the double dash. Without any, the parser exits with its usage.
unfoldable pub run_words : Host → Snapshot → List String → Ending
unfolding run_admitted
run_words w s [] = ended w (shown ∷ []) (ok (pos 2))
run_words w s (name ∷ arguments) =
    if s.admitted
    then run_admitted w s.work_class (name ∷ arguments)
    else ended w (shown ∷ []) (ok (pos 75))

-- `0 if data["admitted"] else 75`
abbrev pub status_code : Snapshot → ℤ
status_code s = if s.admitted then pos 0 else pos 75

unfoldable pub respond : Host → Request → Snapshot → Ending
unfolding run_words
respond w (status work_class writes) s =
    ended w ((if writes then metrics_written ∷ [] else []) ++ (shown ∷ [])) (ok (status_code s))
respond w (run work_class argv) s = run_words w s (strip_dashes argv)

abbrev pub class_of : Request → WorkClass
class_of (status work_class writes) = work_class
class_of (run work_class argv) = work_class

-- An exception of the policy or of the snapshot ends the run.
abbrev pub respond_or_raise : Host → Request → Result Exn Snapshot → Ending
respond_or_raise w q (err e) = ended w [] (err e)
respond_or_raise w q (ok s) = respond w q s

unfoldable pub main : Host → Request → Ending
unfolding respond take_snapshot
main w q = respond_or_raise w q (take_snapshot w (class_of q))
