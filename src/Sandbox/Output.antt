-- ===== src/Sandbox/Output.antt =====
-- `collect_bounded` of scripts/engineering_qa/bwrap_sandbox_adapter.py. A round is a pass of its
-- `while` loop: whether the time is up, and what is read from the pipes that are ready. The rounds
-- that the system will give are an argument; where they end while a pipe is open the function has
-- not returned.
pub mod Undisturbed
pub mod Bounded
use frankensteinz_hermes.Base.{
  ltb, eqb, not, is_empty, ℕ, Bool, List, Option, String, length, false, true, none, some, [],
  if◌then◌else◌, ◌+◌, ◌||◌, ◌++◌, ◌∷◌,
}
use frankensteinz_hermes.Python.{ℤ, negsuc, pos}

abbrev pub Bytes : Type 0
Bytes = List ℕ

pub data Stream : Type 0 where
  stdout : Stream
  stderr : Stream

pub record Round : Type 0 where
  pub late : Bool
  pub reads : List (Stream × Bytes)

-- The chunks, joined, the count of bytes, and the pipes that are still registered.
pub record Collected : Type 0 where
  pub out : Bytes
  pub errors : Bytes
  pub total : ℕ
  pub out_open : Bool
  pub errors_open : Bool

abbrev pub nothing_read : Collected
nothing_read = record { out = []; errors = []; total = 0; out_open = true; errors_open = true }

-- `selector.unregister(key.fileobj)`
unfoldable pub unregister : Stream → Collected → Collected
unregister stdout c = record {
  out = c.out;
  errors = c.errors;
  total = c.total;
  out_open = false;
  errors_open = c.errors_open;
}
unregister stderr c = record {
  out = c.out;
  errors = c.errors;
  total = c.total;
  out_open = c.out_open;
  errors_open = false;
}

-- `total += len(data)`, and `chunks[key.data].append(data)` where the total is within the maximum
unfoldable pub append : Stream → Bytes → Collected → Collected
append stdout chunk c = record {
  out = c.out ++ chunk;
  errors = c.errors;
  total = c.total + length chunk;
  out_open = c.out_open;
  errors_open = c.errors_open;
}
append stderr chunk c = record {
  out = c.out;
  errors = c.errors ++ chunk;
  total = c.total + length chunk;
  out_open = c.out_open;
  errors_open = c.errors_open;
}

-- The `for` loop: whether the output is exhausted, and what has been collected.
unfoldable pub read_all : ℕ → List (Stream × Bytes) → Collected → Bool × Collected
unfolding unregister append
read_all maximum [] c = (false, c)
read_all maximum ((stream, chunk) ∷ reads) c =
    let closed = read_all maximum reads (unregister stream c) in
    let more = read_all maximum reads (append stream chunk c) in
    if is_empty chunk
    then closed
    else if ltb maximum (c.total + length chunk)
    then (true, c)
    else more

-- `selector.get_map()`
abbrev pub is_open : Collected → Bool
is_open c = c.out_open || c.errors_open

-- The `while` loop: the forced status, where there is one, and what has been collected.
unfoldable pub collect : ℕ → List Round → Collected → Option (Option String × Collected)
unfolding read_all
collect maximum [] c = if is_open c then none else some (none, c)
collect maximum (r ∷ rounds) c =
    let (exhausted, d) = read_all maximum r.reads c in
    let rest = collect maximum rounds d in
    if not (is_open c)
    then some (none, c)
    else if r.late
    then some (some "timeout", c)
    else if exhausted
    then some (some "output_exhausted", d)
    else rest

-- `forced_status or ("pass" if rc == 0 else "fail")`
abbrev pub final_status : Option String → ℤ → String
final_status (some forced) rc = forced
final_status none (pos n) = if eqb n 0 then "pass" else "fail"
final_status none (negsuc n) = "fail"

pub record Finished : Type 0 where
  pub status : String
  pub returncode : ℤ
  pub output : Bytes
  pub error_output : Bytes

abbrev pub finish : ℤ → Option (Option String × Collected) → Option Finished
finish rc none = none
finish rc (some (forced, c)) = some (record {
  status = final_status forced rc;
  returncode = rc;
  output = c.out;
  error_output = c.errors;
})

-- `rc` is the code that the process ends with.
unfoldable pub collect_bounded : ℕ → List Round → ℤ → Option Finished
unfolding collect
collect_bounded maximum rounds rc = finish rc (collect maximum rounds nothing_read)
