-- ===== src/Tests/Serving.antt =====
-- The gate's server and client at sample streams.
use frankensteinz_hermes.Tests.Samples.{policy, hashes, branch_write, fields}
use frankensteinz_hermes.Gate.Server.{Bytes, Connection, answer}
use frankensteinz_hermes.Gate.Decide.{Response}
use frankensteinz_hermes.Gate.Loop.{Event, connect, timed_out, Server, Surroundings, serve}
use frankensteinz_hermes.Gate.Audit.{Justified, answer_total, IsRecorded, serve-IsRecorded}
use frankensteinz_hermes.Gate.Client.{client, collect}
use frankensteinz_hermes.Gate.Client.Exits.{client-zero}
use frankensteinz_hermes.Base.{List, List, Result, false, none, some, err, ok, refl, [], ◌≡◌, ◌∷◌}
use frankensteinz_hermes.Python.{
  entries, lookup, str, json_decode_error, Fields, os_error, Value, Exn, dict,
}

-- A request in two chunks, with bytes behind its newline.
abbrev two_chunks : List Bytes
two_chunks = (1 ∷ 2 ∷ []) ∷ (3 ∷ 10 ∷ 4 ∷ []) ∷ []

abbrev loads : Bytes → Result Exn Value
loads [] = err json_decode_error
loads (b ∷ bs) = ok branch_write

abbrev connection : Connection
connection = record { chunks = two_chunks; kill_switch = false; kill_switch_on_failure = false }

answer_total_example :
    (response : Response) × (answer hashes loads policy connection ≡ ok response)
    × (response.decision ≡ "allow" → Justified hashes loads policy connection)
answer_total_example = answer_total hashes loads policy connection

abbrev quiet : Surroundings
quiet = record {
  event_id = "1";
  observed_at_utc = "now";
  write_failure = none;
  flush_failure = none;
  send_failure = none;
}

abbrev broken : Surroundings
broken = record {
  event_id = "2";
  observed_at_utc = "now";
  write_failure = none;
  flush_failure = none;
  send_failure = some (os_error "BrokenPipeError");
}

abbrev events : List Event
events =
    connect connection quiet ∷ timed_out ∷ connect connection broken ∷ connect connection quiet ∷ []

abbrev idle : Server
idle = record { log = []; sent = [] }

serve-IsRecorded_example :
    IsRecorded (serve hashes loads policy events idle).0 (serve hashes loads policy events idle).1
serve-IsRecorded_example = serve-IsRecorded hashes loads policy events idle refl

abbrev allow_answer : Value
allow_answer = fields (("decision", str "allow") ∷ [])

abbrev transport : Value → Result Exn (List Bytes)
transport v = ok two_chunks

client_allows : (client (ok branch_write) transport (λ bs. ok allow_answer)).code ≡ some 0
unfolding client
client_allows = refl

client-zero_example :
    (request : Value) × (chunks : List Bytes) × (received : Bytes) × (fs : Fields) × (◌≡◌
      {A = Result Exn Value}
      (ok branch_write)
      (ok request))
    × (transport request ≡ ok chunks)
    × (collect chunks 0 [] ≡ ok received)
    × (◌≡◌ {A = Result Exn Value} (ok allow_answer) (ok (dict fs)))
    × ((client (ok branch_write) transport (λ bs. ok allow_answer)).printed ≡ dict fs)
    × (lookup "decision" (entries fs) ≡ some (str "allow"))
client-zero_example = client-zero (ok branch_write) transport (λ bs. ok allow_answer) client_allows
