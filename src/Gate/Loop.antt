-- ===== src/Gate/Loop.antt =====
-- `audit` and the serving loop of `main` in scripts/action_gate/server.py. A record is in the log
-- before its response is sent; what the two writes raise ends the loop.
use frankensteinz_hermes.Gate.Policy.{LoadedPolicy}
use frankensteinz_hermes.Gate.Decide.{Hashes, Response}
use frankensteinz_hermes.Gate.Server.{Bytes, Connection, answer}
use frankensteinz_hermes.Base.{
  List, List, Result, Option, String, none, some, err, ok, [], ◌++◌, ◌∷◌,
}
use frankensteinz_hermes.Python.{Value, Exn}

pub record Audited : Type 0 where
  pub response : Response
  pub event_id : String
  pub observed_at_utc : String

-- The event's id and time, and what is raised, if anything: by the write of the log, by what follows
-- it in `audit` (`os.fsync`, `os.close` and `print`), and by sending the response.
pub record Surroundings : Type 0 where
  pub event_id : String
  pub observed_at_utc : String
  pub write_failure : Option Exn
  pub flush_failure : Option Exn
  pub send_failure : Option Exn

pub data Event : Type 0 where
  timed_out stop : Event
  connect : Connection → Surroundings → Event

-- The audit log and what the clients were sent, both oldest first.
pub record Server : Type 0 where
  pub log : List Audited
  pub sent : List Audited

unfoldable pub audited : Response → Surroundings → Audited
audited response s = record {
  response = response;
  event_id = s.event_id;
  observed_at_utc = s.observed_at_utc;
}

unfoldable pub send : Audited → Option Exn → Server → Server × Option Exn
send a none server = (record server { sent = server.sent ++ a ∷ [] }, none)
send a (some e) server = (server, some e)

-- What follows the write.
abbrev pub flush : Audited → Surroundings → Option Exn → Server → Server × Option Exn
flush a s none server = send a s.send_failure server
flush a s (some e) server = (server, some e)

unfoldable pub audit : Audited → Surroundings → Server → Server × Option Exn
unfolding send
audit a s server = elim s.write_failure [
  | none ↦ flush a s s.flush_failure (record server { log = server.log ++ a ∷ [] })
  | some e ↦ (server, some e)
]

-- What follows an exchange that has raised nothing, or the state at the exception.
abbrev unless_raised : Option Exn → Server × Option Exn → Server × Option Exn → Server × Option Exn
unless_raised none rest next = rest
unless_raised (some e) rest next = next

module _ (h : Hashes) (loads : Bytes → Result Exn Value) (policy : LoadedPolicy) where
  unfoldable pub exchange : Connection → Surroundings → Server → Server × Option Exn
  unfolding audited audit
  exchange c s server = elim (answer h loads policy c) [
    | ok response ↦ audit (audited response s) s server
    | err e ↦ (server, some e)
  ]

  -- The loop ends at a signal, and at what an exchange raises, which it returns.
  unfoldable pub serve : List Event → Server → Server × Option Exn
  unfolding exchange
  serve [] server = (server, none)
  serve (timed_out ∷ events) server = serve events server
  serve (stop ∷ events) server = (server, none)
  serve (connect c s ∷ events) server =
      let next = exchange c s server in
      let rest = serve events next.0 in unless_raised next.1 rest next
