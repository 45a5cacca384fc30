-- ===== src/Gate/Audit.antt =====
-- What the audit log of scripts/action_gate/server.py says of the responses, and the fail-closed
-- boundary of server and client.
use frankensteinz_hermes.Gate.Loop.{
  connect, audited, Event, serve, exchange, timed_out, stop, Audited, Surroundings, Server, audit,
}
use frankensteinz_hermes.Base.{
  sym, Result-cases, strip, Bool, Result, ◌∙◌, false, err, ok, ◌<>◌, length, append-nil,
  Option-cases, List, Option, arith, inr, inl, none, refl, [], ◌≤◌, ◌≡◌, ◌++◌, ◌∷◌,
}
use frankensteinz_hermes.Python.{gate_error, Value, Exn}
use frankensteinz_hermes.Gate.Decide.{decide, Response, Hashes}
use frankensteinz_hermes.Gate.Request.{Request, validate_request}
use frankensteinz_hermes.Gate.Server.{
  class_name, recv_request, transport_failure, answer, Connection, invalid_request, Bytes,
}
use frankensteinz_hermes.Gate.Policy.{LoadedPolicy}
use frankensteinz_hermes.Gate.Guarantees.{decide-allow, decide-malformed}
use frankensteinz_hermes.Gate.Safety.{deny_ne_allow, Admitted}

-- The log is what was sent, and at most one more record.
pub record IsRecorded (server : Server) (failure : Option Exn) : Type 0 where
  pub extra : List Audited
  pub logged : server.log ≡ server.sent ++ extra
  pub one : length extra ≤ 1
  pub none_lost : failure ≡ none → extra ≡ []

audit-IsRecorded :
    (a : Audited) (s : Surroundings) (server : Server)
    → server.log ≡ server.sent
    → IsRecorded (audit a s server).0 (audit a s server).1
unfolding audit
audit-IsRecorded a s server e = elim (Option-cases s.write_failure) [
  | inl written ↦ elim (Option-cases s.flush_failure) [
    | inl flushed ↦ elim (Option-cases s.send_failure) [
      | inl sent ↦
          rw (written, flushed, sent)
            (record {
              extra = [];
              logged = rw (e, append-nil) refl;
              one = omega arith;
              none_lost = λ _. refl;
            })
      | inr (x, unsent) ↦
          rw (written, flushed, unsent)
            (record { extra = a ∷ []; logged = rw e refl; one = omega arith; none_lost = λ h. cc })
    ]
    | inr (x, unflushed) ↦
        rw (written, unflushed)
          (record { extra = a ∷ []; logged = rw e refl; one = omega arith; none_lost = λ h. cc })
  ]
  | inr (x, unwritten) ↦ rw unwritten (record {
    extra = [];
    logged = rw (e, append-nil) refl;
    one = omega arith;
    none_lost = λ h. cc;
  })
]

invalid_request_refused :
    validate_request invalid_request ≡ err (gate_error "request_risk_level_invalid")
unfolding validate_request strip
invalid_request_refused = refl

module _ (h : Hashes) (loads : Bytes → Result Exn Value) (policy : LoadedPolicy) where
  transport_failure-deny :
      (kill : Bool) (e : Exn)
      → (response : Response) × (transport_failure h loads policy kill e ≡ ok response)
        × (response.decision ≡ "deny")
  unfolding transport_failure
  transport_failure-deny kill e =
      let (response, found, deny, _, _) =
        decide-malformed h invalid_request policy kill _ invalid_request_refused in
      (record response { reason = "fail_closed:transport:" <> class_name e }, rw found refl, deny)

  -- The request that a connection brought, and what let it through.
  pub record Justified (c : Connection) : Type 0 where
    pub request : Value
    pub received : recv_request loads c.chunks ≡ ok request
    pub valid : Request
    pub validated : validate_request request ≡ ok valid
    pub kill_off : c.kill_switch ≡ false
    pub admitted : Admitted valid policy.raw

  -- Every connection gets a response, whatever its bytes, its request or the policy make the code
  -- raise; and where that response is "allow", a valid request came in whole, the kill switch was
  -- off, and no rule of the policy stood against it.
  pub answer_total :
      (c : Connection)
      → (response : Response) × (answer h loads policy c ≡ ok response)
        × (response.decision ≡ "allow" → Justified c)
  unfolding answer
  answer_total c = elim (Result-cases (recv_request loads c.chunks)) [
    | inl (request, received) ↦ elim (Result-cases (decide h request policy c.kill_switch)) [
      | inl (response, decided) ↦ (
        response,
        rw (received, decided) refl,
        λ allows.
            let (off, found) =
              decide-allow h request policy c.kill_switch response decided allows in
            record {
              request = request;
              received = received;
              valid = found.0;
              validated = found.1;
              kill_off = off;
              admitted = found.2;
            },
      )
      | inr (e, raised) ↦
          let (response, found, deny) = transport_failure-deny c.kill_switch_on_failure e in
          (
            response,
            rw (received, raised) found,
            λ allows. absurd (deny_ne_allow (sym deny ∙ allows)),
          )
    ]
    | inr (e, failed) ↦
        let (response, found, deny) = transport_failure-deny c.kill_switch_on_failure e in
        (response, rw failed found, λ allows. absurd (deny_ne_allow (sym deny ∙ allows)))
  ]

  exchange-IsRecorded :
      (c : Connection) (s : Surroundings) (server : Server)
      → server.log ≡ server.sent
      → IsRecorded (exchange h loads policy c s server).0 (exchange h loads policy c s server).1
  unfolding exchange
  exchange-IsRecorded c s server e =
      let (response, found, _) = answer_total c in
      rw (found, exchange) (audit-IsRecorded (audited response s) s server e)

  exchange-next :
      (c : Connection) (s : Surroundings) (server : Server)
      → server.log ≡ server.sent
      → (exchange h loads policy c s server).1 ≡ none
      → (exchange h loads policy c s server).0.log ≡ (exchange h loads policy c s server).0.sent
  exchange-next c s server e h =
      let r = exchange-IsRecorded c s server e in r.logged ∙ rw (r.none_lost h) (append-nil _)

  -- However the loop runs and ends, every response that was sent is in the audit log, in the order
  -- of sending; the log has at most one record more, and none unless a write, what follows it,
  -- or a sending failed.
  pub serve-IsRecorded :
      (events : List Event) (server : Server)
      → server.log ≡ server.sent
      → IsRecorded (serve h loads policy events server).0 (serve h loads policy events server).1
  unfolding serve
  serve-IsRecorded [] server e = record {
    extra = [];
    logged = rw (e, append-nil) refl;
    one = omega arith;
    none_lost = λ _. refl;
  }
  serve-IsRecorded (timed_out ∷ events) server e = serve-IsRecorded events server e
  serve-IsRecorded (stop ∷ events) server e = record {
    extra = [];
    logged = rw (e, append-nil) refl;
    one = omega arith;
    none_lost = λ _. refl;
  }
  serve-IsRecorded (connect c s ∷ events) server e =
      elim (Option-cases (exchange h loads policy c s server).1) [
        | inl fine ↦ rw fine (
            serve-IsRecorded events (exchange h loads policy c s server).0
              (exchange-next c s server e fine))
        | inr (x, failed) ↦ rw failed (exchange-IsRecorded c s server e)
      ]
