-- ===== src/SocketHandler/Framing.antt =====
-- src/SocketHandler.cpp: which bytes of a connection are handled. `async_read_until` ends when the
-- buffer has a terminator, and `length` counts the bytes up to it and with it.
use sm_ext_rpc.Base.{
  List, [], ◌∷◌, String, Bytes, ℕ, ◌++◌, length, take-append, ◌≡◌, refl, Result, ok, throw, fault,
  ◌>>=◌,
}
use sm_ext_rpc.Base.Int.{ℤ}
use sm_ext_rpc.Json.Wire.{packet}
use sm_ext_rpc.Processor.{Env, Processor}
use sm_ext_rpc.Processor.Request.{Handled, Response, handle_request}
use sm_ext_rpc.Server.{read}
use sm_ext_rpc.SocketHandler.{Received, respond, on_read, session}

-- What arrives until a read ends: a packet, and what the peer sent right after it.
pub record Arrival : Type 0 where
  pub now : ℤ
  pub body : Bytes
  pub extra : Bytes

abbrev pub reads_of : List Arrival → List (ℤ × Bytes × ℕ)
reads_of [] = []
reads_of (a ∷ rest) = (a.now, packet a.body ++ a.extra, length (packet a.body)) ∷ reads_of rest

module _ (E : Env) where
  -- The first packet of each arrival is handled, and nothing else.
  abbrev pub first_packets :
      Processor → String → List Arrival → Result (List (Response E) × Processor)
  first_packets p remote [] = ok ([], p)
  first_packets p remote (a ∷ rest) = handle_request E p a.now remote (packet a.body) >>= λ handled.
      first_packets handled.processor remote rest >>= λ (responses, p').
      ok (handled.response ∷ responses, p')

  -- What `on_read` makes of a request that was handled.
  abbrev received_of : Handled E → Result (Received E)
  received_of handled =
      ok (record {
        handled = handled;
        started = respond E handled.response ++ read ∷ [];
        buffer = [];
      })

  abbrev go_on : List Arrival → String → Received E → Result (List (Response E) × Processor)
  go_on rest remote received =
      session E received.handled.processor remote received.buffer (reads_of rest)
      >>= λ (responses, p'). ok (received.handled.response ∷ responses, p')

  abbrev go_first : List Arrival → String → Handled E → Result (List (Response E) × Processor)
  go_first rest remote handled = first_packets handled.processor remote rest >>= λ (responses, p').
      ok (handled.response ∷ responses, p')

  after_first :
      (r : Result (Handled E)) (rest : List Arrival) (remote : String)
      → ((p : Processor) → session E p remote [] (reads_of rest) ≡ first_packets p remote rest)
      → (r >>= received_of >>= go_on rest remote) ≡ (r >>= go_first rest remote)
  after_first (ok handled) rest remote later = rw (later handled.processor) refl
  after_first (throw e) rest remote later = refl
  after_first fault rest remote later = refl

  -- If each read of a connection ends with a packet and what the peer sent right after it, then
  -- over the whole connection the first packet of each read is handled as a request, in order and
  -- with the processor that the one before it left, and what followed it is never handled: neither
  -- at once nor with a later read.
  pub session-packets :
      (arrivals : List Arrival) (p : Processor) (remote : String)
      → session E p remote [] (reads_of arrivals) ≡ first_packets p remote arrivals
  unfolding session on_read
  session-packets [] p remote = refl
  session-packets (a ∷ rest) p remote =
      rw (session, on_read, take-append (packet a.body) a.extra)
        (after_first (handle_request E p a.now remote (packet a.body)) rest remote
          (λ p'. session-packets rest p' remote))
