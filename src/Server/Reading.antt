-- ===== src/Server/Reading.antt =====
-- src/Server.cpp: whether a server that counts as connected is still read from. The state is the
-- server with the number of reads, and of lookups and connections, that are pending.
use sm_ext_rpc.Base.{
  ◌∙◌, ℕ, suc, ◌+◌, ◌<◌, true, false, Option, none, some, List, [], ◌∷◌, ◌++◌, Bytes, Result, ok,
  throw, Exception, ◌>>=◌, ◌≡◌, arith,
}
use sm_ext_rpc.Processor.{Env}
use sm_ext_rpc.Processor.Reply
use sm_ext_rpc.Processor.Reply.{State, handle_reply}
use sm_ext_rpc.Server.{
  Server, Operation, Outcome, ErrorCode, eof, connection_reset, other, is_closed, on_resolved,
  on_connected, on_read, on_read_error, send, connect_to, call_back,
}

pub record Connection : Type 0 where
  pub server : Server
  pub reads : ℕ
  pub connects : ℕ

-- The reads among the operations that are started.
abbrev pub reads_in : List Operation → ℕ
reads_in [] = 0
reads_in (Operation.read ∷ ops) = suc (reads_in ops)
reads_in (op ∷ ops) = reads_in ops

-- The lookups and connections among them.
abbrev pub connects_in : List Operation → ℕ
connects_in [] = 0
connects_in (Operation.resolve a p m ∷ ops) = suc (connects_in ops)
connects_in (Operation.connect m ∷ ops) = suc (connects_in ops)
connects_in (op ∷ ops) = connects_in ops

abbrev pub after : Outcome → ℕ → ℕ → Connection
after out n p = record {
  server = out.server;
  reads = reads_in out.started + n;
  connects = connects_in out.started + p;
}

module _ (E : Env) where
  -- The events at a server: a message is sent, a lookup or a connection ends, a read ends with a
  -- packet whose replies are handled, with a packet that makes `HandleReply` throw, or with an
  -- error. An exception leaves the handler before the next read is started.
  pub data Step : Connection → Connection → Type 0 where
    sends : (c : Connection) (msg : Bytes) → Step c (after (send msg c.server) c.reads c.connects)
    resolves :
        (s : Server) (n p : ℕ) (ec : Option ErrorCode) (callback : Option Bytes)
        → Step
            (record { server = s; reads = n; connects = suc p })
            (after (on_resolved ec callback s) n p)
    connects :
        (s : Server) (n p : ℕ) (ec : Option ErrorCode) (callback : Option Bytes)
        → Step
            (record { server = s; reads = n; connects = suc p })
            (after (on_connected ec callback s) n p)
    replies :
        (s : Server) (n p : ℕ) (st : State E) (buffer : Bytes) (length : ℕ) (step : Reply.Step E)
        (out : Outcome)
        → on_read (handle_reply E st) buffer length s ≡ ok (step, out)
        → Step (record { server = s; reads = suc n; connects = p }) (after out n p)
    raises :
        (s : Server) (n p : ℕ) (st : State E) (buffer : Bytes) (length : ℕ) (e : Exception)
        → on_read (handle_reply E st) buffer length s ≡ throw e
        → Step
            (record { server = s; reads = suc n; connects = p })
            (record { server = s; reads = n; connects = p })
    fails :
        (s : Server) (n p : ℕ) (ec : ErrorCode)
        → Step (record { server = s; reads = suc n; connects = p }) (after (on_read_error ec s) n p)

  -- The states that are reached from one.
  pub data Reach (c : Connection) : Connection → Type 0 where
    here : Reach c c
    there : (d e : Connection) → Reach c d → Step d e → Reach c e

  -- Reads that end with an error do so with one of the two that the handler treats as the end, and
  -- no exception leaves the handler of a read.
  abbrev pub IsClean : {c d : Connection} → Step c d → Type 0
  IsClean (Step.fails s n p ec) = is_closed ec ≡ true
  IsClean (Step.raises s n p st buffer length e h) = ⊥
  IsClean _ = Unit

  abbrev pub AreClean : {c d : Connection} → Reach c d → Type 0
  AreClean Reach.here = Unit
  AreClean (Reach.there d e r s) = AreClean r × IsClean s

  -- A connected server is read from.
  abbrev pub IsHeard : Connection → Type 0
  IsHeard c = c.server.connected ≡ true → 0 < c.reads

  reads_in-send : (msg : Bytes) (s : Server) → reads_in ((send msg s).started) ≡ 0
  unfolding send connect_to
  reads_in-send msg s = ground arith

  connected-send : (msg : Bytes) (s : Server) → (send msg s).server.connected ≡ s.connected
  unfolding send connect_to
  connected-send msg s = ground arith

  connects_in-send :
      (msg : Bytes) (s : Server) → s.connected ≡ true → connects_in ((send msg s).started) ≡ 0
  unfolding send connect_to
  connects_in-send msg s h = ground arith

  reads_in-append : (ops : List Operation) → 0 < reads_in (ops ++ Operation.read ∷ [])
  reads_in-append [] = omega arith
  reads_in-append (Operation.read ∷ ops) = omega arith
  reads_in-append (Operation.resolve a p m ∷ ops) = reads_in-append ops
  reads_in-append (Operation.connect m ∷ ops) = reads_in-append ops
  reads_in-append (Operation.write m ∷ ops) = reads_in-append ops
  reads_in-append (Operation.close ∷ ops) = reads_in-append ops

  -- A read that succeeds starts the next one.
  reads_in-on_read :
      (r : Result (Reply.Step E)) (s : Server) (step : Reply.Step E) (out : Outcome)
      → ◌>>=◌ {B = Reply.Step E × Outcome} r
          (λ a. ok (a, record { server = s; started = Operation.read ∷ []; log = [] }))
        ≡ ok (step, out)
      → reads_in out.started ≡ 1
  reads_in-on_read (ok a) s step out h = cc
  reads_in-on_read (throw e) s step out h = cc
  reads_in-on_read Result.fault s step out h = cc

  step-IsHeard : (c d : Connection) (s : Step c d) → IsClean s → IsHeard c → IsHeard d
  unfolding on_resolved on_connected on_read on_read_error is_closed
  step-IsHeard _ _ (Step.sends c msg) clean heard =
      λ h. ground (arith, reads_in-send msg (c.server), connected-send msg (c.server))
  step-IsHeard _ _ (Step.resolves s n p none callback) clean heard = λ h. omega (arith, heard h)
  step-IsHeard _ _ (Step.resolves s n p (some ec) callback) clean heard =
      λ h. omega (arith, heard h)
  step-IsHeard _ _ (Step.connects s n p none callback) clean heard = λ h.
      omega (arith, reads_in-append ((call_back callback (record s { connected = true })).started))
  step-IsHeard _ _ (Step.connects s n p (some ec) callback) clean heard =
      λ h. omega (arith, heard h)
  step-IsHeard _ _ (Step.replies s n p st buffer length step out e) clean heard =
      λ h. omega (arith, reads_in-on_read _ s step out e)
  step-IsHeard _ _ (Step.raises s n p st buffer length ex e) clean heard = absurd clean
  step-IsHeard _ _ (Step.fails s n p eof) clean heard = λ h. cc
  step-IsHeard _ _ (Step.fails s n p connection_reset) clean heard = λ h. cc
  step-IsHeard _ _ (Step.fails s n p (other code)) clean heard = λ h. cc

  Reach-IsHeard :
      (s : Server) (p : ℕ)
      → s.connected ≡ false
      → (c : Connection) (r : Reach (record { server = s; reads = 0; connects = p }) c) → AreClean r
      → IsHeard c
  Reach-IsHeard s p e _ Reach.here clean = λ h. cc
  Reach-IsHeard s p e _ (Reach.there c d r step) clean =
      step-IsHeard c d step (clean.1) (Reach-IsHeard s p e c r (clean.0))

  -- From a server that is not connected and not read from, with any number of lookups and
  -- connections pending, as long as every read that fails does so with the end or a reset of the
  -- connection and no packet makes HandleReply throw: whenever the server counts as connected, a
  -- read is pending.
  pub Reach-reads :
      (s : Server) (p : ℕ) (c : Connection)
      (r : Reach (record { server = s; reads = 0; connects = p }) c)
      → s.connected ≡ false
      → AreClean r
      → c.server.connected ≡ true
      → 0 < c.reads
  Reach-reads s p c r closed clean = Reach-IsHeard s p closed c r clean

  -- Connected, and nothing that is pending will start a read.
  abbrev pub IsUnheard : Connection → Type 0
  IsUnheard c = (c.server.connected ≡ true) × (c.reads ≡ 0) × (c.connects ≡ 0)

  step-IsUnheard : (c d : Connection) → Step c d → IsUnheard c → IsUnheard d
  step-IsUnheard _ _ (Step.sends c msg) (up, unread, unconnected) = (
    connected-send msg c.server ∙ up,
    omega (arith, reads_in-send msg c.server, unread),
    omega (arith, connects_in-send msg c.server up, unconnected),
  )
  step-IsUnheard _ _ (Step.resolves s n p ec callback) (up, unread, unconnected) =
      absurd (omega arith)
  step-IsUnheard _ _ (Step.connects s n p ec callback) (up, unread, unconnected) =
      absurd (omega arith)
  step-IsUnheard _ _ (Step.replies s n p st buffer length step out e) (up, unread, c) =
      absurd (omega arith)
  step-IsUnheard _ _ (Step.raises s n p st buffer length ex e) (up, unread, c) =
      absurd (omega arith)
  step-IsUnheard _ _ (Step.fails s n p ec) (up, unread, unconnected) = absurd (omega arith)

  Reach-IsUnheard : (c d : Connection) → IsUnheard c → Reach c d → IsUnheard d
  Reach-IsUnheard c _ h Reach.here = h
  Reach-IsUnheard c _ h (Reach.there d e r step) = step-IsUnheard d e step (Reach-IsUnheard c d h r)

  -- A read ends with an error other than the end or the reset of the connection, or with a packet
  -- that makes `HandleReply` throw.
  abbrev pub IsLost : {c d : Connection} → Step c d → Type 0
  IsLost (Step.fails s n p (other code)) = Unit
  IsLost (Step.raises s n p st buffer length e h) = Unit
  IsLost _ = ⊥

  lost-IsUnheard :
      (c d : Connection) (step : Step c d)
      → IsLost step
      → c.server.connected ≡ true
      → c.reads ≡ 1
      → c.connects ≡ 0
      → IsUnheard d
  unfolding on_read_error is_closed
  lost-IsUnheard _ _ (Step.fails s n p (other code)) lost up one unconnected =
      (up, omega (arith, one), omega (arith, unconnected))
  lost-IsUnheard _ _ (Step.fails s n p eof) lost up one unconnected = absurd lost
  lost-IsUnheard _ _ (Step.fails s n p connection_reset) lost up one unconnected = absurd lost
  lost-IsUnheard _ _ (Step.raises s n p st buffer length e h) lost up one unconnected =
      (up, omega (arith, one), omega (arith, unconnected))
  lost-IsUnheard _ _ (Step.sends c msg) lost up one unconnected = absurd lost
  lost-IsUnheard _ _ (Step.resolves s n p ec callback) lost up one unconnected = absurd lost
  lost-IsUnheard _ _ (Step.connects s n p ec callback) lost up one unconnected = absurd lost
  lost-IsUnheard _ _ (Step.replies s n p st buffer length step out e) lost up one unconnected =
      absurd lost

  -- If the only read of a connected server, with nothing else pending, ends with an error other
  -- than the end or a reset of the connection, or with a packet that makes HandleReply throw, then
  -- after any further events, such as messages that are sent, the server counts as connected and
  -- no read is pending: no reply is read again.
  pub Reach-unheard :
      (c d e : Connection) (step : Step c d)
      → IsLost step
      → c.server.connected ≡ true
      → c.reads ≡ 1
      → c.connects ≡ 0
      → Reach d e
      → (e.server.connected ≡ true) × (e.reads ≡ 0) × (e.connects ≡ 0)
  Reach-unheard c d e step lost up one unconnected =
      Reach-IsUnheard d e (lost-IsUnheard c d step lost up one unconnected)
