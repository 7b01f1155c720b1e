-- ===== src/SocketHandler.antt =====
-- src/SocketHandler.hpp and src/SocketHandler.cpp: a connection from another server. As in
-- src/Server.cpp, what a function starts is returned, and a handler is a function of its own.
pub mod Framing
use sm_ext_rpc.Base.{
  String, Option, none, some, List, [], ◌∷◌, ◌++◌, ℕ, take, Bytes, Result, ok, ◌>>=◌,
}
use sm_ext_rpc.Base.Int.{ℤ}
use sm_ext_rpc.Json.Wire.{packet}
use sm_ext_rpc.Processor.{Env, Processor}
use sm_ext_rpc.Processor.Request.{Handled, Response, reply, silent, invoke, handle_request}
use sm_ext_rpc.Server.{ErrorCode, Operation, read, write, LogLine, boost_error}

module _ (E : Env) where
  open E use {json}
  open json use {dump}

  -- `do_write`
  pub do_write : Bytes → List Operation
  do_write response = write (packet response) ∷ []

  -- The callback is called at once with a reply; a plugin's function calls it later, or never.
  pub respond : Response E → List Operation
  unfolding do_write
  respond (reply res) = do_write (dump res)
  respond silent = []
  respond (invoke f method remote params pending) = []

  pub record Received : Type 0 where
    pub handled : Handled E
    pub started : List Operation
    -- The buffer of the next read.
    pub buffer : Bytes

  -- `Start`
  pub start : List Operation
  start = read ∷ []

  -- The handler of a read that succeeded: `length` bytes of the buffer are the request, a new buffer
  -- takes the place of the old one, and the next read is started. `remote` is the text of
  -- the peer's address.
  unfoldable pub on_read : Processor → ℤ → String → Bytes → ℕ → Result Received
  unfolding respond
  on_read p now remote buffer length =
      handle_request E p now remote (take length buffer) >>= λ handled.
      ok
        (record { handled = handled; started = respond handled.response ++ read ∷ []; buffer = [] })

  -- The reads of a connection one after the other: what arrives until the read ends is added to the
  -- buffer. The responses are in order.
  unfoldable pub session :
      Processor → String → Bytes → List (ℤ × Bytes × ℕ) → Result (List (Response E) × Processor)
  unfolding on_read
  session p remote before [] = ok ([], p)
  session p remote before ((now, chunk, length) ∷ reads) =
      on_read p now remote (before ++ chunk) length >>= λ received.
      session received.handled.processor remote received.buffer reads >>= λ (responses, p').
      ok (received.handled.response ∷ responses, p')

-- The handler of a read that failed, and the handler of a write.
pub on_read_error : ErrorCode → List LogLine
on_read_error ec = boost_error ec ∷ []

pub on_written : Option ErrorCode → List LogLine
on_written none = []
on_written (some ec) = boost_error ec ∷ []
