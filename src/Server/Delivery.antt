-- ===== src/Server/Delivery.antt =====
-- src/Server.cpp: what becomes of messages that are sent before the connection is there, from `Send`
-- to the socket. Each such `Send` starts a lookup and a connection of its own.
use sm_ext_rpc.Base.{
  Bool, true, false, Bytes, Option, none, some, List, [], ◌∷◌, ◌++◌, if◌then◌else◌,
}
use sm_ext_rpc.Json.Wire.{packet}
use sm_ext_rpc.Server.{
  Server, Operation, Outcome, ErrorCode, resolve, connect, read, write, on_resolved, on_connected,
  send,
}

-- A message with the errors with which its lookup and its connection end.
pub record Attempt : Type 0 where
  pub msg : Bytes
  pub lookup : Option ErrorCode
  pub connection : Option ErrorCode

-- Nothing that the server waits for.
abbrev pub idle : Server → Outcome
idle s = record { server = s; started = []; log = [] }

-- The handler of the operation that was started, with the error that Asio passes.
unfoldable pub follow : Option ErrorCode → List Operation → Server → Outcome
follow ec (resolve address port callback ∷ []) s = on_resolved ec callback s
follow ec (connect callback ∷ []) s = on_connected ec callback s
follow ec ops s = idle s

-- The end of a message whose `Send` started some operations.
unfoldable pub finish_attempt : Attempt → List Operation → Server → Outcome
finish_attempt a ops s =
    let found = follow a.lookup ops s in follow a.connection found.started found.server

-- The messages are sent one after the other, and what each has started ends in that order.
unfoldable pub send_each : List Attempt → Server → List (Attempt × List Operation)
send_each [] s = []
send_each (a ∷ rest) s = let out = send a.msg s in (a, out.started) ∷ send_each rest out.server

unfoldable pub finish_each : List (Attempt × List Operation) → Server → Server × List Operation
finish_each [] s = (s, [])
finish_each ((a, ops) ∷ rest) s =
    let out = finish_attempt a ops s in
    let (s', later) = finish_each rest out.server in (s', out.started ++ later)

abbrev pub is_clear : Option ErrorCode → Bool
is_clear none = true
is_clear (some ec) = false

-- The messages whose lookup and connection end without an error.
abbrev pub arrived : List Attempt → List Bytes
arrived [] = []
arrived (a ∷ rest) =
    let later = arrived rest in
    if is_clear a.lookup then (if is_clear a.connection then a.msg ∷ later else later) else later

-- What is written and read for a message that arrives.
abbrev pub written : List Bytes → List Operation
written [] = []
written (msg ∷ rest) = write (packet msg) ∷ read ∷ written rest

abbrev pub has_some : List Bytes → Bool
has_some [] = false
has_some (msg ∷ rest) = true
