-- ===== src/Server.antt =====
-- src/Server.hpp and src/Server.cpp: a connection to another server. Boost.Asio is not modelled:
-- what a function starts is returned as a list of operations, and the completion of an operation
-- is a function of its own, the handler, with the error code that Asio passes.
pub mod Reading
pub mod Delivery
use sm_ext_rpc.Base.{
  take, ℕ, suc, String, Bool, true, false, Option, none, some, List, [], ◌∷◌, ◌++◌, Bytes, Result,
  ok, ◌>>=◌, ◌-◌, ◌%◌, if◌then◌else◌, not, ◌||◌,
}
use sm_ext_rpc.Base.Int.{ℤ, pos, negsuc}
use sm_ext_rpc.Json.Wire.{packet}

-- The error codes that the code tells apart.
pub data ErrorCode : Type 0 where
  eof connection_reset : ErrorCode
  other : ℕ → ErrorCode

-- `Server`, without Asio's objects. The buffer `data` is empty whenever a read is started.
pub record Server : Type 0 where
  pub port : ℤ
  pub address : String
  pub connected : Bool

-- What is started: the lookup of an address, whose callback sends a message if there is one, the
-- connection to the endpoint that was found, a read up to a terminator, a write; and the
-- synchronous closing of the socket.
pub data Operation : Type 0 where
  resolve : String → ℕ → Option Bytes → Operation
  connect : Option Bytes → Operation
  read : Operation
  write : Bytes → Operation
  close : Operation

-- A line in the error log. `boost_error` has the code whose message the program hands to `LogError`
-- as a `std::string` where a `%s` wants a pointer: what is printed of it is not modelled.
pub data LogLine : Type 0 where
  resolving_failed connecting_failed : String → ErrorCode → LogLine
  now_connected : String → ℤ → LogLine
  boost_error : ErrorCode → LogLine

pub record Outcome : Type 0 where
  pub server : Server
  pub started : List Operation
  pub log : List LogLine

-- The constructor.
unfoldable pub new_server : String → ℤ → Server
new_server address port = record { port = port; address = address; connected = false }

-- The number that `%hu` prints of an `int`: the low sixteen bits.
pub port_number : ℤ → ℕ
port_number (pos n) = n % 65536
port_number (negsuc n) = 65535 - n % 65536

-- `Connect`; the callback that `Send` hands over sends its message, that of the other callers is
-- empty.
unfoldable pub connect_to : Option Bytes → Server → Outcome
unfolding port_number
connect_to callback s = record {
  server = s;
  started = resolve s.address (port_number s.port) callback ∷ [];
  log = [];
}

-- The handler of the lookup.
unfoldable pub on_resolved : Option ErrorCode → Option Bytes → Server → Outcome
on_resolved (some ec) callback s = record {
  server = s;
  started = [];
  log = resolving_failed s.address ec ∷ [];
}
on_resolved none callback s = record { server = s; started = connect callback ∷ []; log = [] }

-- `Send`
unfoldable pub send : Bytes → Server → Outcome
unfolding connect_to
send msg s =
    if not s.connected
    then connect_to (some msg) s
    else record { server = s; started = write (packet msg) ∷ []; log = [] }

-- The callback, if there is one.
pub call_back : Option Bytes → Server → Outcome
unfolding send
call_back none s = record { server = s; started = []; log = [] }
call_back (some msg) s = send msg s

-- The handler of the connection: the callback runs before the first read is started.
unfoldable pub on_connected : Option ErrorCode → Option Bytes → Server → Outcome
unfolding call_back
on_connected (some ec) callback s = record {
  server = s;
  started = [];
  log = connecting_failed s.address ec ∷ [];
}
on_connected none callback s =
    let out = call_back callback (record s { connected = true }) in
    record {
      server = out.server;
      started = out.started ++ read ∷ [];
      log = now_connected s.address s.port ∷ out.log;
    }

-- The handler of a write.
unfoldable pub on_written : Option ErrorCode → Server → Outcome
on_written (some ec) s = record { server = s; started = []; log = boost_error ec ∷ [] }
on_written none s = record { server = s; started = []; log = [] }

-- The handler of a read that failed.
unfoldable pub is_closed : ErrorCode → Bool
is_closed eof = true
is_closed connection_reset = true
is_closed (other n) = false

unfoldable pub on_read_error : ErrorCode → Server → Outcome
unfolding is_closed
on_read_error ec s =
    if is_closed ec
    then record {
      server = record s { connected = false };
      started = close ∷ [];
      log = boost_error ec ∷ [];
    }
    else record { server = s; started = []; log = boost_error ec ∷ [] }

-- The handler of a read that succeeded: `length` bytes of the buffer are the body, what follows
-- them is dropped with the buffer, and the next read is started. `handle` is `HandleReply`.
unfoldable pub on_read {ℓ} :
    {A : Type ℓ} → (Bytes → Result A) → Bytes → ℕ → Server → Result (A × Outcome)
on_read handle buffer length s = do
  a ← handle (take length buffer)
  ok (a, record { server = s; started = read ∷ []; log = [] })

-- `Run`: the handlers that are ready run in `poll`.
pub data Polling : Type 0 where
  poll : Polling

unfoldable pub run : Server → List Polling
run s = poll ∷ []

unfoldable pub get_port : Server → ℤ
get_port s = s.port

unfoldable pub get_address : Server → String
get_address s = s.address
