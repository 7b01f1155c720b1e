-- ===== src/EventLoop.antt =====
-- src/EventLoop.hpp and src/EventLoop.cpp: the listening socket and the services that every game
-- frame polls. The field `listening` is never used.
use sm_ext_rpc.Base.{String, Option, none, some, List, [], ◌∷◌, ◌++◌, map, Bool, true, false}
use sm_ext_rpc.Base.Int.{ℤ}
use sm_ext_rpc.Processor.{ServerId}
use sm_ext_rpc.Server.{Server, run, Polling, ErrorCode}

-- `IOService`, by what its virtual `Run` does: nothing, unless the class overrides it as `Server`
-- does.
pub record IoService : Type 0 where
  pub run : List Polling

unfoldable pub io_service : IoService
io_service = record { run = [] }

unfoldable pub server_service : Server → IoService
unfolding run
server_service s = record io_service { run = run s }

-- `EventLoop`; `listen` is the endpoint of the acceptor, and `hooked` whether `GameFrame` is a hook
-- of the game's frames.
pub record EventLoop : Type 0 where
  pub listen : Option (String × ℤ)
  pub services : List ServerId
  pub hooked : Bool

abbrev pub new_loop : EventLoop
new_loop = record { listen = none; services = []; hooked = false }

-- What happens on the event loop: the next connection is waited for, a handler of an accepted
-- connection is started, an error is logged, and an `io_service` is polled.
pub data Action : Type 0 where
  wait_for_connection start_handler : Action
  accept_error : ErrorCode → Action
  poll_listener : Action
  poll_service : ServerId → Action

-- `accept`
pub accept : List Action
accept = wait_for_connection ∷ []

-- The handler of an accepted connection.
unfoldable pub on_accept : Option ErrorCode → List Action
unfolding accept
on_accept none = start_handler ∷ accept
on_accept (some ec) = accept_error ec ∷ []

-- `Init`
unfoldable pub init_loop : String → ℤ → EventLoop → EventLoop × List Action
unfolding accept
init_loop address port loop = (record loop { listen = some (address, port) }, accept)

-- `RegisterService`
unfoldable pub register_service : ServerId → EventLoop → EventLoop
register_service s loop = record loop { services = loop.services ++ s ∷ [] }

-- `Run`
unfoldable pub run_loop : EventLoop → List Action
run_loop loop = poll_listener ∷ map poll_service loop.services

-- The hook of a frame.
unfoldable pub game_frame : Bool → EventLoop → List Action
unfolding run_loop
game_frame simulating loop = run_loop loop

unfoldable pub on_ext_load : EventLoop → EventLoop
on_ext_load loop = record loop { hooked = true }

unfoldable pub on_ext_unload : EventLoop → EventLoop
on_ext_unload loop = record loop { hooked = false }
