-- ===== src/Extension.antt =====
-- src/Exstension.hpp and src/Exstension.cpp: loading and unloading the extension.
pub mod Started
pub mod Components
use sm_ext_rpc.Base.{
  ℕ, suc, String, Bool, ◌||◌, Option, none, some, List, [], ◌∷◌, ◌++◌, map, Bytes, Exception,
  str_eq, ◌==◌, if◌then◌else◌,
}
use sm_ext_rpc.Base.Int.{ℤ, pos, ltb_ℤ, leb_ℤ}
use sm_ext_rpc.Base.Dict.{Dict}
use sm_ext_rpc.Json.{JsonLib}
use sm_ext_rpc.Config.{CoreConfig, ServerConfig, Loading, Loaded, done, raised}
use sm_ext_rpc.Config
use sm_ext_rpc.Processor.{Processor, ServerId, register_server}
use sm_ext_rpc.Processor
use sm_ext_rpc.Server.{Server, Operation, new_server, connect_to}
use sm_ext_rpc.EventLoop.{EventLoop, init_loop, register_service, on_ext_load, on_ext_unload}

-- The objects that derive from `SMRPCBase`.
pub data Component : Type 0 where
  event_loop command_processor extension_natives json_natives call_natives context_natives :
      Component

-- The constructor of `SMRPCBase`: each object becomes the head of the list.
abbrev pub link : Component → List Component → List Component
link c head = c ∷ head

-- What `OnExtLoad` and `OnExtUnload` do for the objects of the list, in order.
unfoldable pub load_component : Component → EventLoop → EventLoop
load_component event_loop loop = on_ext_load loop
load_component _ loop = loop

unfoldable pub load_components : List Component → EventLoop → EventLoop
unfolding load_component
load_components [] loop = loop
load_components (c ∷ rest) loop = load_components rest (load_component c loop)

pub unload_component : Component → EventLoop → EventLoop
unload_component event_loop loop = on_ext_unload loop
unload_component _ loop = loop

-- `SDK_OnUnload`
pub sdk_on_unload : List Component → EventLoop → EventLoop
unfolding unload_component
sdk_on_unload [] loop = loop
sdk_on_unload (c ∷ rest) loop = sdk_on_unload rest (unload_component c loop)

-- The global objects, and the heap of servers with an address that `new` has not returned yet.
-- `started` has what the connections began.
pub record Running : Type 0 where
  pub loop : EventLoop
  pub processor : Processor
  pub peers : ServerId → Option Server
  pub fresh : ServerId
  pub started : List (ServerId × Operation)

-- An exception leaves `SDK_OnLoad`, it returns false with an error text, or it returns true.
pub data Start : Type 0 where
  failed : Exception → Start
  refused : String → Start
  running : Running → Start

abbrev pub started_by : ServerId → List Operation → List (ServerId × Operation)
started_by s ops = map (λ op. (s, op)) ops

-- One server of the configuration.
unfoldable pub add_server : String → ServerConfig → Running → Running
unfolding new_server connect_to register_service register_server
add_server name server r =
    let s = r.fresh in
    let out = connect_to none (new_server server.address server.port) in
    record {
      loop = register_service s r.loop;
      processor = register_server name s r.processor;
      peers = λ t. if s == t then some out.server else r.peers t;
      fresh = suc s;
      started = r.started ++ started_by s out.started;
    }

unfoldable pub add_servers : Dict ServerConfig → Running → Running
unfolding add_server
add_servers [] r = r
add_servers ((name, server) ∷ rest) r = add_servers rest (add_server name server r)

-- The checks of the configuration, and what follows when they are passed.
unfoldable pub start : CoreConfig → List Component → Running → Start
unfolding add_servers load_components init_loop
start config components r =
    if leb_ℤ config.port (pos 0) || ltb_ℤ (pos 65535) config.port
    then refused "Invalid listen port provided in configuration"
    else if str_eq config.address ""
    then refused "No listen address provided in configuration"
    else if str_eq config.secret ""
    then refused "No signing key provided in configuration"
    else let (loop, _) = init_loop config.address config.port r.loop in
      let r' : Running = record r {
        loop = loop;
        processor = Processor.init config.secret r.processor;
      } in
      let all = add_servers config.servers r' in
      running (record all { loop = load_components components all.loop })

unfoldable pub start_loaded : Loaded → List Component → Running → Start
unfolding start
start_loaded (raised e l) components r = failed e
start_loaded (done l) components r = start l.config components r

-- `SDK_OnLoad`; `body` is the content of the configuration file.
unfoldable pub sdk_on_load : JsonLib → Bytes → List Component → Running → Start
unfolding start_loaded
sdk_on_load J body components r = start_loaded (Config.init J body Config.new_config) components r
