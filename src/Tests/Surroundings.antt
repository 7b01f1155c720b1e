-- ===== src/Tests/Surroundings.antt =====
-- The theorems about the configuration, the connections and the start at sample inputs.
use sm_ext_rpc.Base.{String, none, some, List, [], ◌∷◌, Bytes, ◌≡◌, refl, true, false, ◌<◌, ◌⊎◌}
use sm_ext_rpc.Base.Int.{pos, negsuc}
use sm_ext_rpc.Base.Dict.{insert, lookup}
use sm_ext_rpc.Json.{
  at, as_int, is_number, as_string, is_null, is_object, is_string, is_number_integer, member,
}
use sm_ext_rpc.Json.Wire.{packet}
use sm_ext_rpc.Config
use sm_ext_rpc.Config.{CoreConfig, ServerConfig, Loading, Loaded, done, raised, new_config}
use sm_ext_rpc.Config.Read.{integer_of, text_of}
use sm_ext_rpc.Config.Settings.{init_lem, or_else, servers_read}
use sm_ext_rpc.Extension.{Component, Running, running, refused, sdk_on_load}
use sm_ext_rpc.Extension.Started.{IsUsableConfig, IsStarted, sdk_on_load_lem}
use sm_ext_rpc.EventLoop.{new_loop}
use sm_ext_rpc.Server.{other, on_read_error, is_closed, Server, on_connected, send}
use sm_ext_rpc.Server.Reading.{Connection, Reach, Step, Reach-reads, Reach-unheard}
use sm_ext_rpc.Server.Delivery.{Attempt}
use sm_ext_rpc.SocketHandler.{session}
use sm_ext_rpc.SocketHandler.Framing.{Arrival, reads_of, first_packets, session-packets}
use sm_ext_rpc.Tests.Tree.{Value, str, int, obj, end, entry, reread}
use sm_ext_rpc.Tests.Library.{tree_plain, tree_json, tree_json-IsLawful, tree_json-IsReadBack}
use sm_ext_rpc.Tests.Samples.{env, caller, receiver}

-- A configuration with one server that is complete and one without an address.
abbrev written : Value
written = obj (
    entry "port" (int (pos 4000)) (
      entry "address" (str "0.0.0.0") (
        entry "secret" (str "k") (
          entry "servers"
            (obj (
              entry "b" (obj (entry "port" (int (pos 4001)) (entry "address" (str "10.0.0.2") end)))
                (entry "c" (obj (entry "port" (int (pos 4002)) end)) end)))
            end))))

abbrev file : Value
file = reread written

abbrev pub text : Bytes
text = packet (tree_json.dump written)

init_lem_example :
    (l : Loading) × (Config.init tree_json text new_config ≡ done l)
    × (l.config.port ≡ or_else (integer_of tree_json tree_json-IsLawful file "port") (negsuc 0))
    × (l.config.address ≡ or_else (text_of tree_json tree_json-IsLawful file "address") "")
    × (l.config.secret ≡ or_else (text_of tree_json tree_json-IsLawful file "secret") "")
    × ((name : String)
        → lookup name l.config.servers
          ≡ servers_read tree_json tree_json-IsLawful (member tree_json file "servers") name none)
unfolding is_null is_object member lookup
init_lem_example =
    init_lem tree_json tree_json-IsLawful text new_config file
      (tree_json-IsReadBack.parse-dump written (tree_plain _)) refl (λ h. (refl, (refl, tt)))

abbrev pub unstarted : Running
unstarted = record {
  loop = new_loop;
  processor = caller;
  peers = λ s. none;
  fresh = 5;
  started = [];
}

abbrev pub components : List Component
components = Component.json_natives ∷ Component.event_loop ∷ []

abbrev pub usable : CoreConfig
usable = record {
  port = pos 4000;
  address = "0.0.0.0";
  secret = "k";
  servers = ("b", record { port = pos 4001; address = "10.0.0.2" }) ∷ [];
}

abbrev pub read_config : Loading
read_config = record { config = usable; log = Config.no_address "c" ∷ [] }

pub config_is_read : Config.init tree_json text new_config ≡ done read_config
unfolding Config.init is_null is_object is_string is_number_integer member lookup at as_int
    is_number as_string insert
config_is_read = rw (Config.init, tree_json-IsReadBack.parse-dump written (tree_plain _)) refl

sdk_on_load_lem_example :
    ((r : Running) × (sdk_on_load tree_json text components unstarted ≡ running r)
      × IsUsableConfig usable
      × IsStarted usable r)
    ⊎ ((t : String) × (sdk_on_load tree_json text components unstarted ≡ refused t)
        × ¬ IsUsableConfig usable)
unfolding lookup
sdk_on_load_lem_example =
    sdk_on_load_lem tree_json text components unstarted read_config config_is_read (refl, tt)

abbrev pub peer : Server
peer = record { port = pos 4001; address = "10.0.0.2"; connected = false }

abbrev up : Server
up = record peer { connected = true }

abbrev unread : Connection
unread = record { server = peer; reads = 0; connects = 1 }

abbrev first_connection : Connection
first_connection = record { server = up; reads = 1; connects = 0 }

Reach-reads_example : 0 < first_connection.reads
unfolding on_connected
Reach-reads_example =
    Reach-reads env peer 1 first_connection
      (Reach.there unread _ Reach.here (Step.connects peer 0 0 none none)) refl (tt, tt) refl

-- The read fails with the code 110, and a message is sent after that.
abbrev unheard : Connection
unheard = record { server = up; reads = 0; connects = 0 }

sent_after : Reach env unheard unheard
unfolding send
sent_after = Reach.there unheard _ Reach.here (Step.sends unheard (1 ∷ []))

Reach-unheard_example :
    (unheard.server.connected ≡ true) × (unheard.reads ≡ 0) × (unheard.connects ≡ 0)
unfolding on_read_error is_closed
Reach-unheard_example =
    Reach-unheard env first_connection unheard unheard (Step.fails up 0 0 (other 110)) tt refl refl
      refl sent_after

-- Three messages, the second of which is lost with its lookup.
abbrev attempts : List Attempt
attempts =
    record { msg = 1 ∷ []; lookup = none; connection = none }
    ∷ record { msg = 2 ∷ []; lookup = some (other 11); connection = none }
    ∷ record { msg = 3 ∷ []; lookup = none; connection = none }
    ∷ []

-- Two packets that arrive together, and one that arrives later.
abbrev arrivals : List Arrival
arrivals =
    record { now = pos 110; body = 1 ∷ []; extra = packet (2 ∷ []) }
    ∷ record { now = pos 111; body = 3 ∷ []; extra = [] }
    ∷ []

session-packets_example :
    session env receiver "10.0.0.1" [] (reads_of arrivals)
    ≡ first_packets env receiver "10.0.0.1" arrivals
session-packets_example = session-packets env arrivals receiver "10.0.0.1"
