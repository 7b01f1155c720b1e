-- ===== src/Extension/Started.antt =====
-- src/Exstension.cpp: the state in which the extension starts.
use sm_ext_rpc.Base.{
  subst, ◌⊎◌, ◌<◌, String, false, none, some, List, [], ◌∷◌, Bytes, ◌≡◌, refl, ◌≢◌, arith, ◌||◌,
  str_eq, eq_iff, ◌∙◌, inl, inr, Bool-cases, eq_refl,
}
use sm_ext_rpc.Base.Int.{pos, ◌≤ℤ◌, ◌<ℤ◌, leb_ℤ, ltb_ℤ}
use sm_ext_rpc.Base.Dict.{Dict, lookup, lookup-insert}
use sm_ext_rpc.Json.{JsonLib}
use sm_ext_rpc.Config.{CoreConfig, ServerConfig, Loading, Loaded, done, raised, new_config}
use sm_ext_rpc.Config
use sm_ext_rpc.Processor
use sm_ext_rpc.Processor.{Processor, ServerId, register_server}
use sm_ext_rpc.Server.{new_server, connect_to}
use sm_ext_rpc.EventLoop.{on_ext_load, EventLoop, register_service, init_loop}
use sm_ext_rpc.Extension.{
  load_component, Component, Running, Start, refused, running, add_server, add_servers, start,
  start_loaded, sdk_on_load, load_components,
}

-- A configuration with which the extension starts.
pub record IsUsableConfig (config : CoreConfig) : Type 0 where
  pub positive : pos 0 <ℤ config.port
  pub small : config.port ≤ℤ pos 65535
  pub has_address : config.address ≢ ""
  pub has_secret : config.secret ≢ ""

-- Each name stands once.
abbrev pub HasUniqueKeys : Dict ServerConfig → Type 0
HasUniqueKeys [] = Unit
HasUniqueKeys ((name, server) ∷ rest) = (lookup name rest ≡ none) × HasUniqueKeys rest

-- The name is served by a server object of this address and port.
pub record IsServed (r : Running) (name : String) (server : ServerConfig) : Type 0 where
  pub id : ServerId
  pub registered : lookup name r.processor.servers ≡ some (some id)
  pub old : id < r.fresh
  pub created : r.peers id ≡ some (new_server server.address server.port)

add_server-IsServed :
    (name : String) (server : ServerConfig) (r : Running)
    → IsServed (add_server name server r) name server
unfolding add_server register_server connect_to
add_server-IsServed name server r = record {
  id = r.fresh;
  registered = rw (lookup-insert name name (some r.fresh) r.processor.servers, eq_refl name) refl;
  old = omega arith;
  created = ground arith;
}

add_server-IsServed_other :
    (name other : String) (server added : ServerConfig) (r : Running)
    → str_eq other name ≡ false
    → IsServed r name server
    → IsServed (add_server other added r) name server
unfolding add_server register_server connect_to
add_server-IsServed_other name other server added r e h = record {
  id = h.id;
  registered = rw (lookup-insert other name (some r.fresh) r.processor.servers, e) (h.registered);
  old = omega (arith, h.old);
  created = ground (arith, h.old, h.created);
}

add_servers-IsServed_other :
    (servers : Dict ServerConfig) (name : String) (server : ServerConfig) (r : Running)
    → lookup name servers ≡ none
    → IsServed r name server
    → IsServed (add_servers servers r) name server
unfolding add_servers lookup
add_servers-IsServed_other [] name server r e h = h
add_servers-IsServed_other ((other, added) ∷ rest) name server r e h =
    add_servers-IsServed_other rest name server (add_server other added r) (ground arith) (
      add_server-IsServed_other name other server added r
        (ground (arith, eq_iff name other, eq_iff other name)) h)

pub add_servers-IsServed :
    (servers : Dict ServerConfig) (name : String) (server : ServerConfig) (r : Running)
    → HasUniqueKeys servers
    → lookup name servers ≡ some server
    → IsServed (add_servers servers r) name server
unfolding add_servers lookup
add_servers-IsServed [] name server r unique e = absurd cc
add_servers-IsServed ((other, added) ∷ rest) name server r unique e =
    elim (Bool-cases (str_eq other name)) [
      | inl same ↦
          let named : other ≡ name = ground (arith, eq_iff other name) in
          let meant : added ≡ server = ground (arith, eq_iff other name, eq_iff name other) in
          let last = add_server other added r in
          let served =
            add_servers-IsServed_other rest other added last (unique.0)
              (add_server-IsServed other added r) in
          subst (λ n. IsServed (add_servers rest last) n server) named
            (subst (λ c. IsServed (add_servers rest last) other c) meant served)
      | inr differs ↦
          add_servers-IsServed rest name server (add_server other added r) (unique.1)
            (ground (arith, eq_iff other name, eq_iff name other))
    ]

-- What `SDK_OnLoad` sets up from a configuration.
pub record IsStarted (config : CoreConfig) (r : Running) : Type 0 where
  pub listens : r.loop.listen ≡ some (config.address, config.port)
  pub signs : r.processor.api_key ≡ config.secret
  pub serves :
      (name : String) (server : ServerConfig)
      → lookup name config.servers ≡ some server
      → IsServed r name server

load_component-listen :
    (c : Component) (loop : EventLoop) → (load_component c loop).listen ≡ loop.listen
unfolding load_component on_ext_load
load_component-listen Component.event_loop loop = refl
load_component-listen _ loop = refl

load_components-listen :
    (components : List Component) (loop : EventLoop)
    → (load_components components loop).listen ≡ loop.listen
unfolding load_components
load_components-listen [] loop = refl
load_components-listen (c ∷ rest) loop =
    load_components-listen rest (load_component c loop) ∙ load_component-listen c loop

add_servers-listen :
    (servers : Dict ServerConfig) (r : Running)
    → ((add_servers servers r).loop.listen ≡ r.loop.listen)
      × ((add_servers servers r).processor.api_key ≡ r.processor.api_key)
unfolding add_servers add_server register_service register_server
add_servers-listen [] r = (refl, refl)
add_servers-listen ((name, server) ∷ rest) r =
    let later = add_servers-listen rest (add_server name server r) in (later.0, later.1)

-- The state before the servers are added, and at the end.
abbrev opened : CoreConfig → Running → Running
opened config r = record r {
  loop = (init_loop config.address config.port r.loop).0;
  processor = Processor.init config.secret r.processor;
}

abbrev begun : CoreConfig → List Component → Running → Running
begun config components r =
    let all = add_servers config.servers (opened config r) in
    record all { loop = load_components components all.loop }

begun-IsStarted :
    (config : CoreConfig) (components : List Component) (r : Running)
    → HasUniqueKeys config.servers
    → IsStarted config (begun config components r)
unfolding init_loop Processor.init
begun-IsStarted config components r unique =
    let first = opened config r in
    let all = add_servers config.servers first in
    let kept = add_servers-listen config.servers first in
    record {
      listens = load_components-listen components all.loop ∙ kept.0;
      signs = kept.1;
      serves = λ name server e.
          let h = add_servers-IsServed config.servers name server first unique e in
          record { id = h.id; registered = h.registered; old = h.old; created = h.created };
    }

Outcome : CoreConfig → Start → Type 0
Outcome config result =
    ((r' : Running) × (result ≡ running r') × IsUsableConfig config × IsStarted config r')
    ⊎ ((text : String) × (result ≡ refused text) × ¬ IsUsableConfig config)

start_lem :
    (config : CoreConfig) (components : List Component) (r : Running)
    → HasUniqueKeys config.servers
    → Outcome config (start config components r)
unfolding start Outcome
start_lem config components r unique =
    elim (Bool-cases (leb_ℤ config.port (pos 0) || ltb_ℤ (pos 65535) config.port)) [
      | inl e ↦ inr (
        "Invalid listen port provided in configuration",
        rw (start, e) refl,
        λ u. ground (arith, u.positive, u.small),
      )
      | inr e ↦ elim (Bool-cases (str_eq config.address "")) [
        | inl e2 ↦ inr (
          "No listen address provided in configuration",
          rw (start, e, e2) refl,
          λ u. u.has_address ((eq_iff config.address "").0 e2),
        )
        | inr e2 ↦ elim (Bool-cases (str_eq config.secret "")) [
          | inl e3 ↦ inr (
            "No signing key provided in configuration",
            rw (start, e, e2, e3) refl,
            λ u. u.has_secret ((eq_iff config.secret "").0 e3),
          )
          | inr e3 ↦ inl (
            begun config components r,
            rw (start, e, e2, e3) refl,
            record {
              positive = ground arith;
              small = ground arith;
              has_address = ground (arith, eq_iff config.address "");
              has_secret = ground (arith, eq_iff config.secret "");
            },
            begun-IsStarted config components r unique,
          )
        ]
      ]
    ]

-- If the configuration file is read without an exception and each server name stands once,
-- SDK_OnLoad returns true exactly if the port is from 1 to 65535 and neither address nor key is
-- empty; the event loop then listens there, the processor has the key, and every configured server
-- is registered under its name with its address and port.
pub sdk_on_load_lem :
    (J : JsonLib) (body : Bytes) (components : List Component) (r : Running) (l : Loading)
    → Config.init J body new_config ≡ done l
    → HasUniqueKeys l.config.servers
    → ((r' : Running) × (sdk_on_load J body components r ≡ running r')
        × IsUsableConfig l.config
        × IsStarted l.config r')
      ⊎ ((text : String) × (sdk_on_load J body components r ≡ refused text)
          × ¬ IsUsableConfig l.config)
unfolding sdk_on_load start_loaded Outcome
sdk_on_load_lem J body components r l loaded unique =
    rw (sdk_on_load, loaded) (start_lem l.config components r unique)
