-- ===== src/Natives/Servers/Listed.antt =====
-- src/smn_extension.cpp: the server that a plugin adds, as the other natives show it.
use sm_ext_rpc.Base.{
  ◌++◌, suc, none, some, [], ◌∷◌, ok, ◌≡◌, refl, arith, eq_refl, if◌then◌else◌, ◌==◌,
}
use sm_ext_rpc.Base.Int.{pos}
use sm_ext_rpc.Base.Dict.{lookup, lookup-insert}
use sm_ext_rpc.Processor.{ServerId, Env, pointer, get_server, register_server}
use sm_ext_rpc.Server.{Server, new_server}
use sm_ext_rpc.Natives.{Plugin, SourceMod, Machine, Return, output, connect}
use sm_ext_rpc.Natives.Servers.{
  put_processor, rpc_add_server, rpc_get_server_port, rpc_get_server_address, with_server,
}

module _ (E : Env) (S : SourceMod (E.json)) where
  -- The machine after AddServer under a name that has no server.
  abbrev added : Plugin → Machine E S → Machine E S
  added p m =
      let name = p.text (p.params 1) in
      record (put_processor E S (register_server name m.fresh (get_server name m.core.processor).1)
        m) {
          fresh = suc m.fresh;
          peers = λ t. if m.fresh == t then some (new_server name (p.params 3)) else m.peers t;
          services = m.services ++ m.fresh ∷ [];
        }

  rpc_add_server_lem :
      (p : Plugin) (m : Machine E S)
      → pointer (lookup (p.text (p.params 1)) m.core.processor.servers) ≡ none
      → rpc_add_server E S p m
        ≡ ok (record { cell = pos 1; effects = connect m.fresh ∷ []; machine = added p m })
  unfolding rpc_add_server get_server
  rpc_add_server_lem p m missing = rw (rpc_add_server, get_server, missing) refl

  -- What the plugin's first parameter names is a server.
  record IsNamed (q : Plugin) (m : Machine E S) (peer : Server) : Type 0 where
    server : ServerId
    named : pointer (lookup (q.text (q.params 1)) m.core.processor.servers) ≡ some server
    found : m.peers server ≡ some peer

  added-IsNamed :
      (p q : Plugin) (m : Machine E S)
      → q.text (q.params 1) ≡ p.text (p.params 1)
      → IsNamed q (added p m) (new_server (p.text (p.params 1)) (p.params 3))
  unfolding register_server
  added-IsNamed p q m same = record {
    server = m.fresh;
    named =
        let name = p.text (p.params 1) in
        rw
          (
            same,
            lookup-insert name name (some m.fresh) (get_server name m.core.processor).1.servers,
            eq_refl name,
          )
          refl;
    found = ground arith;
  }

  rpc_get_server_port_lem :
      (q : Plugin) (m : Machine E S) (peer : Server)
      → IsNamed q m peer
      → rpc_get_server_port E S q m
        ≡ ok (record {
          cell = peer.port;
          effects = [];
          machine = put_processor E S (get_server (q.text (q.params 1)) m.core.processor).1 m;
        })
  unfolding rpc_get_server_port with_server get_server
  rpc_get_server_port_lem q m peer h =
      rw (rpc_get_server_port, with_server, get_server, h.named, h.found) refl

  rpc_get_server_address_lem :
      (q : Plugin) (m : Machine E S) (peer : Server)
      → IsNamed q m peer
      → rpc_get_server_address E S q m
        ≡ ok (record {
          cell = pos 1;
          effects = output (q.params 2) (q.params 3) peer.address ∷ [];
          machine = put_processor E S (get_server (q.text (q.params 1)) m.core.processor).1 m;
        })
  unfolding rpc_get_server_address with_server get_server
  rpc_get_server_address_lem q m peer h =
      rw (rpc_get_server_address, with_server, get_server, h.named, h.found) refl

  -- A server that AddServer adds under a name without a server has the port that it was given, and
  -- for its address its name: GetServerAddress gives back the name, whatever address was given.
  pub rpc_add_server-rpc_get_server :
      (p q : Plugin) (m : Machine E S)
      → pointer (lookup (p.text (p.params 1)) m.core.processor.servers) ≡ none
      → q.text (q.params 1) ≡ p.text (p.params 1)
      → (r port address : Return E S) × (rpc_add_server E S p m ≡ ok r)
        × (rpc_get_server_port E S q r.machine ≡ ok port)
        × (port.cell ≡ p.params 3)
        × (rpc_get_server_address E S q r.machine ≡ ok address)
        × (address.effects ≡ output (q.params 2) (q.params 3) (p.text (p.params 1)) ∷ [])
  unfolding new_server
  rpc_add_server-rpc_get_server p q m missing same =
      let h = added-IsNamed p q m same in
      (
        _,
        _,
        _,
        rpc_add_server_lem p m missing,
        rpc_get_server_port_lem q (added p m) _ h,
        refl,
        rpc_get_server_address_lem q (added p m) _ h,
        refl,
      )
