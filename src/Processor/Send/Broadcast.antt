-- ===== src/Processor/Send/Broadcast.antt =====
-- src/CommandProcessor.cpp: the registry of servers as a map from names to servers, and what a
-- broadcast makes of it.
use sm_ext_rpc.Base.{
  str_eq, if◌then◌else◌, eq_iff, List, Bytes, Option, String, [], ◌∷◌, ◌≡◌, refl, ok, arith, some,
  none, fault,
}
use sm_ext_rpc.Processor.{
  ServerId, Env, Processor, pointer, register_server, remove_server, get_server,
}
use sm_ext_rpc.Base.Int.{ℤ}
use sm_ext_rpc.Base.Dict.{Dict, lookup, lookup-erase, lookup-insert, default_at, lookup-default_at}
use sm_ext_rpc.Json.Laws.{IsLawful, IsOpen}
use sm_ext_rpc.Processor.Send.{
  unknown_server, send_all, send_broadcast, send_request, Outgoing, Caller,
}
use sm_ext_rpc.Processor.Send.Sealed.{sealed, seal_lem}

-- The server that is known under a name.
abbrev pub serves : Processor → String → Option ServerId
serves p name = pointer (lookup name p.servers)

-- What the functions do to the servers that are known. A null pointer under a name counts as no
-- server here: the one that GetServer inserts is not seen.
pub get_server-serves :
    (p : Processor) (name other : String) (server : ServerId)
    → (serves (register_server name server p) other
        ≡ (if str_eq name other then some server else serves p other))
      × (serves (remove_server name p) other ≡ (if str_eq name other then none else serves p other))
      × (serves (get_server name p).1 other ≡ serves p other)
      × ((get_server name p).0 ≡ serves p name)
unfolding register_server remove_server get_server
get_server-serves p name other server = (
  ground (arith, lookup-insert name other (some server) p.servers),
  ground (arith, lookup-erase name other p.servers),
  ground (arith, lookup-default_at name other none p.servers),
  refl,
)

-- The server behind an entry that is no null pointer.
abbrev pub receivers : Dict (Option ServerId) → Bytes → List (ServerId × Bytes)
receivers [] body = []
receivers ((name, none) ∷ servers) body = receivers servers body
receivers ((name, some s) ∷ servers) body = (s, body) ∷ receivers servers body

-- No entry is a null pointer.
abbrev pub HasNoNull : Dict (Option ServerId) → Type 0
HasNoNull [] = Unit
HasNoNull ((name, none) ∷ servers) = ⊥
HasNoNull ((name, some s) ∷ servers) = HasNoNull servers

module _ (E : Env) where
  open E use {json}
  open json use {Json, dump}

  pub send_all-receivers :
      (servers : Dict (Option ServerId)) (body : Bytes)
      → HasNoNull servers
      → send_all E servers body ≡ ok (receivers servers body)
  unfolding send_all
  send_all-receivers [] body h = refl
  send_all-receivers ((name, none) ∷ servers) body h = elim h [ ]
  send_all-receivers ((name, some s) ∷ servers) body h = rw (send_all-receivers servers body h)

  send_all_null :
      (servers : Dict (Option ServerId)) (body : Bytes) (name : String)
      → lookup name servers ≡ some none
      → send_all E servers body ≡ fault
  unfolding send_all lookup
  send_all_null [] body name h = cc
  send_all_null ((other, none) ∷ servers) body name h = refl
  send_all_null ((other, some s) ∷ servers) body name h =
      ground (arith, send_all_null servers body name)

  module _ (L : IsLawful json) (p : Processor) (now : ℤ) where
    -- While no server pointer in the map is null, SendBroadcast hands one and the same signed body
    -- to every server of the map, in its order.
    pub send_broadcast-receivers :
        (req : Json)
        → IsOpen json req
        → HasNoNull p.servers
        → send_broadcast E p now req ≡ ok (receivers p.servers (dump (sealed E p.api_key now req)))
    unfolding send_broadcast
    send_broadcast-receivers req o h =
        rw (seal_lem E L p now req o) (send_all-receivers p.servers _ h)

    -- SendRequest to a name that the map does not have returns UnknownServer and leaves a null
    -- pointer under the name, and every broadcast of an object after it dereferences a null
    -- pointer.
    pub send_broadcast_after_unknown :
        (target : String) (req req' : Json) (call : Option Caller)
        → lookup target p.servers ≡ none
        → IsOpen json req'
        → (out : Outgoing) × (send_request E p now target req call ≡ ok out)
          × (out.result ≡ unknown_server)
          × (send_broadcast E out.processor now req' ≡ fault)
    unfolding send_request send_broadcast
    send_broadcast_after_unknown target req req' call missing o =
        let p' = record p { servers = default_at target none p.servers } in
        let dangling : lookup target p'.servers ≡ some none =
          ground (arith, lookup-default_at target target none p.servers, eq_iff target target) in
        (
          record { result = unknown_server; message = none; processor = p' },
          rw (missing, send_request) refl,
          refl,
          rw (seal_lem E L p' now req' o) (send_all_null p'.servers _ target dangling),
        )
