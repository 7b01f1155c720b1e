-- ===== src/Natives/Live/Servers.antt =====
-- src/smn_extension.cpp: the natives on methods and servers keep the servers that are known by a
-- name.
use sm_ext_rpc.Base.{
  [], ◌∷◌, ◌++◌, ◌==◌, if◌then◌else◌, suc, Option, none, some, Bool, true, false, Result, ◌≡◌, ◌⊎◌,
  inl, inr, Option-cases, String, str_eq, sym, arith, ◌∙◌,
}
use sm_ext_rpc.Method.{IdentityId}
use sm_ext_rpc.Server.{get_address, get_port, Server}
use sm_ext_rpc.Processor.{
  Env, Processor, ServerId, get_server, register_server, remove_server, register_method,
}
use sm_ext_rpc.Processor.Send.Broadcast.{serves, get_server-serves}
use sm_ext_rpc.Natives.{
  output, pos, return, Plugin, Cell, Address, json_type, call_type, context_type, SourceMod,
  Machine, Return, HandleType,
}
use sm_ext_rpc.Natives.Servers.{
  put_processor, rpc_register_method, rpc_get_servers, rpc_add_server, rpc_remove_server,
  with_server, rpc_get_server_port, rpc_get_server_address,
}
use sm_ext_rpc.Natives.Live.{AreServed, IsHandleSystem, Holds, IsLive, IsSafe}
use sm_ext_rpc.Natives.Live.Machines.{found-after}
use sm_ext_rpc.Natives.Live.Values.{new_json-IsSafe}

-- The value of either branch.
either :
    (b : Bool) (t : ServerId) (o : Option ServerId) (s : ServerId)
    → (if b then some t else o) ≡ some s
    → (t ≡ s) ⊎ (o ≡ some s)
either true t o s e = inl cc
either false t o s e = inr e

-- A value that a test lets through.
unless :
    (b : Bool) (o : Option ServerId) (t : ServerId) → (if b then none else o) ≡ some t → o ≡ some t
unless true o t e = cc
unless false o t e = e

module _ (E : Env) (S : SourceMod (E.json)) (H : IsHandleSystem (E.json) S) where
  open E use {json}
  open json use {Json}

  -- A processor that knows no further servers.
  pub put_processor-IsLive :
      (m : Machine E S) (p : Processor)
      → IsLive E S H m
      → ((name : String) (s : ServerId)
          → serves p name ≡ some s
          → serves m.core.processor name ≡ some s)
      → IsLive E S H (put_processor E S p m)
  put_processor-IsLive m p live known = record {
    sole = live.sole;
    old = live.old;
    served = λ name s e. live.served name s (known name s e);
    held = λ type handle owner b e. go type handle owner b (live.held type handle owner b e);
  }
    where
      go :
          (type : HandleType) (handle : Cell) (owner : IdentityId) (b : Address)
          → Holds E S H type handle owner b m
          → Holds E S H type handle owner b (put_processor E S p m)
      go json_type handle owner b h = h
      go call_type handle owner b h = h
      go context_type handle owner b h = h

  pub rpc_register_method-IsSafe :
      (plugin : Plugin) (m : Machine E S)
      → IsLive E S H m
      → IsSafe E S H (rpc_register_method E S plugin m)
  unfolding rpc_register_method register_method
  rpc_register_method-IsSafe plugin m live = put_processor-IsLive m _ live (λ name s e. e)

  pub rpc_get_servers-IsSafe :
      (plugin : Plugin) (m : Machine E S)
      → IsLive E S H m
      → IsSafe E S H (rpc_get_servers E S plugin m)
  unfolding rpc_get_servers
  rpc_get_servers-IsSafe plugin m live = new_json-IsSafe E S H plugin _ m live

  got-IsLive :
      (name : String) (m : Machine E S)
      → IsLive E S H m
      → IsLive E S H (put_processor E S ((get_server name m.core.processor).1) m)
  got-IsLive name m live = put_processor-IsLive m _ live (λ other s e.
      let (_, _, kept, _) = get_server-serves m.core.processor name other 0 in sym (kept) ∙ e)

  removed-known :
      (name : String) (m : Machine E S) (other : String) (t : ServerId)
      → serves (remove_server name ((get_server name m.core.processor).1)) other ≡ some t
      → serves m.core.processor other ≡ some t
  removed-known name m other t known =
      let (_, gone, _, _) = get_server-serves ((get_server name m.core.processor).1) name other 0 in
      let (_, _, kept, _) = get_server-serves m.core.processor name other 0 in
      sym kept ∙ unless (str_eq name other) _ t (sym gone ∙ known)

  pub rpc_remove_server-IsSafe :
      (plugin : Plugin) (m : Machine E S)
      → IsLive E S H m
      → IsSafe E S H (rpc_remove_server E S plugin m)
  unfolding rpc_remove_server
  rpc_remove_server-IsSafe plugin m live =
      let name = plugin.text (plugin.params 1) in
      elim (Option-cases ((get_server name m.core.processor).0)) [
        | inl e ↦ rw (rpc_remove_server, e) (got-IsLive name m live)
        | inr (s, e) ↦
            rw (rpc_remove_server, e)
              (put_processor-IsLive m _ live (λ other t known. removed-known name m other t known))
      ]

  pub with_server-IsSafe :
      (plugin : Plugin) (m : Machine E S) (k : Server → Machine E S → Result (Return E S))
      → IsLive E S H m
      → ((peer : Server) (m' : Machine E S) → IsLive E S H m' → IsSafe E S H (k peer m'))
      → IsSafe E S H (with_server E S plugin m k)
  unfolding with_server
  with_server-IsSafe plugin m k live safe =
      let name = plugin.text (plugin.params 1) in
      elim (Option-cases ((get_server name m.core.processor).0)) [
        | inl e ↦ rw (with_server, e) (got-IsLive name m live)
        | inr (s, e) ↦
            let (_, _, _, found) = get_server-serves m.core.processor name name 0 in
            let (peer, there) = live.served name s (sym found ∙ e) in
            rw (with_server, e, there) (safe peer _ (got-IsLive name m live))
      ]

  pub rpc_get_server_port-IsSafe :
      (plugin : Plugin) (m : Machine E S)
      → IsLive E S H m
      → IsSafe E S H (rpc_get_server_port E S plugin m)
  unfolding rpc_get_server_port
  rpc_get_server_port-IsSafe plugin m live =
      with_server-IsSafe plugin m (λ peer m'. return E S (get_port peer) [] m') live
        (λ peer m' live'. live')

  pub rpc_get_server_address-IsSafe :
      (plugin : Plugin) (m : Machine E S)
      → IsLive E S H m
      → IsSafe E S H (rpc_get_server_address E S plugin m)
  unfolding rpc_get_server_address
  rpc_get_server_address-IsSafe plugin m live =
      with_server-IsSafe plugin m
        (λ peer m'.
          return E S (pos 1) (output (plugin.params 2) (plugin.params 3) (get_address peer) ∷ [])
            m')
        live (λ peer m' live'. live')

  -- The machine with a new server under a name.
  abbrev added : String → Server → Processor → Machine E S → Machine E S
  added name peer p m = record (put_processor E S (register_server name m.fresh p) m) {
    fresh = suc m.fresh;
    peers = λ t. if m.fresh == t then some peer else m.peers t;
    services = m.services ++ m.fresh ∷ [];
  }

  added-AreServed :
      (name : String) (peer : Server) (m : Machine E S)
      → IsLive E S H m
      → AreServed E S H (added name peer ((get_server name m.core.processor).1) m)
  added-AreServed name peer m live other s e =
      let (new, _, _, _) =
        get_server-serves ((get_server name m.core.processor).1) name other m.fresh in
      let (_, _, kept, _) = get_server-serves m.core.processor name other 0 in
      elim (either (str_eq name other) m.fresh _ s (sym new ∙ e)) [
        | inl here ↦ (peer, ground (arith, here))
        | inr before ↦ found-after m.peers m.fresh s peer (live.served other s (sym kept ∙ before))
      ]

  added-IsLive :
      (name : String) (peer : Server) (m : Machine E S)
      → IsLive E S H m
      → IsLive E S H (added name peer ((get_server name m.core.processor).1) m)
  added-IsLive name peer m live = record {
    sole = live.sole;
    old = λ type handle owner a e. omega (arith, live.old type handle owner a e);
    served = added-AreServed name peer m live;
    held = λ type handle owner b e. go type handle owner b (live.held type handle owner b e);
  }
    where
      go :
          (type : HandleType) (handle : Cell) (owner : IdentityId) (b : Address)
          → Holds E S H type handle owner b m
          → Holds E S H type handle owner b
              (added name peer ((get_server name m.core.processor).1) m)
      go json_type handle owner b h = h
      go call_type handle owner b h = h
      go context_type handle owner b h = h

  pub rpc_add_server-IsSafe :
      (plugin : Plugin) (m : Machine E S)
      → IsLive E S H m
      → IsSafe E S H (rpc_add_server E S plugin m)
  unfolding rpc_add_server
  rpc_add_server-IsSafe plugin m live =
      let name = plugin.text (plugin.params 1) in
      elim (Option-cases ((get_server name m.core.processor).0)) [
        | inl e ↦ rw (rpc_add_server, e) (added-IsLive name _ m live)
        | inr (s, e) ↦ rw (rpc_add_server, e) (got-IsLive name m live)
      ]
