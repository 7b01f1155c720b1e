-- ===== src/Natives/Servers.antt =====
-- src/smn_extension.cpp: the natives that register methods and keep the list of servers.
pub mod Listed
pub mod Registered
use sm_ext_rpc.Base.{
  ℕ, zero, suc, ◌+◌, ◌-◌, String, Bool, true, false, Option, none, some, List, [], ◌∷◌, ◌++◌,
  Result, ok, fault, ◌>>=◌, ◌==◌, if◌then◌else◌,
}
use sm_ext_rpc.Base.Int.{ℤ, pos, negsuc}
use sm_ext_rpc.Base.Dict.{Dict}
use sm_ext_rpc.Method.{new_method, RpcMethod, ParamType}
use sm_ext_rpc.Server.{get_address, get_port, Server, new_server}
use sm_ext_rpc.Processor.{
  Env, Processor, ServerId, get_server, remove_server, register_server, register_method,
  get_servers,
}
use sm_ext_rpc.Natives.{
  Plugin, Cell, SourceMod, Machine, Return, Report, Effect, report, output, connect,
  invalid_callback, server_exists, server_missing, return, refuse, new_json,
}

-- `static_cast<ParamType>`
pub param_type_of : Cell → ParamType
param_type_of (pos (suc zero)) = ParamType.string
param_type_of (pos (suc (suc zero))) = ParamType.int
param_type_of (pos (suc (suc (suc zero)))) = ParamType.bool
param_type_of (pos (suc (suc (suc (suc zero))))) = ParamType.float
param_type_of (pos (suc (suc (suc (suc (suc zero)))))) = ParamType.json
param_type_of n = ParamType.unnamed n

-- The loop over the parameters from position `c` on, for `n` rounds.
unfoldable pub param_types_from : Plugin → ℕ → ℕ → List ParamType
unfolding param_type_of
param_types_from plugin zero c = []
param_types_from plugin (suc n) c =
    param_type_of (plugin.word (plugin.params c)) ∷ param_types_from plugin n (suc c)

-- The rounds of `for (int c = 3; c < paramCount + 1; c++)`.
abbrev pub rounds : Cell → ℕ
rounds (pos n) = suc n - 3
rounds (negsuc n) = 0

module _ (E : Env) (S : SourceMod (E.json)) where
  open E use {json}
  open json use {Json, nullptr, of_string, append}

  abbrev pub put_processor : Processor → Machine E S → Machine E S
  put_processor p m = record m { core = record m.core { processor = p } }

  -- `RPCRegisterMethod`: after the report of a missing callback the method is registered too.
  unfoldable pub rpc_register_method : Plugin → Machine E S → Result (Return E S)
  unfolding param_types_from new_method
  rpc_register_method plugin m =
      let callback = plugin.function (plugin.params 2) in
      let name = plugin.text (plugin.params 1) in
      let types = param_types_from plugin (rounds (plugin.params 0)) 3 in
      let method = new_method name plugin.identity callback types in
      return E S (pos 0) (elim callback [ none ↦ report invalid_callback ∷ [] | some f ↦ [] ])
        (put_processor (register_method name method m.core.processor) m)

  -- The loop of `RPCGetServers`.
  unfoldable pub push_names : Dict (Option ServerId) → Json → Json
  push_names [] j = j
  push_names ((name, server) ∷ rest) j = push_names rest (append j (of_string name))

  unfoldable pub rpc_get_servers : Plugin → Machine E S → Result (Return E S)
  unfolding push_names new_json
  rpc_get_servers plugin m =
      new_json E S plugin (push_names (get_servers m.core.processor) nullptr) m

  -- `RPCAddServer`: `server_address` is read from the plugin and then not used.
  unfoldable pub rpc_add_server : Plugin → Machine E S → Result (Return E S)
  unfolding get_server
  rpc_add_server plugin m =
      let name = plugin.text (plugin.params 1) in
      let (current, p) = get_server name m.core.processor in
      elim current [
        | some s ↦ refuse E S server_exists (put_processor p m)
        | none ↦
            let s = m.fresh in
            let m' : Machine E S = put_processor (register_server name s p) m in
            let peer = new_server name (plugin.params 3) in
            return E S (pos 1) (connect s ∷ []) (record m' {
              fresh = suc m.fresh;
              peers = λ t. if s == t then some peer else m.peers t;
              services = m.services ++ s ∷ [];
            })
      ]

  -- `RPCRemoveServer`
  unfoldable pub rpc_remove_server : Plugin → Machine E S → Result (Return E S)
  unfolding get_server remove_server
  rpc_remove_server plugin m =
      let name = plugin.text (plugin.params 1) in
      let (current, p) = get_server name m.core.processor in
      elim current [
        | none ↦ refuse E S server_missing (put_processor p m)
        | some s ↦ return E S (pos 1) [] (put_processor (remove_server name p) m)
      ]

  -- The server of a name, if there is one, and the state after `GetServer`.
  unfoldable pub with_server :
      Plugin → Machine E S → (Server → Machine E S → Result (Return E S)) → Result (Return E S)
  unfolding get_server
  with_server plugin m k =
      let (current, p) = get_server (plugin.text (plugin.params 1)) m.core.processor in
      elim current [
        | none ↦ refuse E S server_missing (put_processor p m)
        | some s ↦ elim (m.peers s) [ none ↦ fault | some peer ↦ k peer (put_processor p m) ]
      ]

  unfoldable pub rpc_get_server_port : Plugin → Machine E S → Result (Return E S)
  unfolding with_server get_port
  rpc_get_server_port plugin m = with_server plugin m (λ peer m'. return E S (get_port peer) [] m')

  unfoldable pub rpc_get_server_address : Plugin → Machine E S → Result (Return E S)
  unfolding with_server get_address
  rpc_get_server_address plugin m = with_server plugin m (λ peer m'.
      return E S (pos 1) (output (plugin.params 2) (plugin.params 3) (get_address peer) ∷ []) m')

  -- `RPCGetUUID`; `uuid` is the text of the generated identifier.
  unfoldable pub rpc_get_uuid : String → Plugin → Machine E S → Result (Return E S)
  rpc_get_uuid uuid plugin m =
      return E S (pos 1) (output (plugin.params 1) (plugin.params 2) uuid ∷ []) m
