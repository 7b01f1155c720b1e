-- ===== src/Natives/Types.antt =====
-- The classes `RPCJSONNatives` of src/smn_json.cpp, `RPCCallNatives` of src/smn_rpccall.cpp,
-- `RPCContextNatives` of src/smn_rpccontext.cpp and `RPCNatives` of src/smn_extension.cpp: the
-- registration of the handle types and the natives, and what SourceMod asks of a type. SourceMod's
-- registries are a parameter.
use sm_ext_rpc.Base.{
  ℕ, ◌+◌, ◌*◌, ◌%◌, String, Bool, true, false, Option, none, some, Result, ok, fault, if◌then◌else◌,
  ◌==◌,
}
use sm_ext_rpc.Method.{IdentityId}
use sm_ext_rpc.Processor.{Env}
use sm_ext_rpc.Call.{update}
use sm_ext_rpc.Natives.{Address, HandleType, json_type, call_type, context_type, SourceMod, Machine}
use sm_ext_rpc.Natives.Contexts.{put_context}
use sm_ext_rpc.Natives.Table.{
  NativeTable, smrpc_json_natives, rpc_call_natives, smrpc_context_natives, smrpc_natives,
}

-- `HTypeAccessRight` and `HandleAccessRight`.
pub data TypeRight : Type 0 where
  create inherit : TypeRight

pub data HandleRight : Type 0 where
  read delete clone : HandleRight

-- `TypeAccess` and `HandleAccess`: who owns a type, what others may do with it, and the flags that
-- restrict each use of a handle.
pub record TypeAccess : Type 0 where
  pub ident : Option IdentityId
  pub access : TypeRight → Bool

pub record HandleAccess : Type 0 where
  pub access : HandleRight → ℕ

-- `HandleType_t`, the number of a type.
abbrev pub TypeId : Type 0
TypeId = ℕ

-- `IHandleSys` and `IShareSys`, as far as types and natives are registered with them. `create_type`
-- takes the name, the object that is asked about the handles, the access, and the extension.
pub record Registrar : Type 1 where
  pub Registry : Type 0
  pub handle_restrict_owner : ℕ
  pub init_access_defaults : TypeAccess × HandleAccess
  pub create_type :
      String → HandleType → TypeAccess → HandleAccess → IdentityId → Registry → TypeId × Registry
  pub remove_type : TypeId → IdentityId → Registry → Registry
  pub add_natives : IdentityId → NativeTable → Registry → Registry

module _ (R : Registrar) where
  -- `g_JSONType`, `g_RPCCallType` and `g_RPCContextType`, and the registries.
  pub record Globals : Type 0 where
    pub json_id : TypeId
    pub call_id : TypeId
    pub context_id : TypeId
    pub registry : R.Registry

  abbrev pub is_read : HandleRight → Bool
  is_read read = true
  is_read _ = false

  -- The rights on the handles of every type: only the owner reads one.
  unfoldable pub owner_reads : HandleAccess → HandleAccess
  owner_reads hacc = record {
    access = λ right. if is_read right then R.handle_restrict_owner else hacc.access right;
  }

  -- The rights on the types of values and calls.
  unfoldable pub open_type : IdentityId → TypeAccess → TypeAccess
  open_type myself tacc = record { ident = some myself; access = λ right. true }

  -- `RPCJSONNatives::OnExtLoad`, for the extension `myself`.
  unfoldable pub load_json : IdentityId → Globals → Globals
  unfolding owner_reads open_type
  load_json myself g =
      let (tacc, hacc) = R.init_access_defaults in
      let (type, registry) =
        R.create_type "JSON" json_type (open_type myself tacc) (owner_reads hacc) myself
          g.registry in
      record g { json_id = type; registry = R.add_natives myself smrpc_json_natives registry }

  unfoldable pub unload_json : IdentityId → Globals → Globals
  unload_json myself g = record g { registry = R.remove_type g.json_id myself g.registry }

  -- `RPCCallNatives::OnExtLoad`
  unfoldable pub load_call : IdentityId → Globals → Globals
  unfolding owner_reads open_type
  load_call myself g =
      let (tacc, hacc) = R.init_access_defaults in
      let (type, registry) =
        R.create_type "RPCCall" call_type (open_type myself tacc) (owner_reads hacc) myself
          g.registry in
      record g { call_id = type; registry = R.add_natives myself rpc_call_natives registry }

  unfoldable pub unload_call : IdentityId → Globals → Globals
  unload_call myself g = record g { registry = R.remove_type g.call_id myself g.registry }

  -- `RPCContextNatives::OnExtLoad`: the rights on the type stay the defaults.
  unfoldable pub load_context : IdentityId → Globals → Globals
  unfolding owner_reads
  load_context myself g =
      let (tacc, hacc) = R.init_access_defaults in
      let tacc' = record tacc { ident = some myself } in
      let (type, registry) =
        R.create_type "RPCContext" context_type tacc' (owner_reads hacc) myself g.registry in
      record g { context_id = type; registry = R.add_natives myself smrpc_context_natives registry }

  unfoldable pub unload_context : IdentityId → Globals → Globals
  unload_context myself g = record g { registry = R.remove_type g.context_id myself g.registry }

  -- `RPCNatives::OnExtLoad`
  unfoldable pub load_extension : IdentityId → Globals → Globals
  load_extension myself g = record g { registry = R.add_natives myself smrpc_natives g.registry }

-- The sizes of the classes in the memory.
pub record Sizes : Type 0 where
  pub json : ℕ
  pub call : ℕ
  pub context : ℕ

module _ (E : Env) (S : SourceMod (E.json)) where
  open E use {json}
  open json use {size}

  -- `RPCJSONNatives::OnHandleDestroy`: the object is deleted.
  abbrev pub destroy_json : Address → Machine E S → Machine E S
  destroy_json a m = record m { jsons = λ b. if a == b then none else m.jsons b }

  -- `RPCCallNatives::OnHandleDestroy`
  abbrev pub destroy_call : Address → Machine E S → Machine E S
  destroy_call a m = record m { core = record m.core { calls = update json m.core.calls a none } }

  -- `RPCContextNatives::OnHandleDestroy`
  abbrev pub destroy_context : Address → Machine E S → Machine E S
  destroy_context a m = put_context E S a none m

  -- `OnHandleDestroy` of the class that a type was created with.
  unfoldable pub on_handle_destroy : HandleType → Address → Machine E S → Machine E S
  on_handle_destroy json_type = destroy_json
  on_handle_destroy call_type = destroy_call
  on_handle_destroy context_type = destroy_context

  -- A number that is stored in an `unsigned int`.
  abbrev pub unsigned : ℕ → ℕ
  unsigned n = n % 4294967296

  -- `RPCJSONNatives::GetHandleApproxSize`, which returns true as the other two do.
  pub json_approx_size : Sizes → Address → Machine E S → Result ℕ
  json_approx_size sizes a m = elim (m.jsons a) [
    | none ↦ fault
    | some j ↦ ok (unsigned (sizes.json + size j))
  ]

  -- `RPCCallNatives::GetHandleApproxSize`
  pub call_approx_size : Sizes → Address → Machine E S → Result ℕ
  call_approx_size sizes a m = elim (m.core.calls a) [
    | none ↦ fault
    | some call ↦ ok (unsigned (sizes.call + sizes.json * size call.args))
  ]

  -- `RPCContextNatives::GetHandleApproxSize`
  pub context_approx_size : Sizes → Address → Machine E S → Result ℕ
  context_approx_size sizes a m = elim (m.contexts a) [
    | none ↦ fault
    | some context ↦ ok (unsigned (sizes.context + sizes.json + size context.params * sizes.json))
  ]

  unfoldable pub get_handle_approx_size : Sizes → HandleType → Address → Machine E S → Result ℕ
  unfolding json_approx_size call_approx_size context_approx_size
  get_handle_approx_size sizes json_type = json_approx_size sizes
  get_handle_approx_size sizes call_type = call_approx_size sizes
  get_handle_approx_size sizes context_type = context_approx_size sizes
