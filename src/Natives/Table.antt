-- ===== src/Natives/Table.antt =====
-- The tables `smrpc_json_natives` of src/smn_json.cpp, `rpc_call_natives` of src/smn_rpccall.cpp,
-- `smrpc_context_natives` of src/smn_rpccontext.cpp and `smrpc_natives` of src/smn_extension.cpp:
-- the names under which plugins find the natives.
use sm_ext_rpc.Base.{String, List, [], ◌∷◌, Result}
use sm_ext_rpc.Base.Int.{ℤ}
use sm_ext_rpc.Processor.{Env}
use sm_ext_rpc.Natives.{Plugin, SourceMod, Machine, Return}
use sm_ext_rpc.Natives.Json
use sm_ext_rpc.Natives.Json.Arrays
use sm_ext_rpc.Natives.Json.Values
use sm_ext_rpc.Natives.Calls
use sm_ext_rpc.Natives.Contexts
use sm_ext_rpc.Natives.Servers

-- `SPVM_NATIVE_FUNC`: a native, by the function that a table points to.
pub data Native : Type 0 where
  json_create json_set_int json_set_float json_set_bool json_set_string json_set_json : Native
  json_get_int json_get_float json_get_bool json_get_string json_get_json : Native
  json_push_string json_push_int json_push_float json_push_bool json_push_json : Native
  array_get_string array_get_int array_get_float array_get_bool array_get_json array_size : Native
  json_as_int json_as_float json_as_bool json_as_string : Native
  rpc_call_create rpc_call_set_method rpc_call_set_params : Native
  rpc_call_send rpc_call_broadcast rpc_call_notify : Native
  context_get_params context_set_return context_get_remote_address context_done : Native
  register_method get_servers add_server remove_server : Native
  get_server_address get_server_port get_uuid : Native

-- `sp_nativeinfo_t`; the entry of null pointers that ends a table is the end of the list.
abbrev pub NativeTable : Type 0
NativeTable = List (String × Native)

unfoldable pub smrpc_json_natives : NativeTable
smrpc_json_natives =
    ("JSON.JSON", json_create)
    ∷ ("JSON.SetInt", json_set_int)
    ∷ ("JSON.SetFloat", json_set_float)
    ∷ ("JSON.SetBool", json_set_bool)
    ∷ ("JSON.SetString", json_set_string)
    ∷ ("JSON.SetJSON", json_set_json)
    ∷ ("JSON.GetInt", json_get_int)
    ∷ ("JSON.GetFloat", json_get_float)
    ∷ ("JSON.GetBool", json_get_bool)
    ∷ ("JSON.GetString", json_get_string)
    ∷ ("JSON.GetJSON", json_get_json)
    ∷ ("JSON.PushString", json_push_string)
    ∷ ("JSON.PushInt", json_push_int)
    ∷ ("JSON.PushFloat", json_push_float)
    ∷ ("JSON.PushBool", json_push_bool)
    ∷ ("JSON.PushJSON", json_push_json)
    ∷ ("JSON.GetArrayString", array_get_string)
    ∷ ("JSON.GetArrayInt", array_get_int)
    ∷ ("JSON.GetArrayFloat", array_get_float)
    ∷ ("JSON.GetArrayBool", array_get_bool)
    ∷ ("JSON.GetArrayJSON", array_get_json)
    ∷ ("JSON.GetArraySize", array_size)
    ∷ ("JSON.AsInt", json_as_int)
    ∷ ("JSON.AsFloat", json_as_float)
    ∷ ("JSON.AsBool", json_as_bool)
    ∷ ("JSON.AsString", json_as_string)
    ∷ []

unfoldable pub rpc_call_natives : NativeTable
rpc_call_natives =
    ("RPCCall.RPCCall", rpc_call_create)
    ∷ ("RPCCall.SetMethod", rpc_call_set_method)
    ∷ ("RPCCall.SetParams", rpc_call_set_params)
    ∷ ("RPCCall.Send", rpc_call_send)
    ∷ ("RPCCall.Broadcast", rpc_call_broadcast)
    ∷ ("RPCCall.Notify", rpc_call_notify)
    ∷ []

unfoldable pub smrpc_context_natives : NativeTable
smrpc_context_natives =
    ("RPCContext.GetParams", context_get_params)
    ∷ ("RPCContext.SetReturn", context_set_return)
    ∷ ("RPCContext.GetRemoteAddress", context_get_remote_address)
    ∷ ("RPCContext.Done", context_done)
    ∷ []

unfoldable pub smrpc_natives : NativeTable
smrpc_natives =
    ("RPCRegisterMethod", register_method)
    ∷ ("RPCGetServers", get_servers)
    ∷ ("RPCAddServer", add_server)
    ∷ ("RPCRemoveServer", remove_server)
    ∷ ("RPCGetServerAddress", get_server_address)
    ∷ ("RPCGetServerPort", get_server_port)
    ∷ ("RPCGetUUID", get_uuid)
    ∷ []

module _ (E : Env) (S : SourceMod (E.json)) where
  -- The call of a native by a plugin: `now` is the time, and `uuid` the text of the identifier
  -- that the generator returns next.
  unfoldable pub perform : ℤ → String → Native → Plugin → Machine E S → Result (Return E S)
  perform now uuid json_create = Json.create_json E S
  perform now uuid json_set_int = Json.set_json_int E S
  perform now uuid json_set_float = Json.set_json_float E S
  perform now uuid json_set_bool = Json.set_json_bool E S
  perform now uuid json_set_string = Json.set_json_string E S
  perform now uuid json_set_json = Json.set_json_json E S
  perform now uuid json_get_int = Json.get_json_int E S
  perform now uuid json_get_float = Json.get_json_float E S
  perform now uuid json_get_bool = Json.get_json_bool E S
  perform now uuid json_get_string = Json.get_json_string E S
  perform now uuid json_get_json = Json.get_json_json E S
  perform now uuid json_push_string = Arrays.push_json_string E S
  perform now uuid json_push_int = Arrays.push_json_int E S
  perform now uuid json_push_float = Arrays.push_json_float E S
  perform now uuid json_push_bool = Arrays.push_json_bool E S
  perform now uuid json_push_json = Arrays.push_json_json E S
  perform now uuid array_get_string = Arrays.get_array_string E S
  perform now uuid array_get_int = Arrays.get_array_int E S
  perform now uuid array_get_float = Arrays.get_array_float E S
  perform now uuid array_get_bool = Arrays.get_array_bool E S
  perform now uuid array_get_json = Arrays.get_array_json E S
  perform now uuid array_size = Arrays.get_array_size E S
  perform now uuid json_as_int = Values.as_int_native E S
  perform now uuid json_as_float = Values.as_float_native E S
  perform now uuid json_as_bool = Values.as_bool_native E S
  perform now uuid json_as_string = Values.as_string_native E S
  perform now uuid rpc_call_create = Calls.create_call E S
  perform now uuid rpc_call_set_method = Calls.call_set_method E S
  perform now uuid rpc_call_set_params = Calls.call_set_params E S
  perform now uuid rpc_call_send = Calls.call_send E S now uuid
  perform now uuid rpc_call_broadcast = Calls.call_broadcast E S now
  perform now uuid rpc_call_notify = Calls.call_notify E S now
  perform now uuid context_get_params = Contexts.get_params E S
  perform now uuid context_set_return = Contexts.set_return E S
  perform now uuid context_get_remote_address = Contexts.get_remote_address E S
  perform now uuid context_done = Contexts.finish_call E S
  perform now uuid register_method = Servers.rpc_register_method E S
  perform now uuid get_servers = Servers.rpc_get_servers E S
  perform now uuid add_server = Servers.rpc_add_server E S
  perform now uuid remove_server = Servers.rpc_remove_server E S
  perform now uuid get_server_address = Servers.rpc_get_server_address E S
  perform now uuid get_server_port = Servers.rpc_get_server_port E S
  perform now uuid get_uuid = Servers.rpc_get_uuid E S uuid
