-- ===== src/Natives/Live/Table.antt =====
-- The natives of the tables in src/smn_json.cpp, src/smn_rpccall.cpp, src/smn_rpccontext.cpp and
-- src/smn_extension.cpp: a call by a plugin is safe.
use sm_ext_rpc.Base.{ℕ, ◌≤◌, ◌≡◌, String}
use sm_ext_rpc.Base.Int.{pos, ℤ}
use sm_ext_rpc.Processor.{Env}
use sm_ext_rpc.Processor.Send.Broadcast.{HasNoNull}
use sm_ext_rpc.Natives.{Plugin, SourceMod, Machine}
use sm_ext_rpc.Natives.Table.{Native, perform}
use sm_ext_rpc.Natives.Json.{
  set_json_string, set_json_int, set_json_float, set_json_bool, create_json, get_json_int,
  get_json_float, get_json_bool,
}
use sm_ext_rpc.Natives.Json.Arrays.{
  push_json_string, push_json_int, push_json_float, push_json_bool, get_array_int, get_array_float,
  get_array_bool,
}
use sm_ext_rpc.Natives.Json.Values.{as_int_native, as_float_native, as_bool_native}
use sm_ext_rpc.Natives.Servers.{rpc_get_uuid}
use sm_ext_rpc.Natives.Live.{IsHandleSystem, IsLive, IsSafe}
use sm_ext_rpc.Natives.Live.Arrays.{IsPosition}
use sm_ext_rpc.Natives.Live.Values
use sm_ext_rpc.Natives.Live.Arrays
use sm_ext_rpc.Natives.Live.Calling
use sm_ext_rpc.Natives.Live.Contexts
use sm_ext_rpc.Natives.Live.Servers

module _ (E : Env) (S : SourceMod (E.json)) where
  -- The plugin passes at least three parameters.
  abbrev pub PassesThree : Plugin → Type 0
  PassesThree plugin = (n : ℕ) × (plugin.params 0 ≡ pos n) × (3 ≤ n)

  -- What the natives leave to the plugin: positions in arrays are not negative, GetString is called
  -- for a member that is a text, a broadcast is made while no server pointer is null, and
  -- the natives that read a third parameter are passed one.
  abbrev pub IsAllowed : Native → Plugin → Machine E S → Type 0
  IsAllowed Native.array_get_string plugin m = IsPosition (plugin.params 2)
  IsAllowed Native.array_get_int plugin m = IsPosition (plugin.params 2)
  IsAllowed Native.array_get_float plugin m = IsPosition (plugin.params 2)
  IsAllowed Native.array_get_bool plugin m = IsPosition (plugin.params 2)
  IsAllowed Native.array_get_json plugin m = IsPosition (plugin.params 2)
  IsAllowed Native.json_get_string plugin m = Values.HasTextMember E S plugin m
  IsAllowed Native.json_push_json plugin m = PassesThree plugin
  IsAllowed Native.context_set_return plugin m = PassesThree plugin
  IsAllowed Native.rpc_call_broadcast plugin m = HasNoNull m.core.processor.servers
  IsAllowed _ plugin m = Unit

  module _ (H : IsHandleSystem (E.json) S) (now : ℤ) (uuid : String) where
    pub perform-IsSafe :
        (native : Native) (plugin : Plugin) (m : Machine E S)
        → IsLive E S H m
        → IsAllowed native plugin m
        → IsSafe E S H (perform E S now uuid native plugin m)
    unfolding perform set_json_string set_json_int set_json_float set_json_bool create_json
        get_json_int get_json_float get_json_bool push_json_string push_json_int push_json_float
        push_json_bool get_array_int get_array_float get_array_bool as_int_native as_float_native
        as_bool_native rpc_get_uuid
    perform-IsSafe Native.json_create plugin m live h = Values.new_json-IsSafe E S H plugin _ m live
    perform-IsSafe Native.json_set_int plugin m live h =
        Values.set_member-IsSafe E S H plugin m _ live
    perform-IsSafe Native.json_set_float plugin m live h =
        Values.set_member-IsSafe E S H plugin m _ live
    perform-IsSafe Native.json_set_bool plugin m live h =
        Values.set_member-IsSafe E S H plugin m _ live
    perform-IsSafe Native.json_set_string plugin m live h =
        Values.set_member-IsSafe E S H plugin m _ live
    perform-IsSafe Native.json_set_json plugin m live h =
        Values.set_json_json-IsSafe E S H plugin m live
    perform-IsSafe Native.json_get_int plugin m live h =
        Values.get_member-IsSafe E S H plugin m _ _ (Values.to_int-IsDefined E S H) live
    perform-IsSafe Native.json_get_float plugin m live h =
        Values.get_member-IsSafe E S H plugin m _ _ (Values.to_float-IsDefined E S H) live
    perform-IsSafe Native.json_get_bool plugin m live h =
        Values.get_member-IsSafe E S H plugin m _ _ (Values.to_bool-IsDefined E S H) live
    perform-IsSafe Native.json_get_string plugin m live h =
        Values.get_json_string-IsSafe E S H plugin m h live
    perform-IsSafe Native.json_get_json plugin m live h =
        Values.get_json_json-IsSafe E S H plugin m live
    perform-IsSafe Native.json_push_string plugin m live h =
        Arrays.push-IsSafe E S H plugin m live _
    perform-IsSafe Native.json_push_int plugin m live h = Arrays.push-IsSafe E S H plugin m live _
    perform-IsSafe Native.json_push_float plugin m live h = Arrays.push-IsSafe E S H plugin m live _
    perform-IsSafe Native.json_push_bool plugin m live h = Arrays.push-IsSafe E S H plugin m live _
    perform-IsSafe Native.json_push_json plugin m live h =
        Arrays.push_json_json-IsSafe E S H plugin m live
    perform-IsSafe Native.array_get_string plugin m live h =
        Arrays.get_array_string-IsSafe E S H plugin m live h
    perform-IsSafe Native.array_get_int plugin m live h =
        Arrays.get_element-IsSafe E S H plugin m live h _ _ (Values.to_int-IsDefined E S H)
    perform-IsSafe Native.array_get_float plugin m live h =
        Arrays.get_element-IsSafe E S H plugin m live h _ _ (Values.to_float-IsDefined E S H)
    perform-IsSafe Native.array_get_bool plugin m live h =
        Arrays.get_element-IsSafe E S H plugin m live h _ _ (Values.to_bool-IsDefined E S H)
    perform-IsSafe Native.array_get_json plugin m live h =
        Arrays.get_array_json-IsSafe E S H plugin m live h
    perform-IsSafe Native.array_size plugin m live h =
        Arrays.get_array_size-IsSafe E S H plugin m live
    perform-IsSafe Native.json_as_int plugin m live h =
        Values.convert_value-IsSafe E S H plugin m _ _ (Values.to_int-IsDefined E S H) live
    perform-IsSafe Native.json_as_float plugin m live h =
        Values.convert_value-IsSafe E S H plugin m _ _ (Values.to_float-IsDefined E S H) live
    perform-IsSafe Native.json_as_bool plugin m live h =
        Values.convert_value-IsSafe E S H plugin m _ _ (Values.to_bool-IsDefined E S H) live
    perform-IsSafe Native.json_as_string plugin m live h =
        Values.as_string_native-IsSafe E S H plugin m live
    perform-IsSafe Native.rpc_call_create plugin m live h =
        Calling.create_call-IsSafe E S H plugin m live
    perform-IsSafe Native.rpc_call_set_method plugin m live h =
        Calling.call_set_method-IsSafe E S H plugin m live
    perform-IsSafe Native.rpc_call_set_params plugin m live h =
        Calling.call_set_params-IsSafe E S H plugin m live
    perform-IsSafe Native.rpc_call_send plugin m live h =
        Calling.call_send-IsSafe E S H now uuid plugin m live
    perform-IsSafe Native.rpc_call_broadcast plugin m live h =
        Calling.call_broadcast-IsSafe E S H now plugin m live h
    perform-IsSafe Native.rpc_call_notify plugin m live h =
        Calling.call_notify-IsSafe E S H now plugin m live
    perform-IsSafe Native.context_get_params plugin m live h =
        Contexts.get_params-IsSafe E S H plugin m live
    perform-IsSafe Native.context_set_return plugin m live h =
        Contexts.set_return-IsSafe E S H plugin m live
    perform-IsSafe Native.context_get_remote_address plugin m live h =
        Contexts.get_remote_address-IsSafe E S H plugin m live
    perform-IsSafe Native.context_done plugin m live h =
        Contexts.finish_call-IsSafe E S H plugin m live
    perform-IsSafe Native.register_method plugin m live h =
        Servers.rpc_register_method-IsSafe E S H plugin m live
    perform-IsSafe Native.get_servers plugin m live h =
        Servers.rpc_get_servers-IsSafe E S H plugin m live
    perform-IsSafe Native.add_server plugin m live h =
        Servers.rpc_add_server-IsSafe E S H plugin m live
    perform-IsSafe Native.remove_server plugin m live h =
        Servers.rpc_remove_server-IsSafe E S H plugin m live
    perform-IsSafe Native.get_server_address plugin m live h =
        Servers.rpc_get_server_address-IsSafe E S H plugin m live
    perform-IsSafe Native.get_server_port plugin m live h =
        Servers.rpc_get_server_port-IsSafe E S H plugin m live
    perform-IsSafe Native.get_uuid plugin m live h = live
