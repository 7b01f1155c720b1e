-- ===== src/Extension/Components.antt =====
-- src/Exstension.hpp and src/Exstension.cpp: the loops over the objects that derive from
-- `SMRPCBase`, with what `OnExtLoad` and `OnExtUnload` of each do to the hooks and the registries.
pub mod Registered
pub mod Restricted
use sm_ext_rpc.Base.{List, [], ◌∷◌}
use sm_ext_rpc.Method.{IdentityId}
use sm_ext_rpc.EventLoop.{EventLoop, on_ext_load, on_ext_unload}
use sm_ext_rpc.Extension.{
  Component, event_loop, command_processor, extension_natives, json_natives, call_natives,
  context_natives,
}
use sm_ext_rpc.Natives.Types.{
  Registrar, Globals, load_json, load_call, load_context, load_extension, unload_json, unload_call,
  unload_context,
}

module _ (R : Registrar) where
  pub record Hooked : Type 0 where
    pub loop : EventLoop
    pub globals : Globals R

  abbrev on_globals : (Globals R → Globals R) → Hooked → Hooked
  on_globals f h = record h { globals = f h.globals }

  -- `OnExtLoad`, by the class of the object; `CommandProcessor` has that of `SMRPCBase`.
  unfoldable pub component_on_ext_load : IdentityId → Component → Hooked → Hooked
  component_on_ext_load myself event_loop h = record h { loop = on_ext_load h.loop }
  component_on_ext_load myself command_processor h = h
  component_on_ext_load myself extension_natives h = on_globals (load_extension R myself) h
  component_on_ext_load myself json_natives h = on_globals (load_json R myself) h
  component_on_ext_load myself call_natives h = on_globals (load_call R myself) h
  component_on_ext_load myself context_natives h = on_globals (load_context R myself) h

  -- `OnExtUnload`; the class `RPCNatives` has that of `SMRPCBase`.
  unfoldable pub component_on_ext_unload : IdentityId → Component → Hooked → Hooked
  component_on_ext_unload myself event_loop h = record h { loop = on_ext_unload h.loop }
  component_on_ext_unload myself command_processor h = h
  component_on_ext_unload myself extension_natives h = h
  component_on_ext_unload myself json_natives h = on_globals (unload_json R myself) h
  component_on_ext_unload myself call_natives h = on_globals (unload_call R myself) h
  component_on_ext_unload myself context_natives h = on_globals (unload_context R myself) h

  unfoldable pub load_list : IdentityId → List Component → Hooked → Hooked
  load_list myself [] h = h
  load_list myself (c ∷ rest) h = load_list myself rest (component_on_ext_load myself c h)

  unfoldable pub unload_list : IdentityId → List Component → Hooked → Hooked
  unload_list myself [] h = h
  unload_list myself (c ∷ rest) h = unload_list myself rest (component_on_ext_unload myself c h)
