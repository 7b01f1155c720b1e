-- ===== src/Extension/Components/Restricted.antt =====
-- src/smn_json.cpp, src/smn_rpccall.cpp, src/smn_rpccontext.cpp, src/smn_extension.cpp and
-- src/Exstension.cpp: what SourceMod knows of the extension once it is loaded.
use mathlib.Core.List.{append-nil, append_assoc}
use sm_ext_rpc.Base.{
  ap, sym, refl, ◌∙◌, inr, subst, inl, String, some, List, [], ◌∷◌, ◌++◌, ◌≡◌, arith,
}
use sm_ext_rpc.Method.{IdentityId}
use sm_ext_rpc.Extension.{
  load_component, load_components, Component, event_loop, command_processor, extension_natives,
  json_natives, call_natives, context_natives,
}
use sm_ext_rpc.Natives.{HandleType, json_type, call_type, context_type}
use sm_ext_rpc.Natives.Table.{NativeTable}
use sm_ext_rpc.Natives.Types.{
  open_type, load_extension, owner_reads, load_context, load_call, load_json, Registrar, Globals,
  TypeAccess, HandleAccess, HandleRight, TypeId,
}
use sm_ext_rpc.Extension.Components.Registered.{IsRegistrar, table_of, tables_of, class_of, IsAmong}
use sm_ext_rpc.Extension.Components.{Hooked, component_on_ext_load, load_list}

module _ (R : Registrar) where
  abbrev pub id_of : HandleType → Globals R → TypeId
  id_of json_type g = g.json_id
  id_of call_type g = g.call_id
  id_of context_type g = g.context_id

  module _ (L : IsRegistrar R) where
    -- The handles of the type can be read by their owner alone.
    abbrev pub IsRestricted : HandleType → Globals R → Type 0
    IsRestricted type g =
        (hacc : HandleAccess) × (L.access (id_of type g) g.registry ≡ some hacc)
        × (hacc.access HandleRight.read ≡ R.handle_restrict_owner)

    -- The registry after a type was created with its natives.
    abbrev created :
        String
        → HandleType
        → TypeAccess
        → HandleAccess
        → IdentityId
        → NativeTable
        → R.Registry
        → R.Registry
    created name type tacc hacc myself table r =
        R.add_natives myself table ((R.create_type name type tacc hacc myself r).1)

    access-created :
        (name : String) (type : HandleType) (tacc : TypeAccess) (hacc : HandleAccess)
        (myself : IdentityId) (table : NativeTable) (r : R.Registry)
        → L.access
            ((R.create_type name type tacc hacc myself r).0)
            (created name type tacc hacc myself table r)
          ≡ some hacc
    access-created name type tacc hacc myself table r =
        let id = (R.create_type name type tacc hacc myself r).0 in
        ground (
          arith,
          L.access-add myself table ((R.create_type name type tacc hacc myself r).1) id,
          L.access-create name type tacc hacc myself r id,
        )

    access-kept :
        (name : String) (type : HandleType) (tacc : TypeAccess) (hacc old : HandleAccess)
        (myself : IdentityId) (table : NativeTable) (r : R.Registry) (id : TypeId)
        → L.access id r ≡ some old
        → L.access id (created name type tacc hacc myself table r) ≡ some old
    access-kept name type tacc hacc old myself table r id e = ground (
      arith,
      e,
      L.access-add myself table ((R.create_type name type tacc hacc myself r).1) id,
      L.access-create name type tacc hacc myself r id,
      L.create-fresh name type tacc hacc myself r,
    )

    -- A component leaves the types that are there, and restricts the type that it creates.
    component-keeps :
        (myself : IdentityId) (c : Component) (type : HandleType) (h : Hooked R)
        → IsRestricted type h.globals
        → IsRestricted type ((component_on_ext_load R myself c h).globals)
    unfolding component_on_ext_load load_json load_call load_context load_extension owner_reads
        open_type
    component-keeps myself event_loop type h k = k
    component-keeps myself command_processor type h k = k
    component-keeps myself extension_natives json_type h (hacc, e, restricted) =
        (hacc, L.access-add myself _ h.globals.registry h.globals.json_id ∙ e, restricted)
    component-keeps myself extension_natives call_type h (hacc, e, restricted) =
        (hacc, L.access-add myself _ h.globals.registry h.globals.call_id ∙ e, restricted)
    component-keeps myself extension_natives context_type h (hacc, e, restricted) =
        (hacc, L.access-add myself _ h.globals.registry h.globals.context_id ∙ e, restricted)
    component-keeps myself json_natives json_type h k =
        (_, access-created "JSON" json_type _ _ myself _ h.globals.registry, refl)
    component-keeps myself json_natives call_type h (hacc, e, restricted) =
        (hacc, access-kept "JSON" json_type _ _ hacc myself _ h.globals.registry _ e, restricted)
    component-keeps myself json_natives context_type h (hacc, e, restricted) =
        (hacc, access-kept "JSON" json_type _ _ hacc myself _ h.globals.registry _ e, restricted)
    component-keeps myself call_natives json_type h (hacc, e, restricted) =
        (hacc, access-kept "RPCCall" call_type _ _ hacc myself _ h.globals.registry _ e, restricted)
    component-keeps myself call_natives call_type h k =
        (_, access-created "RPCCall" call_type _ _ myself _ h.globals.registry, refl)
    component-keeps myself call_natives context_type h (hacc, e, restricted) =
        (hacc, access-kept "RPCCall" call_type _ _ hacc myself _ h.globals.registry _ e, restricted)
    component-keeps myself context_natives json_type h (hacc, e, restricted) = (
      hacc,
      access-kept "RPCContext" context_type _ _ hacc myself _ h.globals.registry _ e,
      restricted,
    )
    component-keeps myself context_natives call_type h (hacc, e, restricted) = (
      hacc,
      access-kept "RPCContext" context_type _ _ hacc myself _ h.globals.registry _ e,
      restricted,
    )
    component-keeps myself context_natives context_type h k =
        (_, access-created "RPCContext" context_type _ _ myself _ h.globals.registry, refl)

    component-creates :
        (myself : IdentityId) (type : HandleType) (h : Hooked R)
        → IsRestricted type ((component_on_ext_load R myself (class_of type) h).globals)
    unfolding component_on_ext_load load_json load_call load_context owner_reads open_type
    component-creates myself json_type h =
        (_, access-created "JSON" json_type _ _ myself _ h.globals.registry, refl)
    component-creates myself call_type h =
        (_, access-created "RPCCall" call_type _ _ myself _ h.globals.registry, refl)
    component-creates myself context_type h =
        (_, access-created "RPCContext" context_type _ _ myself _ h.globals.registry, refl)

    load_list-keeps :
        (myself : IdentityId) (cs : List Component) (type : HandleType) (h : Hooked R)
        → IsRestricted type h.globals
        → IsRestricted type ((load_list R myself cs h).globals)
    unfolding load_list
    load_list-keeps myself [] type h k = k
    load_list-keeps myself (c ∷ rest) type h k =
        load_list-keeps myself rest type (component_on_ext_load R myself c h)
          (component-keeps myself c type h k)

    pub load_list-IsRestricted :
        (myself : IdentityId) (cs : List Component) (type : HandleType) (h : Hooked R)
        → IsAmong (class_of type) cs
        → IsRestricted type ((load_list R myself cs h).globals)
    unfolding load_list
    load_list-IsRestricted myself [] type h among = elim among [ ]
    load_list-IsRestricted myself (c ∷ rest) type h (inl same) =
        load_list-keeps myself rest type (component_on_ext_load R myself c h) (
          subst (λ d. IsRestricted type ((component_on_ext_load R myself d h).globals)) same
            (component-creates myself type h))
    load_list-IsRestricted myself (c ∷ rest) type h (inr later) =
        load_list-IsRestricted myself rest type (component_on_ext_load R myself c h) later

    created-natives :
        (name : String) (type : HandleType) (tacc : TypeAccess) (hacc : HandleAccess)
        (myself : IdentityId) (table : NativeTable) (r : R.Registry)
        → L.natives (created name type tacc hacc myself table r) ≡ L.natives r ++ table
    created-natives name type tacc hacc myself table r =
        L.natives-add myself table _
        ∙ ap (λ before. before ++ table) (L.natives-create name type tacc hacc myself r)

    component-natives :
        (myself : IdentityId) (c : Component) (h : Hooked R)
        → L.natives ((component_on_ext_load R myself c h).globals.registry)
          ≡ L.natives h.globals.registry ++ table_of c
    unfolding component_on_ext_load load_json load_call load_context load_extension
    component-natives myself event_loop h = sym (append-nil _)
    component-natives myself command_processor h = sym (append-nil _)
    component-natives myself extension_natives h = L.natives-add myself _ h.globals.registry
    component-natives myself json_natives h =
        created-natives "JSON" json_type _ _ myself _ h.globals.registry
    component-natives myself call_natives h =
        created-natives "RPCCall" call_type _ _ myself _ h.globals.registry
    component-natives myself context_natives h =
        created-natives "RPCContext" context_type _ _ myself _ h.globals.registry

    load_list-natives :
        (myself : IdentityId) (cs : List Component) (h : Hooked R)
        → L.natives ((load_list R myself cs h).globals.registry)
          ≡ L.natives h.globals.registry ++ tables_of cs
    unfolding load_list
    load_list-natives myself [] h = sym (append-nil _)
    load_list-natives myself (c ∷ rest) h =
        load_list-natives myself rest (component_on_ext_load R myself c h)
        ∙ ap (λ before. before ++ tables_of rest) (component-natives myself c h)
        ∙ append_assoc (L.natives h.globals.registry) (table_of c) (tables_of rest)

    load_list-loop :
        (myself : IdentityId) (cs : List Component) (h : Hooked R)
        → (load_list R myself cs h).loop ≡ load_components cs h.loop
    unfolding load_list load_components component_on_ext_load load_component
    load_list-loop myself [] h = refl
    load_list-loop myself (event_loop ∷ rest) h = load_list-loop myself rest _
    load_list-loop myself (command_processor ∷ rest) h = load_list-loop myself rest _
    load_list-loop myself (extension_natives ∷ rest) h = load_list-loop myself rest _
    load_list-loop myself (json_natives ∷ rest) h = load_list-loop myself rest _
    load_list-loop myself (call_natives ∷ rest) h = load_list-loop myself rest _
    load_list-loop myself (context_natives ∷ rest) h = load_list-loop myself rest _

    -- After the loop of SDK_OnLoad over the objects that derive from SMRPCBase, in any order: the
    -- event loop is as the objects leave it, SourceMod has the tables of natives of the objects in
    -- their order after the natives that it had, and the handles of a type whose class is among
    -- the objects can be read by their owner alone. Conditions: a new type has a number of its own
    -- and the access that it was created with, and AddNatives adds a table at the end.
    pub load_list_lem :
        (myself : IdentityId) (cs : List Component) (h : Hooked R)
        → ((load_list R myself cs h).loop ≡ load_components cs h.loop)
          × (L.natives ((load_list R myself cs h).globals.registry)
              ≡ L.natives h.globals.registry ++ tables_of cs)
          × ((type : HandleType)
              → IsAmong (class_of type) cs
              → IsRestricted type ((load_list R myself cs h).globals))
    load_list_lem myself cs h = (
      load_list-loop myself cs h,
      load_list-natives myself cs h,
      λ type. load_list-IsRestricted myself cs type h,
    )
