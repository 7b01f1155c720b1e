-- ===== src/Tests/Registries.antt =====
-- Registries that meet the assumptions, and the theorem about the load of the components at a list
-- of them.
use sm_ext_rpc.Base.{
  ℕ, zero, suc, List, [], ◌∷◌, ◌++◌, ◌≡◌, refl, ◌==◌, if◌then◌else◌, none, some, length, get_elem?,
  arith, false,
}
use sm_ext_rpc.Natives.{HandleType}
use sm_ext_rpc.Natives.Table.{NativeTable}
use sm_ext_rpc.Natives.Types.{Registrar, HandleAccess}
use sm_ext_rpc.EventLoop.{new_loop}
use sm_ext_rpc.Extension.{Component, load_components}
use sm_ext_rpc.Extension.Components.{Hooked, load_list}
use sm_ext_rpc.Extension.Components.Registered.{IsRegistrar, tables_of, class_of, IsAmong}
use sm_ext_rpc.Extension.Components.Restricted.{load_list_lem, IsRestricted}

-- The access of each type, by its position, and the natives.
abbrev registrar : Registrar
registrar = record {
  Registry = List HandleAccess × NativeTable;
  handle_restrict_owner = 2;
  init_access_defaults =
      (record { ident = none; access = λ right. false }, record { access = λ right. 0 });
  create_type =
      λ name type tacc hacc myself (types, natives). (length types, (types ++ hacc ∷ [], natives));
  remove_type = λ id myself r. r;
  add_natives = λ myself table (types, natives). (types, natives ++ table);
}

get_elem?-snoc :
    (types : List HandleAccess) (hacc : HandleAccess) (id : ℕ)
    → get_elem? (types ++ hacc ∷ []) id
      ≡ (if id == length types then some hacc else get_elem? types id)
get_elem?-snoc [] hacc zero = refl
get_elem?-snoc [] hacc (suc id) = ground arith
get_elem?-snoc (t ∷ rest) hacc zero = ground arith
get_elem?-snoc (t ∷ rest) hacc (suc id) = ground (arith, get_elem?-snoc rest hacc id)

get_elem?-length : (types : List HandleAccess) → get_elem? types (length types) ≡ none
get_elem?-length [] = refl
get_elem?-length (t ∷ rest) = get_elem?-length rest

abbrev registrar_laws : IsRegistrar registrar
registrar_laws = record {
  access = λ id (types, natives). get_elem? types id;
  natives = λ (types, natives). natives;
  access-create = λ name type tacc hacc myself (types, natives) id. get_elem?-snoc types hacc id;
  create-fresh = λ name type tacc hacc myself (types, natives). get_elem?-length types;
  access-add = λ myself table r id. refl;
  natives-create = λ name type tacc hacc myself r. refl;
  natives-add = λ myself table r. refl;
}

abbrev unloaded : Hooked registrar
unloaded = record {
  loop = new_loop;
  globals = record { json_id = 0; call_id = 0; context_id = 0; registry = ([], []) };
}

abbrev components : List Component
components = Component.context_natives ∷ Component.event_loop ∷ Component.json_natives ∷ []

load_list_lem_example :
    ((load_list registrar 7 components unloaded).loop ≡ load_components components new_loop)
    × ((load_list registrar 7 components unloaded).globals.registry.1 ≡ tables_of components)
    × ((type : HandleType)
        → IsAmong (class_of type) components
        → IsRestricted registrar registrar_laws type
            ((load_list registrar 7 components unloaded).globals))
load_list_lem_example = load_list_lem registrar registrar_laws 7 components unloaded
