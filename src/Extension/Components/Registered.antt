-- ===== src/Extension/Components/Registered.antt =====
-- What the components of src/Exstension.cpp hand to SourceMod's registries, and how the registries
-- are seen: the access of a type's handles, and the natives that were added.
use sm_ext_rpc.Base.{String, Option, none, some, List, [], ◌∷◌, ◌++◌, ◌≡◌, ◌⊎◌, ◌==◌, if◌then◌else◌}
use sm_ext_rpc.Method.{IdentityId}
use sm_ext_rpc.Extension.{
  Component, event_loop, command_processor, extension_natives, json_natives, call_natives,
  context_natives,
}
use sm_ext_rpc.Natives.{HandleType, json_type, call_type, context_type}
use sm_ext_rpc.Natives.Table.{
  NativeTable, smrpc_json_natives, rpc_call_natives, smrpc_context_natives, smrpc_natives,
}
use sm_ext_rpc.Natives.Types.{Registrar, TypeAccess, HandleAccess, TypeId}

-- SourceMod's registries: the access of a type's handles, and the natives in the order in which
-- they were added.
pub record IsRegistrar (R : Registrar) : Type 0 where
  pub access : TypeId → R.Registry → Option HandleAccess
  pub natives : R.Registry → NativeTable
  -- A new type has a number of its own and the access that it was given.
  pub access-create :
      (name : String) (type : HandleType) (tacc : TypeAccess) (hacc : HandleAccess)
      (myself : IdentityId) (r : R.Registry) (id : TypeId)
      → access id ((R.create_type name type tacc hacc myself r).1)
        ≡ (if id == (R.create_type name type tacc hacc myself r).0 then some hacc else access id r)
  pub create-fresh :
      (name : String) (type : HandleType) (tacc : TypeAccess) (hacc : HandleAccess)
      (myself : IdentityId) (r : R.Registry)
      → access ((R.create_type name type tacc hacc myself r).0) r ≡ none
  pub access-add :
      (myself : IdentityId) (table : NativeTable) (r : R.Registry) (id : TypeId)
      → access id (R.add_natives myself table r) ≡ access id r
  pub natives-create :
      (name : String) (type : HandleType) (tacc : TypeAccess) (hacc : HandleAccess)
      (myself : IdentityId) (r : R.Registry)
      → natives ((R.create_type name type tacc hacc myself r).1) ≡ natives r
  pub natives-add :
      (myself : IdentityId) (table : NativeTable) (r : R.Registry)
      → natives (R.add_natives myself table r) ≡ natives r ++ table

-- The table that a component adds.
abbrev pub table_of : Component → NativeTable
table_of event_loop = []
table_of command_processor = []
table_of extension_natives = smrpc_natives
table_of json_natives = smrpc_json_natives
table_of call_natives = rpc_call_natives
table_of context_natives = smrpc_context_natives

abbrev pub tables_of : List Component → NativeTable
tables_of [] = []
tables_of (c ∷ rest) = table_of c ++ tables_of rest

-- The component that creates a type.
abbrev pub class_of : HandleType → Component
class_of json_type = json_natives
class_of call_type = call_natives
class_of context_type = context_natives

abbrev pub IsAmong : Component → List Component → Type 0
IsAmong c [] = ⊥
IsAmong c (d ∷ rest) = (c ≡ d) ⊎ IsAmong c rest
