-- ===== src/Tests/Lists.antt =====
-- The trees' arrays as arrays of the JSON library, and the theorems about array natives at a
-- plugin's sample calls.
use sm_ext_rpc.Base.{[], ◌∷◌, ◌++◌, ◌≡◌, refl, ok, ◌==◌, if◌then◌else◌, ap}
use sm_ext_rpc.Base.Int.{pos}
use sm_ext_rpc.Json.{Kind, is_null, is_array}
use sm_ext_rpc.Json.Arrays.{IsListOpen, IsArrayLawful}
use sm_ext_rpc.Natives.{Plugin, Return, output}
use sm_ext_rpc.Natives.Json.Arrays.{
  cell_of_size, get_array_int, get_array_size, get_array_string, push_json_string,
}
use sm_ext_rpc.Natives.Json.Pushed.{
  HoldsList, get_array_int-get_array_size, push_json_string-get_array_string,
}
use sm_ext_rpc.Tests.Tree.{
  Value, null, arr, obj, Items, nil, cons, kind, snoc, to_list, append, elements, size,
}
use sm_ext_rpc.Tests.Library.{tree_json, tree_json-IsLawful}
use sm_ext_rpc.Tests.Samples.{env, words}
use sm_ext_rpc.Tests.Plugins.{source_mod, machine, set_call}

to_list-snoc : (vs : Items) (v : Value) → to_list (snoc vs v) ≡ to_list vs ++ v ∷ []
to_list-snoc nil v = refl
to_list-snoc (cons w vs) v = ap (λ rest. w ∷ rest) (to_list-snoc vs v)

kind-append : (j v : Value) → kind (append j v) ≡ Kind.array
kind-append (arr vs) v = refl
kind-append _ v = refl

elements-append :
    (j v : Value) → IsListOpen tree_json j → elements (append j v) ≡ elements j ++ v ∷ []
unfolding is_null is_array
elements-append (arr vs) v h = to_list-snoc vs v
elements-append _ v h = refl

elements-null : (j : Value) → kind j ≡ Kind.null → elements j ≡ []
elements-null (arr vs) h = cc
elements-null _ h = refl

size-null : (j : Value) → kind j ≡ Kind.null → size j ≡ 0
size-null null h = refl
size-null (arr vs) h = cc
size-null (obj ms) h = cc
size-null _ h = cc

tree_json-IsArrayLawful : IsArrayLawful tree_json
tree_json-IsArrayLawful = record {
  kind-append = λ j v h. kind-append j v;
  elements-append = elements-append;
  elements-null = elements-null;
  size-null = size-null;
}

-- Calls with the handle 4, of an array with one text.
abbrev push_call : Plugin
push_call = record set_call { params = λ n. if n == 1 then pos 4 else pos 20 }

abbrev read_call : Plugin
read_call = record set_call {
  params = λ n. if n == 1 then pos 4 else if n == 2 then pos 1 else pos 64;
}

abbrev far_call : Plugin
far_call = record set_call { params = λ n. if n == 1 then pos 4 else pos 6 }

push_call-HoldsList : HoldsList env source_mod push_call machine words
unfolding is_null is_array
push_call-HoldsList = record { object = 4; readable = refl; alive = refl; open_value = refl }

far_call-HoldsList : HoldsList env source_mod far_call machine words
unfolding is_null is_array
far_call-HoldsList = record { object = 4; readable = refl; alive = refl; open_value = refl }

push_json_string-get_array_string_example :
    (r r' r'' : Return env source_mod) × (push_json_string env source_mod push_call machine ≡ ok r)
    × (get_array_string env source_mod read_call r.machine ≡ ok r')
    × (r'.effects ≡ output (pos 64) (pos 64) "key" ∷ [])
    × (get_array_size env source_mod read_call r'.machine ≡ ok r'')
    × (r''.cell ≡ cell_of_size 2)
push_json_string-get_array_string_example =
    push_json_string-get_array_string env source_mod tree_json-IsLawful tree_json-IsArrayLawful
      push_call read_call machine words push_call-HoldsList
      (record { identity = refl; handle = refl }) refl

get_array_int-get_array_size_example :
    (r r' : Return env source_mod) × (get_array_int env source_mod far_call machine ≡ ok r)
    × (get_array_size env source_mod read_call r.machine ≡ ok r')
    × (r'.cell ≡ cell_of_size 7)
get_array_int-get_array_size_example =
    get_array_int-get_array_size env source_mod tree_json-IsLawful tree_json-IsArrayLawful far_call
      read_call machine words 6 far_call-HoldsList (record { identity = refl; handle = refl }) refl
