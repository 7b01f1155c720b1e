-- ===== src/Tests/Plugins.antt =====
-- The theorems about the natives at a plugin's sample calls.
use sm_ext_rpc.Base.{
  ℕ, String, none, some, [], ◌∷◌, ◌≡◌, refl, ok, inl, inr, ◌⊎◌, ◌==◌, if◌then◌else◌, true,
}
use sm_ext_rpc.Base.Int.{pos, negsuc}
use sm_ext_rpc.Base.Dict.{lookup}
use sm_ext_rpc.Json.{is_number, is_string, is_null, is_object}
use sm_ext_rpc.Processor.Request.{pending_of}
use sm_ext_rpc.Processor.Reply.Completed.{completed, complete_lem}
use sm_ext_rpc.Natives.Json.Total.{get_json-total}
use sm_ext_rpc.Natives.Json.{get_json_float, get_json_bool}
use sm_ext_rpc.Natives.{Plugin, Cell, Address, SourceMod, IsSourceMod, Machine, Return, output}
use sm_ext_rpc.Natives.Json.{get_json_int, set_json_string, get_json_string}
use sm_ext_rpc.Natives.Json.Laws.{Holds, SameMember, get_json_string-set_json_string}
use sm_ext_rpc.Natives.Contexts.{call_method, set_return, finish_call, replies}
use sm_ext_rpc.Natives.Contexts.Served.{IsServing, set_return-finish_call}
use sm_ext_rpc.Natives.Servers.{rpc_add_server, rpc_get_server_port, rpc_get_server_address}
use sm_ext_rpc.Natives.Servers.Listed.{rpc_add_server-rpc_get_server}
use sm_ext_rpc.Tests.Tree.{str, obj, end}
use sm_ext_rpc.Tests.Library.{tree_json, tree_json-IsLawful}
use sm_ext_rpc.Tests.Samples.{env, caller, state, echo, words}
use sm_ext_rpc.Processor.Reply.Completed.{completed}

-- A handle that is the address of its object.
abbrev find_object : Cell → Address ⊎ ℕ
find_object (pos a) = inl a
find_object (negsuc n) = inr 1

abbrev pub source_mod : SourceMod tree_json
source_mod = record {
  Table = Unit;
  read = λ type handle owner table. find_object handle;
  create = λ type object owner table. (pos object, table);
  free = λ handle owner table. (true, table);
  sp_ctof = λ c. 0;
  sp_ftoc = λ x. pos x;
}

source_mod-IsSourceMod : IsSourceMod tree_json source_mod
source_mod-IsSourceMod = record { read-create = λ type object owner table. refl }

abbrev pub machine : Machine env source_mod
machine = record {
  table = tt;
  fresh = 10;
  jsons = λ a. if a == 3 then some (obj end) else some words;
  contexts = λ a. none;
  core = state;
  peers = λ s. none;
  services = [];
}

-- A plugin that passes the handle 3 and an array of cells; the texts in its memory are found by
-- their address.
abbrev pub cells : Cell → Cell → Cell → ℕ → Cell
cells a b c n = if n == 2 then a else if n == 3 then b else if n == 4 then c else pos 3

abbrev pub texts : Cell → String
texts (pos a) = if a == 20 then "key" else "value"
texts (negsuc n) = ""

abbrev pub with_cells : Cell → Cell → Cell → Plugin
with_cells a b c = record {
  identity = 1;
  params = cells a b c;
  text = texts;
  word = λ c. c;
  function = λ c. none;
}

abbrev pub set_call : Plugin
set_call = with_cells (pos 20) (pos 21) (pos 0)

abbrev get_call : Plugin
get_call = with_cells (pos 20) (pos 500) (pos 64)

set_call-Holds : Holds env source_mod set_call machine (obj end)
unfolding is_null is_object
set_call-Holds = record { object = 3; readable = refl; alive = refl; open_value = refl }

same_member : SameMember env source_mod set_call get_call
same_member = record { identity = refl; handle = refl; key = refl }

get_json_string-set_json_string_example :
    (r r' : Return env source_mod) × (set_json_string env source_mod set_call machine ≡ ok r)
    × (get_json_string env source_mod get_call r.machine ≡ ok r')
    × (r'.cell ≡ pos 1)
    × (r'.effects ≡ output (pos 500) (pos 64) "value" ∷ [])
get_json_string-set_json_string_example =
    get_json_string-set_json_string env source_mod tree_json-IsLawful set_call get_call machine
      (obj end) set_call-Holds same_member

-- The value behind the handle 3 of this call is an object without the key.
get_json-total_example :
    ((r : Return env source_mod) × (get_json_int env source_mod get_call machine ≡ ok r))
    × ((r : Return env source_mod) × (get_json_float env source_mod get_call machine ≡ ok r))
    × ((r : Return env source_mod) × (get_json_bool env source_mod get_call machine ≡ ok r))
get_json-total_example = get_json-total env source_mod get_call machine 3 (obj end) refl refl

-- The function of the method is called with the handle 10, and returns the value of the handle 4.
abbrev serving : Plugin
serving = record set_call { params = λ n. if n == 1 then pos 10 else pos 4 }

abbrev start : Machine env source_mod
start = (call_method env source_mod echo "10.0.0.1" words (pending_of env (str "u1")) machine).1

serving-IsServing :
    IsServing env source_mod source_mod-IsSourceMod echo "10.0.0.1" words
      (pending_of env (str "u1"))
      machine
      serving
unfolding call_method
serving-IsServing = record { handle = refl; owner = refl }

set_return-finish_call_example :
    (r r' : Return env source_mod) × (set_return env source_mod serving start ≡ ok r)
    × (finish_call env source_mod serving r.machine ≡ ok r')
    × (r'.effects ≡ replies env source_mod (some (completed env "k" (str "u1") words)))
unfolding call_method pending_of is_number is_string
set_return-finish_call_example =
    set_return-finish_call env source_mod source_mod-IsSourceMod echo "10.0.0.1" words
      (pending_of env (str "u1")) machine serving serving 4 words
      (some (completed env "k" (str "u1") words)) serving-IsServing serving-IsServing refl refl
      (complete_lem env tree_json-IsLawful caller (pending_of env (str "u1")) words)

rpc_add_server-rpc_get_server_example :
    (r port address : Return env source_mod) × (rpc_add_server env source_mod
        (with_cells (pos 7) (pos 4003) (pos 0))
        machine
      ≡ ok r)
    × (rpc_get_server_port env source_mod get_call r.machine ≡ ok port)
    × (port.cell ≡ pos 4003)
    × (rpc_get_server_address env source_mod get_call r.machine ≡ ok address)
    × (address.effects ≡ output (pos 20) (pos 500) "value" ∷ [])
unfolding lookup
rpc_add_server-rpc_get_server_example =
    rpc_add_server-rpc_get_server env source_mod (with_cells (pos 7) (pos 4003) (pos 0)) get_call
      machine refl refl
