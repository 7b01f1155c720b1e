-- ===== src/Tests/Samples.antt =====
-- Two servers with one key: `caller` knows the other under a name and has a call outstanding, and
-- `receiver` has a method that echoes a text.
use Prim.Native.Char.{Char}
use sm_ext_rpc.Base.{
  eq_iff, ℕ, zero, suc, String, some, none, List, [], ◌∷◌, ◌==◌, if◌then◌else◌, ◌≡◌, refl, arith,
}
use sm_ext_rpc.Base.Int.{◌-ℤ◌, pos}
use sm_ext_rpc.Method.{validate_arguments, RpcMethod, ParamType}
use sm_ext_rpc.Processor.{pointer, Env, Processor}
use sm_ext_rpc.Processor.Reply.{State}
use sm_ext_rpc.Processor.Reply.Safety.{IsSound}
use sm_ext_rpc.Processor.Request.Outcome.{HasUsableMethods, IsUsable}
use sm_ext_rpc.Processor.Send.Accepted.{CanSign, IsAddressed}
use sm_ext_rpc.Call.{RpcCall, Heap}
use sm_ext_rpc.Call.Requests.{request}
use sm_ext_rpc.Tests.Tree.{Value, str, arr, obj, nil, cons, end, entry}
use sm_ext_rpc.Tests.Library.{
  tree_plain, tree_json, tree_json-IsLawful, tree_json-IsReadBack, checksum, checksum-IsSha256,
}
use sm_ext_rpc.Base.Dict.{lookup}
use sm_ext_rpc.Json.{at_index, member, is_string, is_array, is_object, is_null}

abbrev pub filled_with : Char → ℕ → List Char
filled_with c zero = []
filled_with c (suc n) = c ∷ filled_with c n

abbrev pub buffer : List Char
buffer = filled_with "?" 128

abbrev pub peer_buffer : List Char
peer_buffer = filled_with "!" 128

abbrev pub env : Env
env = record { json = tree_json; hmac = checksum; hash = buffer }

pub env-CanSign : CanSign env peer_buffer
env-CanSign = record { sha = checksum-IsSha256; here = omega arith; there = omega arith }

abbrev pub echo : RpcMethod
echo = record {
  param_types = ParamType.string ∷ [];
  name = "Echo";
  callback = some 7;
  owning_plugin = 1;
}

abbrev pub caller : Processor
caller = record {
  api_key = "k";
  methods = [];
  servers = ("b", some 4) ∷ [];
  outstanding_calls = ("u1", 3) ∷ [];
}

abbrev pub receiver : Processor
receiver = record {
  api_key = "k";
  methods = ("Echo", some echo) ∷ [];
  servers = [];
  outstanding_calls = [];
}

abbrev pub words : Value
words = arr (cons (str "hi") nil)

abbrev pub echo_call : RpcCall tree_json
echo_call = record {
  method = "Echo";
  callback = some 9;
  args = words;
  id = "u1";
  handle = some (pos 8);
  owner = 2;
}

abbrev pub calls : Heap tree_json
calls c = if c == 3 then some echo_call else none

abbrev pub state : State env
state = record { processor = caller; calls = calls }

abbrev pub echo_request : Value
echo_request = obj (
    entry "jsonrpc" (str "2.0")
      (entry "id" (str "u1") (entry "method" (str "Echo") (entry "params" words end))))

pub request_example : request env echo_call ≡ echo_request
unfolding request
request_example = refl

only_echo :
    (name : String) (m : RpcMethod) → pointer (lookup name receiver.methods) ≡ some m → echo ≡ m
unfolding lookup
only_echo name m e = ground arith

IsUsable-if_echo : (m : RpcMethod) → echo ≡ m → IsUsable m
IsUsable-if_echo m e = rw (← e) (record { callable = (7, refl); named = (tt, tt) })

pub receiver-HasUsableMethods : HasUsableMethods receiver
receiver-HasUsableMethods name m e = IsUsable-if_echo m (only_echo name m e)

pub echo_request-IsAddressed :
    IsAddressed env tree_json-IsLawful tree_json-IsReadBack caller receiver
      (pos 100)
      (pos 110)
      echo_request
      echo
      7
unfolding is_null is_object is_array is_string member lookup validate_arguments at_index ◌-ℤ◌
echo_request-IsAddressed = record {
  open_value = refl;
  plain = tree_plain _;
  same_key = refl;
  timely = omega arith;
  in_range = (omega arith, omega arith);
  array = refl;
  named = refl;
  registered = refl;
  callable = refl;
  valid = refl;
}

pub state-IsSound : IsSound env state
unfolding lookup
state-IsSound = record {
  alive = λ id c e. (echo_call, ground arith, ground (arith, eq_iff id "u1"));
}
