-- ===== src/Call.antt =====
-- src/RPCCall.hpp and src/RPCCall.cpp: the calls that plugins make, on a heap, and what happens to
-- a call when its reply comes. src/smn_rpccall.cpp deletes a call where its handle is destroyed, so
-- a call is on the heap as long as its handle is open.
pub mod Requests
pub mod Sent
pub mod Twice
pub mod RoundTrip
use sm_ext_rpc.Base.{
  String, Option, none, some, List, [], ◌∷◌, Result, ok, fault, ◌>>=◌, ◌==◌, if◌then◌else◌,
}
use sm_ext_rpc.Base.Int.{ℤ}
use sm_ext_rpc.Json.{JsonLib}
use sm_ext_rpc.Method.{FunctionId, IdentityId}
use sm_ext_rpc.Processor.{CallId}

module _ (J : JsonLib) where
  open J use {Json, nullptr, find}

  -- `RPCCall`. `args` is never a null pointer, since the constructor and `SetArgsJSON` both
  -- allocate it; the handle is none until `SetHandle`.
  pub record RpcCall : Type 0 where
    pub method : String
    pub callback : Option FunctionId
    pub args : Json
    pub id : String
    pub handle : Option ℤ
    pub owner : IdentityId

  abbrev pub Heap : Type 0
  Heap = CallId → Option RpcCall

  abbrev pub update : Heap → CallId → Option RpcCall → Heap
  update calls c v d = if c == d then v else calls d

  -- The constructor, with the empty strings of its members.
  unfoldable pub new_call : Option FunctionId → IdentityId → RpcCall
  new_call callback owner = record {
    method = "";
    callback = callback;
    args = nullptr;
    id = "";
    handle = none;
    owner = owner;
  }

  unfoldable pub set_callback : Option FunctionId → RpcCall → RpcCall
  set_callback callback call = record call { callback = callback }

  unfoldable pub set_method : String → RpcCall → RpcCall
  set_method method call = record call { method = method }

  unfoldable pub set_args_json : Json → RpcCall → RpcCall
  set_args_json j call = record call { args = j }

  unfoldable pub get_id : RpcCall → String
  get_id call = call.id

  unfoldable pub set_handle : ℤ → RpcCall → RpcCall
  set_handle handle call = record call { handle = some handle }

  -- `FreeHandle`: the handle is closed and its destructor deletes the call. A call that is already
  -- deleted cannot be asked for its handle. The handle is the only one of its object: a plugin that
  -- cloned it would keep the call.
  unfoldable pub free_handle : CallId → Heap → Result Heap
  free_handle c calls = elim (calls c) [ none ↦ fault | some call ↦ ok (update calls c none) ]

  -- A plugin's function is called with a new JSON handle of the owner.
  pub record Delivery : Type 0 where
    pub callback : FunctionId
    pub value : Json
    pub owner : IdentityId

  -- `res["result"]` on a `const` value: a missing member is undefined behaviour.
  unfoldable pub const_result : Json → Result Json
  const_result res = elim (find res "result") [ none ↦ fault | some v ↦ ok v ]

  -- The call of the plugin's function, if the call has one.
  unfoldable pub deliver : RpcCall → Json → Result (List Delivery)
  unfolding const_result
  deliver call res = elim call.callback [
    | none ↦ ok []
    | some f ↦
        const_result res >>= λ v. ok (record { callback = f; value = v; owner = call.owner } ∷ [])
  ]

  -- `RPCCall::HandleReply`, through a pointer that may dangle.
  unfoldable pub call_reply : CallId → Json → Heap → Result (List Delivery × Heap)
  unfolding deliver free_handle
  call_reply c res calls = elim (calls c) [
    | none ↦ fault
    | some call ↦ do
      deliveries ← deliver call res
      calls' ← free_handle c calls
      ok (deliveries, calls')
  ]
