-- ===== src/Natives/Incoming.antt =====
-- What a message from another server does to the machine of the natives: a request by
-- src/CommandProcessor.cpp and src/RPCMethod.cpp, and a reply to a call by src/RPCCall.cpp. The
-- plugin's function that is called is named with the handle that it gets: what it does are later
-- calls of natives, as if it ran when the message has been handled.
use sm_ext_rpc.Base.{
  String, Option, none, some, List, [], ◌∷◌, Bytes, Result, ok, fault, ◌>>=◌, suc,
}
use sm_ext_rpc.Base.Int.{ℤ}
use sm_ext_rpc.Method.{FunctionId, IdentityId}
use sm_ext_rpc.Processor.{Env}
use sm_ext_rpc.Processor.Request.{Response, reply, silent, invoke, handle_request}
use sm_ext_rpc.Call.{RpcCall, Delivery, deliver, update}
use sm_ext_rpc.Natives.{Cell, Address, json_type, SourceMod, Machine, put}
use sm_ext_rpc.Natives.Calls.{closed}
use sm_ext_rpc.Natives.Contexts.{call_method}
use sm_ext_rpc.Natives.Servers.{put_processor}

module _ (E : Env) (S : SourceMod (E.json)) where
  open E use {json}
  open json use {Json}

  -- The functions that were called, with their handles, and the reply that was made at once.
  pub record Incoming : Type 0 where
    pub called : List (FunctionId × Cell)
    pub answer : Option Json
    pub machine : Machine E S

  -- What becomes of a request that was handled.
  unfoldable pub dispatch_response : Response E → Machine E S → Incoming
  dispatch_response (reply res) m = record { called = []; answer = some res; machine = m }
  dispatch_response silent m = record { called = []; answer = none; machine = m }
  dispatch_response (invoke f method remote params pending) m =
      let (handle, m') = call_method E S method remote params pending m in
      record { called = (f, handle) ∷ []; answer = none; machine = m' }

  -- `HandleRequest`, with the context that `RPCMethod::Call` creates.
  unfoldable pub receive_request : ℤ → String → Bytes → Machine E S → Result Incoming
  unfolding dispatch_response
  receive_request now remote body m =
      handle_request E m.core.processor now remote body >>= λ handled.
      ok (dispatch_response handled.response (put_processor E S handled.processor m))

  -- `new json(j)` and `CreateHandle` for an owner.
  abbrev pub with_value : IdentityId → Json → Machine E S → Machine E S
  with_value owner j m = record (put E S m.fresh j m) {
    table = (S.create json_type m.fresh owner m.table).1;
    fresh = suc m.fresh;
  }

  -- The plugin's function is called with a handle of the value, if the call has a function.
  unfoldable pub hand_over : List (Delivery json) → Machine E S → Incoming
  hand_over [] m = record { called = []; answer = none; machine = m }
  hand_over (d ∷ rest) m =
      let handle = (S.create json_type m.fresh d.owner m.table).0 in
      let later = hand_over rest (with_value d.owner d.value m) in
      record later { called = (d.callback, handle) ∷ later.called }

  -- The end of `RPCCall::HandleReply`: the handle is closed, and the call is deleted with it.
  unfoldable pub close_call : Address → RpcCall json → Incoming → Result Incoming
  unfolding closed
  close_call c call out = closed E S call out.machine >>= λ table.
      let core = record out.machine.core { calls = update json out.machine.core.calls c none } in
      ok (record out { machine = record out.machine { core = core; table = table } })

  -- `RPCCall::HandleReply`
  unfoldable pub receive_reply : Address → Json → Machine E S → Result Incoming
  unfolding hand_over close_call
  receive_reply c res m = elim (m.core.calls c) [
    | none ↦ fault
    | some call ↦ deliver json call res >>= λ deliveries. close_call c call (hand_over deliveries m)
  ]
