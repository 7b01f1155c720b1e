-- ===== src/Natives/Live/Delivered.antt =====
-- src/RPCCall.cpp: what the plugin gets from `RPCCall::HandleReply`, and what is left of the call.
use sm_ext_rpc.Base.{none, some, [], ◌∷◌, ok, ◌≡◌, ◌≢◌, inl, refl, arith}
use sm_ext_rpc.Method.{FunctionId, IdentityId}
use sm_ext_rpc.Processor.{Env}
use sm_ext_rpc.Call.{RpcCall, deliver, const_result, call_reply, free_handle, update}
use sm_ext_rpc.Natives.{Cell, Address, json_type, call_type, SourceMod, IsSourceMod, Machine}
use sm_ext_rpc.Natives.Calls.{closed}
use sm_ext_rpc.Natives.Incoming.{Incoming, close_call, hand_over, with_value, receive_reply}
use sm_ext_rpc.Natives.Live.{IsHandleSystem, IsLive}
use sm_ext_rpc.Natives.Live.Machines.{found_there}
use sm_ext_rpc.Natives.Live.Values.{with_value-IsLive}

module _ (E : Env) (S : SourceMod (E.json)) where
  open E use {json}
  open json use {Json}

  -- The machine after the function of a call got the value and the call was deleted.
  abbrev answered : Address → RpcCall json → FunctionId → Cell → Json → Machine E S → Incoming E S
  answered c call f handle v m =
      let m' : Machine E S = with_value E S call.owner v m in
      record {
        called = (f, (S.create json_type m.fresh call.owner m.table).0) ∷ [];
        answer = none;
        machine = record m' {
          core = record m.core { calls = update json m.core.calls c none };
          table = (S.free handle call.owner m'.table).1;
        };
      }

  deliver_lem :
      (call : RpcCall json) (res : Json) (f : FunctionId) (v : Json)
      → call.callback ≡ some f
      → json.find res "result" ≡ some v
      → deliver json call res ≡ ok (record { callback = f; value = v; owner = call.owner } ∷ [])
  unfolding deliver const_result
  deliver_lem call res f v has_callback has_result =
      rw (deliver, has_callback, const_result, has_result) refl

  receive_reply_lem :
      (c : Address) (res : Json) (m : Machine E S) (call : RpcCall json) (f : FunctionId)
      (handle : Cell) (v : Json)
      → m.core.calls c ≡ some call
      → call.handle ≡ some handle
      → deliver json call res ≡ ok (record { callback = f; value = v; owner = call.owner } ∷ [])
      → receive_reply E S c res m ≡ ok (answered c call f handle v m)
  unfolding receive_reply close_call closed hand_over
  receive_reply_lem c res m call f handle v there has delivers =
      rw (receive_reply, there, delivers, close_call, closed, has) refl

  call_reply_lem :
      (c : Address) (res : Json) (m : Machine E S) (call : RpcCall json) (f : FunctionId)
      (handle : Cell) (v : Json)
      → m.core.calls c ≡ some call
      → deliver json call res ≡ ok (record { callback = f; value = v; owner = call.owner } ∷ [])
      → call_reply json c res m.core.calls
        ≡ ok (
          record { callback = f; value = v; owner = call.owner } ∷ [],
          (answered c call f handle v m).machine.core.calls,
        )
  unfolding call_reply free_handle
  call_reply_lem c res m call f handle v there delivers =
      rw (call_reply, there, delivers, free_handle, there) refl

  module _ (H : IsHandleSystem (E.json) S) (M : IsSourceMod (E.json) S) where
    -- A reply with a result, to a call that has a function and an open handle, is handled to its
    -- end on the machine of the natives: the function that the call names is called with one
    -- handle, which the owner of the call can read as the value of the result; the heap of calls
    -- is the one that HandleReply leaves in the model of the processor; and the call can be read
    -- behind no handle. Conditions: every handle that can be read stands for an object that is
    -- there, the handles of one object are not cloned, each object gets one handle, which its
    -- owner alone reads, and a handle that is closed leaves the handles of other objects.
    pub receive_reply-call_reply :
        (c : Address) (res : Json) (m : Machine E S) (call : RpcCall json) (f : FunctionId)
        (handle : Cell) (v : Json)
        → IsLive E S H m
        → S.read call_type handle call.owner m.table ≡ inl c
        → m.core.calls c ≡ some call
        → call.callback ≡ some f
        → json.find res "result" ≡ some v
        → (out : Incoming E S) × (h : Cell) × (a : Address) × (receive_reply E S c res m ≡ ok out)
          × (call_reply json c res m.core.calls
              ≡ ok (
                record { callback = f; value = v; owner = call.owner } ∷ [],
                out.machine.core.calls,
              ))
          × (out.called ≡ (f, h) ∷ [])
          × (S.read json_type h call.owner out.machine.table ≡ inl a)
          × (out.machine.jsons a ≡ some v)
          × ((handle' : Cell) (owner' : IdentityId)
              → S.read call_type handle' owner' out.machine.table ≢ inl c)
    receive_reply-call_reply c res m call f handle v live readable there has_callback has_result =
        let (call', there', has', _) = live.held call_type handle call.owner c readable in
        let has : call.handle ≡ some handle = cc in
        let delivers = deliver_lem call res f v has_callback has_result in
        let created = with_value-IsLive E S H call.owner v m live in
        let kept : S.read call_type handle call.owner (with_value E S call.owner v m).table
            ≡ inl c =
          H.read-kept call_type json_type handle call.owner call.owner m.fresh c m.table
            (λ type handle' owner unread. omega (arith, live.old type handle' owner m.fresh unread))
            readable in
        (
          answered c call f handle v m,
          (S.create json_type m.fresh call.owner m.table).0,
          m.fresh,
          receive_reply_lem c res m call f handle v there has delivers,
          call_reply_lem c res m call f handle v there delivers,
          refl,
          H.read-spared json_type call_type _ handle call.owner call.owner c m.fresh _ kept
              (M.read-create json_type m.fresh call.owner m.table)
              (λ same. omega (arith, same, live.old call_type handle call.owner c readable)),
          found_there m.jsons m.fresh (some v),
          λ handle' owner' found.
              H.read-freed call_type handle' handle owner' call.owner c c _ created.sole kept found
                refl,
        )
