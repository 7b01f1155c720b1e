-- ===== src/Call/Requests.antt =====
-- `Send`, `Notify` and `Broadcast` of src/RPCCall.cpp: the request that a call stands for, and
-- what becomes of the call.
use sm_ext_rpc.Base.{String, Option, none, some, List, Bytes, Result, ok, fault, ◌>>=◌}
use sm_ext_rpc.Base.Int.{ℤ}
use sm_ext_rpc.Processor.{Env, ServerId, CallId}
use sm_ext_rpc.Processor.Send.{ReqResult, send_request, send_broadcast}
use sm_ext_rpc.Processor.Reply.{State}
use sm_ext_rpc.Call.{RpcCall, update, free_handle}

module _ (E : Env) where
  open E use {json}
  open json use {Json, nullptr, of_string, set}

  -- A request without an id, as `Notify` and `Broadcast` build it.
  unfoldable pub notice : RpcCall json → Json
  notice call =
      set (set (set nullptr "jsonrpc" (of_string "2.0")) "method" (of_string call.method)) "params"
        call.args

  -- The request that `Send` builds.
  unfoldable pub request : RpcCall json → Json
  request call =
      set
        (set (set (set nullptr "jsonrpc" (of_string "2.0")) "id" (of_string call.id)) "method"
          (of_string call.method))
        "params" call.args

  pub record Sending : Type 0 where
    pub result : ReqResult
    pub message : Option (ServerId × Bytes)
    pub state : State E

  -- `Send`; `uuid` is the text of the identifier that the generator returns.
  unfoldable pub send : State E → ℤ → String → String → CallId → Result Sending
  unfolding request
  send s now uuid server c = elim (s.calls c) [
    | none ↦ fault
    | some old ↦
        let call : RpcCall json = record old { id = uuid } in
        send_request E s.processor now server (request call) (some (record { call = c; id = uuid }))
        >>= λ out. ok (record {
          result = out.result;
          message = out.message;
          state = record { processor = out.processor; calls = update json s.calls c (some call) };
        })
  ]

  -- `Notify`: the call is deleted, whatever the result.
  unfoldable pub notify : State E → ℤ → String → CallId → Result Sending
  unfolding notice
  notify s now server c = elim (s.calls c) [
    | none ↦ fault
    | some call ↦ do
      out ← send_request E s.processor now server (notice call) none
      calls ← free_handle json c s.calls
      ok (record {
        result = out.result;
        message = out.message;
        state = record { processor = out.processor; calls = calls };
      })
  ]

  -- `Broadcast`: the messages, and the state without the call.
  unfoldable pub broadcast : State E → ℤ → CallId → Result (List (ServerId × Bytes) × State E)
  unfolding notice
  broadcast s now c = elim (s.calls c) [
    | none ↦ fault
    | some call ↦ do
      messages ← send_broadcast E s.processor now (notice call)
      calls ← free_handle json c s.calls
      ok (messages, record { processor = s.processor; calls = calls })
  ]
