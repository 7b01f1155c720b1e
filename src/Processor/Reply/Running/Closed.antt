-- ===== src/Processor/Reply/Running/Closed.antt =====
-- src/RPCCall.cpp: a function that deletes the call whose reply it handles.
use sm_ext_rpc.Base.{none, String, ◌≡◌, refl, arith, some, fault}
use sm_ext_rpc.Base.Dict.{lookup}
use sm_ext_rpc.Json.{member}
use sm_ext_rpc.Json.Laws.{IsLawful}
use sm_ext_rpc.Call.{RpcCall, Delivery, deliver, const_result, free_handle}
use sm_ext_rpc.Method.{FunctionId}
use sm_ext_rpc.Processor.{Env, CallId}
use sm_ext_rpc.Processor.Signature.{sign}
use sm_ext_rpc.Processor.Request.Objects.{reply_message}
use sm_ext_rpc.Processor.Reply.{State}
use sm_ext_rpc.Processor.Reply.Genuine.{covered, covered_result}
use sm_ext_rpc.Processor.Reply.Running.{
  execute, free_call, run_reply, run_settle, run_find, run_command_reply,
}
use sm_ext_rpc.Processor.Reply.Delivered.{IsFor}
use sm_ext_rpc.Processor.Reply.Running.Objects.{reply_object, accept_object}
use sm_ext_rpc.Base.{eq_iff}

module _ (E : Env) (run : Delivery E.json → State E → State E) where
  open E use {json}
  open json use {Json, get_string, find}

  settle_closed :
      (s : State E) (id : String) (res v : Json) (c : CallId) (call : RpcCall json) (f : FunctionId)
      → s.calls c ≡ some call
      → call.callback ≡ some f
      → find res "result" ≡ some v
      → (run (record { callback = f; value = v; owner = call.owner }) s).calls c ≡ none
      → run_settle E run s id res c ≡ fault
  unfolding run_settle run_reply deliver const_result execute free_call free_handle
  settle_closed s id res v c call f here callback result closed =
      rw
        (
          run_settle, run_reply, here, deliver, callback, const_result, result, execute, free_call,
          free_handle, closed,
        )
        refl

  find_closed :
      (s : State E) (id : String) (res : Json) (c : CallId)
      → lookup id s.processor.outstanding_calls ≡ some c
      → run_settle E run s id res c ≡ fault
      → run_find E run s id res ≡ fault
  unfolding run_find
  find_closed s id res c recorded e = rw (run_find, recorded) e

  -- A genuine reply for a call on the heap that has a function runs that function; if the function
  -- deletes the call, by closing its handle or by notifying with it, HandleReply closes the handle
  -- through a dangling pointer after that.
  pub run_command_reply_closed :
      (L : IsLawful json) (s : State E) (j : Json) (c : CallId) (call : RpcCall json)
      (f : FunctionId)
      → IsFor E s j c call
      → call.callback ≡ some f
      → (run (record { callback = f; value = member json j "result"; owner = call.owner }) s).calls
          c
        ≡ none
      → run_command_reply E run s j ≡ fault
  run_command_reply_closed L s j c call f h callback closed =
      let g = h.genuine in
      let settled_fault =
        settle_closed s (get_string (member json j "id")) (covered E j) (member json j "result") c
          call f h.alive callback (covered_result E L s j g.object) closed in
      let found =
        find_closed s (get_string (member json j "id")) (covered E j) c h.recorded settled_fault in
      ground (
        arith,
        reply_object E run L s j g.object,
        accept_object E run L s j g.object,
        found,
        g.no_error,
        g.text,
        h.text,
        eq_iff (get_string (member json j "sig")) (sign E (reply_message E j) s.processor.api_key),
        g.equal,
      )
