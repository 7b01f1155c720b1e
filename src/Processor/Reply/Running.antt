-- ===== src/Processor/Reply/Running.antt =====
-- `HandleReply` of src/CommandProcessor.cpp and `RPCCall::HandleReply` of src/RPCCall.cpp with what
-- the plugins' functions do while they run. `run` is the effect of a function on the processor and
-- on the calls: it may send, notify, close the handles of calls, and register servers and methods.
pub mod Objects
pub mod Safe
pub mod Closed
pub mod Still
use sm_ext_rpc.Base.{
  String, not, ◌&&◌, Option, none, some, List, [], ◌∷◌, ◌++◌, Bytes, Result, ok, throw, fault,
  invalid_argument, ◌>>=◌, str_eq, if◌then◌else◌,
}
use sm_ext_rpc.Base.Dict.{lookup, erase}
use sm_ext_rpc.Json.{at, as_string, is_null, is_array, is_object, is_string}
use sm_ext_rpc.Call.{RpcCall, Delivery, deliver, free_handle}
use sm_ext_rpc.Processor.{Env, CallId}
use sm_ext_rpc.Processor.Signature.{reply_sig}
use sm_ext_rpc.Processor.Reply.{
  State, Step, complain, stay, error_reply, invalid_signature, bad_signature, no_record, catch,
}

module _ (E : Env) (run : Delivery E.json → State E → State E) where
  open E use {json}
  open json use {Json, elements, parse}

  -- `callback->Execute(nullptr)`, for each function that is called.
  unfoldable pub execute : List (Delivery json) → State E → State E
  execute [] s = s
  execute (d ∷ ds) s = execute ds (run d s)

  -- `FreeHandle`, through a pointer that dangles if the call was deleted meanwhile.
  unfoldable pub free_call : CallId → State E → Result (State E)
  unfolding free_handle
  free_call c s = free_handle json c s.calls >>= λ calls. ok (record s { calls = calls })

  -- `RPCCall::HandleReply`: the function runs before the handle is closed.
  unfoldable pub run_reply : CallId → Json → State E → Result (List (Delivery json) × State E)
  unfolding deliver execute free_call
  run_reply c res s = elim (s.calls c) [
    | none ↦ fault
    | some call ↦ do
      deliveries ← deliver json call res
      s' ← free_call c (execute deliveries s)
      ok (deliveries, s')
  ]

  -- The record of the call is removed after its function has run.
  unfoldable pub run_settle : State E → String → Json → CallId → Result (Step E)
  unfolding run_reply
  run_settle s id reply c = do
    (deliveries, s') ← run_reply c reply s
    let p = record s'.processor { outstanding_calls = erase id s'.processor.outstanding_calls }
    ok (record { state = record s' { processor = p }; deliveries = deliveries; log = [] })

  unfoldable pub run_find : State E → String → Json → Result (Step E)
  unfolding run_settle
  run_find s id reply = elim (lookup id s.processor.outstanding_calls) [
    | none ↦ complain E (no_record id) s
    | some c ↦ run_settle s id reply c
  ]

  unfoldable pub run_accept : State E → Json → Result (Step E)
  unfolding run_find
  run_accept s reply = do
    id ← at json reply "id"
    if not (is_null json id) && is_string json id
        then (as_string json id >>= λ text. run_find s text reply)
        else stay E s

  unfoldable pub run_verify : State E → Json → Json → Result (Step E)
  unfolding run_accept
  run_verify s reply sig = do
    text ← as_string json sig
    (expected, reply') ← reply_sig E s.processor.api_key reply
    if not (str_eq text expected) then complain E bad_signature s else run_accept s reply'

  unfoldable pub run_command_reply : State E → Json → Result (Step E)
  unfolding run_verify
  run_command_reply s reply = at json reply "error" >>= λ error.
      if not (is_null json error)
      then complain E error_reply s
      else (at json reply "sig" >>= λ sig.
          if not (is_string json sig)
          then complain E invalid_signature s
          else run_verify s reply sig)

  unfoldable pub run_all : State E → List Json → Result (Step E)
  unfolding run_command_reply
  run_all s [] = stay E s
  run_all s (reply ∷ replies) = do
    step ← run_command_reply s reply
    rest ← run_all step.state replies
    ok (record {
      state = rest.state;
      deliveries = step.deliveries ++ rest.deliveries;
      log = step.log ++ rest.log;
    })

  unfoldable pub run_value : State E → Option Json → Result (Step E)
  unfolding run_all
  run_value s none = throw invalid_argument
  run_value s (some j) =
      if is_array json j
      then run_all s (elements j)
      else if is_object json j
      then run_command_reply s j
      else stay E s

  -- `HandleReply`
  unfoldable pub run_packet : State E → Bytes → Result (Step E)
  unfolding run_value catch
  run_packet s body = catch E s (run_value s (parse body))
