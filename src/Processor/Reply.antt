-- ===== src/Processor/Reply.antt =====
-- `HandleReply` and `processCommandReply` of src/CommandProcessor.cpp.
pub mod Completed
pub mod Genuine
pub mod Delivered
pub mod Safety
pub mod Running
pub mod RoundTrip
pub mod Errors
pub mod Dangling
use sm_ext_rpc.Base.{
  String, not, ◌&&◌, Option, none, some, List, [], ◌∷◌, ◌++◌, Bytes, Result, ok, throw,
  invalid_argument, ◌>>=◌, str_eq, if◌then◌else◌,
}
use sm_ext_rpc.Base.Dict.{lookup, erase}
use sm_ext_rpc.Json.{at, as_string, is_null, is_array, is_object, is_string}
use sm_ext_rpc.Call.{Heap, Delivery, call_reply}
use sm_ext_rpc.Processor.{Env, Processor, CallId}
use sm_ext_rpc.Processor.Signature.{reply_sig}

-- The lines that are written to the error log.
pub data LogLine : Type 0 where
  error_reply invalid_signature bad_signature parse_error : LogLine
  no_record : String → LogLine

module _ (E : Env) where
  open E use {json}
  open json use {Json, elements, parse}

  pub record State : Type 0 where
    pub processor : Processor
    pub calls : Heap json

  -- The new state, the plugin functions that were called, and the log, in order.
  pub record Step : Type 0 where
    pub state : State
    pub deliveries : List (Delivery json)
    pub log : List LogLine

  -- Return with a line in the log.
  abbrev pub complain : LogLine → State → Result Step
  complain line s = ok (record { state = s; deliveries = []; log = line ∷ [] })

  abbrev pub stay : State → Result Step
  stay s = ok (record { state = s; deliveries = []; log = [] })

  -- The body of the inner `try`: the record of the call is removed after the call has run.
  unfoldable pub settle : State → String → Json → CallId → Result Step
  settle s id reply c = do
    (deliveries, calls) ← call_reply json c reply s.calls
    let p = record s.processor { outstanding_calls = erase id s.processor.outstanding_calls }
    ok (record {
      state = record { processor = p; calls = calls };
      deliveries = deliveries;
      log = [];
    })

  -- `outstandingCalls.at(id)` throws `out_of_range`, which the inner handler catches.
  unfoldable pub find_call : State → String → Json → Result Step
  unfolding settle
  find_call s id reply = elim (lookup id s.processor.outstanding_calls) [
    | none ↦ complain (no_record id) s
    | some c ↦ settle s id reply c
  ]

  unfoldable pub accept : State → Json → Result Step
  unfolding find_call
  accept s reply = do
    id ← at json reply "id"
    if not (is_null json id) && is_string json id
        then (as_string json id >>= λ text. find_call s text reply)
        else stay s

  unfoldable pub verify : State → Json → Json → Result Step
  unfolding accept
  verify s reply sig = do
    text ← as_string json sig
    (expected, reply') ← reply_sig E s.processor.api_key reply
    if not (str_eq text expected) then complain bad_signature s else accept s reply'

  unfoldable pub process_command_reply : State → Json → Result Step
  unfolding verify
  process_command_reply s reply = at json reply "error" >>= λ error.
      if not (is_null json error)
      then complain error_reply s
      else (at json reply "sig" >>= λ sig.
          if not (is_string json sig) then complain invalid_signature s else verify s reply sig)

  -- The loop over the replies of an array.
  unfoldable pub process_all : State → List Json → Result Step
  process_all s [] = stay s
  process_all s (reply ∷ replies) = do
    step ← process_command_reply s reply
    rest ← process_all step.state replies
    ok (record {
      state = rest.state;
      deliveries = step.deliveries ++ rest.deliveries;
      log = step.log ++ rest.log;
    })

  unfoldable pub process_value : State → Option Json → Result Step
  process_value s none = throw invalid_argument
  process_value s (some j) =
      if is_array json j
      then process_all s (elements j)
      else if is_object json j
      then process_command_reply s j
      else stay s

  -- Only `std::invalid_argument` has a handler: other exceptions leave the function.
  unfoldable pub catch : State → Result Step → Result Step
  catch s (throw invalid_argument) = complain parse_error s
  catch s r = r

  -- `HandleReply`
  unfoldable pub handle_reply : State → Bytes → Result Step
  unfolding process_value catch
  handle_reply s body = catch s (process_value s (parse body))
