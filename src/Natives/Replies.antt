-- ===== src/Natives/Replies.antt =====
-- `HandleReply` and `processCommandReply` of src/CommandProcessor.cpp on the machine of the natives:
-- a reply that is accepted runs `RPCCall::HandleReply`, with the handles that it creates and closes.
pub mod Related
pub mod Simulated
use sm_ext_rpc.Base.{
  String, not, ◌&&◌, Option, none, some, List, [], ◌∷◌, ◌++◌, Bytes, Result, ok, throw,
  invalid_argument, ◌>>=◌, str_eq, if◌then◌else◌,
}
use sm_ext_rpc.Base.Dict.{lookup, erase}
use sm_ext_rpc.Json.{at, as_string, is_null, is_array, is_object, is_string}
use sm_ext_rpc.Method.{FunctionId}
use sm_ext_rpc.Processor.{Env, CallId}
use sm_ext_rpc.Processor.Signature.{reply_sig}
use sm_ext_rpc.Processor.Reply.{
  LogLine, error_reply, invalid_signature, bad_signature, parse_error, no_record,
}
use sm_ext_rpc.Natives.{Cell, SourceMod, Machine}
use sm_ext_rpc.Natives.Incoming.{Incoming, receive_reply}

module _ (E : Env) (S : SourceMod (E.json)) where
  open E use {json}
  open json use {Json, elements, parse}

  -- The functions that were called, with their handles, and the log, in order.
  pub record Received : Type 0 where
    pub called : List (FunctionId × Cell)
    pub log : List LogLine
    pub machine : Machine E S

  abbrev pub note : LogLine → Machine E S → Result Received
  note line m = ok (record { called = []; log = line ∷ []; machine = m })

  abbrev pub unchanged : Machine E S → Result Received
  unchanged m = ok (record { called = []; log = []; machine = m })

  -- `outstandingCalls.erase(id)`
  abbrev pub forget : String → Machine E S → Machine E S
  forget id m = record m {
    core = record m.core {
      processor = record m.core.processor {
        outstanding_calls = erase id m.core.processor.outstanding_calls;
      };
    };
  }

  unfoldable pub settle_call : Machine E S → String → Json → CallId → Result Received
  unfolding receive_reply
  settle_call m id reply c = receive_reply E S c reply m >>= λ out.
      ok (record { called = out.called; log = []; machine = forget id out.machine })

  -- `outstandingCalls.at(id)`, in a `try` that takes `std::out_of_range`.
  unfoldable pub find_outstanding : Machine E S → String → Json → Result Received
  unfolding settle_call
  find_outstanding m id reply = elim (lookup id m.core.processor.outstanding_calls) [
    | none ↦ note (no_record id) m
    | some c ↦ settle_call m id reply c
  ]

  unfoldable pub accept_reply : Machine E S → Json → Result Received
  unfolding find_outstanding
  accept_reply m reply = at json reply "id" >>= λ id.
      if not (is_null json id) && is_string json id
      then (as_string json id >>= λ text. find_outstanding m text reply)
      else unchanged m

  unfoldable pub verify_reply : Machine E S → Json → Json → Result Received
  unfolding accept_reply
  verify_reply m reply sig = as_string json sig >>= λ text.
      reply_sig E m.core.processor.api_key reply >>= λ (expected, reply').
      if not (str_eq text expected) then note bad_signature m else accept_reply m reply'

  unfoldable pub receive_command_reply : Machine E S → Json → Result Received
  unfolding verify_reply
  receive_command_reply m reply = at json reply "error" >>= λ error.
      if not (is_null json error)
      then note error_reply m
      else (at json reply "sig" >>= λ sig.
          if not (is_string json sig) then note invalid_signature m else verify_reply m reply sig)

  unfoldable pub receive_all : Machine E S → List Json → Result Received
  unfolding receive_command_reply
  receive_all m [] = unchanged m
  receive_all m (reply ∷ replies) = receive_command_reply m reply >>= λ first.
      receive_all first.machine replies >>= λ rest. ok (record {
        called = first.called ++ rest.called;
        log = first.log ++ rest.log;
        machine = rest.machine;
      })

  unfoldable pub receive_value : Machine E S → Option Json → Result Received
  unfolding receive_all
  receive_value m none = throw invalid_argument
  receive_value m (some j) =
      if is_array json j
      then receive_all m (elements j)
      else if is_object json j
      then receive_command_reply m j
      else unchanged m

  unfoldable pub catch_parse : Machine E S → Result Received → Result Received
  catch_parse m (throw invalid_argument) = note parse_error m
  catch_parse m r = r

  -- `HandleReply`. When an exception leaves it, `catch_parse` has the machine of before.
  unfoldable pub receive_packet : Machine E S → Bytes → Result Received
  unfolding receive_value catch_parse
  receive_packet m body = catch_parse m (receive_value m (parse body))
