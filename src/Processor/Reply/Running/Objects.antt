-- ===== src/Processor/Reply/Running/Objects.antt =====
-- `processCommandReply` of src/CommandProcessor.cpp, with functions that run: what it does with an
-- object, and with other values.
use sm_ext_rpc.Base.{
  ◌||◌, not, String, ◌≡◌, ok, true, false, arith, throw, domain_error, str_eq, if◌then◌else◌,
}
use sm_ext_rpc.Json.{at, as_string, is_null, is_object, is_string, member}
use sm_ext_rpc.Json.Laws.{
  IsLawful, at_object, at_scalar, is_object-IsOpen, is_null_string, member_null,
}
use sm_ext_rpc.Call.{Delivery}
use sm_ext_rpc.Processor.{Env}
use sm_ext_rpc.Processor.Signature.{sign, reply_sig}
use sm_ext_rpc.Processor.Request.Objects.{reply_message}
use sm_ext_rpc.Processor.Reply.{
  State, complain, stay, error_reply, invalid_signature, bad_signature,
}
use sm_ext_rpc.Processor.Reply.Genuine.{covered, covered_id}
use sm_ext_rpc.Processor.Reply.Running.{run_find, run_accept, run_verify, run_command_reply}

module _ (E : Env) (run : Delivery E.json → State E → State E) where
  open E use {json}
  open json use {Json, get_string, find}

  module _ (L : IsLawful json) (s : State E) (j : Json) where
    module _ (o : is_object json j ≡ true) where
      read : (k : String) → at json j k ≡ ok (member json j k)
      read k = at_object json L j k (is_object-IsOpen json L j o)

      pub reply_object : run_command_reply E run s j ≡ (
          if not (is_null json (member json j "error"))
          then complain E error_reply s
          else if not (is_string json (member json j "sig"))
          then complain E invalid_signature s
          else if str_eq
              (get_string (member json j "sig"))
              (sign E (reply_message E j) s.processor.api_key)
          then run_accept E run s (covered E j)
          else complain E bad_signature s)
      unfolding run_command_reply run_verify as_string reply_sig
      reply_object =
          ground (arith, read "error", read "sig", read "jsonrpc", read "id", read "result")

      pub accept_object : run_accept E run s (covered E j) ≡ (
          if is_string json (member json j "id")
          then run_find E run s (get_string (member json j "id")) (covered E j)
          else stay E s)
      unfolding run_accept as_string
      accept_object =
          ground (arith, covered_id E L s j o, is_null_string json L (member json j "id"))

    pub reply_scalar :
        (is_null json j || is_object json j) ≡ false
        → run_command_reply E run s j ≡ throw domain_error
    unfolding run_command_reply
    reply_scalar h = rw (at_scalar json L j "error" h)

    pub reply_null :
        is_null json j ≡ true → run_command_reply E run s j ≡ complain E invalid_signature s
    unfolding run_command_reply at is_null is_string
    reply_null h = ground (arith, member_null json L j "error", member_null json L j "sig")
