-- ===== src/Processor/Reply/Dangling.antt =====
-- `processCommandReply` of src/CommandProcessor.cpp at a call that is recorded under two
-- identifiers.
use sm_ext_rpc.Base.{true, String, none, some, fault, ◌≡◌, ◌≢◌, refl, arith, eq_iff}
use sm_ext_rpc.Base.Dict.{lookup, erase, lookup-erase}
use sm_ext_rpc.Processor.{Env, CallId}
use sm_ext_rpc.Json.{member, is_string}
use sm_ext_rpc.Json.Laws.{IsLawful}
use sm_ext_rpc.Processor.Reply.{State, process_command_reply, find_call, settle}
use sm_ext_rpc.Processor.Reply.Delivered.{settled, process_genuine}
use sm_ext_rpc.Processor.Reply.Genuine.{IsGenuine}
use sm_ext_rpc.Call.{call_reply}

module _ (E : Env) (L : IsLawful E.json) where
  open E use {json}
  open json use {Json, get_string}

  -- In the state in which a reply for one identifier has deleted the call, a genuine reply for
  -- another identifier of the call uses the deleted call.
  pub process_dangling :
      (s : State E) (id : String) (k : Json) (c : CallId)
      → IsGenuine E s.processor.api_key k
      → is_string json (member json k "id") ≡ true
      → lookup (get_string (member json k "id")) s.processor.outstanding_calls ≡ some c
      → get_string (member json k "id") ≢ id
      → process_command_reply E (settled E s id c) k ≡ fault
  unfolding find_call settle call_reply
  process_dangling s id k c genuine text recorded differs =
      let name = get_string (member json k "id") in
      let still : lookup name (erase id s.processor.outstanding_calls) ≡ some c =
        ground (arith, lookup-erase id name s.processor.outstanding_calls, eq_iff id name) in
      let gone : (settled E s id c).calls c ≡ none = ground arith in
      rw (process_genuine E L (settled E s id c) k genuine text)
        (rw (find_call, still, settle, call_reply, gone) refl)
