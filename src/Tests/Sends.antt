-- ===== src/Tests/Sends.antt =====
-- The theorems about calls that are sent and methods that are registered, at sample states.
use sm_ext_rpc.Base.{String, none, some, [], ◌∷◌, ◌≡◌, refl, ok, ◌==◌, if◌then◌else◌, arith, eq_iff}
use sm_ext_rpc.Base.Int.{pos}
use sm_ext_rpc.Base.Dict.{insert, default_at, lookup}
use sm_ext_rpc.Json.{touch_all, is_string, is_null, is_object}
use sm_ext_rpc.Processor.Request.{complete, pending_of}
use sm_ext_rpc.Processor.Reply.{State}
use sm_ext_rpc.Processor.Reply.Safety.{IsSound}
use sm_ext_rpc.Call.{RpcCall, update}
use sm_ext_rpc.Call.Requests.{Sending, send, request}
use sm_ext_rpc.Processor.Send.{seal, sent, record_call, send_request}
use sm_ext_rpc.Processor.Send.Sealed.{sealed, seal_lem}
use sm_ext_rpc.Processor.Reply.Completed.{completed}
use sm_ext_rpc.Processor.{get_server}
use sm_ext_rpc.Call.Sent.{send-IsSound}
use sm_ext_rpc.Call.RoundTrip.{send-handle_reply}
use sm_ext_rpc.Processor.Reply.Delivered.{settled, deliveries_of}
use sm_ext_rpc.Processor.Reply.{handle_reply}
use sm_ext_rpc.Processor.Send.Accepted.{peer, IsAddressed}
use sm_ext_rpc.Json.Wire.{packet}
use sm_ext_rpc.Method.{validate_arguments}
use sm_ext_rpc.Processor.{Env}
use sm_ext_rpc.Tests.Tree.{reread}
use sm_ext_rpc.Tests.Library.{tree_plain, tree_json-IsReadBack}
use sm_ext_rpc.Tests.Samples.{env-CanSign, peer_buffer, receiver}
use sm_ext_rpc.Processor.Request.{handle_request, invoke}
use sm_ext_rpc.Json.{is_array, member, at_index}
use sm_ext_rpc.Base.Int.{◌-ℤ◌}
use sm_ext_rpc.Call.Twice.{send-send, IsReplyTo}
use sm_ext_rpc.Processor.Reply.RoundTrip.{completed-IsGenuine}
use sm_ext_rpc.Processor.Reply.{Step, process_command_reply}
use sm_ext_rpc.Json.{touch}
use sm_ext_rpc.Base.{fault}
use sm_ext_rpc.Natives.Servers.Registered.{IsRequestFor, rpc_register_method-handle_request}
use sm_ext_rpc.Natives.Servers.{param_types_from, rpc_register_method}
use sm_ext_rpc.Processor.Request.Guards.{IsAdmitted}
use sm_ext_rpc.Processor.Send.Accepted.{admitted}
use sm_ext_rpc.Tests.Samples.{echo_request, echo_request-IsAddressed}
use sm_ext_rpc.Natives.{report, invalid_callback, Plugin, Machine, Return}
use sm_ext_rpc.Tests.Tree.{Value, str}
use sm_ext_rpc.Tests.Library.{tree_json, tree_json-IsLawful}
use sm_ext_rpc.Tests.Samples.{env, caller, state, echo, echo_call, words}
use sm_ext_rpc.Processor.Reply.Completed.{completed}
use sm_ext_rpc.Tests.Plugins.{source_mod}

-- A second call, at the address 8.
abbrev unsent : RpcCall tree_json
unsent = record {
  method = "Echo";
  callback = some 9;
  args = words;
  id = "";
  handle = some (pos 8);
  owner = 2;
}

abbrev two_calls : State env
two_calls = record state { calls = λ c. if c == 8 then some unsent else state.calls c }

abbrev second_call : RpcCall tree_json
second_call = record unsent { id = "u2" }

abbrev second_body : Value
second_body = sealed env "k" (pos 100) (request env second_call)

abbrev second_sending : Sending env
second_sending = record {
  result = sent;
  message = some (4, tree_json.dump second_body);
  state = record {
    processor = record_call (some (record { call = 8; id = "u2" })) ((get_server "b" caller).1);
    calls = update tree_json two_calls.calls 8 (some second_call);
  };
}

second_sent : send env two_calls (pos 100) "u2" "b" 8 ≡ ok second_sending
unfolding send send_request get_server lookup request is_null is_object seal touch_all default_at
    insert
second_sent =
    rw
      (
        send,
        send_request,
        seal_lem env tree_json-IsLawful caller (pos 100) (request env second_call) refl,
      )
      refl

two_calls-IsSound : IsSound env two_calls
unfolding lookup
two_calls-IsSound = record {
  alive = λ id c e. (echo_call, ground arith, ground (arith, eq_iff id "u1"));
}

send-IsSound_example : IsSound env second_sending.state
unfolding lookup
send-IsSound_example =
    send-IsSound env two_calls (pos 100) "u2" "b" 8 second_sending two_calls-IsSound
      (λ id d e. ground arith) second_sent

second_call-IsAddressed :
    IsAddressed env tree_json-IsLawful tree_json-IsReadBack caller receiver
      (pos 100)
      (pos 110)
      (request env second_call)
      echo
      7
unfolding is_null is_object is_array is_string member lookup validate_arguments at_index ◌-ℤ◌
    request
second_call-IsAddressed = record {
  open_value = refl;
  plain = tree_plain _;
  same_key = refl;
  timely = omega arith;
  in_range = (omega arith, omega arith);
  array = refl;
  named = refl;
  registered = refl;
  callable = refl;
  valid = refl;
}

abbrev answering : Env
answering = peer env peer_buffer

send-handle_reply_example :
    (out : Sending env) × (send env two_calls (pos 100) "u2" "b" 8 ≡ ok out)
    × (out.message ≡ some (4, tree_json.dump second_body))
    × (handle_request answering receiver (pos 110) "10.0.0.1" (packet (tree_json.dump second_body))
        ≡ ok (record {
          response =
              invoke 7 echo "10.0.0.1"
                (reread (member tree_json (request env second_call) "params"))
                (pending_of answering (reread (str "u2")));
          log = none;
          processor = receiver;
        }))
    × (resp : Value) × (complete answering receiver
          (pending_of answering (reread (str "u2")))
          (str "hi")
        ≡ ok (some resp))
    × (handle_reply env out.state (packet (tree_json.dump resp))
        ≡ ok (record {
          state = settled env out.state "u2" 8;
          deliveries = deliveries_of env second_call (reread (str "hi"));
          log = [];
        }))
unfolding lookup
send-handle_reply_example =
    send-handle_reply env tree_json-IsLawful tree_json-IsReadBack two_calls (pos 100) "u2" "b" 8
      refl peer_buffer env-CanSign second_call-IsAddressed refl "10.0.0.1" (str "hi") (tree_plain _)

-- The replies to the two requests of a call that was sent as "u3" and as "u2".
abbrev reply_with : String → Value
reply_with id = reread (completed answering "k" (str id) (str "hi"))

third-IsReplyTo : IsReplyTo env tree_json-IsLawful "k" "u3" (reply_with "u3")
unfolding member touch_all touch is_string
third-IsReplyTo = record {
  genuine =
      completed-IsGenuine env tree_json-IsLawful tree_json-IsReadBack peer_buffer env-CanSign
        two_calls (str "u3") (str "hi") (tree_plain _) (tree_plain _);
  text = refl;
  named = refl;
}

second-IsReplyTo : IsReplyTo env tree_json-IsLawful "k" "u2" (reply_with "u2")
unfolding member touch_all touch is_string
second-IsReplyTo = record {
  genuine =
      completed-IsGenuine env tree_json-IsLawful tree_json-IsReadBack peer_buffer env-CanSign
        two_calls (str "u2") (str "hi") (tree_plain _) (tree_plain _);
  text = refl;
  named = refl;
}

send-send_example :
    (out out' : Sending env) × (send env two_calls (pos 100) "u3" "b" 8 ≡ ok out)
    × (send env out.state (pos 100) "u2" "b" 8 ≡ ok out')
    × (step : Step env) × (process_command_reply env out'.state (reply_with "u2") ≡ ok step)
    × (process_command_reply env step.state (reply_with "u3") ≡ fault)
unfolding lookup request is_null is_object
send-send_example =
    send-send env tree_json-IsLawful two_calls (pos 100) "b" "u3" "u2" 8 (reply_with "u2")
      (reply_with "u3") refl refl refl refl (ground (arith, eq_iff "u3" "u2")) second-IsReplyTo
      third-IsReplyTo

-- A plugin that registers the method Echo, with one text, and without a function.
abbrev registering : Plugin
registering = record {
  identity = 1;
  params = λ n. if n == 0 then pos 3 else pos n;
  text = λ a. "Echo";
  word = λ a. pos 1;
  function = λ a. none;
}

abbrev empty_machine : Machine answering source_mod
empty_machine = record {
  table = tt;
  fresh = 10;
  jsons = λ a. none;
  contexts = λ a. none;
  core = record { processor = receiver; calls = λ c. none };
  peers = λ s. none;
  services = [];
}

abbrev echo_body : Value
echo_body = sealed env "k" (pos 100) echo_request

echo_body-IsAdmitted : IsAdmitted answering receiver (pos 110) (reread echo_body) echo 7
echo_body-IsAdmitted =
    admitted env tree_json-IsLawful tree_json-IsReadBack peer_buffer env-CanSign
      echo_request-IsAddressed

echo_body-IsRequestFor :
    IsRequestFor answering source_mod registering "k" (pos 110) (reread echo_body)
unfolding member touch_all touch param_types_from validate_arguments at_index is_string is_array
echo_body-IsRequestFor = record {
  object = echo_body-IsAdmitted.object;
  fresh = echo_body-IsAdmitted.fresh;
  signed = echo_body-IsAdmitted.signed;
  shaped = echo_body-IsAdmitted.shaped;
  named = refl;
  valid = refl;
}

rpc_register_method-handle_request_example :
    (r : Return answering source_mod) × (rpc_register_method answering source_mod registering
        empty_machine
      ≡ ok r)
    × (r.effects ≡ report invalid_callback ∷ [])
    × (handle_request answering r.machine.core.processor
          (pos 110)
          "10.0.0.1"
          (packet (tree_json.dump echo_body))
        ≡ fault)
rpc_register_method-handle_request_example =
    rpc_register_method-handle_request answering source_mod tree_json-IsLawful registering
      empty_machine (pos 110) "10.0.0.1" (packet (tree_json.dump echo_body)) (reread echo_body) refl
      (tree_json-IsReadBack.parse-dump echo_body (tree_plain _)) echo_body-IsRequestFor
