-- ===== src/Tests/Examples.antt =====
-- The theorems about requests and replies at the sample servers.
use sm_ext_rpc.Base.{
  String, some, none, [], ◌∷◌, ◌≡◌, refl, Bytes, arith, true, false, ok, ◌⊎◌, fault, throw,
  domain_error,
}
use sm_ext_rpc.Base.Int.{◌-ℤ◌, pos, negsuc}
use sm_ext_rpc.Json.Wire.{packet}
use sm_ext_rpc.Json.{
  at_index, is_number, is_object, touch, is_null, touch_all, is_string, is_array, member,
}
use sm_ext_rpc.Processor.{Env}
use sm_ext_rpc.Method.Validation.{validate_arguments_lem, Conforms}
use sm_ext_rpc.Processor.Send.{send_request, Outgoing, unknown_server, send_broadcast}
use sm_ext_rpc.Processor.Send.Accepted.{IsAddressed, admitted, send_request-handle_request, peer}
use sm_ext_rpc.Processor.Send.Broadcast.{send_broadcast-receivers, send_broadcast_after_unknown}
use sm_ext_rpc.Processor.Send.Sealed.{sealed}
use sm_ext_rpc.Processor.Request.{resp_error, handle_request, invoke, Handled, pending_of}
use sm_ext_rpc.Processor.Request.Guards.{
  handle_request-invoke, IsAdmitted, IsAdmitted-handle_request,
}
use sm_ext_rpc.Processor.Request.Outcome.{handle_request-total}
use sm_ext_rpc.Processor.Request.Frame.{handle_request-SameRegistry, SameRegistry}
use sm_ext_rpc.Processor.Request.Notification.{notification-IsUnanswered, IsUnanswered}
use sm_ext_rpc.Processor.Reply.{no_record, process_command_reply, handle_reply, error_reply}
use sm_ext_rpc.Processor.Reply.RoundTrip.{completed-IsGenuine, completed-handle_reply}
use sm_ext_rpc.Processor.Reply.Safety.{handle_reply_scalar}
use sm_ext_rpc.Processor.Reply.Errors.{resp_error-handle_reply}
use sm_ext_rpc.Processor.Reply.Delivered.{process_again, process_for, IsFor, settled, deliveries_of}
use sm_ext_rpc.Processor.Reply.Completed.{completed}
use sm_ext_rpc.Tests.Tree.{bool, Value, null, str, arr, obj, nil, cons, end, entry, reread}
use sm_ext_rpc.Tests.Library.{
  tree_plain, tree_json, tree_json-IsLawful, tree_json-IsReadBack, checksum, checksum-IsSha256,
}
use sm_ext_rpc.Tests.Samples.{
  buffer, env, env-CanSign, peer_buffer, caller, receiver, echo, words, state, echo_call,
  echo_request, echo_request-IsAddressed, receiver-HasUsableMethods,
}
use sm_ext_rpc.Base.Dict.{lookup}
use sm_ext_rpc.Method.{validate_arguments}
use sm_ext_rpc.Processor.Reply.Genuine.{process_unless-IsGenuine, IsGenuine}
use sm_ext_rpc.Crypto.Hex.{digest-hex, hex, text}
use sm_ext_rpc.Crypto.{digest}

abbrev far : Env
far = peer env peer_buffer

abbrev wire : Bytes
wire = tree_json.dump (sealed env "k" (pos 100) echo_request)

abbrev invoked : Handled far
invoked = record {
  response = invoke 7 echo "10.0.0.1" words (pending_of far (str "u1"));
  log = none;
  processor = receiver;
}

-- The request goes out to server 4 and calls function 7 at the other end.
send_request-handle_request_example :
    (out : Outgoing) × (send_request env caller (pos 100) "b" echo_request none ≡ ok out)
    × (out.message ≡ some (4, wire))
    × (handle_request far receiver (pos 110) "10.0.0.1" (packet wire) ≡ ok invoked)
unfolding lookup member
send_request-handle_request_example =
    send_request-handle_request env tree_json-IsLawful tree_json-IsReadBack peer_buffer env-CanSign
      echo_request-IsAddressed "b" "10.0.0.1" none {s = 4} refl

handle_request-invoke_example :
    (j : Value) × (tree_json.parse (packet wire) ≡ some j)
    × IsAdmitted far receiver (pos 110) j echo 7
    × ◌≡◌ {A = String} "10.0.0.1" "10.0.0.1"
    × (words ≡ member tree_json j "params")
    × (pending_of far (str "u1") ≡ pending_of far (member tree_json j "id"))
handle_request-invoke_example =
    handle_request-invoke far tree_json-IsLawful receiver (pos 110) "10.0.0.1" (packet wire)
      (send_request-handle_request_example.3) refl

handle_request-total_example :
    (h : Handled far) × (handle_request far receiver (pos 110) "10.0.0.1" (1 ∷ []) ≡ ok h)
handle_request-total_example =
    handle_request-total far tree_json-IsLawful receiver receiver-HasUsableMethods "10.0.0.1"
      (pos 110) (1 ∷ [])

handle_request-SameRegistry_example : SameRegistry receiver receiver
handle_request-SameRegistry_example =
    handle_request-SameRegistry far tree_json-IsLawful receiver "10.0.0.1" (pos 110) (packet wire)
      (send_request-handle_request_example.3)

-- The same call as a notification: its body has a null for its id.
abbrev echo_notice : Value
echo_notice =
    obj (entry "jsonrpc" (str "2.0") (entry "method" (str "Echo") (entry "params" words end)))

echo_notice-IsAddressed :
    IsAddressed env tree_json-IsLawful tree_json-IsReadBack caller receiver
      (pos 100)
      (pos 110)
      echo_notice
      echo
      7
unfolding is_null is_object is_array is_string member lookup validate_arguments at_index ◌-ℤ◌
echo_notice-IsAddressed = record {
  open_value = refl;
  plain = tree_plain _;
  same_key = refl;
  timely = omega arith;
  in_range = (omega arith, omega arith);
  array = refl;
  named = refl;
  registered = refl;
  callable = refl;
  valid = refl;
}

abbrev noticed : Value
noticed = reread (sealed env "k" (pos 100) echo_notice)

noticed-IsAdmitted : IsAdmitted far receiver (pos 110) noticed echo 7
noticed-IsAdmitted =
    admitted env tree_json-IsLawful tree_json-IsReadBack peer_buffer env-CanSign
      echo_notice-IsAddressed

notification-IsUnanswered_example :
    (h : Handled far) × (handle_request far receiver
        (pos 110)
        "10.0.0.1"
        (packet (tree_json.dump (sealed env "k" (pos 100) echo_notice)))
      ≡ ok h)
    × IsUnanswered far h
unfolding member touch_all touch is_number is_string
notification-IsUnanswered_example =
    notification-IsUnanswered far tree_json-IsLawful receiver receiver-HasUsableMethods "10.0.0.1"
      (pos 110) (packet (tree_json.dump (sealed env "k" (pos 100) echo_notice))) noticed
      (tree_json-IsReadBack.parse-dump (sealed env "k" (pos 100) echo_notice) (tree_plain _))
      noticed-IsAdmitted.object noticed-IsAdmitted.fresh noticed-IsAdmitted.signed
      noticed-IsAdmitted.shaped refl refl

-- The result "hi" for the outstanding call.
completed-handle_reply_example :
    handle_reply env state (packet (tree_json.dump (completed far "k" (str "u1") (str "hi"))))
    ≡ ok (record {
      state = settled env state "u1" 3;
      deliveries = record { callback = 9; value = str "hi"; owner = 2 } ∷ [];
      log = [];
    })
unfolding is_string lookup
completed-handle_reply_example =
    completed-handle_reply env tree_json-IsLawful tree_json-IsReadBack peer_buffer env-CanSign state
      (str "u1") (str "hi") (tree_plain _) (tree_plain _) {call = 3} {old = echo_call} refl refl
      refl

-- `[true]`
handle_reply_scalar_example :
    handle_reply env state (packet (tree_json.dump (arr (cons (bool true) nil))))
    ≡ throw domain_error
unfolding is_array is_null is_object
handle_reply_scalar_example =
    handle_reply_scalar env tree_json-IsLawful state
      (packet (tree_json.dump (arr (cons (bool true) nil)))) (arr (cons (bool true) nil))
      (bool true) [] (tree_json-IsReadBack.parse-dump (arr (cons (bool true) nil)) (tree_plain _))
      refl refl refl

resp_error-handle_reply_example :
    handle_reply env state
      (packet (tree_json.dump (resp_error env (negsuc 32600) "Method not found" (str "u1"))))
    ≡ ok (record { state = state; deliveries = []; log = error_reply ∷ [] })
resp_error-handle_reply_example =
    resp_error-handle_reply env tree_json-IsLawful (negsuc 32600) "Method not found" (str "u1")
      tree_json-IsReadBack (tree_plain _) state

send_broadcast-receivers_example :
    send_broadcast env caller (pos 100) echo_notice
    ≡ ok ((4, tree_json.dump (sealed env "k" (pos 100) echo_notice)) ∷ [])
unfolding is_null is_object
send_broadcast-receivers_example =
    send_broadcast-receivers env tree_json-IsLawful caller (pos 100) echo_notice refl tt

send_broadcast_after_unknown_example :
    (out : Outgoing) × (send_request env caller (pos 100) "c" echo_request none ≡ ok out)
    × (out.result ≡ unknown_server)
    × (send_broadcast env out.processor (pos 100) echo_notice ≡ fault)
unfolding is_null is_object lookup
send_broadcast_after_unknown_example =
    send_broadcast_after_unknown env tree_json-IsLawful caller (pos 100) "c" echo_request
      echo_notice none refl refl

validate_arguments_lem_example :
    ((validate_arguments tree_json echo words ≡ ok true)
      × Conforms tree_json echo.param_types (str "hi" ∷ []))
    ⊎ ((validate_arguments tree_json echo words ≡ ok false)
        × ¬ Conforms tree_json echo.param_types (str "hi" ∷ []))
validate_arguments_lem_example =
    validate_arguments_lem tree_json tree_json-IsLawful echo words (tt, tt) refl

IsAdmitted-handle_request_example :
    handle_request far receiver
      (pos 110)
      "10.0.0.1"
      (packet (tree_json.dump (sealed env "k" (pos 100) echo_notice)))
    ≡ ok (record {
      response = invoke 7 echo "10.0.0.1" words (pending_of far null);
      log = none;
      processor = receiver;
    })
unfolding member touch_all touch
IsAdmitted-handle_request_example =
    IsAdmitted-handle_request far tree_json-IsLawful receiver (pos 110) "10.0.0.1"
      (packet (tree_json.dump (sealed env "k" (pos 100) echo_notice))) noticed
      (tree_json-IsReadBack.parse-dump (sealed env "k" (pos 100) echo_notice) (tree_plain _))
      noticed-IsAdmitted

-- The reply for the outstanding call, as it is read back.
abbrev pub answered : Value
answered = reread (completed far "k" (str "u1") (str "hi"))

pub answered-IsFor : IsFor env state answered 3 echo_call
unfolding member touch_all touch is_string lookup
answered-IsFor = record {
  genuine =
      completed-IsGenuine env tree_json-IsLawful tree_json-IsReadBack peer_buffer env-CanSign state
        (str "u1") (str "hi") (tree_plain _) (tree_plain _);
  text = refl;
  recorded = refl;
  alive = refl;
}

process_for_example :
    process_command_reply env state answered
    ≡ ok (record {
      state = settled env state "u1" 3;
      deliveries = record { callback = 9; value = str "hi"; owner = 2 } ∷ [];
      log = [];
    })
unfolding member touch_all touch
process_for_example = process_for env tree_json-IsLawful state answered answered-IsFor

process_again_example :
    process_command_reply env (settled env state "u1" 3) answered
    ≡ ok (record { state = settled env state "u1" 3; deliveries = []; log = no_record "u1" ∷ [] })
unfolding member touch_all touch
process_again_example = process_again env tree_json-IsLawful state answered answered-IsFor

process_unless-IsGenuine_example :
    ((settled env state "u1" 3 ≡ state) × (deliveries_of env echo_call (str "hi") ≡ []))
    ⊎ (IsGenuine env "k" answered × (is_string tree_json (member tree_json answered "id") ≡ true))
process_unless-IsGenuine_example =
    process_unless-IsGenuine env tree_json-IsLawful state answered
      (record {
        state = settled env state "u1" 3;
        deliveries = deliveries_of env echo_call (str "hi");
        log = [];
      })
      process_for_example

digest-hex_example :
    digest checksum buffer (1 ∷ 254 ∷ []) "k" ≡ text (hex (checksum "k" (1 ∷ 254 ∷ [])))
digest-hex_example = digest-hex checksum checksum-IsSha256 buffer (1 ∷ 254 ∷ []) "k" (omega arith)
