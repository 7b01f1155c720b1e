-- ===== src/Processor/Reply/Delivered.antt =====
-- `processCommandReply` of src/CommandProcessor.cpp: the reply that settles a call.
use sm_ext_rpc.Processor.Reply.Genuine.{covered_result}
use sm_ext_rpc.Base.{eq_iff, eq_refl, List, String, [], ◌∷◌, ◌≡◌, refl, ok, true, arith, some, none}
use sm_ext_rpc.Processor.{CallId, Env}
use sm_ext_rpc.Base.Dict.{lookup, erase, lookup-erase}
use sm_ext_rpc.Json.{is_string, member}
use sm_ext_rpc.Json.Laws.{IsLawful}
use sm_ext_rpc.Processor.Signature.{sign}
use sm_ext_rpc.Processor.Reply.{
  find_call, State, complain, process_command_reply, settle, no_record,
}
use sm_ext_rpc.Processor.Reply.Genuine.{accept_object, process_object, covered, IsGenuine}
use sm_ext_rpc.Processor.Request.Objects.{reply_message}
use sm_ext_rpc.Call.{update, RpcCall, Delivery, call_reply}

module _ (E : Env) where
  open E use {json}
  open json use {Json, get_string, set, dump, find}

  -- The call of the plugin's function, if the call has one.
  abbrev pub deliveries_of : RpcCall json → Json → List (Delivery json)
  deliveries_of call v = elim call.callback [
    | none ↦ []
    | some f ↦ record { callback = f; value = v; owner = call.owner } ∷ []
  ]

  -- The state without the call and without its record.
  abbrev pub settled : State E → String → CallId → State E
  settled s id c = record {
    processor = record s.processor { outstanding_calls = erase id s.processor.outstanding_calls };
    calls = update json s.calls c none;
  }

  -- The reply is for a call that is recorded under its id and still on the heap.
  pub record IsFor (s : State E) (j : Json) (c : CallId) (call : RpcCall json) : Type 0 where
    pub genuine : IsGenuine E s.processor.api_key j
    pub text : is_string json (member json j "id") ≡ true
    pub recorded : lookup (get_string (member json j "id")) s.processor.outstanding_calls ≡ some c
    pub alive : s.calls c ≡ some call

  pub settle_lem :
      (s : State E) (id : String) (res v : Json) (c : CallId) (call : RpcCall json)
      → s.calls c ≡ some call
      → find res "result" ≡ some v
      → settle E s id res c
        ≡ ok (record { state = settled s id c; deliveries = deliveries_of call v; log = [] })
  unfolding settle call_reply
  settle_lem s id res v c call alive result = ground arith

  module _ (L : IsLawful json) (s : State E) (j : Json) where
    pub process_genuine :
        IsGenuine E s.processor.api_key j
        → is_string json (member json j "id") ≡ true
        → process_command_reply E s j
          ≡ find_call E s (get_string (member json j "id")) (covered E j)
    process_genuine g t = ground (
      arith,
      process_object E L s j g.object,
      accept_object E L s j g.object,
      eq_iff (get_string (member json j "sig")) (sign E (reply_message E j) s.processor.api_key),
    )

    -- A genuine reply whose id is recorded for a call on the heap calls the function of that call,
    -- if it has one, with the result member, deletes the call and erases its record.
    pub process_for :
        {c : CallId} {call : RpcCall json}
        → IsFor s j c call
        → process_command_reply E s j
          ≡ ok (record {
            state = settled s (get_string (member json j "id")) c;
            deliveries = deliveries_of call (member json j "result");
            log = [];
          })
    unfolding find_call
    process_for {c} {call} r = rw (process_genuine r.genuine r.text) (
        rw (r.recorded, find_call)
          (settle_lem s _ (covered E j) _ c call r.alive (covered_result E L s j r.genuine.object)))

  -- The same reply once more, in the state that it left, is only logged: a reply that is repeated
  -- delivers nothing.
  module _ (L : IsLawful json) (s : State E) (j : Json) where
    -- A reply that settled a call, processed once more in the state that it left, changes nothing,
    -- calls no function, and is logged as a reply without a record.
    pub process_again :
        {c : CallId} {call : RpcCall json}
        → IsFor s j c call
        → let id = get_string (member json j "id") in
          let s' = settled s id c in process_command_reply E s' j ≡ complain E (no_record id) s'
    unfolding find_call
    process_again {c} r =
        rw (process_genuine L (settled s (get_string (member json j "id")) c) j r.genuine r.text)
          (rw (lookup-erase, eq_refl, find_call) refl)
