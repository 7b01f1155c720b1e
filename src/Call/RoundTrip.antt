-- ===== src/Call/RoundTrip.antt =====
-- The whole way of a call: `Send` of src/RPCCall.cpp, `HandleRequest` at the other server, the
-- reply of the method there, and `HandleReply` at the caller.
use Prim.Native.Char.{Char}
use sm_ext_rpc.Base.{
  String, List, [], none, some, true, false, Bytes, ok, ◌≡◌, refl, subst, ◌∙◌, arith, eq_refl,
}
use sm_ext_rpc.Base.Int.{ℤ}
use sm_ext_rpc.Base.Dict.{lookup, default_at, lookup-insert}
use sm_ext_rpc.Json.{is_string, member}
use sm_ext_rpc.Json.Laws.{
  IsLawful, IsOpen, nullptr-IsOpen, set-IsOpen, member-set, of_string-is_string,
}
use sm_ext_rpc.Json.Wire.{IsReadBack, packet}
use sm_ext_rpc.Method.{RpcMethod, FunctionId}
use sm_ext_rpc.Processor.{Env, Processor, ServerId, CallId, pointer, get_server}
use sm_ext_rpc.Processor.Request.{invoke, pending_of, handle_request, complete}
use sm_ext_rpc.Processor.Send.{sent, send_request, record_call}
use sm_ext_rpc.Processor.Send.Sealed.{sealed, seal_lem}
use sm_ext_rpc.Processor.Send.Accepted.{peer, CanSign, IsAddressed, send_request-handle_request}
use sm_ext_rpc.Processor.Reply.{State, handle_reply}
use sm_ext_rpc.Processor.Reply.Delivered.{settled, deliveries_of}
use sm_ext_rpc.Processor.Reply.Completed.{completed, complete_lem}
use sm_ext_rpc.Processor.Reply.RoundTrip.{completed-handle_reply}
use sm_ext_rpc.Call.{RpcCall, update}
use sm_ext_rpc.Call.Requests.{Sending, send, request}

module _ (E : Env) (L : IsLawful E.json) where
  open E use {json}
  open json use {Json, dump}

  -- The state after Send to a known server.
  abbrev pub sent_state : State E → String → RpcCall json → CallId → State E
  sent_state s target call c = record {
    processor =
        record_call (some (record { call = c; id = call.id }))
          (record s.processor { servers = default_at target none s.processor.servers });
    calls = update json s.calls c (some call);
  }

  module _ (s : State E) (now : ℤ) (uuid target : String) (c : CallId) {old : RpcCall json}
      (alive : s.calls c ≡ some old) where
    pub send_lem :
        {server : ServerId}
        → IsOpen json (request E (record old { id = uuid }))
        → pointer (lookup target s.processor.servers) ≡ some server
        → send E s now uuid target c
          ≡ ok (record {
            result = sent;
            message = some (
              server,
              dump (sealed E s.processor.api_key now (request E (record old { id = uuid }))),
            );
            state = sent_state s target (record old { id = uuid }) c;
          })
    unfolding send send_request get_server
    send_lem open_value known =
        rw (send, alive, send_request, get_server, known)
          (rw
            (seal_lem E L
              (record s.processor { servers = default_at target none s.processor.servers }) now
              (request E (record old { id = uuid })) open_value)
            refl)

module _ (E : Env) (L : IsLawful E.json) {reread : E.json.Json → E.json.Json}
    (W : IsReadBack E.json reread) where
  open E use {json}
  open json use {Json, get_string, nullptr, of_string, set, dump}

  request_id : (call : RpcCall json) → member json (request E call) "id" ≡ of_string call.id
  unfolding request
  request_id call =
      let first = set-IsOpen json L nullptr "jsonrpc" (of_string "2.0") (nullptr-IsOpen json L) in
      let second = set-IsOpen json L _ "id" (of_string call.id) first in
      let third = set-IsOpen json L _ "method" (of_string call.method) second in
      member-set json L _ "params" call.args "id" third
      ∙ member-set json L _ "method" (of_string call.method) "id" second
      ∙ member-set json L _ "id" (of_string call.id) "id" first

  text_notification :
      (hash : List Char) (id : Json)
      → is_string json id ≡ true
      → (pending_of (peer E hash) id).notification ≡ false
  unfolding pending_of
  text_notification hash id h = ground arith

  module _ (s : State E) (now : ℤ) (uuid target : String) (c : CallId) {old : RpcCall json}
      (alive : s.calls c ≡ some old) where
    abbrev sent_call : RpcCall json
    sent_call = record old { id = uuid }

    abbrev wire : Bytes
    wire = dump (sealed E s.processor.api_key now (request E sent_call))

    -- The whole way of a call on the heap: Send to a known server hands a request to that server;
    -- HandleRequest at another server with the same key calls the function of the named method,
    -- with the sent parameters as they are read back; the value that this method returns makes a
    -- reply; and HandleReply of that reply, in the state after Send, delivers the value as it is
    -- read back to the function of the call, deletes the call and erases its record. Conditions:
    -- the receiver's clock is at most thirty seconds ahead, its method is registered, has a
    -- callback and accepts the parameters, HMAC-SHA256 gives 32 bytes, the sender's clock is in
    -- the range of int, and the request and the value that the method returns have texts that
    -- parse reads back.
    pub send-handle_reply :
        (hash : List Char)
        → CanSign E hash
        → {q : Processor} {now' : ℤ} {m : RpcMethod} {f : FunctionId} {server : ServerId}
        → IsAddressed E L W s.processor q now now' (request E sent_call) m f
        → pointer (lookup target s.processor.servers) ≡ some server
        → (remote : String) (retval : Json) → W.IsPlain retval
        → let pending = pending_of (peer E hash) (reread (of_string uuid)) in
          (out : Sending E) × (send E s now uuid target c ≡ ok out)
          × (out.message ≡ some (server, wire))
          × (handle_request (peer E hash) q now' remote (packet wire)
              ≡ ok (record {
                response =
                    invoke f m remote (reread (member json (request E sent_call) "params")) pending;
                log = none;
                processor = q;
              }))
          × (resp : Json) × (complete (peer E hash) q pending retval ≡ ok (some resp))
          × (handle_reply E out.state (packet (dump resp))
              ≡ ok (record {
                state = settled E out.state uuid c;
                deliveries = deliveries_of E sent_call (reread retval);
                log = [];
              }))
    unfolding record_call pending_of
    send-handle_reply hash can {q} {now'} {m} {f} {server} a known remote retval plain =
        let id = reread (of_string uuid) in
        let text : is_string json id ≡ true =
          W.string-reread (of_string uuid) ∙ of_string-is_string json L uuid in
        let same : get_string id ≡ uuid =
          W.get_string-reread (of_string uuid) (of_string-is_string json L uuid)
          ∙ L.get_string-of_string uuid in
        let handled = send_request-handle_request E L W hash can a target remote none known in
        let after = sent_state E L s target sent_call c in
        let recorded : lookup (get_string id) after.processor.outstanding_calls ≡ some c =
          rw (same, lookup-insert uuid uuid c s.processor.outstanding_calls, eq_refl uuid) refl in
        (
          record { result = sent; message = some (server, wire); state = after },
          send_lem E L s now uuid target c alive a.open_value known,
          refl,
          rw (← request_id sent_call) (handled.3),
          completed (peer E hash) s.processor.api_key id retval,
          complete_lem (peer E hash) L q (pending_of (peer E hash) id) retval
              ∙ rw (text_notification hash id text, a.same_key) refl,
          subst
              (λ key.
                handle_reply E after
                  (packet (dump (completed (peer E hash) s.processor.api_key id retval)))
                ≡ ok (record {
                  state = settled E after key c;
                  deliveries = deliveries_of E sent_call (reread retval);
                  log = [];
                }))
              same
              (completed-handle_reply E L W hash can after id retval
                (W.plain-reread (of_string uuid) (W.plain-of_string uuid)) plain {old = sent_call}
                text recorded (ground arith)),
        )
