-- ===== src/Processor/Reply/RoundTrip.antt =====
-- The result of a method on its way back: what the server sends when the plugin is done, and what
-- the caller's `HandleReply` makes of it.
use Prim.Native.Char.{Char}
use sm_ext_rpc.Base.{sym, ap, ◌∙◌, String, List, ◌∷◌, [], ◌≡◌, ok, true, arith, some}
use sm_ext_rpc.Processor.{CallId, Env}
use sm_ext_rpc.Base.Dict.{lookup}
use sm_ext_rpc.Json.{is_string, is_object, member}
use sm_ext_rpc.Json.Laws.{
  set-is_object, set-IsOpen, nullptr-IsOpen, is_object-IsOpen, touch_all-is_object, nullptr-is_null,
  of_string-is_string, is_array_object, IsLawful,
}
use sm_ext_rpc.Json.Wire.{IsReadBack, packet, touch_all-plain}
use sm_ext_rpc.Processor.Signature.{sign}
use sm_ext_rpc.Processor.Reply.{
  State, Step, process_command_reply, catch, process_value, handle_reply,
}
use sm_ext_rpc.Processor.Reply.Genuine.{IsGenuine}
use sm_ext_rpc.Processor.Reply.Delivered.{settled, deliveries_of, process_for}
use sm_ext_rpc.Processor.Reply.Completed.{
  reply_message-completed, completed-is_object, completed, unsigned, member-completed,
}
use sm_ext_rpc.Processor.Request.Objects.{reply_message}
use sm_ext_rpc.Processor.Send.Accepted.{peer, CanSign, sign-peer}
use sm_ext_rpc.Call.{RpcCall}

module _ (E : Env) (L : IsLawful E.json) {reread : E.json.Json → E.json.Json}
    (W : IsReadBack E.json reread) where
  open E use {json}
  open json use {Json, get_string, set, dump, find, nullptr, of_string}

  reply_message-reread :
      (j : Json)
      → is_object json j ≡ true
      → W.IsPlain j
      → reply_message E (reread j) ≡ reply_message E j
  reply_message-reread j o plain =
      let member_dump : (k : String) → dump (member json (reread j) k) ≡ dump (member json j k) =
        λ k.
          ap dump (W.member-reread j k o)
          ∙ W.dump-reread (member json j k) (W.plain-member j k o plain) in
      simp member_dump

  -- A packet that reads back as an object is one reply.
  pub handle_reply_object :
      (s : State E) (j : Json) {step : Step E}
      → is_object json j ≡ true
      → W.IsPlain j
      → process_command_reply E s (reread j) ≡ ok step
      → handle_reply E s (packet (dump j)) ≡ ok step
  unfolding handle_reply process_value catch
  handle_reply_object s j o plain e =
      ground (arith, W.parse-dump j plain, is_array_object json L (reread j), W.object-reread j)

  module _ (hash : List Char) (c : CanSign E hash) (s : State E) (id retval : Json)
      (plain_id : W.IsPlain id) (plain_retval : W.IsPlain retval) where
    abbrev resp : Json
    resp = completed (peer E hash) s.processor.api_key id retval

    resp_plain : W.IsPlain resp
    resp_plain =
        let first = set-IsOpen json L nullptr "jsonrpc" _ (nullptr-IsOpen json L) in
        let second = set-IsOpen json L _ "id" id first in
        let object = set-is_object json L _ "result" retval second in
        let ks = "jsonrpc" ∷ "id" ∷ "result" ∷ [] in
        W.plain-set _ "sig" _ (is_object-IsOpen json L _ (touch_all-is_object json L ks _ object))
          (touch_all-plain json L W ks _ object (
            W.plain-set _ "result" retval second
              (W.plain-set _ "id" id first
                (W.plain-set nullptr "jsonrpc" _ (nullptr-IsOpen json L) W.plain-nullptr
                  (W.plain-of_string _))
                plain_id)
              plain_retval))
          (W.plain-of_string _)

    resp-member : (k : String) → member json (reread resp) k ≡ reread (member json resp k)
    resp-member k =
        W.member-reread resp k (completed-is_object (peer E hash) L s.processor.api_key id retval)

    abbrev signature : String
    signature =
        sign (peer E hash) (reply_message (peer E hash) (unsigned (peer E hash) id retval))
          s.processor.api_key

    -- What the signature covers is the same at both ends.
    covers :
        reply_message E (reread resp)
        ≡ reply_message (peer E hash) (unsigned (peer E hash) id retval)
    covers =
        reply_message-reread resp
          (completed-is_object (peer E hash) L s.processor.api_key id retval) resp_plain
        ∙ reply_message-completed (peer E hash) L s.processor.api_key id retval

    pub completed-IsGenuine : IsGenuine E s.processor.api_key (reread resp)
    completed-IsGenuine = record {
      object =
          W.object-reread resp ∙ completed-is_object (peer E hash) L s.processor.api_key id retval;
      no_error =
          rw
            (
              resp-member "error",
              W.null-reread,
              member-completed (peer E hash) L s.processor.api_key id retval "error",
            )
            (nullptr-is_null json L);
      text =
          rw
            (
              resp-member "sig",
              W.string-reread,
              member-completed (peer E hash) L s.processor.api_key id retval "sig",
            )
            (of_string-is_string json L _);
      equal =
          rw
            (
              resp-member "sig",
              member-completed (peer E hash) L s.processor.api_key id retval "sig",
              W.get_string-reread (of_string signature) (of_string-is_string json L signature),
              L.get_string-of_string,
            )
            (sign-peer E hash c (reply_message (peer E hash) (unsigned (peer E hash) id retval))
                s.processor.api_key
              ∙ sym (ap (λ m. sign E m s.processor.api_key) covers));
    }

    -- The reply that a server with the same key sends for a finished method is delivered by
    -- HandleReply of the caller, with the returned value as it is read back, to the function of
    -- the call recorded under its id; the call is deleted and its record erased. Conditions: the
    -- id is a text that is recorded for a call on the heap, HMAC-SHA256 gives 32 bytes, and the id
    -- and the value have texts that parse reads back.
    pub completed-handle_reply :
        {call : CallId} {old : RpcCall json}
        → is_string json id ≡ true
        → lookup (get_string id) s.processor.outstanding_calls ≡ some call
        → s.calls call ≡ some old
        → handle_reply E s (packet (dump resp))
          ≡ ok (record {
            state = settled E s (get_string id) call;
            deliveries = deliveries_of E old (reread retval);
            log = [];
          })
    completed-handle_reply text recorded alive =
        let object = completed-is_object (peer E hash) L s.processor.api_key id retval in
        let id_member : member json (reread resp) "id" ≡ reread id =
          resp-member "id"
          ∙ ap reread (member-completed (peer E hash) L s.processor.api_key id retval "id") in
        let id_text : get_string (reread id) ≡ get_string id = W.get_string-reread id text in
        let result_member : member json (reread resp) "result" ≡ reread retval =
          resp-member "result"
          ∙ ap reread (member-completed (peer E hash) L s.processor.api_key id retval "result") in
        handle_reply_object s resp object resp_plain (
          rw (← id_text, ← id_member, ← result_member)
            (process_for E L s (reread resp) (record {
              genuine = completed-IsGenuine;
              text = rw (id_member, W.string-reread) text;
              recorded = rw (id_member, id_text) recorded;
              alive = alive;
            })))
