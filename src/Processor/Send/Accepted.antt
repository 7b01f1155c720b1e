-- ===== src/Processor/Send/Accepted.antt =====
-- src/CommandProcessor.cpp: `SendRequest` at one server meets `HandleRequest` at another.
use Prim.Native.Char.{Char}
use sm_ext_rpc.Base.{
  ap, none, Option, some, sym, ◌∙◌, length, String, ◌≤◌, Bytes, List, [], ◌∷◌, ◌≡◌, refl, ok, true,
}
use sm_ext_rpc.Processor.{ServerId, Env, Processor, pointer}
use sm_ext_rpc.Base.Int.{ℤ, pos, ◌-ℤ◌, ◌≤ℤ◌}
use sm_ext_rpc.Json.{is_array, member, is_object, is_string, InInt}
use sm_ext_rpc.Json.Laws.{
  set-is_object, is_object-IsOpen, touch_all-is_object, of_int-is_number_integer,
  of_string-is_string, IsLawful, IsOpen,
}
use sm_ext_rpc.Json.Wire.{IsReadBack, packet, touch_all-plain}
use sm_ext_rpc.Crypto.Hex.{IsSha256, digest-hex}
use sm_ext_rpc.Processor.Send.{record_call, sent, Outgoing, Caller, send_request}
use sm_ext_rpc.Processor.Signature.{sign}
use sm_ext_rpc.Processor.Request.Objects.{req_message}
use sm_ext_rpc.Method.{validate_arguments, FunctionId, RpcMethod}
use sm_ext_rpc.Base.Dict.{default_at, lookup}
use sm_ext_rpc.Processor.Request.Guards.{IsAdmitted-handle_request, IsAdmitted, IsFresh, IsSigned}
use sm_ext_rpc.Processor.Send.Sealed.{
  seal_lem, req_message-sealed, stamped, member-sealed, sealed, sealed-is_object,
}
use sm_ext_rpc.Processor.Request.{pending_of, invoke, handle_request}

-- The surroundings of another process, whose buffer holds something else.
abbrev pub peer : Env → List Char → Env
peer E hash = record E { hash = hash }

-- The buffers of both processes have room for a digest, and HMAC is HMAC-SHA256.
pub record CanSign (E : Env) (hash : List Char) : Type 0 where
  pub sha : IsSha256 E.hmac
  pub here : 65 ≤ length E.hash
  pub there : 65 ≤ length hash

pub sign-peer :
    (E : Env) (hash : List Char)
    → CanSign E hash
    → (message : Bytes) (key : String) → sign (peer E hash) message key ≡ sign E message key
sign-peer E hash c message key =
    digest-hex E.hmac c.sha hash message key c.there
    ∙ sym (digest-hex E.hmac c.sha E.hash message key c.here)

module _ (E : Env) (L : IsLawful E.json) {reread : E.json.Json → E.json.Json}
    (W : IsReadBack E.json reread) where
  open E use {json}
  open json use {Json, get_string, of_int, of_string, set, dump}

  req_message-reread :
      (j : Json)
      → is_object json j ≡ true
      → W.IsPlain j
      → req_message E (reread j) ≡ req_message E j
  req_message-reread j o plain =
      let member_dump : (k : String) → dump (member json (reread j) k) ≡ dump (member json j k) =
        λ k.
          ap dump (W.member-reread j k o)
          ∙ W.dump-reread (member json j k) (W.plain-member j k o plain) in
      simp member_dump

  sealed-plain :
      (key : String) (now : ℤ) (req : Json)
      → IsOpen json req
      → W.IsPlain req
      → W.IsPlain (sealed E key now req)
  sealed-plain key now req o plain =
      let stamped_object = set-is_object json L req "timestamp" (of_int now) o in
      let ks = "jsonrpc" ∷ "method" ∷ "params" ∷ "timestamp" ∷ "id" ∷ [] in
      W.plain-set _ "sig" _
        (is_object-IsOpen json L _ (touch_all-is_object json L ks _ stamped_object))
        (touch_all-plain json L W ks _ stamped_object
          (W.plain-set req "timestamp" _ o plain (W.plain-of_int now)))
        (W.plain-of_string _)

  -- The receiver `q` has the sender's key, its clock is at most thirty seconds ahead, the sender's
  -- clock is in the range of `int`, the text of the request can be read back, and the request names one of its methods with parameters of the types that the method declared.
  pub record IsAddressed (p q : Processor) (now now' : ℤ) (req : Json) (m : RpcMethod)
      (f : FunctionId) : Type 0 where
    pub open_value : IsOpen json req
    pub plain : W.IsPlain req
    pub same_key : q.api_key ≡ p.api_key
    pub timely : now' -ℤ pos 30 ≤ℤ now
    pub in_range : InInt now
    pub array : is_array json (member json req "params") ≡ true
    pub named : is_string json (member json req "method") ≡ true
    pub registered : pointer (lookup (get_string (member json req "method")) q.methods) ≡ some m
    pub callable : m.callback ≡ some f
    pub valid : validate_arguments json m (reread (member json req "params")) ≡ ok true

  module _ (hash : List Char) (c : CanSign E hash) {p q : Processor} {now now' : ℤ} {req : Json}
      {m : RpcMethod} {f : FunctionId} (a : IsAddressed p q now now' req m f) where
    abbrev body : Json
    body = sealed E p.api_key now req

    body_object : is_object json body ≡ true
    body_object = sealed-is_object E L p now req a.open_value

    body_plain : W.IsPlain body
    body_plain = sealed-plain p.api_key now req a.open_value a.plain

    -- A member of the body as it is read at the other end.
    body-member : (k : String) → member json (reread body) k ≡ reread (member json body k)
    body-member k = W.member-reread body k body_object

    method_member : member json body "method" ≡ member json req "method"
    method_member = member-sealed E L p now req a.open_value "method"

    params_member : member json body "params" ≡ member json req "params"
    params_member = member-sealed E L p now req a.open_value "params"

    timestamp_member : member json body "timestamp" ≡ of_int now
    timestamp_member = member-sealed E L p now req a.open_value "timestamp"

    sig_member :
        member json body "sig" ≡ of_string (sign E (req_message E (stamped E now req)) p.api_key)
    sig_member = member-sealed E L p now req a.open_value "sig"

    fresh : IsFresh (peer E hash) now' (reread body)
    fresh = record {
      integer =
          rw (body-member "timestamp", timestamp_member)
            (W.integer-reread (of_int now) (of_int-is_number_integer json L now));
      recent =
          rw
            (
              body-member "timestamp",
              timestamp_member,
              W.get_int-reread (of_int now) (of_int-is_number_integer json L now),
              L.get_int-of_int now a.in_range,
            )
            a.timely;
    }

    signed : IsSigned (peer E hash) q.api_key (reread body)
    signed = record {
      text = rw (body-member "sig", W.string-reread, sig_member) (of_string-is_string json L _);
      equal =
          rw
            (
              body-member "sig",
              sig_member,
              W.get_string-reread (of_string (sign E (req_message E (stamped E now req)) p.api_key))
                  (of_string-is_string json L _),
              L.get_string-of_string,
              sign-peer E hash c,
              req_message-reread body body_object body_plain,
              req_message-sealed E L p now req a.open_value,
              a.same_key,
            )
            refl;
    }

    pub admitted : IsAdmitted (peer E hash) q now' (reread body) m f
    admitted = record {
      object = W.object-reread body ∙ body_object;
      fresh = fresh;
      signed = signed;
      shaped = record {
        params = rw (body-member "params", W.array-reread, params_member) a.array;
        method = rw (body-member "method", W.string-reread, method_member) a.named;
      };
      registered =
          rw
            (
              body-member "method",
              method_member,
              W.get_string-reread (member json req "method") a.named,
            )
            a.registered;
      callable = a.callable;
      valid = rw (body-member "params", params_member) a.valid;
    }

    -- A request that SendRequest hands to a known server is accepted by HandleRequest at another
    -- server with the same key: the function of the named method is called with the sent
    -- parameters and id as they are read back. Conditions: the receiver's clock is at most thirty
    -- seconds ahead, its method is registered, has a callback and accepts the parameters,
    -- HMAC-SHA256 gives 32 bytes, the sender's clock is in the range of int, and the request has a
    -- text that parse reads back, as a value with an infinite number in it has not.
    pub send_request-handle_request :
        (target remote : String) (call : Option Caller) {s : ServerId}
        → pointer (lookup target p.servers) ≡ some s
        → (out : Outgoing) × (send_request E p now target req call ≡ ok out)
          × (out.message ≡ some (s, dump body))
          × (handle_request (peer E hash) q now' remote (packet (dump body))
              ≡ ok (record {
                response =
                    invoke f m remote
                      (reread (member json req "params"))
                      (pending_of (peer E hash) (reread (member json req "id")));
                log = none;
                processor = q;
              }))
    unfolding send_request
    send_request-handle_request target remote call {s} e =
        let p' = record p { servers = default_at target none p.servers } in
        let id_member : member json (reread body) "id" ≡ reread (member json req "id") =
          body-member "id" ∙ ap reread (member-sealed E L p now req a.open_value "id") in
        let params' : member json (reread body) "params" ≡ reread (member json req "params") =
          body-member "params" ∙ ap reread params_member in
        (
          record { result = sent; message = some (s, dump body); processor = record_call call p' },
          rw (e, send_request) (rw (seal_lem E L p' now req a.open_value) refl),
          refl,
          rw (← id_member, ← params')
              (IsAdmitted-handle_request (peer E hash) L q now' remote _ (reread body)
                (W.parse-dump body body_plain) admitted),
        )
