-- ===== src/Natives/Live/Incoming.antt =====
-- src/CommandProcessor.cpp, src/RPCMethod.cpp and src/RPCCall.cpp: requests and replies keep every
-- object behind a handle.
use sm_ext_rpc.Base.{
  String, some, List, [], ◌∷◌, Bytes, Result, ok, throw, fault, ◌>>=◌, ◌≡◌, inl, refl, arith, subst,
}
use sm_ext_rpc.Base.Int.{ℤ}
use sm_ext_rpc.Method.{IdentityId}
use sm_ext_rpc.Processor.{pointer, Env}
use sm_ext_rpc.Processor.Request.{Response, reply, silent, invoke, Handled, handle_request}
use sm_ext_rpc.Processor.Request.Frame.{handle_request-SameRegistry}
use sm_ext_rpc.Call.{RpcCall, Delivery, deliver}
use sm_ext_rpc.Natives.{Cell, Address, HandleType, json_type, call_type, SourceMod, Machine}
use sm_ext_rpc.Natives.Calls.{closed}
use sm_ext_rpc.Natives.Servers.{put_processor}
use sm_ext_rpc.Natives.Incoming.{
  close_call, Incoming, dispatch_response, receive_request, hand_over, with_value, receive_reply,
}
use sm_ext_rpc.Natives.Live.{IsHandleSystem, IsLive}
use sm_ext_rpc.Natives.Live.Values.{with_value-IsLive}
use sm_ext_rpc.Natives.Live.Servers.{put_processor-IsLive}
use sm_ext_rpc.Natives.Live.Contexts.{call_method-IsLive}
use sm_ext_rpc.Json.Laws.{IsLawful}
use sm_ext_rpc.Base.Dict.{lookup}
use sm_ext_rpc.Natives.Live.Calls.{gone-IsLive}

-- A result, if there is one, has the property.
abbrev Returns {ℓ} : {A : Type ℓ} → (A → Type 0) → Result A → Type 0
Returns P (ok a) = P a
Returns P _ = Unit

module _ (E : Env) (S : SourceMod (E.json)) (H : IsHandleSystem (E.json) S) where
  open E use {json}
  open json use {Json}

  dispatch_response-IsLive :
      (r : Response E) (m : Machine E S)
      → IsLive E S H m
      → IsLive E S H ((dispatch_response E S r m).machine)
  unfolding dispatch_response
  dispatch_response-IsLive (reply res) m live = live
  dispatch_response-IsLive silent m live = live
  dispatch_response-IsLive (invoke f method remote params pending) m live =
      call_method-IsLive E S H method remote params pending m live

  handled-IsLive :
      (L : IsLawful json) (now : ℤ) (remote : String) (body : Bytes) (m : Machine E S)
      (r : Result (Handled E))
      → handle_request E m.core.processor now remote body ≡ r
      → IsLive E S H m
      → Returns
          (λ out. IsLive E S H out.machine)
          (r >>= λ handled.
            ok (dispatch_response E S handled.response (put_processor E S handled.processor m)))
  handled-IsLive L now remote body m (ok handled) e live =
      let same = handle_request-SameRegistry E L m.core.processor remote now body e in
      dispatch_response-IsLive handled.response _ (
        put_processor-IsLive E S H m handled.processor live (λ name s known.
          subst (λ servers. pointer (lookup name servers) ≡ some s) same.servers known))
  handled-IsLive L now remote body m (throw x) e live = tt
  handled-IsLive L now remote body m fault e live = tt

  pub receive_request-IsLive :
      (L : IsLawful json) (now : ℤ) (remote : String) (body : Bytes) (m : Machine E S)
      (out : Incoming E S)
      → IsLive E S H m
      → receive_request E S now remote body m ≡ ok out
      → IsLive E S H out.machine
  unfolding receive_request
  receive_request-IsLive L now remote body m out live e =
      subst (Returns (λ out. IsLive E S H out.machine)) e
        (handled-IsLive L now remote body m _ refl live)

  -- What a reply hands over leaves the calls and the handles that can be read.
  record IsHanded (m m' : Machine E S) : Type 0 where
    live : IsLive E S H m'
    core : m'.core ≡ m.core
    readable :
        (type : HandleType) (handle : Cell) (owner : IdentityId) (a : Address)
        → S.read type handle owner m.table ≡ inl a
        → S.read type handle owner m'.table ≡ inl a

  hand_over-IsHanded :
      (ds : List (Delivery json)) (m : Machine E S)
      → IsLive E S H m
      → IsHanded m ((hand_over E S ds m).machine)
  unfolding hand_over
  hand_over-IsHanded [] m live = record {
    live = live;
    core = refl;
    readable = λ type handle owner a e. e;
  }
  hand_over-IsHanded (d ∷ rest) m live =
      let later =
        hand_over-IsHanded rest (with_value E S d.owner d.value m)
          (with_value-IsLive E S H d.owner d.value m live) in
      record {
        live = later.live;
        core = later.core;
        readable = λ type handle owner a e. later.readable type handle owner a (
            H.read-kept type json_type handle owner d.owner m.fresh a m.table
              (λ type' handle' owner' unread.
                omega (arith, live.old type' handle' owner' m.fresh unread))
              e);
      }

  replied-IsLive :
      (c : Address) (call : RpcCall json) (handle : Cell) (m : Machine E S)
      (r : Result (List (Delivery json)))
      → IsLive E S H m
      → call.handle ≡ some handle
      → S.read call_type handle call.owner m.table ≡ inl c
      → Returns
          (λ out. IsLive E S H out.machine)
          (r >>= λ deliveries. close_call E S c call (hand_over E S deliveries m))
  unfolding close_call closed
  replied-IsLive c call handle m (ok deliveries) live has readable =
      let handed = hand_over-IsHanded deliveries m live in
      rw (close_call, closed, has)
        (gone-IsLive E S H handle call.owner (hand_over E S deliveries m).machine c _ handed.live
          (handed.readable call_type handle call.owner c readable)
          (record { calls = refl; servers = λ name. refl }))
  replied-IsLive c call handle m (throw e) live has readable = tt
  replied-IsLive c call handle m fault live has readable = tt

  pub receive_reply-IsLive :
      (c : Address) (res : Json) (handle : Cell) (owner : IdentityId) (m : Machine E S)
      (out : Incoming E S)
      → IsLive E S H m
      → S.read call_type handle owner m.table ≡ inl c
      → receive_reply E S c res m ≡ ok out
      → IsLive E S H out.machine
  unfolding receive_reply
  receive_reply-IsLive c res handle owner m out live readable e =
      let (call, there, has, own) = live.held call_type handle owner c readable in
      subst (Returns (λ out. IsLive E S H out.machine)) e (
        rw (receive_reply, there)
          (replied-IsLive c call handle m (deliver json call res) live has (rw own readable)))
