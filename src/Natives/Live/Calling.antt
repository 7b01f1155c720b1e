-- ===== src/Natives/Live/Calling.antt =====
-- src/smn_rpccall.cpp: the natives on calls use calls that are there, and a call that is deleted
-- loses its handle.
use sm_ext_rpc.Base.{
  arith, ◌∙◌, suc, none, some, Result, ok, ◌>>=◌, ◌≡◌, ◌≢◌, inl, inr, refl, Option-cases, String,
  List,
}
use sm_ext_rpc.Base.Int.{ℤ}
use sm_ext_rpc.Method.{IdentityId}
use sm_ext_rpc.Processor.{Env}
use sm_ext_rpc.Processor.Send.{ReqResult, unknown_server, sent}
use sm_ext_rpc.Processor.Send.Broadcast.{HasNoNull}
use sm_ext_rpc.Call.{RpcCall, new_call, set_handle, set_callback, set_method, set_args_json}
use sm_ext_rpc.Call.Requests.{send}
use sm_ext_rpc.Natives.{
  Plugin, Cell, Address, json_type, call_type, context_type, SourceMod, Machine, Return, HandleType,
  Effect,
}
use sm_ext_rpc.Natives.Calls.{
  messages, with_call, put_call, create_call, call_set_method, call_set_params, conclude, closed,
  call_send, call_notify, call_broadcast,
}
use sm_ext_rpc.Natives.Live.{Safely-bind, IsHandleSystem, Holds, IsLive, IsSafe}
use sm_ext_rpc.Natives.Live.Machines.{create-IsLive, found_elsewhere, found_there}
use sm_ext_rpc.Natives.Live.Values.{Read-cases, with_json-IsSafe}
use sm_ext_rpc.Natives.Live.Calls.{
  gone-IsLive, IsKept, IsGone, kept-IsLive, put_call-IsKept, send-IsKept, notify-IsGone,
  broadcast-IsGone,
}

module _ (E : Env) (S : SourceMod (E.json)) (H : IsHandleSystem (E.json) S) where
  open E use {json}
  open json use {Json}

  -- A call behind the handle that a plugin passes first.
  record IsHeld (plugin : Plugin) (m : Machine E S) (c : Address) (call : RpcCall json)
      : Type 0 where
    readable : S.read call_type (plugin.params 1) plugin.identity m.table ≡ inl c
    there : m.core.calls c ≡ some call
    handle : call.handle ≡ some (plugin.params 1)
    owner : call.owner ≡ plugin.identity

  with_call-IsSafe :
      (plugin : Plugin) (m : Machine E S) (k : Address → RpcCall json → Result (Return E S))
      → IsLive E S H m
      → ((c : Address) (call : RpcCall json) → IsHeld plugin m c call → IsSafe E S H (k c call))
      → IsSafe E S H (with_call E S plugin m k)
  unfolding with_call
  with_call-IsSafe plugin m k live safe =
      elim (Read-cases (S.read call_type (plugin.params 1) plugin.identity m.table)) [
        | inl (c, e) ↦
            let (call, there, handle, owner) =
              live.held call_type (plugin.params 1) plugin.identity c e in
            rw (with_call, e, there)
              (safe c call (record { readable = e; there = there; handle = handle; owner = owner }))
        | inr (code, e) ↦ rw (with_call, e) live
      ]

  put_call-IsLive :
      (m : Machine E S) (c : Address) (call call' : RpcCall json)
      → IsLive E S H m
      → m.core.calls c ≡ some call
      → call'.handle ≡ call.handle
      → call'.owner ≡ call.owner
      → IsLive E S H (put_call E S c call' m)
  put_call-IsLive m c call call' live here same_handle same_owner =
      kept-IsLive E S H m _ live
        (put_call-IsKept E S H m.core c call call' here same_handle same_owner)

  -- The machine with a new call and its handle.
  abbrev created : Plugin → Machine E S → Machine E S
  created plugin m =
      let (handle, table) = S.create call_type m.fresh plugin.identity m.table in
      let call = set_handle json handle (new_call json none plugin.identity) in
      record (put_call E S m.fresh call m) { table = table; fresh = suc m.fresh }

  created-Holds :
      (plugin : Plugin) (m : Machine E S) (type : HandleType) (handle : Cell) (owner : IdentityId)
      (b : Address)
      → b ≢ m.fresh
      → Holds E S H type handle owner b m
      → Holds E S H type handle owner b (created plugin m)
  created-Holds plugin m json_type handle owner b d h = h
  created-Holds plugin m call_type handle owner b d (call, there, has, own) =
      (call, found_elsewhere m.core.calls m.fresh b _ d ∙ there, has, own)
  created-Holds plugin m context_type handle owner b d h = h

  pub create_call-IsSafe :
      (plugin : Plugin) (m : Machine E S) → IsLive E S H m → IsSafe E S H (create_call E S plugin m)
  unfolding create_call set_handle new_call
  create_call-IsSafe plugin m live =
      create-IsLive E S H call_type plugin.identity m (created plugin m) live refl refl live.served
        (λ type handle owner b old h.
          created-Holds plugin m type handle owner b (omega (arith, old)) h)
        (_, found_there m.core.calls m.fresh _, refl, refl)

  pub call_set_method-IsSafe :
      (plugin : Plugin) (m : Machine E S)
      → IsLive E S H m
      → IsSafe E S H (call_set_method E S plugin m)
  unfolding call_set_method set_method
  call_set_method-IsSafe plugin m live =
      with_call-IsSafe plugin m _ live
        (λ c call h. put_call-IsLive m c call _ live h.there refl refl)

  pub call_set_params-IsSafe :
      (plugin : Plugin) (m : Machine E S)
      → IsLive E S H m
      → IsSafe E S H (call_set_params E S plugin m)
  unfolding call_set_params set_args_json
  call_set_params-IsSafe plugin m live = with_call-IsSafe plugin m _ live (λ c call h.
      with_json-IsSafe E S H plugin 2 m _ live
        (λ a j. put_call-IsLive m c call _ live h.there refl refl))

  conclude-IsSafe :
      (result : ReqResult) (effects : List (Effect json)) (m : Machine E S)
      → IsLive E S H m
      → IsSafe E S H (conclude E S result effects m)
  unfolding conclude
  conclude-IsSafe unknown_server effects m live = live
  conclude-IsSafe sent effects m live = live

  sending-IsSafe :
      (now : ℤ) (uuid server : String) (m : Machine E S) (c : Address) (call : RpcCall json)
      → IsLive E S H m
      → m.core.calls c ≡ some call
      → IsSafe E S H (
          send E m.core now uuid server c >>= λ out.
          conclude E S out.result (messages E S out.message) (record m { core = out.state }))
  sending-IsSafe now uuid server m c call live here =
      Safely-bind (λ out. IsKept E S H m.core out.state) (λ out. IsLive E S H out.machine) _ _
        (send-IsKept E S H m.core now uuid server c call here)
        (λ out kept. conclude-IsSafe out.result _ _ (kept-IsLive E S H m out.state live kept))

  pub call_send-IsSafe :
      (now : ℤ) (uuid : String) (plugin : Plugin) (m : Machine E S)
      → IsLive E S H m
      → IsSafe E S H (call_send E S now uuid plugin m)
  unfolding call_send set_callback
  call_send-IsSafe now uuid plugin m live = with_call-IsSafe plugin m _ live (λ c call h.
      elim (Option-cases (plugin.function (plugin.params 3))) [
        | inl e ↦ rw e live
        | inr (f, e) ↦ rw e (
            sending-IsSafe now uuid _ (put_call E S c (set_callback json (some f) call) m) c _
              (put_call-IsLive m c call _ live h.there refl refl) (found_there m.core.calls c _))
      ])

  closing :
      (plugin : Plugin) (m : Machine E S) (c : Address) (call : RpcCall json)
      → IsHeld plugin m c call
      → closed E S call m ≡ ok ((S.free (plugin.params 1) plugin.identity m.table).1)
  unfolding closed
  closing plugin m c call h = rw (closed, h.handle, h.owner) refl

  after_closing :
      (plugin : Plugin) (m : Machine E S) (c : Address) (call : RpcCall json)
      (f : S.Table → Result (Return E S))
      → IsHeld plugin m c call
      → IsSafe E S H (f ((S.free (plugin.params 1) plugin.identity m.table).1))
      → IsSafe E S H (closed E S call m >>= f)
  after_closing plugin m c call f h safe = rw (closing plugin m c call h) safe

  pub call_notify-IsSafe :
      (now : ℤ) (plugin : Plugin) (m : Machine E S)
      → IsLive E S H m
      → IsSafe E S H (call_notify E S now plugin m)
  unfolding call_notify
  call_notify-IsSafe now plugin m live = with_call-IsSafe plugin m _ live (λ c call h.
      Safely-bind (λ out. IsGone E S H m.core out.state c) (λ out. IsLive E S H out.machine) _ _
        (notify-IsGone E S H m.core now _ c call h.there)
        (λ out gone. after_closing plugin m c call _ h (
          conclude-IsSafe out.result _ _ (
            gone-IsLive E S H (plugin.params 1) plugin.identity m c out.state live h.readable
              gone))))

  pub call_broadcast-IsSafe :
      (now : ℤ) (plugin : Plugin) (m : Machine E S)
      → IsLive E S H m
      → HasNoNull m.core.processor.servers
      → IsSafe E S H (call_broadcast E S now plugin m)
  unfolding call_broadcast
  call_broadcast-IsSafe now plugin m live no_null = with_call-IsSafe plugin m _ live (λ c call h.
      Safely-bind (λ (messages, t). IsGone E S H m.core t c)
        (λ (out : Return E S). IsLive E S H out.machine) _ _
        (broadcast-IsGone E S H m.core now c call h.there no_null)
        (λ (sent_messages, core) gone.
          after_closing plugin m c call _ h
            (gone-IsLive E S H (plugin.params 1) plugin.identity m c core live h.readable gone)))
