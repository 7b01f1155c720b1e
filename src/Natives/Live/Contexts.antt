-- ===== src/Natives/Live/Contexts.antt =====
-- src/smn_rpccontext.cpp: the natives on contexts use contexts that are there, and the context that
-- `RPCMethod::Call` of src/RPCMethod.cpp creates is one.
use sm_ext_rpc.Base.{
  ◌∙◌, if◌then◌else◌, none, some, Bool, true, false, Result, ok, throw, fault, ◌≡◌, inl, inr, refl,
  Bool-cases, String,
}
use sm_ext_rpc.Method.{IdentityId, RpcMethod}
use sm_ext_rpc.Processor.{Env, Processor}
use sm_ext_rpc.Processor.Signature.{reply_sig}
use sm_ext_rpc.Processor.Request.{Pending, complete}
use sm_ext_rpc.Natives.{
  Plugin, Cell, Address, json_type, call_type, context_type, SourceMod, Machine, Return, HandleType,
  Context,
}
use sm_ext_rpc.Natives.Contexts.{
  with_context, put_context, get_params, finish, finish_call, set_return, get_remote_address,
  call_method,
}
use sm_ext_rpc.Natives.Live.{
  IsDefined, IsDefined-bind, IsHandleSystem, Holds, IsLive, IsSafe, then-IsSafe,
}
use sm_ext_rpc.Natives.Live.Machines.{
  create-IsLive, free-IsLive, found_elsewhere, found_there, found-after, put_context-IsLive,
}
use sm_ext_rpc.Natives.Live.Values.{Read-cases, with_json-IsSafe, new_json-IsSafe, at-IsDefined}

module _ (E : Env) (S : SourceMod (E.json)) (H : IsHandleSystem (E.json) S) where
  open E use {json}
  open json use {Json}

  with_context-IsSafe :
      (plugin : Plugin) (m : Machine E S) (k : Address → Context E S → Result (Return E S))
      → IsLive E S H m
      → ((a : Address) (context : Context E S)
          → S.read context_type (plugin.params 1) plugin.identity m.table ≡ inl a
          → IsSafe E S H (k a context))
      → IsSafe E S H (with_context E S plugin m k)
  unfolding with_context
  with_context-IsSafe plugin m k live safe =
      elim (Read-cases (S.read context_type (plugin.params 1) plugin.identity m.table)) [
        | inl (a, e) ↦
            let (context, there) = live.held context_type (plugin.params 1) plugin.identity a e in
            rw (with_context, e, there) (safe a context e)
        | inr (code, e) ↦ rw (with_context, e) live
      ]

  pub get_params-IsSafe :
      (plugin : Plugin) (m : Machine E S) → IsLive E S H m → IsSafe E S H (get_params E S plugin m)
  unfolding get_params
  get_params-IsSafe plugin m live =
      with_context-IsSafe plugin m _ live
        (λ a context e. new_json-IsSafe E S H plugin context.params m live)

  pub get_remote_address-IsSafe :
      (plugin : Plugin) (m : Machine E S)
      → IsLive E S H m
      → IsSafe E S H (get_remote_address E S plugin m)
  unfolding get_remote_address
  get_remote_address-IsSafe plugin m live =
      with_context-IsSafe plugin m _ live (λ a context e. live)

  pub set_return-IsSafe :
      (plugin : Plugin) (m : Machine E S) → IsLive E S H m → IsSafe E S H (set_return E S plugin m)
  unfolding set_return
  set_return-IsSafe plugin m live = with_context-IsSafe plugin m _ live (λ a context e.
      with_json-IsSafe E S H plugin 3 m _ live (λ b j. put_context-IsLive E S H a _ m live))

  reply_sig-IsDefined : (key : String) (reply : Json) → IsDefined (reply_sig E key reply)
  unfolding reply_sig
  reply_sig-IsDefined key reply = IsDefined-bind _ _ (at-IsDefined E S H reply _) (λ a.
      IsDefined-bind _ _ (at-IsDefined E S H reply _)
        (λ b. IsDefined-bind _ _ (at-IsDefined E S H reply _) (λ c. tt)))

  signed-IsDefined :
      (r : Result (String × Json))
      → IsDefined r
      → IsDefined (elim r [
        | ok (sig, resp) ↦ ok (some (json.set resp "sig" (json.of_string sig)))
        | throw e ↦ throw e
        | fault ↦ fault
      ])
  signed-IsDefined (ok r) d = tt
  signed-IsDefined (throw e) d = tt
  signed-IsDefined fault d = d

  complete-IsDefined :
      (p : Processor) (pending : Pending E) (retval : Json)
      → IsDefined (complete E p pending retval)
  unfolding complete
  complete-IsDefined p pending retval = elim (Bool-cases pending.notification) [
    | inl e ↦ rw (complete, e) tt
    | inr e ↦ rw (complete, e) (signed-IsDefined _ (reply_sig-IsDefined p.api_key _))
  ]

  -- The context is deleted, or stays where a handle was left.
  ended-IsLive :
      (plugin : Plugin) (m : Machine E S) (a : Address) (destroyed : Bool)
      → IsLive E S H m
      → S.read context_type (plugin.params 1) plugin.identity m.table ≡ inl a
      → IsLive E S H (record (if destroyed then put_context E S a none m else m) {
        table = (S.free (plugin.params 1) plugin.identity m.table).1;
      })
  ended-IsLive plugin m a true live readable =
      free-IsLive E S H context_type (plugin.params 1) plugin.identity a m _ live readable refl refl
        live.served go
    where
      go :
          (type : HandleType) (handle : Cell) (owner : IdentityId) (b : Address)
          → ¬ ((type ≡ context_type) × (b ≡ a))
          → Holds E S H type handle owner b m
          → Holds E S H type handle owner b (record (put_context E S a none m) {
            table = (S.free (plugin.params 1) plugin.identity m.table).1;
          })
      go json_type handle owner b d h = h
      go call_type handle owner b d h = h
      go context_type handle owner b d (context, there) =
          (context, found_elsewhere m.contexts a b none (λ e. d (refl, e)) ∙ there)
  ended-IsLive plugin m a false live readable =
      free-IsLive E S H context_type (plugin.params 1) plugin.identity a m _ live readable refl refl
        live.served go
    where
      go :
          (type : HandleType) (handle : Cell) (owner : IdentityId) (b : Address)
          → ¬ ((type ≡ context_type) × (b ≡ a))
          → Holds E S H type handle owner b m
          → Holds E S H type handle owner b
              (record m { table = (S.free (plugin.params 1) plugin.identity m.table).1 })
      go json_type handle owner b d h = h
      go call_type handle owner b d h = h
      go context_type handle owner b d h = h

  pub finish_call-IsSafe :
      (plugin : Plugin) (m : Machine E S) → IsLive E S H m → IsSafe E S H (finish_call E S plugin m)
  unfolding finish_call finish
  finish_call-IsSafe plugin m live = with_context-IsSafe plugin m _ live (λ a context e.
      then-IsSafe E S H _ _ (complete-IsDefined m.core.processor context.pending context.retval)
        (λ resp. ended-IsLive plugin m a _ live e))

  -- The machine with a new context and its handle.
  module _ (method : RpcMethod) (remote : String) (params : Json) (pending : Pending E) where
    called-Holds :
        (m : Machine E S) (type : HandleType) (handle : Cell) (owner : IdentityId) (b : Address)
        → Holds E S H type handle owner b m
        → Holds E S H type handle owner b ((call_method E S method remote params pending m).1)
    unfolding call_method
    called-Holds m json_type handle owner b h = h
    called-Holds m call_type handle owner b h = h
    called-Holds m context_type handle owner b h = found-after m.contexts m.fresh b _ h

    pub call_method-IsLive :
        (m : Machine E S)
        → IsLive E S H m
        → IsLive E S H ((call_method E S method remote params pending m).1)
    unfolding call_method
    call_method-IsLive m live =
        create-IsLive E S H context_type method.owning_plugin m _ live refl refl live.served
          (λ type handle owner b old h. called-Holds m type handle owner b h)
          (_, found_there m.contexts m.fresh _)
