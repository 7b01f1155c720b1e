-- ===== src/Natives/Contexts.antt =====
-- src/RPCContext.hpp, src/RPCContext.cpp and src/smn_rpccontext.cpp: the context of a call that a
-- method of a plugin serves; and `RPCMethod::Call` of src/RPCMethod.cpp, which creates it.
pub mod Served
use sm_ext_rpc.Base.{
  suc, String, Bool, true, false, Option, none, some, List, [], ◌∷◌, Result, fault, ◌>>=◌, inl, inr,
  ◌==◌, if◌then◌else◌,
}
use sm_ext_rpc.Base.Int.{ℤ, pos}
use sm_ext_rpc.Json.Wire.{packet}
use sm_ext_rpc.Method.{RpcMethod, FunctionId}
use sm_ext_rpc.Processor.{Env}
use sm_ext_rpc.Processor.Request.{Pending, complete}
use sm_ext_rpc.Natives.{
  Plugin, Cell, Address, SourceMod, Machine, Context, Return, Effect, context_type, invalid_handle,
  replied, output, return, refuse, with_json, new_json,
}

module _ (E : Env) (S : SourceMod (E.json)) where
  open E use {json}
  open json use {Json, nullptr, dump}

  -- The constructor.
  unfoldable pub new_context : String → Json → Pending E → Context E S
  new_context remote params pending = record {
    retval = nullptr;
    params = params;
    remote = remote;
    pending = pending;
  }

  abbrev pub put_context : Address → Option (Context E S) → Machine E S → Machine E S
  put_context a value m = record m { contexts = λ b. if a == b then value else m.contexts b }

  -- `RPCMethod::Call` up to `Execute`: the cell that is passed to the plugin's function.
  unfoldable pub call_method :
      RpcMethod → String → Json → Pending E → Machine E S → Cell × Machine E S
  unfolding new_context
  call_method method remote params pending m =
      let (handle, table) = S.create context_type m.fresh method.owning_plugin m.table in
      let m' : Machine E S = put_context m.fresh (some (new_context remote params pending)) m in
      (handle, record m' { table = table; fresh = suc m.fresh })

  -- `READ_HANDLE`
  unfoldable pub with_context :
      Plugin → Machine E S → (Address → Context E S → Result (Return E S)) → Result (Return E S)
  with_context plugin m k = elim (S.read context_type (plugin.params 1) plugin.identity m.table) [
    | inl a ↦ elim (m.contexts a) [ none ↦ fault | some context ↦ k a context ]
    | inr e ↦ refuse E S (invalid_handle context_type e) m
  ]

  -- `native_GetParams`: a copy under a new handle.
  unfoldable pub get_params : Plugin → Machine E S → Result (Return E S)
  unfolding with_context new_json
  get_params plugin m = with_context plugin m (λ a context. new_json E S plugin context.params m)

  abbrev pub replies : Option Json → List (Effect json)
  replies none = []
  replies (some resp) = replied (packet (dump resp)) ∷ []

  -- `finish`: the callback of the context is the lambda of `HandleRequest`.
  unfoldable pub finish : Context E S → Machine E S → Result (Option Json)
  finish context m = complete E m.core.processor context.pending context.retval

  -- `native_FinishCall`: the context is deleted where its handle was the last one.
  unfoldable pub finish_call : Plugin → Machine E S → Result (Return E S)
  unfolding with_context finish
  finish_call plugin m = with_context plugin m (λ a context. finish context m >>= λ resp.
      let (destroyed, table) = S.free (plugin.params 1) plugin.identity m.table in
      let m' : Machine E S = if destroyed then put_context a none m else m in
      return E S (pos 0) (replies resp) (record m' { table = table }))

  -- `native_SetReturnJSON`: the value is that of the handle at position 3, which a plugin that passes
  -- fewer parameters has not set.
  unfoldable pub set_return : Plugin → Machine E S → Result (Return E S)
  unfolding with_context with_json
  set_return plugin m = with_context plugin m (λ a context.
      with_json E S plugin 3 m
        (λ b j. return E S (pos 1) [] (put_context a (some (record context { retval = j })) m)))

  -- `native_GetRemoteAddress`
  unfoldable pub get_remote_address : Plugin → Machine E S → Result (Return E S)
  unfolding with_context
  get_remote_address plugin m = with_context plugin m (λ a context.
      return E S (pos 1) (output (plugin.params 2) (plugin.params 3) context.remote ∷ []) m)
