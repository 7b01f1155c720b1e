-- ===== src/Natives/Calls.antt =====
-- src/smn_rpccall.cpp: the natives by which plugins make calls. `now` is what `time(nullptr)`
-- returns, and `uuid` the text of the generated identifier.
use sm_ext_rpc.Base.{
  ok, suc, String, Option, none, some, List, [], ◌∷◌, Result, fault, ◌>>=◌, inl, inr,
}
use sm_ext_rpc.Base.Int.{ℤ, pos}
use sm_ext_rpc.Processor.{Env, ServerId}
use sm_ext_rpc.Processor.Send.{ReqResult, unknown_server, sent}
use sm_ext_rpc.Call.{set_handle, RpcCall, update, new_call, set_callback, set_method, set_args_json}
use sm_ext_rpc.Call.Requests.{send, notify, broadcast}
use sm_ext_rpc.Natives.{
  Plugin, Address, SourceMod, Machine, Return, Report, Effect, call_type, invalid_handle,
  invalid_callback, message, return, refuse, with_json,
}
use sm_ext_rpc.Base.{Bytes}

module _ (E : Env) (S : SourceMod (E.json)) where
  open E use {json}
  open json use {Json}

  -- `READ_HANDLE`
  unfoldable pub with_call :
      Plugin → Machine E S → (Address → RpcCall json → Result (Return E S)) → Result (Return E S)
  with_call plugin m k = elim (S.read call_type (plugin.params 1) plugin.identity m.table) [
    | inl c ↦ elim (m.core.calls c) [ none ↦ fault | some call ↦ k c call ]
    | inr e ↦ refuse E S (invalid_handle call_type e) m
  ]

  abbrev pub put_call : Address → RpcCall json → Machine E S → Machine E S
  put_call c call m = record m {
    core = record m.core { calls = update json m.core.calls c (some call) };
  }

  -- `native_CreateRPCCall`
  unfoldable pub create_call : Plugin → Machine E S → Result (Return E S)
  unfolding set_handle
  create_call plugin m =
      let (handle, table) = S.create call_type m.fresh plugin.identity m.table in
      let call = set_handle json handle (new_call json none plugin.identity) in
      let m' : Machine E S = put_call m.fresh call m in
      return E S handle [] (record m' { table = table; fresh = suc m.fresh })

  unfoldable pub call_set_method : Plugin → Machine E S → Result (Return E S)
  unfolding with_call
  call_set_method plugin m = with_call plugin m (λ c call.
      return E S (pos 1) [] (put_call c (set_method json (plugin.text (plugin.params 2)) call) m))

  -- `native_RPCCallSetParamsJSON`: the call keeps a copy of the value.
  unfoldable pub call_set_params : Plugin → Machine E S → Result (Return E S)
  unfolding with_call with_json
  call_set_params plugin m = with_call plugin m (λ c call.
      with_json E S plugin 2 m
        (λ a j. return E S (pos 1) [] (put_call c (set_args_json json j call) m)))

  abbrev pub messages : Option (ServerId × Bytes) → List (Effect json)
  messages none = []
  messages (some (server, body)) = message server body ∷ []

  -- What a native returns for the result of a request.
  unfoldable pub conclude : ReqResult → List (Effect json) → Machine E S → Result (Return E S)
  conclude unknown_server effects m = refuse E S Report.unknown_server m
  conclude sent effects m = return E S (pos 1) effects m

  unfoldable pub call_send : ℤ → String → Plugin → Machine E S → Result (Return E S)
  unfolding with_call conclude
  call_send now uuid plugin m = with_call plugin m (λ c call.
      elim (plugin.function (plugin.params 3)) [
        | none ↦ refuse E S invalid_callback m
        | some f ↦
            let m' = put_call c (set_callback json (some f) call) m in
            send E m'.core now uuid (plugin.text (plugin.params 2)) c >>= λ out.
            conclude out.result (messages out.message) (record m' { core = out.state })
      ])

  -- The handles after `FreeHandle` of a call.
  unfoldable pub closed : RpcCall json → Machine E S → Result S.Table
  closed call m = elim call.handle [
    | none ↦ fault
    | some handle ↦ ok ((S.free handle call.owner m.table).1)
  ]

  unfoldable pub call_notify : ℤ → Plugin → Machine E S → Result (Return E S)
  unfolding with_call conclude closed
  call_notify now plugin m = with_call plugin m (λ c call.
      notify E m.core now (plugin.text (plugin.params 2)) c >>= λ out. closed call m >>= λ table.
      conclude out.result (messages out.message) (record m { core = out.state; table = table }))

  abbrev pub all_messages : List (ServerId × Bytes) → List (Effect json)
  all_messages [] = []
  all_messages ((server, body) ∷ rest) = message server body ∷ all_messages rest

  unfoldable pub call_broadcast : ℤ → Plugin → Machine E S → Result (Return E S)
  unfolding with_call closed
  call_broadcast now plugin m = with_call plugin m (λ c call.
      broadcast E m.core now c >>= λ (sent_messages, core). closed call m >>= λ table.
      return E S (pos 1) (all_messages sent_messages) (record m { core = core; table = table }))
