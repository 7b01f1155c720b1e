-- ===== src/Processor/Request/Unset.antt =====
-- `HandleRequest` of src/CommandProcessor.cpp at a method without a callback.
use sm_ext_rpc.Base.{refl, String, Bytes, none, some, ok, fault, ◌≡◌, true, arith}
use sm_ext_rpc.Base.Int.{ℤ}
use sm_ext_rpc.Base.Dict.{lookup}
use sm_ext_rpc.Json.{is_object, member}
use sm_ext_rpc.Json.Laws.{IsLawful, is_array_object}
use sm_ext_rpc.Method.{RpcMethod, validate_arguments}
use sm_ext_rpc.Processor.{Env, Processor, pointer}
use sm_ext_rpc.Processor.Request.{
  handle_request, handle_value, handle_object, route, run, call, catch, undefined,
}
use sm_ext_rpc.Processor.Request.Objects.{dispatch_object}
use sm_ext_rpc.Processor.Request.Guards.{
  IsFresh, IsSigned, IsShaped, check_timestamp_iff, check_sig_iff,
}

module _ (E : Env) where
  open E use {json}
  open json use {Json, get_string, parse}

  -- An authenticated request with fitting parameters for a method that has no callback.
  pub record IsUnset (p : Processor) (now : ℤ) (j : Json) (m : RpcMethod) : Type 0 where
    pub object : is_object json j ≡ true
    pub fresh : IsFresh E now j
    pub signed : IsSigned E p.api_key j
    pub shaped : IsShaped E j
    pub registered : pointer (lookup (get_string (member json j "method")) p.methods) ≡ some m
    pub unset : m.callback ≡ none
    pub valid : validate_arguments json m (member json j "params") ≡ ok true

  module _ (L : IsLawful json) (p : Processor) (now : ℤ) (remote : String) where
    handle_value_unset :
        (j : Json) {m : RpcMethod}
        → IsUnset p now j m
        → handle_value E p now remote (some j) ≡ undefined
    unfolding handle_value handle_object route run call
    handle_value_unset j a =
        rw (a.object, is_array_object json L j a.object, handle_value)
          (rw
            (
              (check_timestamp_iff E L p now j a.object).1 a.fresh,
              (check_sig_iff E L p now j a.object).1 a.signed,
              dispatch_object E L p j a.object remote,
            )
            (ground arith))

    pub handle_request_unset :
        (req : Bytes) (j : Json) {m : RpcMethod}
        → parse req ≡ some j
        → IsUnset p now j m
        → handle_request E p now remote req ≡ fault
    unfolding handle_request catch
    handle_request_unset req j parsed a = rw (handle_request, parsed, handle_value_unset j a) refl
