-- ===== src/Processor/Signature.antt =====
-- `getReqSig` and `getReplySig` of src/CommandProcessor.cpp. Both take the value by reference and
-- read it by `operator[]`, so that members which are missing are there as nulls afterwards.
use sm_ext_rpc.Base.{[], ◌∷◌, String, ◌++◌, Bytes, Result, ok, ◌>>=◌}
use sm_ext_rpc.Json.{touch_all, at}
use sm_ext_rpc.Crypto.{digest}
use sm_ext_rpc.Processor.{Env}

module _ (E : Env) where
  open E use {json, hmac, hash}
  open json use {Json, dump}

  abbrev pub sign : Bytes → String → String
  sign message key = digest hmac hash message key

  -- The signature, and the value that the reference holds afterwards.
  unfoldable pub req_sig : String → Json → Result (String × Json)
  req_sig key req = do
    jsonrpc ← at json req "jsonrpc"
    method ← at json req "method"
    params ← at json req "params"
    timestamp ← at json req "timestamp"
    id ← at json req "id"
    let message = dump jsonrpc ++ (dump method ++ (dump params ++ (dump timestamp ++ dump id)))
    let after = touch_all json ("jsonrpc" ∷ "method" ∷ "params" ∷ "timestamp" ∷ "id" ∷ []) req
    ok (sign message key, after)

  unfoldable pub reply_sig : String → Json → Result (String × Json)
  reply_sig key reply = do
    jsonrpc ← at json reply "jsonrpc"
    id ← at json reply "id"
    result ← at json reply "result"
    let message = dump jsonrpc ++ (dump id ++ dump result)
    let after = touch_all json ("jsonrpc" ∷ "id" ∷ "result" ∷ []) reply
    ok (sign message key, after)
