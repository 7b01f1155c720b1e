-- ===== src/Processor/Request/Objects.antt =====
-- The steps of `HandleRequest` of src/CommandProcessor.cpp at a request that is an object.
use sm_ext_rpc.Base.{
  String, ◌≡◌, true, not, ◌||◌, some, none, ◌++◌, Bytes, ok, domain_error, arith, str_eq,
  if◌then◌else◌,
}
use sm_ext_rpc.Base.Int.{ℤ, pos, ◌-ℤ◌, ltb_ℤ}
use sm_ext_rpc.Json.{
  at, as_string, as_int, is_null, is_array, is_object, is_string, is_number, is_number_integer,
  member,
}
use sm_ext_rpc.Json.Laws.{IsLawful, is_object-IsOpen, at_object}
use sm_ext_rpc.Processor.{Env, Processor}
use sm_ext_rpc.Processor.Signature.{req_sig, sign}
use sm_ext_rpc.Processor.Request.{
  next, raise, refuse, check_timestamp, check_sig, route, pending_of, dispatch, bad_timestamp,
  timestamp_not_a_number, request_too_old, null_signature, bad_signature,
}

module _ (E : Env) where
  open E use {json, hmac, hash}
  open json use {Json, dump, get_string, get_int}

  -- The bytes that a request's signature covers, and those of a reply's.
  abbrev pub req_message : Json → Bytes
  req_message j =
      dump (member json j "jsonrpc")
      ++ (dump (member json j "method")
          ++ (dump (member json j "params")
              ++ (dump (member json j "timestamp") ++ dump (member json j "id"))))

  abbrev pub reply_message : Json → Bytes
  reply_message j =
      dump (member json j "jsonrpc") ++ (dump (member json j "id") ++ dump (member json j "result"))

  module _ (L : IsLawful json) (p : Processor) (j : Json) (o : is_object json j ≡ true) where
    read : (k : String) → at json j k ≡ ok (member json j k)
    read k = at_object json L j k (is_object-IsOpen json L j o)

    pub check_timestamp_object :
        (now : ℤ)
        → check_timestamp E p now j ≡ (
            if is_null json (member json j "timestamp")
            then refuse E (some bad_timestamp) p
            else if not (is_number_integer json (member json j "timestamp"))
            then refuse E (some timestamp_not_a_number) p
            else if ltb_ℤ (get_int (member json j "timestamp")) (now -ℤ pos 30)
            then refuse E (some request_too_old) p
            else next tt)
    unfolding check_timestamp as_int is_number is_number_integer
    check_timestamp_object now = rw (read "timestamp", check_timestamp) (ground arith)

    pub check_sig_object : check_sig E p j ≡ (
        if is_null json (member json j "sig")
        then refuse E (some null_signature) p
        else if not (is_string json (member json j "sig"))
        then raise domain_error
        else if str_eq (get_string (member json j "sig")) (sign E (req_message j) p.api_key)
        then next tt
        else refuse E
            (some
              (bad_signature (get_string (member json j "sig")) (sign E (req_message j) p.api_key)))
            p)
    unfolding check_sig as_string req_sig
    check_sig_object =
        rw (read "sig", check_sig)
          (ground
            (arith, read "jsonrpc", read "method", read "params", read "timestamp", read "id"))

    pub dispatch_object :
        (remote : String)
        → dispatch E p remote j ≡ (
            if not (is_array json (member json j "params"))
              || not (is_string json (member json j "method"))
            then refuse E none p
            else route E p remote
                (member json j "params")
                (pending_of E (member json j "id"))
                (get_string (member json j "method")))
    unfolding dispatch as_string
    dispatch_object remote = rw (read "params", read "method", read "id", dispatch) (ground arith)
