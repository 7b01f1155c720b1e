-- ===== src/Processor/Request.antt =====
-- `HandleRequest` of src/CommandProcessor.cpp, from the bytes of a request to the reply, and the
-- closure by which a method's result is sent. `now` is what `time(nullptr)` returns.
pub mod Objects
pub mod Guards
pub mod Unset
pub mod Outcome
pub mod Frame
pub mod Notification
use sm_ext_rpc.Base.{
  String, Bool, not, ◌||◌, Option, none, some, Bytes, Result, ok, throw, fault, Exception,
  invalid_argument, str_eq, if◌then◌else◌,
}
use sm_ext_rpc.Base.Int.{ℤ, pos, negsuc, ◌-ℤ◌, ltb_ℤ}
use sm_ext_rpc.Base.Dict.{lookup, default_at}
use sm_ext_rpc.Json.{
  at, as_string, as_int, is_null, is_array, is_object, is_string, is_number, is_number_integer,
}
use sm_ext_rpc.Method.{RpcMethod, FunctionId, validate_arguments}
use sm_ext_rpc.Processor.{Env, Processor, pointer}
use sm_ext_rpc.Processor.Signature.{req_sig, reply_sig}

-- The lines that are written to the error log.
pub data LogLine : Type 0 where
  bad_timestamp timestamp_not_a_number request_too_old null_signature : LogLine
  bad_signature : String → String → LogLine
  handling_error : Exception → LogLine

module _ (E : Env) where
  open E use {json}
  open json use {Json, nullptr, of_string, of_int, set, parse}

  -- What the lambda that is handed to `RPCMethod::Call` captures.
  pub record Pending : Type 0 where
    pub id : Json
    pub notification : Bool

  -- What becomes of a request: the callback is called with a reply, nothing is sent, or the
  -- plugin's function is called with a new context of these parameters.
  pub data Response : Type 0 where
    reply : Json → Response
    silent : Response
    invoke : FunctionId → RpcMethod → String → Json → Pending → Response

  pub record Handled : Type 0 where
    pub response : Response
    pub log : Option LogLine
    pub processor : Processor

  -- The body of the `try` block: a statement is passed, the function returns, an exception is in
  -- flight, or the behaviour is undefined.
  pub data Flow (A : Type 0) : Type 0 where
    next : A → Flow A
    return : Handled → Flow A
    raise : Exception → Flow A
    undefined : Flow A

  infixl 5 ◌>>=◌ ◌>>◌
  abbrev pub ◌>>=◌ : {A B : Type 0} → Flow A → (A → Flow B) → Flow B
  next a >>= f = f a
  return h >>= f = return h
  raise e >>= f = raise e
  undefined >>= f = undefined

  abbrev pub ◌>>◌ : {B : Type 0} → Flow (Unit {0}) → Flow B → Flow B
  m >> k = m >>= λ _. k

  abbrev pub lift : {A : Type 0} → Result A → Flow A
  lift (ok a) = next a
  lift (throw e) = raise e
  lift fault = undefined

  abbrev pub version : Json
  version = of_string "2.0"

  -- `respError`; the constants `resp_parse_error` and `resp_invalid_request` have the same members.
  unfoldable pub resp_error : ℤ → String → Json → Json
  resp_error code message id =
      set
        (set (set nullptr "jsonrpc" version) "error"
          (set (set nullptr "code" (of_int code)) "message" (of_string message)))
        "id" id

  pub resp_parse_error : Json
  resp_parse_error = resp_error (negsuc 32699) "Parse error" nullptr

  pub resp_invalid_request : Json
  resp_invalid_request = resp_error (negsuc 32599) "Invalid Request" nullptr

  -- `return cb(resp_invalid_request)` with or without a line in the log before it.
  abbrev pub refuse : {A : Type 0} → Option LogLine → Processor → Flow A
  refuse line p =
      return (record { response = reply resp_invalid_request; log = line; processor = p })

  pub check_age : Processor → ℤ → ℤ → Flow (Unit {0})
  check_age p now timestamp =
      if ltb_ℤ timestamp (now -ℤ pos 30) then refuse (some request_too_old) p else next tt

  pub check_timestamp : Processor → ℤ → Json → Flow (Unit {0})
  unfolding check_age
  check_timestamp p now j = lift (at json j "timestamp") >>= λ timestamp.
      if is_null json timestamp
      then refuse (some bad_timestamp) p
      else if not (is_number_integer json timestamp)
      then refuse (some timestamp_not_a_number) p
      else (lift (as_int json timestamp) >>= check_age p now)

  pub check_digest : Processor → String → Json → Flow (Unit {0})
  check_digest p sig j = lift (req_sig E p.api_key j) >>= λ (digest, _).
      if str_eq sig digest then next tt else refuse (some (bad_signature sig digest)) p

  pub check_sig : Processor → Json → Flow (Unit {0})
  unfolding check_digest
  check_sig p j = lift (at json j "sig") >>= λ value.
      if is_null json value
      then refuse (some null_signature) p
      else (lift (as_string json value) >>= λ sig. check_digest p sig j)

  -- The reply to a request that is no notification.
  pub answer : Bool → Json → Processor → Flow Handled
  answer notification message p = next (record {
    response = if notification then silent else reply message;
    log = none;
    processor = p;
  })

  -- `method->Call`: a null callback is dereferenced.
  pub call : RpcMethod → String → Json → Pending → Processor → Flow Handled
  call method remote params pending p = elim method.callback [
    | none ↦ undefined
    | some f ↦
        next
          (record { response = invoke f method remote params pending; log = none; processor = p })
  ]

  -- From the check of the arguments on.
  pub run : Processor → String → Json → Pending → RpcMethod → Flow Handled
  unfolding answer call
  run p remote params pending method = lift (validate_arguments json method params) >>= λ valid.
      if valid
      then call method remote params pending p
      else answer pending.notification (resp_error (negsuc 32601) "Invalid params" pending.id) p

  -- From the lookup of the method on: a missing name is inserted with a null pointer.
  pub route : Processor → String → Json → Pending → String → Flow Handled
  unfolding answer run
  route p remote params pending name = elim (pointer (lookup name p.methods)) [
    | none ↦
        answer pending.notification (resp_error (negsuc 32600) "Method not found" pending.id)
          (record p { methods = default_at name none p.methods })
    | some method ↦ run p remote params pending method
  ]

  -- The id and whether the request is a notification: its id is no number and no string.
  unfoldable pub pending_of : Json → Pending
  pending_of id = record { id = id; notification = not (is_number json id || is_string json id) }

  pub dispatch : Processor → String → Json → Flow Handled
  unfolding route pending_of
  dispatch p remote j = do
    params ← lift (at json j "params")
    name ← lift (at json j "method")
    if not (is_array json params) || not (is_string json name)
        then refuse none p
        else (lift (at json j "id") >>= λ id.
            lift (as_string json name) >>= route p remote params (pending_of id))

  -- The branch for an object.
  pub handle_object : Processor → ℤ → String → Json → Flow Handled
  handle_object p now remote j = do check_timestamp p now j; check_sig p j; dispatch p remote j

  pub handle_value : Processor → ℤ → String → Option Json → Flow Handled
  handle_value p now remote none = raise invalid_argument
  handle_value p now remote (some j) =
      if is_array json j
      then next (record { response = silent; log = none; processor = p })
      else if is_object json j
      then handle_object p now remote j
      else refuse none p

  -- The two handlers. Nothing before a `throw` has changed the processor.
  pub catch : Processor → Flow Handled → Result Handled
  catch p (next h) = ok h
  catch p (return h) = ok h
  catch p (raise invalid_argument) =
      ok (record { response = reply resp_parse_error; log = none; processor = p })
  catch p (raise e) = ok (record {
    response = reply resp_invalid_request;
    log = some (handling_error e);
    processor = p;
  })
  catch p undefined = fault

  -- `HandleRequest`
  unfoldable pub handle_request : Processor → ℤ → String → Bytes → Result Handled
  unfolding handle_value handle_object check_timestamp check_sig dispatch catch
  handle_request p now remote req = catch p (handle_value p now remote (parse req))

  -- The lambda, called with the method's return value: the reply that is sent, if any.
  unfoldable pub complete : Processor → Pending → Json → Result (Option Json)
  complete p pending retval =
      if pending.notification
      then ok none
      else let resp = set (set (set nullptr "jsonrpc" version) "id" pending.id) "result" retval in
        elim (reply_sig E p.api_key resp) [
          | ok (sig, resp') ↦ ok (some (set resp' "sig" (of_string sig)))
          | throw e ↦ throw e
          | fault ↦ fault
        ]
