-- ===== src/Processor/Request/Guards.antt =====
-- `HandleRequest` of src/CommandProcessor.cpp: which requests reach a plugin.
use sm_ext_rpc.Base.{refl, Option, Bytes, none, some, ok, String, ◌≡◌, ◌↔◌, true, arith, eq_iff}
use sm_ext_rpc.Base.Int.{ℤ, pos, ◌-ℤ◌, ◌≤ℤ◌}
use sm_ext_rpc.Json.{is_array, is_object, is_string, is_number_integer, member}
use sm_ext_rpc.Json.Laws.{is_array_object, is_null_integer, IsLawful, is_null_string}
use sm_ext_rpc.Processor.{lookup, pointer, RpcMethod, Env, Processor}
use sm_ext_rpc.Processor.Signature.{sign}
use sm_ext_rpc.Processor.Request.{
  handle_value, handle_request, pending_of, answer, call, dispatch, run, route, catch,
  handle_object, invoke, Pending, FunctionId, Handled, next, check_timestamp, check_sig,
}
use sm_ext_rpc.Processor.Request.Objects.{
  dispatch_object, req_message, check_timestamp_object, check_sig_object,
}
use sm_ext_rpc.Method.{validate_arguments}

module _ (E : Env) where
  open E use {json}
  open json use {Json, get_string, get_int, parse}

  -- The timestamp is an integer, and at most thirty seconds old.
  pub record IsFresh (now : ℤ) (j : Json) : Type 0 where
    pub integer : is_number_integer json (member json j "timestamp") ≡ true
    pub recent : now -ℤ pos 30 ≤ℤ get_int (member json j "timestamp")

  -- The signature is a text, and the digest of the request under the key.
  pub record IsSigned (key : String) (j : Json) : Type 0 where
    pub text : is_string json (member json j "sig") ≡ true
    pub equal : get_string (member json j "sig") ≡ sign E (req_message E j) key

  -- The parameters are an array and the method's name is a text.
  pub record IsShaped (j : Json) : Type 0 where
    pub params : is_array json (member json j "params") ≡ true
    pub method : is_string json (member json j "method") ≡ true

  module _ (L : IsLawful json) (p : Processor) (now : ℤ) (j : Json)
      (o : is_object json j ≡ true) where
    pub check_timestamp_iff : (check_timestamp E p now j ≡ next tt) ↔ IsFresh now j
    check_timestamp_iff =
        rw (check_timestamp_object E L p j o now)
          (ground (arith, is_null_integer json L (member json j "timestamp")))

    pub check_sig_iff : (check_sig E p j ≡ next tt) ↔ IsSigned p.api_key j
    check_sig_iff = rw (check_sig_object E L p j o) (
        ground (
          arith,
          is_null_string json L (member json j "sig"),
          eq_iff (get_string (member json j "sig")) (sign E (req_message E j) p.api_key),
        ))

    module _ (remote : String) {h : Handled E} {f : FunctionId} {m : RpcMethod} {r : String}
        {ps : Json} {pd : Pending E} (called : h.response ≡ invoke f m r ps pd) where
      -- A handled object whose method is called has passed both checks.
      guards_passed :
          catch E p (handle_object E p now remote j) ≡ ok h
          → (check_timestamp E p now j ≡ next tt)
            × (check_sig E p j ≡ next tt)
            × (catch E p (dispatch E p remote j) ≡ ok h)
      unfolding handle_object catch
      guards_passed e =
          ground (arith, check_timestamp_object E L p j o now, check_sig_object E L p j o)

      dispatched :
          catch E p (dispatch E p remote j) ≡ ok h
          → IsShaped j
            × (pointer (lookup (get_string (member json j "method")) p.methods) ≡ some m)
            × (m.callback ≡ some f)
            × (validate_arguments json m ps ≡ ok true)
            × (r ≡ remote)
            × (ps ≡ member json j "params")
            × (pd ≡ pending_of E (member json j "id"))
      unfolding catch route run call answer
      dispatched e = ground (arith, dispatch_object E L p j o remote)

  -- The request is an object that passes every check, and names a registered method whose types
  -- its parameters have.
  pub record IsAdmitted (p : Processor) (now : ℤ) (j : Json) (m : RpcMethod) (f : FunctionId)
      : Type 0 where
    pub object : is_object json j ≡ true
    pub fresh : IsFresh now j
    pub signed : IsSigned p.api_key j
    pub shaped : IsShaped j
    pub registered : pointer (lookup (get_string (member json j "method")) p.methods) ≡ some m
    pub callable : m.callback ≡ some f
    pub valid : validate_arguments json m (member json j "params") ≡ ok true

  module _ (L : IsLawful json) (p : Processor) (now : ℤ) (remote : String) where
    module _ {h : Handled E} {f : FunctionId} {m : RpcMethod} {r : String} {ps : Json}
        {pd : Pending E} (c : h.response ≡ invoke f m r ps pd) where
      -- No refusal calls a function, nor does the answer to a value that is no object.
      invoke_object :
          (v : Option Json)
          → catch E p (handle_value E p now remote v) ≡ ok h
          → (j : Json) × (v ≡ some j)
            × (is_object json j ≡ true)
            × (catch E p (handle_object E p now remote j) ≡ ok h)
      unfolding handle_value catch
      invoke_object none e = absurd (ground arith)
      invoke_object (some j) e = (j, refl, ground arith, ground arith)

      invoke_value :
          (j : Json)
          → is_object json j ≡ true
          → catch E p (handle_object E p now remote j) ≡ ok h
          → IsAdmitted p now j m f
            × (r ≡ remote)
            × (ps ≡ member json j "params")
            × (pd ≡ pending_of E (member json j "id"))
      invoke_value j o e =
          let (t, s, d) = guards_passed L p now j o remote c e in
          let (shape, reg, callable, valid, same, args, pend) = dispatched L p now j o remote c d in
          (
            record {
              object = o;
              fresh = (check_timestamp_iff L p now j o).0 t;
              signed = (check_sig_iff L p now j o).0 s;
              shaped = shape;
              registered = reg;
              callable = callable;
              valid = cc;
            },
            same,
            args,
            pend,
          )

    -- Whenever HandleRequest calls a plugin's function, the bytes parse as an object whose integer
    -- timestamp is at most thirty seconds old, whose signature is the digest of its five covered
    -- members under the key, whose params are an array that the method accepts, and whose method
    -- name is registered with that function; the context gets the sender's address, the params and
    -- the id of the request.
    pub handle_request-invoke :
        (req : Bytes) {h : Handled E} {f : FunctionId} {m : RpcMethod} {r : String} {ps : Json}
        {pd : Pending E}
        → handle_request E p now remote req ≡ ok h
        → h.response ≡ invoke f m r ps pd
        → (j : Json) × (parse req ≡ some j)
          × IsAdmitted p now j m f
          × (r ≡ remote)
          × (ps ≡ member json j "params")
          × (pd ≡ pending_of E (member json j "id"))
    unfolding handle_request
    handle_request-invoke req e c =
        let (j, parsed, o, handled) = invoke_object c (parse req) e in
        let (admitted, same, args, pend) = invoke_value c j o handled in
        (j, parsed, admitted, same, args, pend)

    IsAdmitted-handle_value :
        (j : Json) {f : FunctionId} {m : RpcMethod}
        → IsAdmitted p now j m f
        → handle_value E p now remote (some j)
          ≡ next (record {
            response =
                invoke f m remote (member json j "params") (pending_of E (member json j "id"));
            log = none;
            processor = p;
          })
    unfolding handle_value handle_object route run call
    IsAdmitted-handle_value j a =
        rw (a.object, is_array_object json L j a.object, handle_value)
          (rw
            (
              (check_timestamp_iff L p now j a.object).1 a.fresh,
              (check_sig_iff L p now j a.object).1 a.signed,
              dispatch_object E L p j a.object remote,
            )
            (ground arith))

    -- Every request that parses as a fresh, signed, well-formed object and names a registered
    -- method with a callback and fitting parameters is handed to that callback, and the processor
    -- stays as it was.
    pub IsAdmitted-handle_request :
        (req : Bytes) (j : Json) {f : FunctionId} {m : RpcMethod}
        → parse req ≡ some j
        → IsAdmitted p now j m f
        → handle_request E p now remote req
          ≡ ok (record {
            response =
                invoke f m remote (member json j "params") (pending_of E (member json j "id"));
            log = none;
            processor = p;
          })
    unfolding handle_request
    IsAdmitted-handle_request req j e a = rw (e, IsAdmitted-handle_value j a)
