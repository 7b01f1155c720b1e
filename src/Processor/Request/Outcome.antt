-- ===== src/Processor/Request/Outcome.antt =====
-- `HandleRequest` of src/CommandProcessor.cpp: in which ways a request can end.
use sm_ext_rpc.Base.{
  invalid_argument, domain_error, out_of_range, inl, inr, inl, Option-cases, Option, Bytes, All,
  String, ◌≡◌, refl, some, none, ok, true, arith,
}
use sm_ext_rpc.Processor.{Env, Processor, pointer}
use sm_ext_rpc.Processor.Request.{
  pending_of, Pending, answer, route, handle_value, handle_object, handle_request, run,
  handling_error, resp_invalid_request, resp_parse_error, Handled, Flow, catch, return, reply, next,
  raise, undefined, call,
}
use sm_ext_rpc.Method.{FunctionId, RpcMethod}
use sm_ext_rpc.Base.Dict.{lookup}
use sm_ext_rpc.Json.Laws.{IsLawful}
use sm_ext_rpc.Method.Validation.{validate_arguments_lem, IsNamed}
use sm_ext_rpc.Json.{member, Kind, is_object, is_array}
use sm_ext_rpc.Base.Int.{ℤ}
use sm_ext_rpc.Processor.Request.Objects.{dispatch_object, check_sig_object, check_timestamp_object}

-- A registered method that can be called: it has a callback, and its types are named by the enum.
pub record IsUsable (m : RpcMethod) : Type 0 where
  pub callable : (f : FunctionId) × (m.callback ≡ some f)
  pub named : All IsNamed m.param_types

-- Every method that the processor holds can be called.
abbrev pub HasUsableMethods : Processor → Type 0
HasUsableMethods p =
    (name : String) (m : RpcMethod) → pointer (lookup name p.methods) ≡ some m → IsUsable m

module _ (E : Env) where
  open E use {json}
  open json use {Json, kind, get_string, parse}

  -- The behaviour is defined.
  abbrev IsDefined : {A : Type 0} → Flow E A → Type 0
  IsDefined undefined = ⊥
  IsDefined _ = Unit

  catch_defined :
      (p : Processor) (m : Flow E (Handled E))
      → IsDefined m
      → (h : Handled E) × (catch E p m ≡ ok h)
  unfolding catch
  catch_defined p (next h) d = (h, refl)
  catch_defined p (return h) d = (h, refl)
  catch_defined p (raise invalid_argument) d =
      (record { response = reply (resp_parse_error E); log = none; processor = p }, refl)
  catch_defined p (raise domain_error) d = (
    record {
      response = reply (resp_invalid_request E);
      log = some (handling_error domain_error);
      processor = p;
    },
    refl,
  )
  catch_defined p (raise out_of_range) d = (
    record {
      response = reply (resp_invalid_request E);
      log = some (handling_error out_of_range);
      processor = p;
    },
    refl,
  )
  catch_defined p undefined d = elim d [ ]

  module _ (L : IsLawful json) (p : Processor) (usable : HasUsableMethods p) (remote : String) where
    run-IsDefined :
        (params : Json) (pd : Pending E) (m : RpcMethod)
        → kind params ≡ Kind.array
        → IsUsable m
        → IsDefined (run E p remote params pd m)
    unfolding run call answer
    run-IsDefined params pd m k u =
        ground (arith, u.callable.1, validate_arguments_lem json L m params u.named k)

    route-IsDefined :
        (params : Json) (pd : Pending E) (name : String)
        → kind params ≡ Kind.array
        → IsDefined (route E p remote params pd name)
    unfolding route answer
    route-IsDefined params pd name k = elim (Option-cases (pointer (lookup name p.methods))) [
      | inl e ↦ rw (e, route) tt
      | inr (m, e) ↦ rw (e, route) (run-IsDefined params pd m k (usable name m e))
    ]

    handle_object-IsDefined :
        (now : ℤ) (j : Json) → is_object json j ≡ true → IsDefined (handle_object E p now remote j)
    unfolding handle_object is_array
    handle_object-IsDefined now j o = ground (
      arith,
      check_timestamp_object E L p j o now,
      check_sig_object E L p j o,
      dispatch_object E L p j o remote,
      route-IsDefined (member json j "params") (pending_of E (member json j "id"))
          (get_string (member json j "method")),
    )

    handle_value-IsDefined : (now : ℤ) (v : Option Json) → IsDefined (handle_value E p now remote v)
    unfolding handle_value
    handle_value-IsDefined now none = tt
    handle_value-IsDefined now (some j) = ground (arith, handle_object-IsDefined now j)

    -- HandleRequest handles any bytes to its end: no exception leaves it and nothing undefined
    -- happens, provided every registered method has a callback and types that the enum names.
    pub handle_request-total :
        (now : ℤ) (req : Bytes) → (h : Handled E) × (handle_request E p now remote req ≡ ok h)
    unfolding handle_request
    handle_request-total now req = catch_defined p _ (handle_value-IsDefined now (parse req))
