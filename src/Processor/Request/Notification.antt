-- ===== src/Processor/Request/Notification.antt =====
-- `HandleRequest` of src/CommandProcessor.cpp: what a request gets back whose id is no number and
-- no string.
use sm_ext_rpc.Base.{
  some, Bytes, Option-cases, String, none, ◌≡◌, refl, ok, true, false, arith, ◌⊎◌, inl, inr,
}
use sm_ext_rpc.Processor.{Env, Processor, pointer}
use sm_ext_rpc.Base.Dict.{lookup, default_at}
use sm_ext_rpc.Processor.Request.{
  pending_of, handle_object, handle_value, handle_request, answer, run, route, Handled, Pending,
  catch, silent, invoke, next, call, complete,
}
use sm_ext_rpc.Processor.Request.Guards.{
  IsFresh, IsSigned, IsShaped, check_timestamp_iff, check_sig_iff,
}
use sm_ext_rpc.Processor.Request.Objects.{dispatch_object}
use sm_ext_rpc.Processor.Request.Outcome.{IsUsable, HasUsableMethods}
use sm_ext_rpc.Json.{is_string, member, is_number, is_object, is_array, Kind}
use sm_ext_rpc.Method.{RpcMethod, FunctionId}
use sm_ext_rpc.Json.Laws.{is_array_object, IsLawful}
use sm_ext_rpc.Method.Validation.{validate_arguments_lem}
use sm_ext_rpc.Base.Int.{ℤ}

module _ (E : Env) where
  open E use {json}
  open json use {Json, kind, get_string, parse}

  -- Nothing is sent, or a function is called whose result is never sent.
  abbrev pub IsUnanswered : Handled E → Type 0
  IsUnanswered h =
      (h.response ≡ silent)
      ⊎ ((f : FunctionId) × (m : RpcMethod) × (r : String) × (ps : Json) × (pd : Pending E)
          × (h.response ≡ invoke f m r ps pd)
          × ((q : Processor) (retval : Json) → complete E q pd retval ≡ ok none))

  complete_notification :
      (pd : Pending E)
      → pd.notification ≡ true
      → (q : Processor) (retval : Json) → complete E q pd retval ≡ ok none
  unfolding complete
  complete_notification pd n q retval = rw n

  module _ (L : IsLawful json) (p : Processor) (usable : HasUsableMethods p) (remote : String) where
    run-IsUnanswered :
        (params : Json) (pd : Pending E) (m : RpcMethod)
        → pd.notification ≡ true
        → kind params ≡ Kind.array
        → IsUsable m
        → (h : Handled E) × (run E p remote params pd m ≡ next h) × IsUnanswered h
    unfolding run call answer
    run-IsUnanswered params pd m n k u =
        let (f, called) = u.callable in
        elim (validate_arguments_lem json L m params u.named k) [
          | inl v ↦ (
            record { response = invoke f m remote params pd; log = none; processor = p },
            ground arith,
            inr (f, m, remote, params, pd, refl, complete_notification pd n),
          )
          | inr v ↦
              (record { response = silent; log = none; processor = p }, ground arith, inl refl)
        ]

    route-IsUnanswered :
        (params : Json) (pd : Pending E) (name : String)
        → pd.notification ≡ true
        → kind params ≡ Kind.array
        → (h : Handled E) × (route E p remote params pd name ≡ next h) × IsUnanswered h
    unfolding route answer
    route-IsUnanswered params pd name n k = elim (Option-cases (pointer (lookup name p.methods))) [
      | inl missing ↦ (
        record {
          response = silent;
          log = none;
          processor = record p { methods = default_at name none p.methods };
        },
        ground arith,
        inl refl,
      )
      | inr (m, found) ↦ rw (found, route) (run-IsUnanswered params pd m n k (usable name m found))
    ]

    -- A fresh, signed and well-formed request whose id is neither a number nor a text is handled
    -- without an answer: nothing is sent for an unknown method or wrong parameters, and the result
    -- of a called function is never sent. The registered methods must be usable.
    pub notification-IsUnanswered :
        (now : ℤ) (req : Bytes) (j : Json)
        → parse req ≡ some j
        → is_object json j ≡ true
        → IsFresh E now j
        → IsSigned E p.api_key j
        → IsShaped E j
        → is_number json (member json j "id") ≡ false
        → is_string json (member json j "id") ≡ false
        → (h : Handled E) × (handle_request E p now remote req ≡ ok h) × IsUnanswered h
    unfolding handle_request handle_value handle_object catch pending_of is_array
    notification-IsUnanswered now req j e o fresh signed shaped n s =
        let (h, r, u) =
          route-IsUnanswered (member json j "params") (pending_of E (member json j "id"))
            (get_string (member json j "method")) (ground arith) (ground arith) in
        (
          h,
          rw (e, is_array_object json L j o, o)
              (rw
                (
                  (check_timestamp_iff E L p now j o).1 fresh,
                  (check_sig_iff E L p now j o).1 signed,
                  dispatch_object E L p j o remote,
                )
                (ground arith)),
          u,
        )
