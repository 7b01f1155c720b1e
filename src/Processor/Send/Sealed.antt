-- ===== src/Processor/Send/Sealed.antt =====
-- The body of a request that `SendRequest` of src/CommandProcessor.cpp sends.
use sm_ext_rpc.Base.{str_eq, if◌then◌else◌, [], ◌∷◌, String, ◌≡◌, ok, true, arith}
use sm_ext_rpc.Processor.{Env, Processor}
use sm_ext_rpc.Base.Int.{ℤ}
use sm_ext_rpc.Json.Laws.{
  member-touch_all, member-set, is_object-IsOpen, touch_all-is_object, set-is_object, IsLawful,
  IsOpen,
}
use sm_ext_rpc.Processor.Send.{seal}
use sm_ext_rpc.Processor.Signature.{sign, req_sig}
use sm_ext_rpc.Processor.Request.Objects.{req_message}
use sm_ext_rpc.Json.{at, touch_all, member, is_object}

module _ (E : Env) where
  open E use {json}
  open json use {Json, of_int, of_string, set, dump}

  -- The request with its timestamp, and with a null under each covered name that it lacks.
  abbrev pub stamped : ℤ → Json → Json
  stamped now req = set req "timestamp" (of_int now)

  abbrev pub filled : Json → Json
  filled = touch_all json ("jsonrpc" ∷ "method" ∷ "params" ∷ "timestamp" ∷ "id" ∷ [])

  abbrev pub sealed : String → ℤ → Json → Json
  sealed key now req =
      set (filled (stamped now req)) "sig"
        (of_string (sign E (req_message E (stamped now req)) key))

  module _ (L : IsLawful json) (p : Processor) (now : ℤ) (req : Json) (o : IsOpen json req) where
    stamped_object : is_object json (stamped now req) ≡ true
    stamped_object = set-is_object json L req "timestamp" (of_int now) o

    filled_object : is_object json (filled (stamped now req)) ≡ true
    filled_object = touch_all-is_object json L _ _ stamped_object

    pub seal_lem : seal E p now req ≡ ok (sealed p.api_key now req)
    unfolding seal req_sig at
    seal_lem = ground (
      arith,
      o,
      is_object-IsOpen json L _ stamped_object,
      is_object-IsOpen json L _ filled_object,
    )

    pub sealed-is_object : is_object json (sealed p.api_key now req) ≡ true
    sealed-is_object = set-is_object json L _ "sig" _ (is_object-IsOpen json L _ filled_object)

    -- The members of the body are those of the request, but for the two that are added.
    pub member-sealed :
        (k : String)
        → member json (sealed p.api_key now req) k ≡ (
            if str_eq "sig" k
            then of_string (sign E (req_message E (stamped now req)) p.api_key)
            else if str_eq "timestamp" k
            then of_int now
            else member json req k)
    member-sealed k = ground (
      arith,
      member-set json L (filled (stamped now req)) "sig"
          (of_string (sign E (req_message E (stamped now req)) p.api_key)) k
          (is_object-IsOpen json L _ filled_object),
      member-touch_all json L ("jsonrpc" ∷ "method" ∷ "params" ∷ "timestamp" ∷ "id" ∷ [])
          (stamped now req) k stamped_object,
      member-set json L req "timestamp" (of_int now) k o,
    )

    -- The signature does not cover itself, and all that it covers is in the body.
    pub req_message-sealed :
        req_message E (sealed p.api_key now req) ≡ req_message E (stamped now req)
    req_message-sealed = simp (member-sealed, member-set json L req "timestamp" (of_int now))
