-- ===== src/Processor/Reply/Genuine.antt =====
-- `processCommandReply` of src/CommandProcessor.cpp: which replies reach a plugin.
use sm_ext_rpc.Base.{
  domain_error, eq_iff, throw, ◌||◌, Bool-cases, str_eq, not, if◌then◌else◌, ap, ◌∙◌, String, [],
  ◌∷◌, ◌≡◌, ok, true, false, arith, ◌⊎◌, inl, inr, some,
}
use sm_ext_rpc.Processor.{Env}
use sm_ext_rpc.Json.{is_null, as_string, is_string, is_object, at, touch_all, member}
use sm_ext_rpc.Json.Laws.{
  at_scalar, member_null, is_null_string, member-touch_all, is_object-IsOpen, find-touch_all_last,
  touch_all-is_object, at_object, IsLawful,
}
use sm_ext_rpc.Processor.Signature.{sign, reply_sig}
use sm_ext_rpc.Processor.Reply.{
  bad_signature, invalid_signature, find_call, State, Step, stay, complain, error_reply, accept,
  process_command_reply,
}
use sm_ext_rpc.Processor.Request.Objects.{reply_message}

module _ (E : Env) where
  open E use {json}
  open json use {Json, get_string, set, dump, find}

  -- A reply with a result: no error, and the signature is the digest under the key.
  pub record IsGenuine (key : String) (j : Json) : Type 0 where
    pub object : is_object json j ≡ true
    pub no_error : is_null json (member json j "error") ≡ true
    pub text : is_string json (member json j "sig") ≡ true
    pub equal : get_string (member json j "sig") ≡ sign E (reply_message E j) key

  abbrev pub covered : Json → Json
  covered = touch_all json ("jsonrpc" ∷ "id" ∷ "result" ∷ [])

  module _ (L : IsLawful json) (s : State E) (j : Json) where
    module _ (o : is_object json j ≡ true) where
      read : (k : String) → at json j k ≡ ok (member json j k)
      read k = at_object json L j k (is_object-IsOpen json L j o)

      pub process_object : process_command_reply E s j ≡ (
          if not (is_null json (member json j "error"))
          then complain E error_reply s
          else if not (is_string json (member json j "sig"))
          then complain E invalid_signature s
          else if str_eq
              (get_string (member json j "sig"))
              (sign E (reply_message E j) s.processor.api_key)
          then accept E s (covered j)
          else complain E bad_signature s)
      unfolding process_command_reply as_string reply_sig
      process_object =
          ground (arith, read "error", read "sig", read "jsonrpc", read "id", read "result")

      pub covered_object : is_object json (covered j) ≡ true
      covered_object = touch_all-is_object json L _ j o

      pub covered_id : at json (covered j) "id" ≡ ok (member json j "id")
      covered_id =
          at_object json L _ "id" (is_object-IsOpen json L _ covered_object)
          ∙ ap ok (member-touch_all json L ("jsonrpc" ∷ "id" ∷ "result" ∷ []) j "id" o)

      pub covered_result : find (covered j) "result" ≡ some (member json j "result")
      covered_result = find-touch_all_last json L ("jsonrpc" ∷ "id" ∷ []) j "result" o

      -- The reply is for the call under its id, if the id is a text.
      pub accept_object : accept E s (covered j) ≡ (
          if is_string json (member json j "id")
          then find_call E s (get_string (member json j "id")) (covered j)
          else stay E s)
      unfolding accept as_string
      accept_object = ground (arith, covered_id, is_null_string json L (member json j "id"))

    -- A value that is neither an object nor a null raises an exception.
    pub process_scalar :
        (is_null json j || is_object json j) ≡ false
        → process_command_reply E s j ≡ throw domain_error
    unfolding process_command_reply
    process_scalar h = rw (at_scalar json L j "error" h)

    pub process_null :
        is_null json j ≡ true → process_command_reply E s j ≡ complain E invalid_signature s
    unfolding process_command_reply at is_null is_string
    process_null h = ground (arith, member_null json L j "error", member_null json L j "sig")

    -- A reply that is processed without an exception leaves the state and calls no function,
    -- unless it is an object without an error whose signature is the digest of its covered members
    -- under the key and whose id is a text.
    pub process_unless-IsGenuine :
        (step : Step E)
        → process_command_reply E s j ≡ ok step
        → ((step.state ≡ s) × (step.deliveries ≡ []))
          ⊎ (IsGenuine s.processor.api_key j × (is_string json (member json j "id") ≡ true))
    process_unless-IsGenuine step e = elim (Bool-cases (is_object json j)) [
      | inl o ↦ ground (
        arith,
        process_object o,
        accept_object o,
        eq_iff (get_string (member json j "sig")) (sign E (reply_message E j) s.processor.api_key),
      )
      | inr n ↦ elim (Bool-cases (is_null json j)) [
        | inl z ↦ ground (arith, process_null z)
        | inr m ↦ ground (arith, process_scalar)
      ]
    ]
