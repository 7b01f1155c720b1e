-- ===== src/Processor/Reply/Errors.antt =====
-- Error replies: what `respError` makes of a request that fails, and what the caller's
-- `HandleReply` makes of that.
use sm_ext_rpc.Base.{◌∙◌, String, ◌≡◌, refl, true, false, arith}
use sm_ext_rpc.Processor.{Env}
use sm_ext_rpc.Base.Int.{ℤ}
use sm_ext_rpc.Json.{is_object, is_null, member}
use sm_ext_rpc.Json.Laws.{set-is_object, nullptr-IsOpen, member-set, set-IsOpen, IsLawful, IsOpen}
use sm_ext_rpc.Json.Wire.{IsReadBack, packet}
use sm_ext_rpc.Processor.Reply.{State, complain, error_reply, handle_reply}
use sm_ext_rpc.Processor.Reply.RoundTrip.{handle_reply_object}
use sm_ext_rpc.Processor.Reply.Genuine.{process_object}
use sm_ext_rpc.Processor.Request.{resp_error, version}

module _ (E : Env) (L : IsLawful E.json) where
  open E use {json}
  open json use {Json, get_string, set, dump, find, nullptr, of_string, of_int}

  module _ (code : ℤ) (message : String) (id : Json) where
    abbrev details : Json
    details = set (set nullptr "code" (of_int code)) "message" (of_string message)

    code-IsOpen : IsOpen json (set nullptr "code" (of_int code))
    code-IsOpen = set-IsOpen json L nullptr "code" (of_int code) (nullptr-IsOpen json L)

    details_object : is_object json details ≡ true
    details_object = set-is_object json L _ "message" (of_string message) code-IsOpen

    versioned-IsOpen : IsOpen json (set nullptr "jsonrpc" (version E))
    versioned-IsOpen = set-IsOpen json L nullptr "jsonrpc" (version E) (nullptr-IsOpen json L)

    failed-IsOpen : IsOpen json (set (set nullptr "jsonrpc" (version E)) "error" details)
    failed-IsOpen = set-IsOpen json L _ "error" details versioned-IsOpen

    pub resp_error-is_object : is_object json (resp_error E code message id) ≡ true
    unfolding resp_error
    resp_error-is_object = set-is_object json L _ "id" id failed-IsOpen

    -- The error object is there, and is no null.
    pub resp_error-error : is_null json (member json (resp_error E code message id) "error") ≡ false
    unfolding resp_error is_null is_object
    resp_error-error =
        rw
          (
            member-set json L _ "id" id "error" failed-IsOpen,
            member-set json L _ "error" details "error" versioned-IsOpen,
          )
          (ground (arith, details_object))

    resp_error-plain :
        {reread : Json → Json} (W : IsReadBack json reread)
        → W.IsPlain id
        → W.IsPlain (resp_error E code message id)
    unfolding resp_error
    resp_error-plain W plain =
        let nothing = nullptr-IsOpen json L in
        let plain_details =
          W.plain-set _ "message" _ code-IsOpen
            (W.plain-set nullptr "code" _ nothing W.plain-nullptr (W.plain-of_int code))
            (W.plain-of_string message) in
        W.plain-set _ "id" id failed-IsOpen
          (W.plain-set _ "error" _ versioned-IsOpen
            (W.plain-set nullptr "jsonrpc" _ nothing W.plain-nullptr (W.plain-of_string _))
            plain_details)
          plain

    -- The error reply that respError builds, read back at the caller, leaves the state of the
    -- caller as it was and calls no function: the call that it answers stays recorded. Condition:
    -- the id has a text that parse reads back.
    pub resp_error-handle_reply :
        {reread : Json → Json}
        → (W : IsReadBack json reread) → W.IsPlain id
        → (s : State E)
        → handle_reply E s (packet (dump (resp_error E code message id))) ≡ complain E error_reply s
    resp_error-handle_reply W plain s =
        handle_reply_object E L W s (resp_error E code message id) resp_error-is_object
          (resp_error-plain W plain)
          (rw
            (
              process_object E L s _ (W.object-reread _ ∙ resp_error-is_object),
              W.member-reread (resp_error E code message id) "error" resp_error-is_object,
              W.null-reread,
              resp_error-error,
            )
            refl)
