-- ===== src/Processor/Reply/Completed.antt =====
-- The reply that is sent when a plugin is done, in `HandleRequest` of src/CommandProcessor.cpp.
use sm_ext_rpc.Base.{str_eq, if◌then◌else◌, String, [], ◌∷◌, ◌≡◌, refl, ok, true, arith, some, none}
use sm_ext_rpc.Processor.{Env, Processor}
use sm_ext_rpc.Json.Laws.{
  member-touch_all, member-set, set-is_object, touch_all-is_object, is_object-IsOpen,
  nullptr-IsOpen, at_object, set-IsOpen, IsLawful, IsOpen,
}
use sm_ext_rpc.Processor.Signature.{sign, reply_sig}
use sm_ext_rpc.Processor.Request.{Pending, complete, version}
use sm_ext_rpc.Processor.Request.Objects.{reply_message}
use sm_ext_rpc.Json.{touch_all, member, is_object}

module _ (E : Env) where
  open E use {json}
  open json use {Json, nullptr, of_string, set, dump}

  -- The result under its id, before it is signed.
  abbrev pub unsigned : Json → Json → Json
  unsigned id retval = set (set (set nullptr "jsonrpc" (version E)) "id" id) "result" retval

  abbrev pub completed : String → Json → Json → Json
  completed key id retval =
      set (touch_all json ("jsonrpc" ∷ "id" ∷ "result" ∷ []) (unsigned id retval)) "sig"
        (of_string (sign E (reply_message E (unsigned id retval)) key))

  module _ (L : IsLawful json) (key : String) (id retval : Json) where
    first-IsOpen : IsOpen json (set nullptr "jsonrpc" (version E))
    first-IsOpen = set-IsOpen json L nullptr "jsonrpc" (version E) (nullptr-IsOpen json L)

    second-IsOpen : IsOpen json (set (set nullptr "jsonrpc" (version E)) "id" id)
    second-IsOpen = set-IsOpen json L _ "id" id first-IsOpen

    unsigned_object : is_object json (unsigned id retval) ≡ true
    unsigned_object = set-is_object json L _ "result" retval second-IsOpen

    touched_object :
        is_object json (touch_all json ("jsonrpc" ∷ "id" ∷ "result" ∷ []) (unsigned id retval))
        ≡ true
    touched_object = touch_all-is_object json L _ _ unsigned_object

    pub completed-is_object : is_object json (completed key id retval) ≡ true
    completed-is_object = set-is_object json L _ "sig" _ (is_object-IsOpen json L _ touched_object)

    member-unsigned :
        (k : String)
        → member json (unsigned id retval) k ≡ (
            if str_eq "result" k
            then retval
            else if str_eq "id" k
            then id
            else if str_eq "jsonrpc" k
            then version E
            else nullptr)
    unfolding member
    member-unsigned k = ground (
      arith,
      L.find-set _ "result" retval k second-IsOpen,
      L.find-set _ "id" id k first-IsOpen,
      L.find-set nullptr "jsonrpc" (version E) k (nullptr-IsOpen json L),
      L.find-null nullptr k L.kind-nullptr,
    )

    -- The reply holds the version, the id, the result and the signature, and nothing else: every
    -- other member, an error among them, reads as null.
    pub member-completed :
        (k : String)
        → member json (completed key id retval) k ≡ (
            if str_eq "sig" k
            then of_string (sign E (reply_message E (unsigned id retval)) key)
            else if str_eq "result" k
            then retval
            else if str_eq "id" k
            then id
            else if str_eq "jsonrpc" k
            then version E
            else nullptr)
    member-completed k =
        rw
          (
            member-set json L _ "sig"
                (of_string (sign E (reply_message E (unsigned id retval)) key)) k
                (is_object-IsOpen json L _ touched_object),
            member-touch_all json L ("jsonrpc" ∷ "id" ∷ "result" ∷ []) _ k unsigned_object,
            member-unsigned k,
          )
          refl

    pub reply_message-completed :
        reply_message E (completed key id retval) ≡ reply_message E (unsigned id retval)
    reply_message-completed = simp (member-completed, member-unsigned)

  module _ (L : IsLawful json) where
    pub complete_lem :
        (p : Processor) (pd : Pending E) (retval : Json)
        → complete E p pd retval
          ≡ ok (if pd.notification then none else some (completed p.api_key pd.id retval))
    unfolding complete reply_sig
    complete_lem p pd retval = ground (
      arith,
      at_object json L (unsigned pd.id retval) "jsonrpc"
          (is_object-IsOpen json L _ (unsigned_object L p.api_key pd.id retval)),
      at_object json L (unsigned pd.id retval) "id"
          (is_object-IsOpen json L _ (unsigned_object L p.api_key pd.id retval)),
      at_object json L (unsigned pd.id retval) "result"
          (is_object-IsOpen json L _ (unsigned_object L p.api_key pd.id retval)),
    )
