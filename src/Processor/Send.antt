-- ===== src/Processor/Send.antt =====
-- `SendRequest` and `SendBroadcast` of src/CommandProcessor.cpp. What is handed to `Server::Send`
-- is returned; `now` is what `time(nullptr)` returns.
pub mod Sealed
pub mod Accepted
pub mod Broadcast
use sm_ext_rpc.Base.{
  String, ◌||◌, Option, none, some, List, [], ◌∷◌, Bytes, Result, ok, throw, fault, domain_error,
  ◌>>=◌, if◌then◌else◌,
}
use sm_ext_rpc.Base.Int.{ℤ}
use sm_ext_rpc.Base.Dict.{Dict, insert}
use sm_ext_rpc.Json.{is_null, is_object}
use sm_ext_rpc.Processor.{Env, Processor, ServerId, CallId, get_server}
use sm_ext_rpc.Processor.Signature.{req_sig}

-- `RPCReqResult`
pub data ReqResult : Type 0 where
  unknown_server sent : ReqResult

pub record Outgoing : Type 0 where
  pub result : ReqResult
  pub message : Option (ServerId × Bytes)
  pub processor : Processor

-- The pointer `call`, with the id that `GetId` returns.
pub record Caller : Type 0 where
  pub call : CallId
  pub id : String

-- The record of an outstanding call, unless `call` is a null pointer.
unfoldable pub record_call : Option Caller → Processor → Processor
record_call none p = p
record_call (some c) p = record p { outstanding_calls = insert c.id c.call p.outstanding_calls }

module _ (E : Env) where
  open E use {json}
  open json use {Json, of_string, of_int, set, dump}

  -- `j[k] = v`
  unfoldable pub assign : Json → String → Json → Result Json
  assign j k v = if is_null json j || is_object json j then ok (set j k v) else throw domain_error

  -- The timestamp and the signature are added.
  unfoldable pub seal : Processor → ℤ → Json → Result Json
  unfolding assign
  seal p now req = do
    stamped ← assign req "timestamp" (of_int now)
    (sig, touched) ← req_sig E p.api_key stamped
    assign touched "sig" (of_string sig)

  -- `SendRequest`; an unknown target is inserted with a null pointer.
  unfoldable pub send_request : Processor → ℤ → String → Json → Option Caller → Result Outgoing
  unfolding record_call get_server
  send_request p now target req call =
      let (server, p') = get_server target p in
      elim server [
        | none ↦ ok (record { result = unknown_server; message = none; processor = p' })
        | some s ↦ seal p' now req >>= λ body. ok (record {
          result = sent;
          message = some (s, dump body);
          processor = record_call call p';
        })
      ]

  -- The loop of `SendBroadcast`: each pointer of the map is dereferenced.
  unfoldable pub send_all : Dict (Option ServerId) → Bytes → Result (List (ServerId × Bytes))
  send_all [] body = ok []
  send_all ((name, none) ∷ servers) body = fault
  send_all ((name, some s) ∷ servers) body = do rest ← send_all servers body; ok ((s, body) ∷ rest)

  unfoldable pub send_broadcast : Processor → ℤ → Json → Result (List (ServerId × Bytes))
  send_broadcast p now req = do body ← seal p now req; send_all p.servers (dump body)
