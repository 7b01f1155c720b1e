-- ===== src/Call/Sent.antt =====
-- src/RPCCall.cpp: the pointers that `Send` records.
use sm_ext_rpc.Base.{
  Option-cases, Bool-cases, ◌⊎◌, inl, inr, subst, sym, ap, throw, String, some, Result, ok, fault,
  ◌≡◌, ◌≢◌, refl, arith, eq_iff, ◌>>=◌, str_eq,
}
use sm_ext_rpc.Base.Int.{ℤ}
use sm_ext_rpc.Base.Dict.{lookup, insert, lookup-insert}
use sm_ext_rpc.Processor.{Env, CallId, ServerId, Processor, get_server, pointer}
use sm_ext_rpc.Processor.Send.{Outgoing, send_request, record_call, sent}
use sm_ext_rpc.Processor.Reply.{State}
use sm_ext_rpc.Processor.Reply.Safety.{IsSound}
use sm_ext_rpc.Call.{RpcCall, update}
use sm_ext_rpc.Call.Requests.{Sending, send}

module _ (E : Env) where
  open E use {json}

  -- No outstanding call is recorded at the address.
  abbrev pub IsUnrecorded : State E → CallId → Type 0
  IsUnrecorded s c =
      (id : String) (d : CallId) → lookup id s.processor.outstanding_calls ≡ some d → d ≢ c

  -- The state after the call was given its identifier, and perhaps recorded under it.
  abbrev Recorded : State E → RpcCall json → String → CallId → State E → Type 0
  Recorded s old uuid c s' =
      (s'.calls ≡ update json s.calls c (some (record old { id = uuid })))
      × ((s'.processor.outstanding_calls ≡ s.processor.outstanding_calls)
          ⊎ (s'.processor.outstanding_calls ≡ insert uuid c s.processor.outstanding_calls))

  Recorded-IsSound :
      (s s' : State E) (old : RpcCall json) (uuid : String) (c : CallId)
      → IsSound E s
      → IsUnrecorded s c
      → Recorded s old uuid c s'
      → IsSound E s'
  Recorded-IsSound s s' old uuid c sound fresh (calls, inl same) = record {
    alive = λ id d e.
        let before : lookup id s.processor.outstanding_calls ≡ some d = cc in
        let (call, here, named) = sound.alive id d before in
        (call, rw calls (ground (arith, here, fresh id d before)), named);
  }
  Recorded-IsSound s s' old uuid c sound fresh (calls, inr more) = record {
    alive = λ id d e.
        let all = s.processor.outstanding_calls in
        let e' : lookup id (insert uuid c all) ≡ some d =
          subst (λ m. lookup id m ≡ some d) more e in
        elim (Bool-cases (str_eq uuid id)) [
          | inl same ↦
              let found : c ≡ d = ground (arith, lookup-insert uuid id c all) in
              (
                record old { id = uuid },
                subst (λ g. g d ≡ some (record old { id = uuid })) (sym calls) (ground arith),
                (eq_iff uuid id).0 same,
              )
          | inr differs ↦
              let before : lookup id all ≡ some d = ground (arith, lookup-insert uuid id c all) in
              let (call, here, named) = sound.alive id d before in
              (
                call,
                subst (λ g. g d ≡ some call) (sym calls) (ground (arith, here, fresh id d before)),
                named,
              )
        ];
  }

  -- If the result is there, the state is one of these.
  abbrev Good : State E → String → CallId → Result (Sending E) → Type 0
  Good s uuid c (ok out) =
      (old : RpcCall json) × (s.calls c ≡ some old) × Recorded s old uuid c out.state
  Good s uuid c _ = Unit

  abbrev outgoing : Processor → ServerId → String → CallId → json.Json → Outgoing
  outgoing p target uuid c body = record {
    result = sent;
    message = some (target, json.dump body);
    processor = record_call (some (record { call = c; id = uuid })) p;
  }

  abbrev sending_of : State E → RpcCall json → String → CallId → Outgoing → Sending E
  sending_of s old uuid c out = record {
    result = out.result;
    message = out.message;
    state = record {
      processor = out.processor;
      calls = update json s.calls c (some (record old { id = uuid }));
    };
  }

  Good-after :
      (s : State E) (uuid : String) (c : CallId) (old : RpcCall json)
      → s.calls c ≡ some old
      → (p : Processor) (target : ServerId) (r : Result (json.Json))
      → p.outstanding_calls ≡ s.processor.outstanding_calls
      → Good s uuid c (
          (r >>= λ body. ok (outgoing p target uuid c body)) >>= λ out.
          ok (sending_of s old uuid c out))
  unfolding record_call
  Good-after s uuid c old here p target (ok body) same =
      (old, here, (refl, inr (ap (insert uuid c) same)))
  Good-after s uuid c old here p target (throw x) same = tt
  Good-after s uuid c old here p target fault same = tt

  send-Good :
      (s : State E) (now : ℤ) (uuid server : String) (c : CallId)
      → Good s uuid c (send E s now uuid server c)
  unfolding send send_request get_server record_call
  send-Good s now uuid server c = elim (Option-cases (s.calls c)) [
    | inl e ↦ rw (send, e) tt
    | inr (old, e) ↦ elim (Option-cases (pointer (lookup server s.processor.servers))) [
      | inl missing ↦ rw (send, e, send_request, get_server, missing) (old, e, (refl, inl refl))
      | inr (target, there) ↦
          rw (send, e, send_request, get_server, there)
            (Good-after s uuid c old e (get_server server s.processor).1 target _ refl)
    ]
  ]

  -- If every recorded call is on the heap and carries the id under which it is recorded, and a
  -- call is recorded under no id, then the same holds of the records after Send of that call,
  -- whatever the target is and whether or not the new identifier is in use.
  pub send-IsSound :
      (s : State E) (now : ℤ) (uuid server : String) (c : CallId) (out : Sending E)
      → IsSound E s
      → IsUnrecorded s c
      → send E s now uuid server c ≡ ok out
      → IsSound E out.state
  send-IsSound s now uuid server c out sound fresh sending =
      let (old, here, good) = subst (Good s uuid c) sending (send-Good s now uuid server c) in
      Recorded-IsSound s out.state old uuid c sound fresh good
