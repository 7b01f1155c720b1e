-- ===== src/Processor/Reply/Running/Safe.antt =====
-- `HandleReply` of src/CommandProcessor.cpp: the calls that it uses while plugins' functions run.
use sm_ext_rpc.Base.{
  ◌>>=◌, ◌++◌, Bytes, List, Option-cases, String, Bool-cases, Result, [], ◌∷◌, ◌≡◌, refl, ok, arith,
  inl, inr, some, throw, fault, ◌∙◌,
}
use sm_ext_rpc.Base.Dict.{lookup}
use sm_ext_rpc.Json.{is_null, is_object, member}
use sm_ext_rpc.Json.Laws.{IsLawful}
use sm_ext_rpc.Call.{RpcCall, Delivery, deliver, const_result, free_handle}
use sm_ext_rpc.Processor.{Env, CallId}
use sm_ext_rpc.Processor.Reply.{State, Step, catch}
use sm_ext_rpc.Processor.Reply.Genuine.{covered, covered_result}
use sm_ext_rpc.Processor.Reply.Safety.{catch-IsSafe, IsSound, IsSafe, settled-IsSound}
use sm_ext_rpc.Processor.Reply.Running.{
  execute, free_call, run_reply, run_settle, run_find, run_command_reply, run_all, run_value,
  run_packet,
}
use sm_ext_rpc.Processor.Reply.Running.Objects.{
  reply_object, accept_object, reply_scalar, reply_null,
}

module _ (E : Env) (run : Delivery E.json → State E → State E) where
  open E use {json}
  open json use {Json, get_string, find, elements, parse}

  -- The functions keep the records sound, and while they run the call that is answered stays on
  -- the heap under its id: they neither close its handle nor send it again.
  pub record AreTame : Type 0 where
    pub sound : (d : Delivery json) (s : State E) → IsSound E s → IsSound E (run d s)
    pub kept :
        (d : Delivery json) (s : State E) (id : String) (c : CallId) (call : RpcCall json)
        → IsSound E s
        → lookup id s.processor.outstanding_calls ≡ some c
        → s.calls c ≡ some call
        → (call' : RpcCall json) × ((run d s).calls c ≡ some call') × (call'.id ≡ call.id)

  settle-IsSafe :
      AreTame
      → (s : State E) (id : String) (res v : Json) (c : CallId) (call : RpcCall json) → IsSound E s
      → lookup id s.processor.outstanding_calls ≡ some c
      → s.calls c ≡ some call
      → call.id ≡ id
      → find res "result" ≡ some v
      → IsSafe E (run_settle E run s id res c)
  unfolding run_settle run_reply deliver const_result execute free_call free_handle
  settle-IsSafe tame s id res v c call sound recorded here named result =
      elim (Option-cases call.callback) [
        | inl e ↦
            rw (run_settle, run_reply, here, deliver, e, execute, free_call, free_handle, here)
              (settled-IsSound E s id c call sound here named)
        | inr (f, e) ↦
            let d : Delivery json = record { callback = f; value = v; owner = call.owner } in
            let (call', here', same) = tame.kept d s id c call sound recorded here in
            rw
              (
                run_settle, run_reply, here, deliver, e, const_result, result, execute, free_call,
                free_handle, here',
              )
              (settled-IsSound E (run d s) id c call' (tame.sound d s sound) here' (same ∙ named))
      ]

  find-IsSafe :
      AreTame
      → (s : State E) (id : String) (res v : Json) → IsSound E s
      → find res "result" ≡ some v
      → IsSafe E (run_find E run s id res)
  unfolding run_find
  find-IsSafe tame s id res v sound result =
      elim (Option-cases (lookup id s.processor.outstanding_calls)) [
        | inl e ↦ rw (e, run_find) sound
        | inr (c, e) ↦
            let (call, here, named) = sound.alive id c e in
            rw (e, run_find) (settle-IsSafe tame s id res v c call sound e here named result)
      ]

  reply-IsSafe :
      AreTame
      → IsLawful json
      → (s : State E) (j : Json) → IsSound E s
      → IsSafe E (run_command_reply E run s j)
  reply-IsSafe tame L s j sound = elim (Bool-cases (is_object json j)) [
    | inl o ↦ rw (reply_object E run L s j o) (
        ground (
          arith,
          accept_object E run L s j o,
          find-IsSafe tame s (get_string (member json j "id")) (covered E j)
              (member json j "result") sound (covered_result E L s j o),
        ))
    | inr n ↦ elim (Bool-cases (is_null json j)) [
      | inl z ↦ rw (reply_null E run L s j z) sound
      | inr m ↦ rw (reply_scalar E run L s j (ground arith)) refl
    ]
  ]

  joined : Step E → Step E → Step E
  joined step rest = record {
    state = rest.state;
    deliveries = step.deliveries ++ rest.deliveries;
    log = step.log ++ rest.log;
  }

  then_all :
      (step : Step E) (r : Result (Step E))
      → IsSafe E r
      → IsSafe E (r >>= λ rest. ok (joined step rest))
  unfolding joined
  then_all step (ok rest) h = h
  then_all step (throw e) h = h
  then_all step fault h = h

  all_after :
      (r : Result (Step E)) (js : List Json)
      → IsSafe E r
      → ((s' : State E) → IsSound E s' → IsSafe E (run_all E run s' js))
      → IsSafe E (r >>= λ step. run_all E run step.state js >>= λ rest. ok (joined step rest))
  all_after (ok step) js h k = then_all step (run_all E run step.state js) (k step.state h)
  all_after (throw e) js h k = h
  all_after fault js h k = h

  module _ (L : IsLawful json) (tame : AreTame) where
    all-IsSafe : (js : List Json) (s : State E) → IsSound E s → IsSafe E (run_all E run s js)
    unfolding run_all joined
    all-IsSafe [] s sound = sound
    all-IsSafe (j ∷ js) s sound =
        all_after (run_command_reply E run s j) js (reply-IsSafe tame L s j sound)
          (λ s'. all-IsSafe js s')

    value-IsSafe : (s : State E) (j : Json) → IsSound E s → IsSafe E (run_value E run s (some j))
    unfolding run_value
    value-IsSafe s j sound =
        ground (arith, all-IsSafe (elements j) s sound, reply-IsSafe tame L s j sound)

    -- If every recorded call is on the heap and carries the id under which it is recorded, then
    -- HandleReply on any bytes uses no dangling pointer, whatever the plugins' functions that it
    -- runs do before their calls are deleted, and either returns in a state of which the same
    -- holds or is left by std::domain_error. Condition: a function leaves the records as they are
    -- said to be, and leaves the call that it answers on the heap under its id: it does not close
    -- the handle of that call, notify with it or send it again.
    pub run_packet-IsSafe :
        (s : State E) (body : Bytes) → IsSound E s → IsSafe E (run_packet E run s body)
    unfolding run_packet run_value catch
    run_packet-IsSafe s body sound = elim (Option-cases (parse body)) [
      | inl e ↦ rw (e, run_value, catch) sound
      | inr (j, e) ↦ rw e (catch-IsSafe E L s _ sound (value-IsSafe s j sound))
    ]
