-- ===== src/Processor/Reply/Running/Still.antt =====
-- `HandleReply` of src/CommandProcessor.cpp when the functions that it calls leave the processor and
-- the calls as they are until it has returned.
use sm_ext_rpc.Base.{
  inr, inl, String, Bool, true, false, not, ◌&&◌, Option, none, some, List, [], ◌∷◌, Bytes, Result,
  ok, throw, fault, ◌>>=◌, str_eq, if◌then◌else◌, ◌≡◌, refl, ap, ◌∙◌, Option-cases,
}
use sm_ext_rpc.Base.Dict.{lookup, erase}
use sm_ext_rpc.Json.{at, as_string, is_null, is_array, is_object, is_string}
use sm_ext_rpc.Call.{Heap, RpcCall, Delivery, deliver, call_reply, free_handle}
use sm_ext_rpc.Processor.{Env, CallId}
use sm_ext_rpc.Processor.Signature.{reply_sig}
use sm_ext_rpc.Processor.Reply.{
  Step, State, settle, find_call, accept, verify, process_command_reply, process_all, process_value,
  catch, handle_reply,
}
use sm_ext_rpc.Processor.Reply.Running.{
  execute, free_call, run_reply, run_settle, run_find, run_accept, run_verify, run_command_reply,
  run_all, run_value, run_packet,
}

bind_same {ℓ κ} :
    {A : Type ℓ} {B : Type κ} (r : Result A) (f g : A → Result B)
    → ((a : A) → f a ≡ g a)
    → (r >>= f) ≡ (r >>= g)
bind_same (ok a) f g h = h a
bind_same (throw e) f g h = refl
bind_same fault f g h = refl

if_same {ℓ} :
    {A : Type ℓ} (b : Bool) {x y x' y' : A}
    → x ≡ x'
    → y ≡ y'
    → (if b then x else y) ≡ (if b then x' else y')
if_same true h k = h
if_same false h k = k

module _ (E : Env) (run : Delivery E.json → State E → State E)
    (still : (d : Delivery E.json) (s : State E) → run d s ≡ s) where
  open E use {json}
  open json use {Json, elements, parse}

  execute_still : (ds : List (Delivery json)) (s : State E) → execute E run ds s ≡ s
  unfolding execute
  execute_still [] s = refl
  execute_still (d ∷ ds) s = execute_still ds (run d s) ∙ still d s

  -- The ends of the two functions.
  abbrev closed_after :
      CallId → State E → List (Delivery json) → Result (List (Delivery json) × State E)
  closed_after c s ds = free_call E run c (execute E run ds s) >>= λ s'. ok (ds, s')

  abbrev erased_after : String → List (Delivery json) × State E → Result (Step E)
  erased_after id (ds, s) = ok (record {
    state = record s {
      processor = record s.processor { outstanding_calls = erase id s.processor.outstanding_calls };
    };
    deliveries = ds;
    log = [];
  })

  abbrev closed :
      CallId → State E → List (Delivery json) → Result (List (Delivery json) × Heap json)
  closed c s ds = free_handle json c s.calls >>= λ calls. ok (ds, calls)

  abbrev erased : String → State E → List (Delivery json) × Heap json → Result (Step E)
  erased id s (ds, calls) = ok (record {
    state = record {
      processor = record s.processor { outstanding_calls = erase id s.processor.outstanding_calls };
      calls = calls;
    };
    deliveries = ds;
    log = [];
  })

  abbrev close_ran :
      List (Delivery json) → CallId → State E → Result (List (Delivery json) × State E)
  close_ran ds c s = free_call E run c s >>= λ s'. ok (ds, s')

  settled_same :
      (r : Result (List (Delivery json))) (s : State E) (id : String) (c : CallId)
      (call : RpcCall json)
      → s.calls c ≡ some call
      → (r >>= closed_after c s >>= erased_after id) ≡ (r >>= closed c s >>= erased id s)
  unfolding free_call free_handle
  settled_same (ok ds) s id c call here =
      ap (λ t. close_ran ds c t >>= erased_after id) (execute_still ds s)
      ∙ rw (free_call, free_handle, here) refl
  settled_same (throw e) s id c call here = refl
  settled_same fault s id c call here = refl

  settle_same :
      (s : State E) (id : String) (reply : Json) (c : CallId)
      → run_settle E run s id reply c ≡ settle E s id reply c
  unfolding run_settle run_reply settle call_reply
  settle_same s id reply c = elim (Option-cases (s.calls c)) [
    | inl e ↦ rw (run_settle, run_reply, settle, call_reply, e) refl
    | inr (call, e) ↦
        rw (run_settle, run_reply, settle, call_reply, e)
          (settled_same (deliver json call reply) s id c call e)
  ]

  find_same :
      (s : State E) (id : String) (reply : Json)
      → run_find E run s id reply ≡ find_call E s id reply
  unfolding run_find find_call
  find_same s id reply = elim (Option-cases (lookup id s.processor.outstanding_calls)) [
    | inl e ↦ rw (run_find, find_call, e) refl
    | inr (c, e) ↦ rw (run_find, find_call, e) (settle_same s id reply c)
  ]

  accept_same : (s : State E) (reply : Json) → run_accept E run s reply ≡ accept E s reply
  unfolding run_accept accept
  accept_same s reply = bind_same (at json reply "id") _ _ (λ id.
      if_same (not (is_null json id) && is_string json id)
        (bind_same (as_string json id) _ _ (λ text. find_same s text reply)) refl)

  verify_same :
      (s : State E) (reply sig : Json) → run_verify E run s reply sig ≡ verify E s reply sig
  unfolding run_verify verify
  verify_same s reply sig = bind_same (as_string json sig) _ _ (λ text.
      bind_same (reply_sig E s.processor.api_key reply) _ _
        (λ (expected, reply'). if_same (not (str_eq text expected)) refl (accept_same s reply')))

  command_reply_same :
      (s : State E) (reply : Json)
      → run_command_reply E run s reply ≡ process_command_reply E s reply
  unfolding run_command_reply process_command_reply
  command_reply_same s reply = bind_same (at json reply "error") _ _ (λ error.
      if_same (not (is_null json error)) refl (
        bind_same (at json reply "sig") _ _
          (λ sig. if_same (not (is_string json sig)) refl (verify_same s reply sig))))

  all_same : (replies : List Json) (s : State E) → run_all E run s replies ≡ process_all E s replies
  unfolding run_all process_all
  all_same [] s = refl
  all_same (reply ∷ replies) s = rw (command_reply_same s reply) (
      bind_same (process_command_reply E s reply) _ _
        (λ step. rw (all_same replies step.state) refl))

  value_same : (s : State E) (o : Option Json) → run_value E run s o ≡ process_value E s o
  unfolding run_value process_value
  value_same s none = refl
  value_same s (some j) =
      if_same (is_array json j) (all_same (elements j) s)
        (if_same (is_object json j) (command_reply_same s j) refl)

  pub run_packet-handle_reply :
      (s : State E) (body : Bytes) → run_packet E run s body ≡ handle_reply E s body
  unfolding run_packet handle_reply
  run_packet-handle_reply s body = ap (catch E s) (value_same s (parse body))
