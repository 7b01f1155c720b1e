-- ===== src/Processor/Reply/Safety.antt =====
-- `HandleReply` of src/CommandProcessor.cpp: the pointers among the outstanding calls, and the
-- exceptions that leave the handler.
use sm_ext_rpc.Base.{
  ◌||◌, Bytes, List, eq_iff, String, Result, ◌∷◌, ◌≡◌, refl, ok, true, false, arith, some, throw,
  fault, domain_error, invalid_argument, out_of_range,
}
use sm_ext_rpc.Processor.{CallId, Env}
use sm_ext_rpc.Base.Dict.{lookup, lookup-erase}
use sm_ext_rpc.Json.{is_array, is_null, is_object}
use sm_ext_rpc.Json.Laws.{IsLawful}
use sm_ext_rpc.Processor.Reply.{State, Step, catch, process_value, handle_reply, process_all}
use sm_ext_rpc.Processor.Reply.Genuine.{process_scalar}
use sm_ext_rpc.Processor.Reply.Delivered.{settled}
use sm_ext_rpc.Call.{RpcCall}

module _ (E : Env) where
  open E use {json}
  open json use {Json, get_string, set, dump, find, elements, parse}

  -- Every recorded call is on the heap, and carries the id under which it is recorded.
  pub record IsSound (s : State E) : Type 0 where
    pub alive :
        (id : String) (c : CallId)
        → lookup id s.processor.outstanding_calls ≡ some c
        → (call : RpcCall json) × (s.calls c ≡ some call) × (call.id ≡ id)

  -- The handler returns with sound pointers, or `std::domain_error` leaves it.
  abbrev pub IsSafe : Result (Step E) → Type 0
  IsSafe (ok step) = IsSound step.state
  IsSafe (throw e) = e ≡ domain_error
  IsSafe fault = ⊥

  pub settled-IsSound :
      (s : State E) (id : String) (c : CallId) (call : RpcCall json)
      → IsSound s
      → s.calls c ≡ some call
      → call.id ≡ id
      → IsSound (settled E s id c)
  settled-IsSound s id c call sound here named = record {
    alive = λ i d recorded.
        let old : lookup i s.processor.outstanding_calls ≡ some d =
          ground (arith, lookup-erase id i s.processor.outstanding_calls) in
        let (other, there, same) = sound.alive i d old in
        (other, ground (arith, lookup-erase id i s.processor.outstanding_calls, eq_iff id i), same);
  }

  module _ (L : IsLawful json) where
    pub catch-IsSafe :
        (s : State E) (r : Result (Step E)) → IsSound s → IsSafe r → IsSafe (catch E s r)
    unfolding catch
    catch-IsSafe s (ok step) sound h = h
    catch-IsSafe s (throw invalid_argument) sound h = sound
    catch-IsSafe s (throw domain_error) sound h = h
    catch-IsSafe s (throw out_of_range) sound h = h
    catch-IsSafe s fault sound h = h

    -- When the bytes parse as an array whose first element is neither an object nor a null,
    -- std::domain_error leaves HandleReply, in any state and with no signature checked.
    pub handle_reply_scalar :
        (s : State E) (body : Bytes) (j x : Json) (rest : List Json)
        → parse body ≡ some j
        → is_array json j ≡ true
        → elements j ≡ x ∷ rest
        → (is_null json x || is_object json x) ≡ false
        → handle_reply E s body ≡ throw domain_error
    unfolding handle_reply process_value process_all catch
    handle_reply_scalar s body j x rest e a l n = rw (e, a, l) (rw (process_scalar E L s x n) refl)
