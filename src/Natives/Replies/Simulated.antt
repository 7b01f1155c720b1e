-- ===== src/Natives/Replies/Simulated.antt =====
-- `HandleReply` of src/CommandProcessor.cpp: the machine of the natives does what the model of the
-- processor says.
use sm_ext_rpc.Base.{
  Exception, Bytes, subst, sym, ◌&&◌, str_eq, not, inr, inl, ◌==◌, Option, String, Bool-cases, none,
  some, List, [], ◌∷◌, map, Result, ok, throw, fault, ◌>>=◌, ◌≡◌, refl, ap,
}
use sm_ext_rpc.Call.{deliver, call_reply, free_handle, update, Heap, RpcCall, Delivery}
use sm_ext_rpc.Processor.{CallId, Env}
use sm_ext_rpc.Processor.Reply.{
  process_all, handle_reply, catch, process_value, accept, verify, process_command_reply, find_call,
  settle, Step,
}
use sm_ext_rpc.Natives.{Cell, Address, SourceMod, Machine}
use sm_ext_rpc.Natives.Incoming.{receive_reply, close_call, hand_over, with_value}
use sm_ext_rpc.Natives.Replies.{
  catch_parse, receive_packet, receive_value, receive_all, receive_command_reply, accept_reply,
  find_outstanding, verify_reply, forget, settle_call, Received,
}
use sm_ext_rpc.Natives.Calls.{closed}
use sm_ext_rpc.Base.Dict.{lookup, erase}
use sm_ext_rpc.Json.{is_object, is_array, is_string, is_null, at, as_string}
use sm_ext_rpc.Processor.Signature.{reply_sig}
use sm_ext_rpc.Natives.Replies.Related.{
  AreHandled, Simulates, Simulates-bind, Simulates-if, joined_lem, next_lem,
}

module _ (E : Env) (S : SourceMod (E.json)) where
  open E use {json}
  open json use {Json, elements, parse}

  hand_over-core :
      (ds : List (Delivery json)) (m : Machine E S) → (hand_over E S ds m).machine.core ≡ m.core
  unfolding hand_over
  hand_over-core [] m = refl
  hand_over-core (d ∷ rest) m = hand_over-core rest (with_value E S d.owner d.value m)

  hand_over-called :
      (ds : List (Delivery json)) (m : Machine E S)
      → map (λ call. call.0) (hand_over E S ds m).called ≡ map (λ d. d.callback) ds
  unfolding hand_over
  hand_over-called [] m = refl
  hand_over-called (d ∷ rest) m =
      ap (λ fs. d.callback ∷ fs) (hand_over-called rest (with_value E S d.owner d.value m))

  gone-AreHandled :
      (calls : Heap json) (c : Address)
      → AreHandled E S calls
      → AreHandled E S (update json calls c none)
  gone-AreHandled calls c handled d call e = elim (Bool-cases (c == d)) [
    | inl same ↦ let none_there : none ≡ some call = rw same at e in cc
    | inr other ↦ handled d call (rw other at e)
  ]

  delivered_lem :
      (r : Result (List (Delivery json))) (m : Machine E S) (id : String) (c : CallId)
      (call : RpcCall json) (handle : Cell)
      → m.core.calls c ≡ some call
      → call.handle ≡ some handle
      → AreHandled E S m.core.calls
      → Simulates E S
          (r
            >>= (λ ds. free_handle json c m.core.calls >>= λ calls. ok (ds, calls))
            >>= λ (ds, calls). ok (record {
              state = record {
                processor = record m.core.processor {
                  outstanding_calls = erase id m.core.processor.outstanding_calls;
                };
                calls = calls;
              };
              deliveries = ds;
              log = [];
            }))
          (r >>= (λ ds. close_call E S c call (hand_over E S ds m)) >>= λ out.
            ok (record { called = out.called; log = []; machine = forget E S id out.machine }))
  unfolding free_handle close_call closed
  delivered_lem (ok ds) m id c call handle there has handled =
      rw (free_handle, there, close_call, closed, has)
        (
          ap
              (λ core. record {
                processor = record core.processor {
                  outstanding_calls = erase id core.processor.outstanding_calls;
                };
                calls = update json core.calls c none;
              })
              (hand_over-core ds m),
          hand_over-called ds m,
          refl,
          gone-AreHandled m.core.calls c handled,
        )
  delivered_lem (throw e) m id c call handle there has handled = refl
  delivered_lem fault m id c call handle there has handled = tt

  settle_lem :
      (m : Machine E S) (id : String) (reply : Json) (c : CallId) (o : Option (RpcCall json))
      → m.core.calls c ≡ o
      → AreHandled E S m.core.calls
      → Simulates E S (settle E m.core id reply c) (settle_call E S m id reply c)
  unfolding settle settle_call call_reply receive_reply
  settle_lem m id reply c none there handled =
      rw (settle, call_reply, settle_call, receive_reply, there) tt
  settle_lem m id reply c (some call) there handled =
      let (handle, has) = handled c call there in
      rw (settle, call_reply, settle_call, receive_reply, there)
        (delivered_lem (deliver json call reply) m id c call handle there has handled)

  find_call_lem :
      (m : Machine E S) (id : String) (reply : Json) (o : Option CallId)
      → lookup id m.core.processor.outstanding_calls ≡ o
      → AreHandled E S m.core.calls
      → Simulates E S (find_call E m.core id reply) (find_outstanding E S m id reply)
  unfolding find_call find_outstanding
  find_call_lem m id reply none known handled =
      rw (find_call, find_outstanding, known) (refl, refl, refl, handled)
  find_call_lem m id reply (some c) known handled =
      rw (find_call, find_outstanding, known) (settle_lem m id reply c _ refl handled)

  accept_lem :
      (m : Machine E S) (reply : Json)
      → AreHandled E S m.core.calls
      → Simulates E S (accept E m.core reply) (accept_reply E S m reply)
  unfolding accept accept_reply
  accept_lem m reply handled = Simulates-bind E S (at json reply "id") _ _ (λ id.
      Simulates-if E S (not (is_null json id) && is_string json id) _ _ _ _
        (Simulates-bind E S (as_string json id) _ _
          (λ text. find_call_lem m text reply _ refl handled))
        (refl, refl, refl, handled))

  verify_lem :
      (m : Machine E S) (reply sig : Json)
      → AreHandled E S m.core.calls
      → Simulates E S (verify E m.core reply sig) (verify_reply E S m reply sig)
  unfolding verify verify_reply
  verify_lem m reply sig handled = Simulates-bind E S (as_string json sig) _ _ (λ text.
      Simulates-bind E S (reply_sig E m.core.processor.api_key reply) _ _ (λ (expected, reply').
        Simulates-if E S (not (str_eq text expected)) _ _ _ _ (refl, refl, refl, handled)
          (accept_lem m reply' handled)))

  process_command_reply_lem :
      (m : Machine E S) (reply : Json)
      → AreHandled E S m.core.calls
      → Simulates E S (process_command_reply E m.core reply) (receive_command_reply E S m reply)
  unfolding process_command_reply receive_command_reply
  process_command_reply_lem m reply handled =
      Simulates-bind E S (at json reply "error") _ _ (λ error.
        Simulates-if E S (not (is_null json error)) _ _ _ _ (refl, refl, refl, handled)
          (Simulates-bind E S (at json reply "sig") _ _ (λ sig.
            Simulates-if E S (not (is_string json sig)) _ _ _ _ (refl, refl, refl, handled)
              (verify_lem m reply sig handled))))

  process_all_lem :
      (m : Machine E S) (replies : List Json)
      → AreHandled E S m.core.calls
      → Simulates E S (process_all E m.core replies) (receive_all E S m replies)
  unfolding process_all receive_all
  process_all_lem m [] handled = (refl, refl, refl, handled)
  process_all_lem m (reply ∷ replies) handled =
      next_lem E S _ _ _ _ (process_command_reply_lem m reply handled)
        (λ step out (core, called, log, handled'). joined_lem E S step out _ _ called log (
          subst (λ s. Simulates E S (process_all E s replies) (receive_all E S out.machine replies))
            core
            (process_all_lem out.machine replies
              (subst (λ s. AreHandled E S s.calls) (sym core) handled'))))

  process_value_lem :
      (m : Machine E S) (o : Option Json)
      → AreHandled E S m.core.calls
      → Simulates E S (process_value E m.core o) (receive_value E S m o)
  unfolding process_value receive_value
  process_value_lem m none handled = refl
  process_value_lem m (some j) handled =
      Simulates-if E S (is_array json j) _ _ _ _ (process_all_lem m (elements j) handled) (
        Simulates-if E S (is_object json j) _ _ _ _ (process_command_reply_lem m j handled)
          (refl, refl, refl, handled))

  catch_throw :
      (m : Machine E S) (e : Exception)
      → AreHandled E S m.core.calls
      → Simulates E S (catch E m.core (throw e)) (catch_parse E S m (throw e))
  unfolding catch catch_parse
  catch_throw m Exception.invalid_argument handled = (refl, refl, refl, handled)
  catch_throw m Exception.domain_error handled = refl
  catch_throw m Exception.out_of_range handled = refl

  catch_lem :
      (m : Machine E S) (r : Result (Step E)) (r' : Result (Received E S))
      → AreHandled E S m.core.calls
      → Simulates E S r r'
      → Simulates E S (catch E m.core r) (catch_parse E S m r')
  unfolding catch catch_parse
  catch_lem m (ok step) (ok out) handled same = same
  catch_lem m (throw e) (throw e') handled same =
      subst (λ e'. Simulates E S (catch E m.core (throw e)) (catch_parse E S m (throw e'))) same
        (catch_throw m e handled)
  catch_lem m fault fault handled same = tt
  catch_lem m (ok step) (throw e) handled same = absurd same
  catch_lem m (ok step) fault handled same = absurd same
  catch_lem m (throw e) (ok out) handled same = absurd same
  catch_lem m (throw e) fault handled same = absurd same
  catch_lem m fault (ok out) handled same = absurd same
  catch_lem m fault (throw e) handled same = absurd same

  -- HandleReply on the machine of the natives does, for any bytes, what the model of the processor
  -- says: both return, with the same processor and the same heap of calls, the same functions
  -- called in the same order, and the same log, and every call that is left knows its handle; or
  -- both are left by the same exception; or both meet undefined behaviour. Condition: every call
  -- on the heap knows its handle.
  pub receive_packet-handle_reply :
      (m : Machine E S) (body : Bytes)
      → AreHandled E S m.core.calls
      → Simulates E S (handle_reply E m.core body) (receive_packet E S m body)
  unfolding handle_reply receive_packet
  receive_packet-handle_reply m body handled =
      catch_lem m _ _ handled (process_value_lem m (parse body) handled)
