-- ===== src/Natives/Replies/Related.antt =====
-- When a result of the model of src/CommandProcessor.cpp and one on the machine of the natives say the
-- same, and the control flow that keeps it so.
use mathlib.Core.List.{map-append}
use sm_ext_rpc.Base.{
  sym, ◌∙◌, ◌++◌, Bool, true, false, some, List, map, Result, ok, throw, fault, ◌>>=◌,
  if◌then◌else◌, ◌≡◌, refl,
}
use sm_ext_rpc.Call.{Heap, RpcCall, Delivery}
use sm_ext_rpc.Processor.{Env}
use sm_ext_rpc.Processor.Reply.{Step}
use sm_ext_rpc.Natives.{Cell, Address, SourceMod}
use sm_ext_rpc.Natives.Replies.{Received}
use sm_ext_rpc.Method.{FunctionId}

module _ (E : Env) (S : SourceMod (E.json)) where
  open E use {json}
  open json use {Json, elements, parse}

  -- Every call on the heap knows its handle.
  abbrev pub AreHandled : Heap json → Type 0
  AreHandled calls =
      (c : Address) (call : RpcCall json)
      → calls c ≡ some call
      → (handle : Cell) × (call.handle ≡ some handle)

  -- Both return, with the same state, the same functions called and the same log; or both end the
  -- same way.
  abbrev pub Simulates : Result (Step E) → Result (Received E S) → Type 0
  Simulates (ok step) (ok out) =
      (out.machine.core ≡ step.state)
      × (map (λ call. call.0) out.called ≡ map (λ d. d.callback) step.deliveries)
      × (out.log ≡ step.log)
      × AreHandled step.state.calls
  Simulates (throw e) (throw e') = e ≡ e'
  Simulates fault fault = Unit
  Simulates _ _ = ⊥

  pub Simulates-bind {ℓ} :
      {A : Type ℓ} (r : Result A) (f : A → Result (Step E)) (g : A → Result (Received E S))
      → ((a : A) → Simulates (f a) (g a))
      → Simulates (r >>= f) (r >>= g)
  Simulates-bind (ok a) f g h = h a
  Simulates-bind (throw e) f g h = refl
  Simulates-bind fault f g h = tt

  pub Simulates-if :
      (b : Bool) (r s : Result (Step E)) (r' s' : Result (Received E S))
      → Simulates r r'
      → Simulates s s'
      → Simulates (if b then r else s) (if b then r' else s')
  Simulates-if true r s r' s' h k = h
  Simulates-if false r s r' s' h k = k

  joined_called :
      (ds es : List (Delivery json)) (fs gs : List (FunctionId × Cell))
      → map (λ call. call.0) fs ≡ map (λ d. d.callback) ds
      → map (λ call. call.0) gs ≡ map (λ d. d.callback) es
      → map (λ call. call.0) (fs ++ gs) ≡ map (λ d. d.callback) (ds ++ es)
  joined_called ds es fs gs h k =
      map-append (λ call. call.0) fs gs ∙ rw (h, k) refl ∙ sym (map-append (λ d. d.callback) ds es)

  -- The rest of an array, after a first reply.
  pub joined_lem :
      (first : Step E) (first' : Received E S) (r : Result (Step E)) (r' : Result (Received E S))
      → map (λ call. call.0) first'.called ≡ map (λ d. d.callback) first.deliveries
      → first'.log ≡ first.log
      → Simulates r r'
      → Simulates
          (r >>= λ rest. ok (record {
            state = rest.state;
            deliveries = first.deliveries ++ rest.deliveries;
            log = first.log ++ rest.log;
          }))
          (r' >>= λ rest. ok (record {
            called = first'.called ++ rest.called;
            log = first'.log ++ rest.log;
            machine = rest.machine;
          }))
  joined_lem first first' (ok rest) (ok rest') called log (core, called', log', handled) = (
    core,
    joined_called first.deliveries rest.deliveries first'.called rest'.called called called',
    rw (log, log') refl,
    handled,
  )
  joined_lem first first' (throw e) (throw e') called log same = same
  joined_lem first first' fault fault called log same = tt
  joined_lem first first' (ok rest) (throw e) called log same = same
  joined_lem first first' (ok rest) fault called log same = same
  joined_lem first first' (throw e) (ok rest) called log same = same
  joined_lem first first' (throw e) fault called log same = same
  joined_lem first first' fault (ok rest) called log same = same
  joined_lem first first' fault (throw e) called log same = same

  -- What follows a first reply goes on from the same state.
  pub next_lem :
      (r : Result (Step E)) (r' : Result (Received E S)) (f : Step E → Result (Step E))
      (g : Received E S → Result (Received E S))
      → Simulates r r'
      → ((step : Step E) (out : Received E S)
          → Simulates (ok step) (ok out)
          → Simulates (f step) (g out))
      → Simulates (r >>= f) (r' >>= g)
  next_lem (ok step) (ok out) f g same h = h step out same
  next_lem (throw e) (throw e') f g same h = same
  next_lem fault fault f g same h = tt
  next_lem (ok step) (throw e) f g same h = absurd same
  next_lem (ok step) fault f g same h = absurd same
  next_lem (throw e) (ok out) f g same h = absurd same
  next_lem (throw e) fault f g same h = absurd same
  next_lem fault (ok out) f g same h = absurd same
  next_lem fault (throw e) f g same h = absurd same
