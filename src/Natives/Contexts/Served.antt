-- ===== src/Natives/Contexts/Served.antt =====
-- src/RPCMethod.cpp, src/RPCContext.cpp and src/smn_rpccontext.cpp: what the caller of a method
-- gets for the value that a plugin returns.
use sm_ext_rpc.Base.{Option, none, some, [], ok, ◌≡◌, refl, if◌then◌else◌, inl, arith}
use sm_ext_rpc.Base.Int.{pos}
use sm_ext_rpc.Method.{RpcMethod}
use sm_ext_rpc.Processor.{Env}
use sm_ext_rpc.Processor.Request.{Pending, complete}
use sm_ext_rpc.Natives.{
  Plugin, Address, Context, Cell, SourceMod, IsSourceMod, Machine, Return, json_type, context_type,
  with_json,
}
use sm_ext_rpc.Natives.Contexts.{
  call_method, new_context, put_context, set_return, finish_call, finish, replies, with_context,
}
use sm_ext_rpc.Base.{String}

module _ (E : Env) (S : SourceMod (E.json)) (I : IsSourceMod (E.json) S) where
  open E use {json}
  open json use {Json, nullptr}

  -- The plugin calls with a handle of the context.
  record IsContext (p : Plugin) (m : Machine E S) (a : Address) (context : Context E S)
      : Type 0 where
    readable : S.read context_type (p.params 1) p.identity m.table ≡ inl a
    alive : m.contexts a ≡ some context

  set_return_lem :
      (p : Plugin) (m : Machine E S) (a b : Address) (context : Context E S) (v : Json)
      → IsContext p m a context
      → S.read json_type (p.params 3) p.identity m.table ≡ inl b
      → m.jsons b ≡ some v
      → set_return E S p m
        ≡ ok (record {
          cell = pos 1;
          effects = [];
          machine = put_context E S a (some (record context { retval = v })) m;
        })
  unfolding set_return with_context with_json
  set_return_lem p m a b context v h readable alive =
      rw (set_return, with_context, h.readable, h.alive, with_json, readable, alive) refl

  abbrev ended : Plugin → Address → Machine E S → Machine E S
  ended p a m =
      let (destroyed, table) = S.free (p.params 1) p.identity m.table in
      let m' : Machine E S = if destroyed then put_context E S a none m else m in
      record m' { table = table }

  finish_call_lem :
      (p : Plugin) (m : Machine E S) (a : Address) (context : Context E S) (resp : Option Json)
      → IsContext p m a context
      → complete E m.core.processor context.pending context.retval ≡ ok resp
      → (r : Return E S) × (finish_call E S p m ≡ ok r) × (r.effects ≡ replies E S resp)
  unfolding finish_call with_context finish
  finish_call_lem p m a context resp h done = (
    record { cell = pos 0; effects = replies E S resp; machine = ended p a m },
    rw (finish_call, with_context, h.readable, h.alive, finish, done) refl,
    refl,
  )

  -- The state in which the plugin's function runs, and the handle that it is called with.
  module _ (method : RpcMethod) (remote : String) (params : Json) (pending : Pending E)
      (m : Machine E S) where
    abbrev pub called : Cell × Machine E S
    called = call_method E S method remote params pending m

    -- The plugin that owns the method calls with the handle of the context.
    pub record IsServing (p : Plugin) : Type 0 where
      pub handle : p.params 1 ≡ called.0
      pub owner : p.identity ≡ method.owning_plugin

    called-IsContext :
        (p : Plugin)
        → IsServing p
        → IsContext p called.1 m.fresh (new_context E S remote params pending)
    unfolding call_method
    called-IsContext p h = record {
      readable =
          rw (h.handle, h.owner) (I.read-create context_type m.fresh method.owning_plugin m.table);
      alive = ground arith;
    }

    -- For the context that RPCMethod::Call hands to the plugin that owns the method: after
    -- SetReturn with a readable JSON handle at its third position, Done sends the reply that the
    -- lambda of the request makes of that value, if it makes one.
    pub set_return-finish_call :
        (p q : Plugin) (b : _) (v : Json) (resp : Option Json)
        → IsServing p
        → IsServing q
        → S.read json_type (p.params 3) p.identity called.1.table ≡ inl b
        → m.jsons b ≡ some v
        → complete E m.core.processor pending v ≡ ok resp
        → (r r' : Return E S) × (set_return E S p called.1 ≡ ok r)
          × (finish_call E S q r.machine ≡ ok r')
          × (r'.effects ≡ replies E S resp)
    unfolding new_context call_method
    set_return-finish_call p q b v resp hp hq readable alive done =
        let context = new_context E S remote params pending in
        let p_context = called-IsContext p hp in
        let q_context = called-IsContext q hq in
        let finished =
          finish_call_lem q _ m.fresh (record context { retval = v }) resp
            (record { readable = q_context.readable; alive = ground arith }) done in
        (
          _,
          finished.0,
          set_return_lem p called.1 m.fresh b context v p_context readable alive,
          finished.1,
          finished.2,
        )
