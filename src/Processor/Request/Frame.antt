-- ===== src/Processor/Request/Frame.antt =====
-- `HandleRequest` of src/CommandProcessor.cpp: what a request leaves behind in the processor.
use sm_ext_rpc.Processor.Request.Objects.{dispatch_object}
use sm_ext_rpc.Base.{
  Option-cases, some, Option, Bytes, none, String, ◌≡◌, refl, ok, true, arith, ◌⊎◌, inl, inr,
}
use sm_ext_rpc.Processor.{Env, Processor, pointer}
use sm_ext_rpc.Base.Dict.{lookup-default_at, lookup, default_at}
use sm_ext_rpc.Processor.Request.{
  pending_of, Pending, answer, run, route, handle_object, handle_request, handle_value, Handled,
  catch, call,
}
use sm_ext_rpc.Json.Laws.{IsLawful}
use sm_ext_rpc.Base.Int.{ℤ}
use sm_ext_rpc.Json.{member, is_object}
use sm_ext_rpc.Processor.Request.Objects.{dispatch_object, check_sig_object, check_timestamp_object}

-- The same key, servers and outstanding calls, and the same method under every name.
pub record SameRegistry (p q : Processor) : Type 0 where
  pub api_key : q.api_key ≡ p.api_key
  pub servers : q.servers ≡ p.servers
  pub outstanding_calls : q.outstanding_calls ≡ p.outstanding_calls
  pub methods : (name : String) → pointer (lookup name q.methods) ≡ pointer (lookup name p.methods)

SameRegistry-default_at :
    (p : Processor) (name : String)
    → SameRegistry p (record p { methods = default_at name none p.methods })
SameRegistry-default_at p name = record {
  api_key = refl;
  servers = refl;
  outstanding_calls = refl;
  methods = λ i. ground (arith, lookup-default_at name i none p.methods);
}

module _ (E : Env) where
  open E use {json}
  open json use {Json, get_string, parse}

  -- Nothing but a missing name's null pointer is inserted.
  abbrev Kept : Processor → Handled E → Type 0
  Kept p h =
      (h.processor ≡ p)
      ⊎ ((name : String) × (h.processor ≡ record p { methods = default_at name none p.methods }))

  module _ (L : IsLawful json) (p : Processor) (remote : String) where
    route-Kept :
        (params : Json) (pd : Pending E) (name : String) {h : Handled E}
        → catch E p (route E p remote params pd name) ≡ ok h
        → Kept p h
    unfolding catch route run call answer
    route-Kept params pd name e = elim (Option-cases (pointer (lookup name p.methods))) [
      | inl n ↦ inr (name, ground arith)
      | inr (m, n) ↦ inl (ground arith)
    ]

    handle_object-Kept :
        (now : ℤ) (j : Json) {h : Handled E}
        → is_object json j ≡ true
        → catch E p (handle_object E p now remote j) ≡ ok h
        → Kept p h
    unfolding handle_object catch
    handle_object-Kept now j {h} o e = ground (
      arith,
      check_timestamp_object E L p j o now,
      check_sig_object E L p j o,
      dispatch_object E L p j o remote,
      route-Kept (member json j "params") (pending_of E (member json j "id"))
          (get_string (member json j "method")) {h = h},
    )

    handle_value-Kept :
        (now : ℤ) (v : Option Json) {h : Handled E}
        → catch E p (handle_value E p now remote v) ≡ ok h
        → Kept p h
    unfolding handle_value catch
    handle_value-Kept now none e = ground arith
    handle_value-Kept now (some j) {h} e = ground (arith, handle_object-Kept now j {h = h})

    -- A handled request changes neither the key, the servers, the outstanding calls nor the method
    -- found under any name, whatever the request contains.
    pub handle_request-SameRegistry :
        (now : ℤ) (req : Bytes) {h : Handled E}
        → handle_request E p now remote req ≡ ok h
        → SameRegistry p h.processor
    unfolding handle_request
    handle_request-SameRegistry now req e = elim (handle_value-Kept now (parse req) e) [
      | inl same ↦
          rw same (record {
            api_key = refl;
            servers = refl;
            outstanding_calls = refl;
            methods = λ i. refl;
          })
      | inr (name, same) ↦ rw same (SameRegistry-default_at p name)
    ]
