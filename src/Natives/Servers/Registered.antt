-- ===== src/Natives/Servers/Registered.antt =====
-- src/smn_extension.cpp: a method that is registered without a callback.
use sm_ext_rpc.Base.{String, Bytes, none, some, [], ◌∷◌, ok, fault, ◌≡◌, refl, true, eq_refl}
use sm_ext_rpc.Base.Int.{ℤ}
use sm_ext_rpc.Base.Dict.{lookup-insert}
use sm_ext_rpc.Json.{is_object, member}
use sm_ext_rpc.Json.Laws.{IsLawful}
use sm_ext_rpc.Method.{RpcMethod, validate_arguments}
use sm_ext_rpc.Processor.{Env, register_method}
use sm_ext_rpc.Processor.Request.{handle_request}
use sm_ext_rpc.Processor.Request.Guards.{IsFresh, IsSigned, IsShaped}
use sm_ext_rpc.Processor.Request.Unset.{handle_request_unset}
use sm_ext_rpc.Natives.{Plugin, SourceMod, Machine, Return, report, invalid_callback}
use sm_ext_rpc.Natives.Servers.{rpc_register_method, put_processor, param_types_from, rounds}

module _ (E : Env) (S : SourceMod (E.json)) where
  open E use {json}
  open json use {Json, get_string, parse}

  -- The method that RegisterMethod makes of a plugin's call.
  abbrev pub method_of : Plugin → RpcMethod
  method_of plugin = record {
    param_types = param_types_from plugin (rounds (plugin.params 0)) 3;
    name = plugin.text (plugin.params 1);
    callback = plugin.function (plugin.params 2);
    owning_plugin = plugin.identity;
  }

  -- An authenticated request for that method, with fitting parameters.
  pub record IsRequestFor (plugin : Plugin) (key : String) (now : ℤ) (j : Json) : Type 0 where
    pub object : is_object json j ≡ true
    pub fresh : IsFresh E now j
    pub signed : IsSigned E key j
    pub shaped : IsShaped E j
    pub named : get_string (member json j "method") ≡ plugin.text (plugin.params 1)
    pub valid : validate_arguments json (method_of plugin) (member json j "params") ≡ ok true

  -- RegisterMethod with an invalid callback reports an error and registers the method all the
  -- same: after it, every fresh, signed and well-formed request for that name whose parameters
  -- have the declared types makes HandleRequest dereference the null callback.
  pub rpc_register_method-handle_request :
      (L : IsLawful json) (plugin : Plugin) (m : Machine E S) (now : ℤ) (remote : String)
      (req : Bytes) (j : Json)
      → plugin.function (plugin.params 2) ≡ none
      → parse req ≡ some j
      → IsRequestFor plugin m.core.processor.api_key now j
      → (r : Return E S) × (rpc_register_method E S plugin m ≡ ok r)
        × (r.effects ≡ report invalid_callback ∷ [])
        × (handle_request E r.machine.core.processor now remote req ≡ fault)
  unfolding rpc_register_method register_method
  rpc_register_method-handle_request L plugin m now remote req j unset parsed q =
      let name = plugin.text (plugin.params 1) in
      let method = method_of plugin in
      let p = register_method name method m.core.processor in
      (
        record {
          cell = ℤ.pos 0;
          effects = report invalid_callback ∷ [];
          machine = put_processor E S p m;
        },
        rw (rpc_register_method, unset) refl,
        refl,
        handle_request_unset E L p now remote req j parsed (record {
          object = q.object;
          fresh = q.fresh;
          signed = q.signed;
          shaped = q.shaped;
          registered =
              rw
                (
                  q.named,
                  lookup-insert name name (some method) m.core.processor.methods,
                  eq_refl name,
                )
                refl;
          unset = unset;
          valid = q.valid;
        }),
      )
