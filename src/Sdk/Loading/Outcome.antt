-- ===== src/Sdk/Loading/Outcome.antt =====
-- src/Exstension.cpp and src/sdk/smsdk_ext.cpp: how the load of the extension ends.
use sm_ext_rpc.Base.{
  inl, inr, Bool-cases, ◌⊎◌, ℕ, String, Bool, true, Option, none, some, ◌∷◌, ◌≡◌, refl,
}
use sm_ext_rpc.Extension.{Running}
use sm_ext_rpc.Sdk.{
  after_ifaces, writes, Interface, sourcemod, handlesystem, Adapter, Loaded, thrown, overrun,
  rejected, loaded, Hooks, smext_conf, on_extension_load, load_ifaces, get_ifaces, ended,
  could_not_find, enable_handlesys, requested, chosen, optional,
}

module _ (date : String) (hooks : Hooks Running) (available : Interface → Bool) (maxlength : ℕ)
    (late : Bool) (adapter : Adapter) (r : Running) where
  abbrev pub load_result : Loaded Running
  load_result = on_extension_load (smext_conf date) hooks available true maxlength late adapter r

  abbrev pub prepared : Adapter
  prepared = record adapter {
    shared = true;
    pointers = handlesystem ∷ sourcemod ∷ adapter.pointers;
  }

  ended_lem : (l : Loaded Running) → ended (smext_conf date) hooks l ≡ l
  unfolding ended smext_conf
  ended_lem (thrown e) = refl
  ended_lem overrun = refl
  ended_lem (rejected w a r) = refl
  ended_lem (loaded a r) = refl

  abbrev pub wanted : Option Interface × Adapter
  wanted = get_ifaces available (requested (smext_conf date)) (record adapter { shared = true })

  wanted_found :
      available sourcemod ≡ true → available handlesystem ≡ true → wanted ≡ (none, prepared)
  unfolding smext_conf requested chosen optional get_ifaces enable_handlesys
  wanted_found a b = rw (a, b) refl

  load_wanted : load_result ≡ after_ifaces (smext_conf date) hooks true maxlength late r wanted
  unfolding on_extension_load load_ifaces smext_conf
  load_wanted = refl

  pub load_found :
      available sourcemod ≡ true
      → available handlesystem ≡ true
      → load_result ≡ hooks.sdk_on_load true maxlength late prepared r
  unfolding after_ifaces
  load_found a b = rw (load_wanted, wanted_found a b, after_ifaces, ended_lem) refl

  pub load_missing :
      (i : Interface) (got : Adapter)
      → wanted ≡ (some i, got)
      → load_result ≡ rejected (writes true maxlength (could_not_find i)) got r
  unfolding after_ifaces
  load_missing i got h = rw (load_wanted, h, after_ifaces) refl

  -- Both interfaces are there, or a request for one fails.
  pub missing :
      (available sourcemod ≡ true) × (available handlesystem ≡ true)
      ⊎ ((i : Interface) × (got : Adapter) × (wanted ≡ (some i, got))
          × ¬ ((available sourcemod ≡ true) × (available handlesystem ≡ true)))
  unfolding smext_conf requested chosen optional get_ifaces enable_handlesys
  missing =
      let first = record adapter { shared = true } in
      let second = record first { pointers = sourcemod ∷ adapter.pointers } in
      elim (Bool-cases (available sourcemod)) [
        | inr a ↦ inr (sourcemod, first, rw a refl, λ (h, _). cc)
        | inl a ↦ elim (Bool-cases (available handlesystem)) [
          | inl b ↦ inl (a, b)
          | inr b ↦ inr (handlesystem, second, rw (a, b) refl, λ (_, h). cc)
        ]
      ]
