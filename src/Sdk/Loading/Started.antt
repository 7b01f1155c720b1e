-- ===== src/Sdk/Loading/Started.antt =====
-- src/Exstension.cpp and src/sdk/smsdk_ext.cpp: when the extension is loaded.
use Prim.Native.String.{len}
use sm_ext_rpc.Base.{
  subst, lt→ltb, ℕ, String, Bool, true, Option, some, List, Bytes, refl, ◌<◌, ◌≤◌, inl, inr, arith,
  ◌≡◌, ◌⊎◌,
}
use sm_ext_rpc.Json.{JsonLib}
use sm_ext_rpc.Config
use sm_ext_rpc.Config.{CoreConfig, Loading, done, raised, new_config}
use sm_ext_rpc.Extension.{Component, Running}
use sm_ext_rpc.Extension.Started.{IsUsableConfig, IsStarted, HasUniqueKeys, sdk_on_load_lem}
use sm_ext_rpc.Sdk.{Interface, Adapter, text, Written, rejected, loaded}
use sm_ext_rpc.Sdk.Loading.{strcpy, conclude, extension}
use sm_ext_rpc.Sdk.Loading.Bounds.{IsShort, sdk_on_load-IsShort}
use sm_ext_rpc.Sdk.Loading.Outcome.{load_result, load_found, load_missing, missing, prepared}

-- What a load needs: the two interfaces, and a configuration with which the extension starts.
pub record IsLoadable (available : Interface → Bool) (config : CoreConfig) : Type 0 where
  pub sourcemod : available Interface.sourcemod ≡ true
  pub handlesystem : available Interface.handlesystem ≡ true
  pub usable : IsUsableConfig config

module _ (J : JsonLib) (date : String) (available : Interface → Bool) (late : Bool)
    (adapter : Adapter) (r : Running) where
  -- If the configuration file is read without an exception, each server name stands once, and the
  -- error buffer has at least 48 bytes, OnExtensionLoad returns true exactly if SourceMod has the
  -- interfaces SOURCEMOD and HANDLESYSTEM and the configuration has a port from 1 to 65535, an
  -- address and a key: then both interface pointers are set and the extension is started as
  -- configured. Otherwise it returns false and nothing was started.
  pub on_extension_load_lem :
      (body : Bytes) (components : List Component) (n : ℕ) (l : Loading)
      → Config.init J body new_config ≡ done l
      → HasUniqueKeys l.config.servers
      → 48 ≤ n
      → ((r' : Running) × (load_result date (extension J body components) available n late adapter r
            ≡ loaded (prepared date (extension J body components) available n late adapter r) r')
          × IsLoadable available l.config
          × IsStarted l.config r')
        ⊎ ((w : Option Written) × (adapter' : Adapter) × (load_result date
                (extension J body components)
                available
                n
                late
                adapter
                r
              ≡ rejected w adapter' r)
            × ¬ IsLoadable available l.config)
  unfolding extension conclude strcpy
  on_extension_load_lem body components n l read unique h =
      let hooks = extension J body components in
      elim (missing date hooks available n late adapter r) [
        | inl (a, b) ↦ elim (sdk_on_load_lem J body components r l read unique) [
          | inl (r', starts, usable, started) ↦ inl (
            r',
            rw (load_found date hooks available n late adapter r a b, starts) refl,
            record { sourcemod = a; handlesystem = b; usable = usable },
            started,
          )
          | inr (t, refuses, unusable) ↦
              let fits : len t < n =
                omega (arith, h, subst IsShort refuses (sdk_on_load-IsShort J body components r)) in
              inr (
                some (record { size = n; message = text t }),
                prepared date hooks available n late adapter r,
                rw
                    (
                      load_found date hooks available n late adapter r a b,
                      refuses,
                      conclude,
                      strcpy,
                      lt→ltb (len t) n fits,
                    )
                    refl,
                λ u. unusable u.usable,
              )
        ]
        | inr (i, got, e, gone) ↦ inr (
          _,
          got,
          load_missing date hooks available n late adapter r i got e,
          λ u. gone (u.sourcemod, u.handlesystem),
        )
      ]
