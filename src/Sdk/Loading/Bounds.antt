-- ===== src/Sdk/Loading/Bounds.antt =====
-- src/Exstension.cpp and src/sdk/smsdk_ext.cpp: what the load of the extension writes to the error
-- buffer.
use Prim.Native.String.{len}
use sm_ext_rpc.Base.{
  zero, suc, suc, ℕ, String, Bool, true, Option, none, some, List, Bytes, ◌<◌, ◌≤◌, ◌||◌, inl, inr,
  arith, str_eq, Bool-cases, lt→ltb,
}
use sm_ext_rpc.Base.Int.{pos, leb_ℤ, ltb_ℤ}
use sm_ext_rpc.Json.{JsonLib}
use sm_ext_rpc.Config
use sm_ext_rpc.Config.{CoreConfig, done, raised, new_config}
use sm_ext_rpc.Extension
use sm_ext_rpc.Extension.{Component, Running, Start, failed, refused, running, start, start_loaded}
use sm_ext_rpc.Sdk.{
  writes, Interface, Adapter, Message, could_not_find, text, Written, Loaded, thrown, overrun,
  rejected, loaded,
}
use sm_ext_rpc.Sdk.Loading.{strcpy, conclude, extension}
use sm_ext_rpc.Sdk.Loading.Outcome.{load_result, load_found, load_missing, missing}

-- A text fits with its terminator into a buffer of this size.
abbrev pub Fits : ℕ → Message → Type 0
Fits size (text t) = len t < size
Fits size message = Unit

abbrev pub FitsWritten : Option Written → Type 0
FitsWritten none = Unit
FitsWritten (some w) = Fits w.size w.message

-- Nothing is written past the buffer.
abbrev pub IsWithin : Loaded Running → Type 0
IsWithin (thrown e) = Unit
IsWithin overrun = ⊥
IsWithin (rejected w adapter r) = FitsWritten w
IsWithin (loaded adapter r) = Unit

-- The messages of `SDK_OnLoad` are shorter than this.
abbrev pub IsShort : Start → Type 0
IsShort (refused t) = len t < 48
IsShort _ = Unit

start-IsShort :
    (config : CoreConfig) (components : List Component) (r : Running)
    → IsShort (start config components r)
unfolding start
start-IsShort config components r =
    elim (Bool-cases (leb_ℤ config.port (pos 0) || ltb_ℤ (pos 65535) config.port)) [
      | inl e ↦ rw (start, e) (omega arith)
      | inr e ↦ elim (Bool-cases (str_eq config.address "")) [
        | inl e2 ↦ rw (start, e, e2) (omega arith)
        | inr e2 ↦ elim (Bool-cases (str_eq config.secret "")) [
          | inl e3 ↦ rw (start, e, e2, e3) (omega arith)
          | inr e3 ↦ rw (start, e, e2, e3) tt
        ]
      ]
    ]

start_loaded-IsShort :
    (l : Config.Loaded) (components : List Component) (r : Running)
    → IsShort (start_loaded l components r)
unfolding start_loaded
start_loaded-IsShort (done l) components r = start-IsShort l.config components r
start_loaded-IsShort (raised e l) components r = tt

pub sdk_on_load-IsShort :
    (J : JsonLib) (body : Bytes) (components : List Component) (r : Running)
    → IsShort (Extension.sdk_on_load J body components r)
unfolding Extension.sdk_on_load
sdk_on_load-IsShort J body components r =
    start_loaded-IsShort (Config.init J body new_config) components r

writes-Fits : (n : ℕ) (i : Interface) → FitsWritten (writes true n (could_not_find i))
writes-Fits zero i = tt
writes-Fits (suc n) i = tt

conclude-IsWithin :
    (n : ℕ) (adapter : Adapter) (r : Running) (end : Start)
    → 48 ≤ n
    → IsShort end
    → IsWithin (conclude true n adapter r end)
unfolding conclude strcpy
conclude-IsWithin n adapter r (failed e) h short = tt
conclude-IsWithin n adapter r (refused t) h short =
    let fits : len t < n = omega (arith, h, short) in
    rw (conclude, strcpy, lt→ltb (len t) n fits) fits
conclude-IsWithin n adapter r (running r') h short = tt

module _ (J : JsonLib) (date : String) (available : Interface → Bool) (late : Bool)
    (adapter : Adapter) (r : Running) where
  -- With an error buffer of at least 48 bytes, OnExtensionLoad writes nothing past the buffer, and
  -- the text that strcpy copies into it fits with its terminator, whatever the configuration file
  -- contains and whichever interfaces are missing.
  pub on_extension_load-IsWithin :
      (body : Bytes) (components : List Component) (n : ℕ)
      → 48 ≤ n
      → IsWithin (load_result date (extension J body components) available n late adapter r)
  unfolding extension
  on_extension_load-IsWithin body components n h =
      let hooks = extension J body components in
      elim (missing date hooks available n late adapter r) [
        | inl (a, b) ↦
            rw (load_found date hooks available n late adapter r a b)
              (conclude-IsWithin n _ r _ h (sdk_on_load-IsShort J body components r))
        | inr (i, got, e, gone) ↦
            rw (load_missing date hooks available n late adapter r i got e) (writes-Fits n i)
      ]
