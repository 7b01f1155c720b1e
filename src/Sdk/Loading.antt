-- ===== src/Sdk/Loading.antt =====
-- src/Exstension.hpp and src/Exstension.cpp: the class `Extension`, which overrides two functions
-- of `SDKExtension`.
pub mod Outcome
pub mod Bounds
pub mod Started
use Prim.Native.String.{len}
use sm_ext_rpc.Base.{ℕ, String, Bool, ◌&&◌, some, List, Bytes, if◌then◌else◌, ltb}
use sm_ext_rpc.Json.{JsonLib}
use sm_ext_rpc.Extension.{Component, Running, Start, failed, refused, running}
use sm_ext_rpc.Extension
use sm_ext_rpc.Sdk.{Adapter, Hooks, Loaded, thrown, overrun, rejected, loaded, text, default_hooks}

-- `strcpy` into the buffer and `return false`; the size is not looked at.
unfoldable pub strcpy : Bool → ℕ → String → Adapter → Running → Loaded Running
strcpy error maxlength message adapter r =
    if error && ltb (len message) maxlength
    then rejected (some (record { size = maxlength; message = text message })) adapter r
    else overrun

-- `SDK_OnLoad`, by how it ends.
unfoldable pub conclude : Bool → ℕ → Adapter → Running → Start → Loaded Running
unfolding strcpy
conclude error maxlength adapter r (failed e) = thrown e
conclude error maxlength adapter r (refused message) = strcpy error maxlength message adapter r
conclude error maxlength adapter r (running r') = loaded adapter r'

-- `Extension`; `body` is the content of the configuration file.
unfoldable pub extension : JsonLib → Bytes → List Component → Hooks Running
unfolding conclude default_hooks
extension J body components = record default_hooks {
  sdk_on_load = λ error maxlength late adapter r.
      conclude error maxlength adapter r (Extension.sdk_on_load J body components r);
  sdk_on_unload = λ r. record r { loop = Extension.sdk_on_unload components r.loop };
}
