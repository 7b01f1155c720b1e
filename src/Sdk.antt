-- ===== src/Sdk.antt =====
-- src/sdk/smsdk_config.h, src/sdk/smsdk_ext.h and src/sdk/smsdk_ext.cpp: the class `SDKExtension`,
-- through which SourceMod loads and unloads the extension. What the preprocessor decides is a
-- Boolean of the configuration; of the parts for Metamod, which the configuration leaves out, only
-- what stands in the functions below is modelled.
pub mod Loading
use sm_ext_rpc.Base.{
  ℕ, zero, String, Bool, true, false, not, ◌&&◌, Option, none, some, List, [], ◌∷◌, if◌then◌else◌,
  Exception,
}

-- The interfaces of SourceMod, by the prefixes of their names.
pub data Interface : Type 0 where
  sourcemod handlesystem forwardmanager playermanager dbi gameconfig memoryutils : Interface
  gamehelpers timersys adtfactory threader librarysys pluginsystem : Interface

-- The macros of src/sdk/smsdk_config.h. `enabled` has the macros `SMEXT_ENABLE_...`, and `metamod`
-- is `SMEXT_CONF_METAMOD`.
pub record Configuration : Type 0 where
  pub name : String
  pub description : String
  pub version : String
  pub author : String
  pub url : String
  pub logtag : String
  pub license : String
  pub datestring : String
  pub metamod : Bool
  pub enabled : Interface → Bool

-- The one interface whose macro is defined.
pub enable_handlesys : Interface → Bool
enable_handlesys handlesystem = true
enable_handlesys _ = false

-- The values in the file; the date is that of the build.
unfoldable pub smext_conf : String → Configuration
unfolding enable_handlesys
smext_conf date = record {
  name = "RPC";
  description = "RPC extension for SourceMod";
  version = "0.0.1";
  author = "Dreae";
  url = "https://github.com/dreae/sm-rpc";
  logtag = "RPC";
  license = "Apache v2";
  datestring = date;
  metamod = false;
  enabled = enable_handlesys;
}

-- A message for the error buffer.
pub data Message : Type 0 where
  could_not_find : Interface → Message
  metamod_attach_failed : Message
  text : String → Message

-- `snprintf` of a message into the error buffer, with the size that limits it.
pub record Written : Type 0 where
  pub size : ℕ
  pub message : Message

-- The global pointers that are set, the latest first, and the members for Metamod.
pub record Adapter : Type 0 where
  pub shared : Bool
  pub pointers : List Interface
  pub source_mm_loaded : Bool
  pub we_are_unloaded : Bool
  pub we_got_pause_change : Bool

-- The constructor, and the pointers as they are at first.
unfoldable pub new_adapter : Adapter
new_adapter = record {
  shared = false;
  pointers = [];
  source_mm_loaded = false;
  we_are_unloaded = false;
  we_got_pause_change = false;
}

-- The end of a load with the state of the extension: an exception, a write past the error buffer,
-- false with what was written to it, or true.
pub data Loaded (A : Type 0) : Type 0 where
  thrown : Exception → Loaded A
  overrun : Loaded A
  rejected : Option Written → Adapter → A → Loaded A
  loaded : Adapter → A → Loaded A

-- The virtual functions that an extension overrides, on the state of the extension.
pub record Hooks (A : Type 0) : Type 1 where
  pub sdk_on_load : Bool → ℕ → Bool → Adapter → A → Loaded A
  pub sdk_on_unload : A → A
  pub sdk_on_pause_change : Bool → A → A
  pub sdk_on_all_loaded : A → A

-- The buffer `error` may be null; its size is `maxlength`.
abbrev pub writes : Bool → ℕ → Message → Option Written
writes error zero message = none
writes error maxlength message =
    if error then some (record { size = maxlength; message = message }) else none

-- The interfaces that are requested, in order.
pub optional : List Interface
optional =
    handlesystem ∷ forwardmanager ∷ playermanager ∷ dbi ∷ gameconfig ∷ memoryutils ∷ gamehelpers
    ∷ timersys ∷ adtfactory ∷ threader ∷ librarysys ∷ pluginsystem ∷ []

pub chosen : (Interface → Bool) → List Interface → List Interface
chosen enabled [] = []
chosen enabled (i ∷ rest) =
    let others = chosen enabled rest in if enabled i then i ∷ others else others

unfoldable pub requested : Configuration → List Interface
unfolding chosen optional
requested conf = sourcemod ∷ chosen conf.enabled optional

-- `SM_GET_IFACE` for one interface after the other; `available` is what `RequestInterface`
-- returns. The first one that is missing ends the load.
pub get_ifaces : (Interface → Bool) → List Interface → Adapter → Option Interface × Adapter
get_ifaces available [] adapter = (none, adapter)
get_ifaces available (i ∷ rest) adapter =
    let next = get_ifaces available rest (record adapter { pointers = i ∷ adapter.pointers }) in
    if available i then next else (some i, adapter)

module _ {A : Type 0} where
  -- `SDK_OnLoad`, `SDK_OnUnload`, `SDK_OnPauseChange` and `SDK_OnAllLoaded` of `SDKExtension`.
  unfoldable pub default_hooks : Hooks A
  default_hooks = record {
    sdk_on_load = λ error maxlength late adapter a. loaded adapter a;
    sdk_on_unload = λ a. a;
    sdk_on_pause_change = λ paused a. a;
    sdk_on_all_loaded = λ a. a;
  }

  module _ (conf : Configuration) (hooks : Hooks A) where
    -- The successful end of a load.
    pub ended : Loaded A → Loaded A
    ended (loaded adapter a) =
        loaded (if conf.metamod then record adapter { we_are_unloaded = true } else adapter) a
    ended other = other

    -- What follows the requests: the end at the first interface that is missing, or `SDK_OnLoad`.
    pub after_ifaces : Bool → ℕ → Bool → A → Option Interface × Adapter → Loaded A
    unfolding ended
    after_ifaces error maxlength late a (some i, adapter) =
        rejected (writes error maxlength (could_not_find i)) adapter a
    after_ifaces error maxlength late a (none, adapter) =
        ended (hooks.sdk_on_load error maxlength late adapter a)

    -- What follows the part for Metamod.
    pub load_ifaces : (Interface → Bool) → Bool → ℕ → Bool → Adapter → A → Loaded A
    unfolding get_ifaces requested after_ifaces
    load_ifaces available error maxlength late adapter a =
        after_ifaces error maxlength late a (get_ifaces available (requested conf) adapter)

    -- `OnExtensionLoad`. `error` is whether the buffer is not null.
    unfoldable pub on_extension_load : (Interface → Bool) → Bool → ℕ → Bool → Adapter → A → Loaded A
    unfolding load_ifaces
    on_extension_load available error maxlength late adapter a =
        let shared = record adapter { shared = true } in
        let unloaded = record shared { we_are_unloaded = true } in
        if conf.metamod
        then (if not adapter.source_mm_loaded
            then rejected
                (if error
                  then some (record { size = maxlength; message = metamod_attach_failed })
                  else none)
                unloaded a
            else load_ifaces available error maxlength late unloaded a)
        else load_ifaces available error maxlength late shared a

    unfoldable pub is_metamod_extension : Bool
    is_metamod_extension = if conf.metamod then true else false

    unfoldable pub on_extension_pause_change : Bool → Adapter → A → Adapter × A
    on_extension_pause_change state adapter a = (
      if conf.metamod then record adapter { we_got_pause_change = true } else adapter,
      hooks.sdk_on_pause_change state a,
    )

    unfoldable pub on_extensions_all_loaded : A → A
    on_extensions_all_loaded a = hooks.sdk_on_all_loaded a

    unfoldable pub on_extension_unload : Adapter → A → Adapter × A
    on_extension_unload adapter a = (
      if conf.metamod then record adapter { we_are_unloaded = true } else adapter,
      hooks.sdk_on_unload a,
    )

module _ (conf : Configuration) where
  unfoldable pub get_extension_author : String
  get_extension_author = conf.author

  unfoldable pub get_extension_date_string : String
  get_extension_date_string = conf.datestring

  unfoldable pub get_extension_description : String
  get_extension_description = conf.description

  unfoldable pub get_extension_ver_string : String
  get_extension_ver_string = conf.version

  unfoldable pub get_extension_name : String
  get_extension_name = conf.name

  unfoldable pub get_extension_tag : String
  get_extension_tag = conf.logtag

  unfoldable pub get_extension_url : String
  get_extension_url = conf.url
