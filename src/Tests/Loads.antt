-- ===== src/Tests/Loads.antt =====
-- The theorems about the load of the extension at a sample configuration.
use sm_ext_rpc.Base.{Option, true, false, ◌≡◌, refl, ◌⊎◌, arith}
use sm_ext_rpc.Base.Dict.{lookup}
use sm_ext_rpc.Extension.{Running}
use sm_ext_rpc.Extension.Started.{IsStarted}
use sm_ext_rpc.Sdk.{Adapter, Written, new_adapter, loaded, rejected}
use sm_ext_rpc.Sdk.Loading.{extension}
use sm_ext_rpc.Sdk.Loading.Outcome.{load_result, prepared}
use sm_ext_rpc.Sdk.Loading.Bounds.{IsWithin, on_extension_load-IsWithin}
use sm_ext_rpc.Sdk.Loading.Started.{IsLoadable, on_extension_load_lem}
use sm_ext_rpc.Tests.Library.{tree_json}
use sm_ext_rpc.Tests.Surroundings.{text, unstarted, components, usable, read_config, config_is_read}

on_extension_load-IsWithin_example : IsWithin (
    load_result "today"
      (extension tree_json text components)
      (λ i. true)
      255
      false
      new_adapter
      unstarted)
on_extension_load-IsWithin_example =
    on_extension_load-IsWithin tree_json "today" (λ i. true) false new_adapter unstarted text
      components 255 (omega arith)

on_extension_load_lem_example :
    ((r : Running) × (load_result "today"
          (extension tree_json text components)
          (λ i. true)
          255
          false
          new_adapter
          unstarted
        ≡ loaded
            (prepared "today"
              (extension tree_json text components)
              (λ i. true)
              255
              false
              new_adapter
              unstarted)
            r)
      × IsLoadable (λ i. true) usable
      × IsStarted usable r)
    ⊎ ((w : Option Written) × (adapter : Adapter) × (load_result "today"
            (extension tree_json text components)
            (λ i. true)
            255
            false
            new_adapter
            unstarted
          ≡ rejected w adapter unstarted)
        × ¬ IsLoadable (λ i. true) usable)
unfolding lookup
on_extension_load_lem_example =
    on_extension_load_lem tree_json "today" (λ i. true) false new_adapter unstarted text components
      255 read_config config_is_read (refl, tt) (omega arith)
