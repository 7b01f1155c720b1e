-- ===== src/Natives/Json/Values.antt =====
-- src/smn_json.cpp: the natives that convert the value of a handle itself.
use sm_ext_rpc.Base.{Result}
use sm_ext_rpc.Processor.{Env}
use sm_ext_rpc.Natives.{
  Plugin, Cell, SourceMod, Machine, Return, Report, not_an_int, not_a_float, not_a_boolean,
  not_a_string, with_json,
}
use sm_ext_rpc.Natives.Json.{attempt, to_int, to_float, to_bool, put_text}

module _ (E : Env) (S : SourceMod (E.json)) where
  open E use {json}
  open json use {Json}

  -- The value, converted in a `try` that takes every `std::exception`.
  unfoldable pub convert_value :
      Plugin → Machine E S → (Json → Result Cell) → Report → Result (Return E S)
  unfolding with_json
  convert_value plugin m convert line =
      with_json E S plugin 1 m (λ a j. attempt E S (convert j) line m)

  unfoldable pub as_int_native : Plugin → Machine E S → Result (Return E S)
  unfolding convert_value
  as_int_native plugin m = convert_value plugin m (to_int E S) not_an_int

  unfoldable pub as_float_native : Plugin → Machine E S → Result (Return E S)
  unfolding convert_value
  as_float_native plugin m = convert_value plugin m (to_float E S) not_a_float

  unfoldable pub as_bool_native : Plugin → Machine E S → Result (Return E S)
  unfolding convert_value
  as_bool_native plugin m = convert_value plugin m (to_bool E S) not_a_boolean

  unfoldable pub as_string_native : Plugin → Machine E S → Result (Return E S)
  unfolding with_json
  as_string_native plugin m =
      with_json E S plugin 1 m
        (λ a j. put_text E S plugin (plugin.params 2) (plugin.params 3) j not_a_string m)
