-- ===== src/Natives/Json.antt =====
-- src/smn_json.cpp: the natives by which plugins build and read JSON values, members first. A
-- parameter `params[n]` is `plugin.params n`.
pub mod Arrays
pub mod Values
pub mod Laws
pub mod Total
pub mod Pushed
use sm_ext_rpc.Base.{
  zero, Exception, String, Bool, true, false, not, ◌||◌, [], ◌∷◌, Result, ok, throw, fault, ◌>>=◌,
  if◌then◌else◌,
}
use sm_ext_rpc.Base.Int.{ℤ, pos, negsuc}
use sm_ext_rpc.Json.{JsonLib, at, touch, as_int, as_bool, is_null, is_object, is_number, is_string}
use sm_ext_rpc.Processor.{Env}
use sm_ext_rpc.Processor.Send.{assign}
use sm_ext_rpc.Natives.{
  Plugin, Cell, SourceMod, Machine, Return, Report, Effect, not_an_int, not_a_float, not_a_boolean,
  not_a_string, output, return, refuse, put, with_json, new_json,
}

-- `static_cast<bool>` of a cell, and a `bool` that is returned as a cell.
abbrev pub is_set : Cell → Bool
is_set (pos zero) = false
is_set _ = true

abbrev pub of_truth : Bool → Cell
of_truth true = pos 1
of_truth false = pos 0

module _ (E : Env) (S : SourceMod (E.json)) where
  open E use {json}
  open json use {Json, Float, of_string, of_int, of_bool, of_float, get_string, get_float}
  open S use {sp_ctof, sp_ftoc}

  -- `native_CreateJSON`
  unfoldable pub create_json : Plugin → Machine E S → Result (Return E S)
  unfolding new_json
  create_json plugin m = new_json E S plugin json.nullptr m

  -- `(*obj)[key] = value` and `return 1`
  unfoldable pub set_member : Plugin → Machine E S → Json → Result (Return E S)
  unfolding with_json assign
  set_member plugin m value = with_json E S plugin 1 m (λ a j.
      assign E j (plugin.text (plugin.params 2)) value >>= λ j'.
      return E S (pos 1) [] (put E S a j' m))

  unfoldable pub set_json_string : Plugin → Machine E S → Result (Return E S)
  unfolding set_member
  set_json_string plugin m = set_member plugin m (of_string (plugin.text (plugin.params 3)))

  unfoldable pub set_json_int : Plugin → Machine E S → Result (Return E S)
  unfolding set_member
  set_json_int plugin m = set_member plugin m (of_int (plugin.params 3))

  unfoldable pub set_json_float : Plugin → Machine E S → Result (Return E S)
  unfolding set_member
  set_json_float plugin m = set_member plugin m (of_float (sp_ctof (plugin.params 3)))

  unfoldable pub set_json_bool : Plugin → Machine E S → Result (Return E S)
  unfolding set_member
  set_json_bool plugin m = set_member plugin m (of_bool (is_set (plugin.params 3)))

  -- `native_SetJSON_JSON`; the value is read before it is assigned, as C++17 orders the two.
  unfoldable pub set_json_json : Plugin → Machine E S → Result (Return E S)
  unfolding with_json assign
  set_json_json plugin m = with_json E S plugin 1 m (λ a j. with_json E S plugin 3 m (λ b value.
      assign E j (plugin.text (plugin.params 2)) value >>= λ j'.
      return E S (pos 1) [] (put E S a j' m)))

  -- `get<float>()`: every kind of number is converted.
  unfoldable pub as_float : Json → Result Float
  as_float j = if is_number json j then ok (get_float j) else throw Exception.domain_error

  -- The value after `(*obj)[key]`: it is as it was where the access throws.
  unfoldable pub touched : Json → String → Json
  touched j key = if is_null json j || is_object json j then touch json j key else j

  -- `return value` in a `try` whose handler takes every `std::exception`.
  unfoldable pub attempt : Result Cell → Report → Machine E S → Result (Return E S)
  attempt (ok cell) line m = return E S cell [] m
  attempt (throw e) line m = refuse E S line m
  attempt fault line m = fault

  -- `(*obj)[key]`, converted in such a `try`.
  unfoldable pub get_member :
      Plugin → Machine E S → (Json → Result Cell) → Report → Result (Return E S)
  unfolding with_json attempt touched
  get_member plugin m convert line = with_json E S plugin 1 m (λ a j.
      let key = plugin.text (plugin.params 2) in
      attempt (at json j key >>= convert) line (put E S a (touched j key) m))

  abbrev pub to_int : Json → Result Cell
  to_int = as_int json

  unfoldable pub to_float : Json → Result Cell
  unfolding as_float
  to_float j = as_float j >>= λ x. ok (sp_ftoc x)

  unfoldable pub to_bool : Json → Result Cell
  to_bool j = as_bool json j >>= λ b. ok (of_truth b)

  unfoldable pub get_json_int : Plugin → Machine E S → Result (Return E S)
  unfolding get_member
  get_json_int plugin m = get_member plugin m to_int not_an_int

  unfoldable pub get_json_float : Plugin → Machine E S → Result (Return E S)
  unfolding get_member to_float
  get_json_float plugin m = get_member plugin m to_float not_a_float

  unfoldable pub get_json_bool : Plugin → Machine E S → Result (Return E S)
  unfolding get_member to_bool
  get_json_bool plugin m = get_member plugin m to_bool not_a_boolean

  -- A text that is written to the plugin's buffer, at parameter `n`, with its size after it.
  unfoldable pub put_text : Plugin → Cell → Cell → Json → Report → Machine E S → Result (Return E S)
  put_text plugin buffer size v line m =
      if not (is_string json v)
      then refuse E S line m
      else return E S (pos 1) (output buffer size (get_string v) ∷ []) m

  -- `native_GetJSONString`; no handler surrounds the access. The message for another kind of value
  -- has a `%s` and no argument for it, which is undefined behaviour.
  unfoldable pub get_json_string : Plugin → Machine E S → Result (Return E S)
  unfolding with_json touched
  get_json_string plugin m = with_json E S plugin 1 m (λ a j.
      let key = plugin.text (plugin.params 2) in
      at json j key >>= λ v.
      if not (is_string json v)
      then fault
      else return E S (pos 1) (output (plugin.params 3) (plugin.params 4) (get_string v) ∷ [])
          (put E S a (touched j key) m))

  -- `native_GetJSON_JSON`: a copy under a new handle.
  unfoldable pub get_json_json : Plugin → Machine E S → Result (Return E S)
  unfolding with_json touched new_json
  get_json_json plugin m = with_json E S plugin 1 m (λ a j.
      let key = plugin.text (plugin.params 2) in
      at json j key >>= λ v. new_json E S plugin v (put E S a (touched j key) m))
