-- ===== src/Natives/Json/Arrays.antt =====
-- src/smn_json.cpp: the natives on arrays.
use sm_ext_rpc.Base.{
  Exception, ℕ, zero, suc, ◌-◌, ◌%◌, ◌||◌, none, some, [], Result, ok, throw, fault, ◌>>=◌,
  if◌then◌else◌, get_elem?, ltb,
}
use sm_ext_rpc.Base.Int.{pos, negsuc}
use sm_ext_rpc.Json.{is_null, is_array}
use sm_ext_rpc.Processor.{Env}
use sm_ext_rpc.Natives.{
  Plugin, Cell, SourceMod, Machine, Return, Report, not_an_int, not_a_float, not_a_boolean,
  not_a_string, return, put, with_json, new_json,
}
use sm_ext_rpc.Natives.Json.{is_set, attempt, to_int, to_float, to_bool, put_text}

-- A `size_t` that is returned as a cell: the low 32 bits, as a signed number.
abbrev pub cell_of_size : ℕ → Cell
cell_of_size n =
    let low = n % 4294967296 in if ltb low 2147483648 then pos low else negsuc (4294967295 - low)

module _ (E : Env) (S : SourceMod (E.json)) where
  open E use {json}
  open json use {Json, nullptr, of_string, of_int, of_bool, of_float, elements, size, append}
  open S use {sp_ctof}

  -- `push_back` at an array or a null.
  unfoldable pub push_back : Json → Json → Result Json
  push_back j v =
      if is_null json j || is_array json j then ok (append j v) else throw Exception.domain_error

  unfoldable pub push : Plugin → Machine E S → Json → Result (Return E S)
  unfolding with_json push_back
  push plugin m v =
      with_json E S plugin 1 m
        (λ a j. push_back j v >>= λ j'. return E S (pos 1) [] (put E S a j' m))

  unfoldable pub push_json_string : Plugin → Machine E S → Result (Return E S)
  unfolding push
  push_json_string plugin m = push plugin m (of_string (plugin.text (plugin.params 2)))

  -- These three take the cell at position 1, which is the handle.
  unfoldable pub push_json_int : Plugin → Machine E S → Result (Return E S)
  unfolding push
  push_json_int plugin m = push plugin m (of_int (plugin.params 1))

  unfoldable pub push_json_float : Plugin → Machine E S → Result (Return E S)
  unfolding push
  push_json_float plugin m = push plugin m (of_float (sp_ctof (plugin.params 1)))

  unfoldable pub push_json_bool : Plugin → Machine E S → Result (Return E S)
  unfolding push
  push_json_bool plugin m = push plugin m (of_bool (is_set (plugin.params 1)))

  -- `native_PushJSON_JSON`: the value is that of the handle at position 3, which a plugin that passes
  -- fewer parameters has not set.
  unfoldable pub push_json_json : Plugin → Machine E S → Result (Return E S)
  unfolding with_json push_back
  push_json_json plugin m = with_json E S plugin 1 m (λ a j.
      with_json E S plugin 3 m
        (λ b v. push_back j v >>= λ j'. return E S (pos 1) [] (put E S a j' m)))

  -- `(*obj)[i]` with a position fills the array up to it with nulls; a null counts as an empty
  -- array.
  unfoldable pub pad : ℕ → Json → Json
  pad zero j = j
  pad (suc n) j = pad n (append j nullptr)

  unfoldable pub filled : Json → ℕ → Json
  unfolding pad
  filled j i = pad (suc i - size j) j

  -- The value and the array after the access. A negative position is converted to one near 2^64,
  -- and the array is filled until the memory is exhausted.
  unfoldable pub element : Json → Cell → Result (Json × Json)
  unfolding filled
  element j (negsuc i) = fault
  element j (pos i) =
      if is_null json j || is_array json j
      then ok (elim (get_elem? (elements j) i) [ some v ↦ v | none ↦ nullptr ], filled j i)
      else throw Exception.domain_error

  unfoldable pub after : Json → Result (Json × Json) → Json
  after j (ok (v, j')) = j'
  after j _ = j

  -- `(*obj)[params[2]]`, converted in a `try` that takes every `std::exception`. A fault is
  -- one whatever the conversion makes of it.
  unfoldable pub get_element :
      Plugin → Machine E S → (Json → Result Cell) → Report → Result (Return E S)
  unfolding with_json element after
  get_element plugin m convert line = with_json E S plugin 1 m (λ a j.
      let found = element j (plugin.params 2) in
      attempt E S (found >>= λ (v, _). convert v) line (put E S a (after j found) m))

  unfoldable pub get_array_int : Plugin → Machine E S → Result (Return E S)
  unfolding get_element
  get_array_int plugin m = get_element plugin m (to_int E S) not_an_int

  unfoldable pub get_array_float : Plugin → Machine E S → Result (Return E S)
  unfolding get_element
  get_array_float plugin m = get_element plugin m (to_float E S) not_a_float

  unfoldable pub get_array_bool : Plugin → Machine E S → Result (Return E S)
  unfolding get_element
  get_array_bool plugin m = get_element plugin m (to_bool E S) not_a_boolean

  unfoldable pub get_array_string : Plugin → Machine E S → Result (Return E S)
  unfolding with_json element
  get_array_string plugin m = with_json E S plugin 1 m (λ a j.
      element j (plugin.params 2) >>= λ (v, j').
      put_text E S plugin (plugin.params 3) (plugin.params 4) v not_a_string (put E S a j' m))

  -- `native_GetArrayJSON`: a copy under a new handle.
  unfoldable pub get_array_json : Plugin → Machine E S → Result (Return E S)
  unfolding with_json element new_json
  get_array_json plugin m =
      with_json E S plugin 1 m
        (λ a j. element j (plugin.params 2) >>= λ (v, j'). new_json E S plugin v (put E S a j' m))

  unfoldable pub get_array_size : Plugin → Machine E S → Result (Return E S)
  unfolding with_json
  get_array_size plugin m =
      with_json E S plugin 1 m (λ a j. return E S (cell_of_size (size j)) [] m)
