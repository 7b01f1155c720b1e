-- ===== src/Natives/Live/Arrays.antt =====
-- src/smn_json.cpp: the natives on arrays use objects that are there.
use sm_ext_rpc.Base.{Result, inl, inr, Bool-cases, ◌||◌}
use sm_ext_rpc.Base.Int.{pos, negsuc}
use sm_ext_rpc.Json.{is_null, is_array}
use sm_ext_rpc.Processor.{Env}
use sm_ext_rpc.Natives.{Plugin, Cell, SourceMod, Machine, Report}
use sm_ext_rpc.Natives.Json.Arrays.{
  push_back, push, push_json_json, element, get_element, get_array_string, get_array_json,
  get_array_size,
}
use sm_ext_rpc.Natives.Live.{then-IsSafe, IsDefined-bind, IsDefined, IsHandleSystem, IsLive, IsSafe}
use sm_ext_rpc.Natives.Live.Machines.{put-IsLive}
use sm_ext_rpc.Natives.Live.Values.{
  with_json-IsSafe, new_json-IsSafe, put_text-IsSafe, attempt-IsSafe,
}

-- A position that is not negative.
abbrev pub IsPosition : Cell → Type 0
IsPosition (pos n) = Unit
IsPosition (negsuc n) = ⊥

module _ (E : Env) (S : SourceMod (E.json)) (H : IsHandleSystem (E.json) S) where
  open E use {json}
  open json use {Json}

  push_back-IsDefined : (j v : Json) → IsDefined (push_back E S j v)
  unfolding push_back
  push_back-IsDefined j v = elim (Bool-cases (is_null json j || is_array json j)) [
    | inl e ↦ rw (push_back, e) tt
    | inr e ↦ rw (push_back, e) tt
  ]

  element-IsDefined : (j : Json) (i : Cell) → IsPosition i → IsDefined (element E S j i)
  unfolding element
  element-IsDefined j (negsuc i) h = h
  element-IsDefined j (pos i) h = elim (Bool-cases (is_null json j || is_array json j)) [
    | inl e ↦ rw (element, e) tt
    | inr e ↦ rw (element, e) tt
  ]

  module _ (plugin : Plugin) (m : Machine E S) (live : IsLive E S H m) where
    pub push-IsSafe : (v : Json) → IsSafe E S H (push E S plugin m v)
    unfolding push
    push-IsSafe v = with_json-IsSafe E S H plugin 1 m _ live (λ a j.
        then-IsSafe E S H _ _ (push_back-IsDefined j v) (λ j'. put-IsLive E S H a j' m live))

    pub push_json_json-IsSafe : IsSafe E S H (push_json_json E S plugin m)
    unfolding push_json_json
    push_json_json-IsSafe = with_json-IsSafe E S H plugin 1 m _ live (λ a j.
        with_json-IsSafe E S H plugin 3 m _ live (λ b v.
          then-IsSafe E S H _ _ (push_back-IsDefined j v) (λ j'. put-IsLive E S H a j' m live)))

    pub get_array_size-IsSafe : IsSafe E S H (get_array_size E S plugin m)
    unfolding get_array_size
    get_array_size-IsSafe = with_json-IsSafe E S H plugin 1 m _ live (λ a j. live)

    module _ (position : IsPosition (plugin.params 2)) where
      pub get_element-IsSafe :
          (convert : Json → Result Cell) (line : Report)
          → ((j : Json) → IsDefined (convert j))
          → IsSafe E S H (get_element E S plugin m convert line)
      unfolding get_element
      get_element-IsSafe convert line defined = with_json-IsSafe E S H plugin 1 m _ live (λ a j.
          attempt-IsSafe E S H _ line _
            (IsDefined-bind _ _ (element-IsDefined j _ position) (λ (v, j'). defined v))
            (put-IsLive E S H a _ m live))

      pub get_array_string-IsSafe : IsSafe E S H (get_array_string E S plugin m)
      unfolding get_array_string
      get_array_string-IsSafe = with_json-IsSafe E S H plugin 1 m _ live (λ a j.
          then-IsSafe E S H _ _ (element-IsDefined j _ position)
            (λ (v, j'). put_text-IsSafe E S H plugin _ _ v _ _ (put-IsLive E S H a j' m live)))

      pub get_array_json-IsSafe : IsSafe E S H (get_array_json E S plugin m)
      unfolding get_array_json
      get_array_json-IsSafe = with_json-IsSafe E S H plugin 1 m _ live (λ a j.
          then-IsSafe E S H _ _ (element-IsDefined j _ position)
            (λ (v, j'). new_json-IsSafe E S H plugin v _ (put-IsLive E S H a j' m live)))
