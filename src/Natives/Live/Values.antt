-- ===== src/Natives/Live/Values.antt =====
-- src/smn_json.cpp: the natives on values and members use objects that are there.
use sm_ext_rpc.Base.{
  [], ◌∷◌, not, if◌then◌else◌, true, ℕ, some, Result, ok, throw, fault, ◌≡◌, ◌⊎◌, inl, inr, refl,
  Bool-cases, ◌||◌, String,
}
use sm_ext_rpc.Json.{
  member, at, as_int, as_bool, is_null, is_object, is_number, is_boolean, is_string,
}
use sm_ext_rpc.Processor.{Env}
use sm_ext_rpc.Processor.Send.{assign}
use sm_ext_rpc.Natives.{
  put, output, pos, return, HandleType, Plugin, Cell, Address, json_type, call_type, context_type,
  SourceMod, Machine, Return, Report, with_json, new_json,
}
use sm_ext_rpc.Natives.Json.{
  get_json_json, set_member, attempt, get_member, to_int, to_float, to_bool, as_float, put_text,
  get_json_string, set_json_json,
}
use sm_ext_rpc.Natives.Json.Values.{convert_value, as_string_native}
use sm_ext_rpc.Natives.Incoming.{with_value}
use sm_ext_rpc.Natives.Live.{
  then-IsSafe, IsDefined-bind, Holds, IsDefined, IsHandleSystem, IsLive, IsSafe,
}
use sm_ext_rpc.Natives.Live.Machines.{found_there, found-after, put-IsLive, create-IsLive}
use sm_ext_rpc.Method.{IdentityId}

-- What `ReadHandle` returned.
pub Read-cases : {A B : Type 0} (r : A ⊎ B) → ((a : A) × (r ≡ inl a)) ⊎ ((b : B) × (r ≡ inr b))
Read-cases (inl a) = inl (a, refl)
Read-cases (inr b) = inr (b, refl)

-- The value behind the plugin's handle, if it can be read, has a text under the plugin's key.
abbrev pub HasTextMember : (E : Env) (S : SourceMod (E.json)) → Plugin → Machine E S → Type 0
HasTextMember E S plugin m =
    (a : Address) (j : E.json.Json)
    → S.read json_type (plugin.params 1) plugin.identity m.table ≡ inl a
    → m.jsons a ≡ some j
    → is_string E.json (member E.json j (plugin.text (plugin.params 2))) ≡ true

module _ (E : Env) (S : SourceMod (E.json)) (H : IsHandleSystem (E.json) S) where
  open E use {json}
  open json use {Json}

  pub with_json_found-IsSafe :
      (plugin : Plugin) (n : ℕ) (m : Machine E S) (k : Address → Json → Result (Return E S))
      → IsLive E S H m
      → ((a : Address) (j : Json)
          → S.read json_type (plugin.params n) plugin.identity m.table ≡ inl a
          → m.jsons a ≡ some j
          → IsSafe E S H (k a j))
      → IsSafe E S H (with_json E S plugin n m k)
  unfolding with_json
  with_json_found-IsSafe plugin n m k live safe =
      elim (Read-cases (S.read json_type (plugin.params n) plugin.identity m.table)) [
        | inl (a, e) ↦
            let (j, there) = live.held json_type (plugin.params n) plugin.identity a e in
            rw (with_json, e, there) (safe a j e there)
        | inr (code, e) ↦ rw (with_json, e) live
      ]

  pub with_json-IsSafe :
      (plugin : Plugin) (n : ℕ) (m : Machine E S) (k : Address → Json → Result (Return E S))
      → IsLive E S H m
      → ((a : Address) (j : Json) → IsSafe E S H (k a j))
      → IsSafe E S H (with_json E S plugin n m k)
  with_json-IsSafe plugin n m k live safe =
      with_json_found-IsSafe plugin n m k live (λ a j readable there. safe a j)

  with_value-Holds :
      (creator : IdentityId) (j : Json) (m : Machine E S) (type : HandleType) (handle : Cell)
      (owner : IdentityId) (b : Address)
      → Holds E S H type handle owner b m
      → Holds E S H type handle owner b (with_value E S creator j m)
  with_value-Holds creator j m json_type handle owner b h = found-after m.jsons m.fresh b j h
  with_value-Holds creator j m call_type handle owner b h = h
  with_value-Holds creator j m context_type handle owner b h = h

  -- A new value under a new handle.
  pub with_value-IsLive :
      (creator : IdentityId) (j : Json) (m : Machine E S)
      → IsLive E S H m
      → IsLive E S H (with_value E S creator j m)
  with_value-IsLive creator j m live =
      create-IsLive E S H json_type creator m (with_value E S creator j m) live refl refl
        live.served
        (λ type handle owner b old h. with_value-Holds creator j m type handle owner b h)
        (j, found_there m.jsons m.fresh (some j))

  pub new_json-IsSafe :
      (plugin : Plugin) (j : Json) (m : Machine E S)
      → IsLive E S H m
      → IsSafe E S H (new_json E S plugin j m)
  unfolding new_json
  new_json-IsSafe plugin j m live = with_value-IsLive plugin.identity j m live

  pub at-IsDefined : (j : Json) (key : String) → IsDefined (at json j key)
  unfolding at
  at-IsDefined j key = elim (Bool-cases (is_null json j || is_object json j)) [
    | inl e ↦ rw (at, e) tt
    | inr e ↦ rw (at, e) tt
  ]

  pub assign-IsDefined : (j : Json) (key : String) (v : Json) → IsDefined (assign E j key v)
  unfolding assign
  assign-IsDefined j key v = elim (Bool-cases (is_null json j || is_object json j)) [
    | inl e ↦ rw (assign, e) tt
    | inr e ↦ rw (assign, e) tt
  ]

  pub set_member-IsSafe :
      (plugin : Plugin) (m : Machine E S) (v : Json)
      → IsLive E S H m
      → IsSafe E S H (set_member E S plugin m v)
  unfolding set_member
  set_member-IsSafe plugin m v live =
      with_json-IsSafe plugin 1 m _ live
        (λ a j. then-IsSafe E S H _ _ (assign-IsDefined j _ v) (λ j'. put-IsLive E S H a j' m live))

  pub set_json_json-IsSafe :
      (plugin : Plugin) (m : Machine E S)
      → IsLive E S H m
      → IsSafe E S H (set_json_json E S plugin m)
  unfolding set_json_json
  set_json_json-IsSafe plugin m live = with_json-IsSafe plugin 1 m _ live (λ a j.
      with_json-IsSafe plugin 3 m _ live (λ b v.
        then-IsSafe E S H _ _ (assign-IsDefined j _ v) (λ j'. put-IsLive E S H a j' m live)))

  pub attempt-IsSafe :
      (r : Result Cell) (line : Report) (m : Machine E S)
      → IsDefined r
      → IsLive E S H m
      → IsSafe E S H (attempt E S r line m)
  unfolding attempt
  attempt-IsSafe (ok c) line m d live = live
  attempt-IsSafe (throw e) line m d live = live
  attempt-IsSafe fault line m d live = d

  pub to_int-IsDefined : (j : Json) → IsDefined (to_int E S j)
  unfolding as_int
  to_int-IsDefined j = elim (Bool-cases (is_number json j)) [
    | inl e ↦ rw (as_int, e) tt
    | inr e ↦ rw (as_int, e) tt
  ]

  pub to_float-IsDefined : (j : Json) → IsDefined (to_float E S j)
  unfolding to_float as_float
  to_float-IsDefined j = elim (Bool-cases (is_number json j)) [
    | inl e ↦ rw (to_float, as_float, e) tt
    | inr e ↦ rw (to_float, as_float, e) tt
  ]

  pub to_bool-IsDefined : (j : Json) → IsDefined (to_bool E S j)
  unfolding to_bool as_bool
  to_bool-IsDefined j = elim (Bool-cases (is_boolean json j)) [
    | inl e ↦ rw (to_bool, as_bool, e) tt
    | inr e ↦ rw (to_bool, as_bool, e) tt
  ]

  pub get_member-IsSafe :
      (plugin : Plugin) (m : Machine E S) (convert : Json → Result Cell) (line : Report)
      → ((j : Json) → IsDefined (convert j))
      → IsLive E S H m
      → IsSafe E S H (get_member E S plugin m convert line)
  unfolding get_member
  get_member-IsSafe plugin m convert line defined live = with_json-IsSafe plugin 1 m _ live (λ a j.
      attempt-IsSafe _ line _ (IsDefined-bind _ convert (at-IsDefined j _) (λ v. defined v))
        (put-IsLive E S H a _ m live))

  pub put_text-IsSafe :
      (plugin : Plugin) (buffer size : Cell) (v : Json) (line : Report) (m : Machine E S)
      → IsLive E S H m
      → IsSafe E S H (put_text E S plugin buffer size v line m)
  unfolding put_text
  put_text-IsSafe plugin buffer size v line m live = elim (Bool-cases (is_string json v)) [
    | inl e ↦ rw (put_text, e) live
    | inr e ↦ rw (put_text, e) live
  ]

  -- The text of a member goes to the plugin's buffer, if the member is one.
  text_member-IsSafe :
      (plugin : Plugin) (a : Address) (j v : Json) (m : Machine E S)
      → is_string json v ≡ true
      → IsLive E S H m
      → IsSafe E S H (
          if not (is_string json v)
          then fault
          else return E S
              (pos 1)
              (output (plugin.params 3) (plugin.params 4) (json.get_string v) ∷ [])
              (put E S a j m))
  text_member-IsSafe plugin a j v m text live = rw text (put-IsLive E S H a _ m live)

  pub get_json_string-IsSafe :
      (plugin : Plugin) (m : Machine E S)
      → HasTextMember E S plugin m
      → IsLive E S H m
      → IsSafe E S H (get_json_string E S plugin m)
  unfolding get_json_string at
  get_json_string-IsSafe plugin m text live =
      with_json_found-IsSafe plugin 1 m _ live (λ a j readable there.
        let key = plugin.text (plugin.params 2) in
        elim (Bool-cases (is_null json j || is_object json j)) [
          | inl e ↦
              rw (at, e)
                (text_member-IsSafe plugin a _ (member json j key) m (text a j readable there) live)
          | inr e ↦ rw (at, e) tt
        ])

  pub convert_value-IsSafe :
      (plugin : Plugin) (m : Machine E S) (convert : Json → Result Cell) (line : Report)
      → ((j : Json) → IsDefined (convert j))
      → IsLive E S H m
      → IsSafe E S H (convert_value E S plugin m convert line)
  unfolding convert_value
  convert_value-IsSafe plugin m convert line defined live =
      with_json-IsSafe plugin 1 m _ live (λ a j. attempt-IsSafe _ line m (defined j) live)

  pub as_string_native-IsSafe :
      (plugin : Plugin) (m : Machine E S)
      → IsLive E S H m
      → IsSafe E S H (as_string_native E S plugin m)
  unfolding as_string_native
  as_string_native-IsSafe plugin m live =
      with_json-IsSafe plugin 1 m _ live (λ a j. put_text-IsSafe plugin _ _ j _ m live)

  pub get_json_json-IsSafe :
      (plugin : Plugin) (m : Machine E S)
      → IsLive E S H m
      → IsSafe E S H (get_json_json E S plugin m)
  unfolding get_json_json
  get_json_json-IsSafe plugin m live = with_json-IsSafe plugin 1 m _ live (λ a j.
      then-IsSafe E S H _ _ (at-IsDefined j _)
        (λ v. new_json-IsSafe plugin v _ (put-IsLive E S H a _ m live)))
