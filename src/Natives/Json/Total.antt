-- ===== src/Natives/Json/Total.antt =====
-- src/smn_json.cpp: the natives that convert a value to a cell in a `try`.
use sm_ext_rpc.Base.{ℕ, some, Result, ok, throw, fault, ◌≡◌, ◌≢◌, refl, arith, inl, ◌>>=◌}
use sm_ext_rpc.Json.{at, as_int, as_bool}
use sm_ext_rpc.Processor.{Env}
use sm_ext_rpc.Natives.{Plugin, Cell, SourceMod, Machine, Return, Report, json_type, with_json, put}
use sm_ext_rpc.Natives.Json.{
  get_json_int, get_json_float, get_json_bool, get_member, attempt, touched, to_int, to_float,
  to_bool, as_float,
}

module _ (E : Env) (S : SourceMod (E.json)) where
  open E use {json}
  open json use {Json}

  attempt-ok :
      (r : Result Cell) (line : Report) (m : Machine E S)
      → r ≢ fault
      → (x : Return E S) × (attempt E S r line m ≡ ok x)
  unfolding attempt
  attempt-ok (ok cell) line m h = (_, refl)
  attempt-ok (throw e) line m h = (_, refl)
  attempt-ok fault line m h = absurd (h refl)

  -- GetInt, GetFloat and GetBool, called with a readable handle of a value that is on the heap,
  -- return to the plugin whatever the value and the key are: no exception leaves them.
  pub get_json-total :
      (p : Plugin) (m : Machine E S) (a : ℕ) (j : Json)
      → S.read json_type (p.params 1) p.identity m.table ≡ inl a
      → m.jsons a ≡ some j
      → ((r : Return E S) × (get_json_int E S p m ≡ ok r))
        × ((r : Return E S) × (get_json_float E S p m ≡ ok r))
        × ((r : Return E S) × (get_json_bool E S p m ≡ ok r))
  unfolding get_json_int get_json_float get_json_bool get_member with_json to_float to_bool at
      as_int as_float as_bool
  get_json-total p m a j readable alive =
      let key = p.text (p.params 2) in
      let m' : Machine E S = put E S a (touched E S j key) m in
      (
        rw (get_json_int, get_member, with_json, readable, alive)
            (attempt-ok (at json j key >>= to_int E S) Report.not_an_int m' (ground arith)),
        rw (get_json_float, get_member, with_json, readable, alive)
            (attempt-ok (at json j key >>= to_float E S) Report.not_a_float m' (ground arith)),
        rw (get_json_bool, get_member, with_json, readable, alive)
            (attempt-ok (at json j key >>= to_bool E S) Report.not_a_boolean m' (ground arith)),
      )
