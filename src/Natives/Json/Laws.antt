-- ===== src/Natives/Json/Laws.antt =====
-- src/smn_json.cpp: what plugins get back of the values that they store.
use sm_ext_rpc.Base.{ap, ◌∙◌, ℕ, String, some, [], ◌∷◌, ok, ◌≡◌, refl, arith, inl, eq_refl}
use sm_ext_rpc.Base.Int.{ℤ, pos}
use sm_ext_rpc.Json.{InInt, touch, member}
use sm_ext_rpc.Json.Laws.{
  IsLawful, IsOpen, at_object, member-set, set-IsOpen, of_string-is_string, as_int-of_int,
}
use sm_ext_rpc.Processor.{Env}
use sm_ext_rpc.Processor.Send.{assign}
use sm_ext_rpc.Natives.{Plugin, SourceMod, Machine, Return, json_type, output, with_json, put}
use sm_ext_rpc.Natives.Json.{
  is_set, set_json_string, get_json_string, set_json_int, get_json_int, set_member, get_member,
  attempt, touched,
}
use sm_ext_rpc.Natives.Json.Arrays.{push_json_int, push_json_float, push_json_bool, push, push_back}

module _ (E : Env) (S : SourceMod (E.json)) where
  open E use {json}
  open json use {Json, of_string, of_int}

  -- The plugin's first parameter is its handle of the object `j`, which is open to members.
  pub record Holds (plugin : Plugin) (m : Machine E S) (j : Json) : Type 0 where
    pub object : ℕ
    pub readable : S.read json_type (plugin.params 1) plugin.identity m.table ≡ inl object
    pub alive : m.jsons object ≡ some j
    pub open_value : IsOpen json j

  -- Another call of the same plugin with the same handle and key.
  pub record SameMember (p q : Plugin) : Type 0 where
    pub identity : q.identity ≡ p.identity
    pub handle : q.params 1 ≡ p.params 1
    pub key : q.text (q.params 2) ≡ p.text (p.params 2)

  module _ (L : IsLawful json) where
    set_member_lem :
        (p : Plugin) (m : Machine E S) (j v : Json) (h : Holds p m j)
        → set_member E S p m v
          ≡ ok (record {
            cell = pos 1;
            effects = [];
            machine = put E S h.object (json.set j (p.text (p.params 2)) v) m;
          })
    unfolding set_member with_json assign
    set_member_lem p m j v h =
        rw (set_member, with_json, h.readable, h.alive, assign, h.open_value) refl

    -- The object after the value was stored is found by the other call.
    stored :
        {p q : Plugin} {m : Machine E S} {j : Json} (h : Holds p m j) (same : SameMember p q)
        (v : Json)
        → Holds q
            (put E S h.object (json.set j (p.text (p.params 2)) v) m)
            (json.set j (p.text (p.params 2)) v)
    stored {p} {q} {m} {j} h same v = record {
      object = h.object;
      readable = cc (same.handle, same.identity, h.readable);
      alive = ground arith;
      open_value = set-IsOpen json L j (p.text (p.params 2)) v h.open_value;
    }

    get_int_lem :
        (q : Plugin) (m : Machine E S) (j : Json) (n : ℤ) (h : Holds q m j)
        → InInt n
        → member json j (q.text (q.params 2)) ≡ of_int n
        → get_json_int E S q m
          ≡ ok (record {
            cell = n;
            effects = [];
            machine = put E S h.object (touch json j (q.text (q.params 2))) m;
          })
    unfolding get_json_int get_member with_json touched attempt
    get_int_lem q m j n h bounded e =
        rw
          (
            get_json_int,
            get_member,
            with_json,
            h.readable,
            h.alive,
            touched,
            h.open_value,
            at_object json L j (q.text (q.params 2)) h.open_value,
            e,
            as_int-of_int json L n bounded,
          )
          refl

    get_string_lem :
        (q : Plugin) (m : Machine E S) (j : Json) (text : String) (h : Holds q m j)
        → member json j (q.text (q.params 2)) ≡ of_string text
        → get_json_string E S q m
          ≡ ok (record {
            cell = pos 1;
            effects = output (q.params 3) (q.params 4) text ∷ [];
            machine = put E S h.object (touch json j (q.text (q.params 2))) m;
          })
    unfolding get_json_string with_json touched
    get_string_lem q m j text h e =
        rw
          (
            get_json_string,
            with_json,
            h.readable,
            h.alive,
            touched,
            h.open_value,
            at_object json L j (q.text (q.params 2)) h.open_value,
            e,
            of_string-is_string json L text,
            L.get_string-of_string text,
          )
          refl

    member_stored :
        {p q : Plugin} (j v : Json)
        → SameMember p q
        → IsOpen json j
        → member json (json.set j (p.text (p.params 2)) v) (q.text (q.params 2)) ≡ v
    member_stored {p} {q} j v same h =
        rw
          (
            same.key,
            member-set json L j (p.text (p.params 2)) v (p.text (p.params 2)) h,
            eq_refl (p.text (p.params 2)),
          )
          refl

    -- An integer in the range of int that SetInt stores under a key is what GetInt returns for the
    -- key, as long as both are called with the plugin's handle of a value that is open to members.
    pub get_json_int-set_json_int :
        (p q : Plugin) (m : Machine E S) (j : Json)
        → Holds p m j
        → SameMember p q
        → InInt (p.params 3)
        → (r r' : Return E S) × (set_json_int E S p m ≡ ok r)
          × (get_json_int E S q r.machine ≡ ok r')
          × (r'.cell ≡ p.params 3)
          × (r'.effects ≡ [])
    unfolding set_json_int
    get_json_int-set_json_int p q m j h same bounded =
        let v = of_int (p.params 3) in
        let next = stored h same v in
        (
          _,
          _,
          set_member_lem p m j v h,
          get_int_lem q _ _ (p.params 3) next bounded (member_stored j v same h.open_value),
          refl,
          refl,
        )

    -- A text that SetString stores under a key is what GetString writes to the plugin's buffer for
    -- the key, as long as both are called with the plugin's handle of a value that is open to
    -- members.
    pub get_json_string-set_json_string :
        (p q : Plugin) (m : Machine E S) (j : Json)
        → Holds p m j
        → SameMember p q
        → (r r' : Return E S) × (set_json_string E S p m ≡ ok r)
          × (get_json_string E S q r.machine ≡ ok r')
          × (r'.cell ≡ pos 1)
          × (r'.effects ≡ output (q.params 3) (q.params 4) (p.text (p.params 3)) ∷ [])
    unfolding set_json_string
    get_json_string-set_json_string p q m j h same =
        let text = p.text (p.params 3) in
        let v = of_string text in
        let next = stored h same v in
        (
          _,
          _,
          set_member_lem p m j v h,
          get_string_lem q _ _ text next (member_stored j v same h.open_value),
          refl,
          refl,
        )

  push_handle :
      (p : Plugin) (params : ℕ → ℤ) (m : Machine E S) (v : Json)
      → params 1 ≡ p.params 1
      → push E S (record p { params = params }) m v ≡ push E S p m v
  unfolding push with_json push_back
  push_handle p params m v same = rw (push, with_json, same) refl

  -- The three natives that push an integer, a float or a truth value do the same whatever the
  -- parameters after the handle are: the value that the plugin hands over is not used.
  pub push_json_handle :
      (p : Plugin) (params : ℕ → ℤ) (m : Machine E S)
      → params 1 ≡ p.params 1
      → let q : Plugin = record p { params = params } in
        (push_json_int E S q m ≡ push_json_int E S p m)
        × (push_json_float E S q m ≡ push_json_float E S p m)
        × (push_json_bool E S q m ≡ push_json_bool E S p m)
  unfolding push_json_int push_json_float push_json_bool
  push_json_handle p params m same =
      let q : Plugin = record p { params = params } in
      (
        ap (λ c. push E S q m (of_int c)) same ∙ push_handle p params m _ same,
        ap (λ c. push E S q m (json.of_float (S.sp_ctof c))) same ∙ push_handle p params m _ same,
        ap (λ c. push E S q m (json.of_bool (is_set c))) same ∙ push_handle p params m _ same,
      )
