-- ===== src/Natives/Json/Pushed.antt =====
-- src/smn_json.cpp: what plugins get back of the arrays that they fill, and what reading a position
-- does to an array.
use sm_ext_rpc.Base.{
  String, ℕ, zero, suc, ◌+◌, ◌-◌, none, some, [], ◌∷◌, Result, ok, throw, fault, ◌≡◌, ◌≢◌, refl,
  inl, if◌then◌else◌, get_elem?, ltb, arith, ap, ◌∙◌,
}
use sm_ext_rpc.Base.Int.{pos}
use sm_ext_rpc.Json.{as_int}
use sm_ext_rpc.Json.Laws.{of_string-is_string, IsLawful}
use sm_ext_rpc.Json.Arrays.{
  IsListOpen, IsArrayLawful, append-IsListOpen, size-elements, size-append, get_elem?-snoc,
}
use sm_ext_rpc.Processor.{Env}
use sm_ext_rpc.Natives.{
  output, Plugin, Cell, Address, json_type, SourceMod, Machine, Return, Report, with_json, put,
}
use sm_ext_rpc.Natives.Json.{put_text, attempt, to_int}
use sm_ext_rpc.Natives.Json.Arrays.{
  push_back, push, push_json_string, get_array_string, cell_of_size, pad, filled, element, after,
  get_element, get_array_int, get_array_size,
}

-- The size of an array once a position of it was read.
abbrev pub reached : ℕ → ℕ → ℕ
reached size i = if ltb i size then size else suc i

-- Another call of the same plugin with the same handle.
pub record SameList (p q : Plugin) : Type 0 where
  pub identity : q.identity ≡ p.identity
  pub handle : q.params 1 ≡ p.params 1

module _ (E : Env) (S : SourceMod (E.json)) where
  open E use {json}
  open json use {Json}

  -- The plugin's first parameter is its handle of `j`, a null or an array.
  pub record HoldsList (plugin : Plugin) (m : Machine E S) (j : Json) : Type 0 where
    pub object : Address
    pub readable : S.read json_type (plugin.params 1) plugin.identity m.table ≡ inl object
    pub alive : m.jsons object ≡ some j
    pub open_value : IsListOpen json j

module _ (E : Env) (S : SourceMod (E.json)) (L : IsLawful E.json) (A : IsArrayLawful E.json) where
  open E use {json}
  open json use {Json, size, elements, append, nullptr, of_string}

  size-pad : (n : ℕ) (j : Json) → IsListOpen json j → size (pad E S n j) ≡ n + size j
  unfolding pad
  size-pad zero j h = omega arith
  size-pad (suc n) j h =
      let later = size-pad n (append j nullptr) (append-IsListOpen json L A j nullptr h) in
      omega (arith, later, size-append json L A j nullptr h)

  pad-IsListOpen : (n : ℕ) (j : Json) → IsListOpen json j → IsListOpen json (pad E S n j)
  unfolding pad
  pad-IsListOpen zero j h = h
  pad-IsListOpen (suc n) j h =
      pad-IsListOpen n (append j nullptr) (append-IsListOpen json L A j nullptr h)

  size-filled : (j : Json) (i : ℕ) → IsListOpen json j → size (filled E S j i) ≡ reached (size j) i
  unfolding filled
  size-filled j i h = let padded = size-pad (suc i - size j) j h in ground (arith, padded)

  stored :
      {p q : Plugin} {m : Machine E S} {j : Json} (h : HoldsList E S p m j) (same : SameList p q)
      (v : Json)
      → IsListOpen json v
      → HoldsList E S q (put E S h.object v m) v
  stored {p} {q} {m} {j} h same v ok_value = record {
    object = h.object;
    readable = cc (same.handle, same.identity, h.readable);
    alive = ground arith;
    open_value = ok_value;
  }

  size_lem :
      (q : Plugin) (m : Machine E S) (j : Json)
      → HoldsList E S q m j
      → get_array_size E S q m
        ≡ ok (record { cell = cell_of_size (size j); effects = []; machine = m })
  unfolding get_array_size with_json
  size_lem q m j h = rw (get_array_size, with_json, h.readable, h.alive) refl

  -- What a native does that converts a value: it returns, and the machine is the same.
  attempt_lem :
      (r : Result Cell) (line : Report) (m : Machine E S)
      → r ≢ fault
      → (out : Return E S) × (attempt E S r line m ≡ ok out) × (out.machine ≡ m)
  unfolding attempt
  attempt_lem (ok cell) line m d = (_, refl, refl)
  attempt_lem (throw e) line m d = (_, refl, refl)
  attempt_lem fault line m d = absurd (d refl)

  element_lem :
      (j : Json) (i : ℕ)
      → IsListOpen json j
      → element E S j (pos i)
        ≡ ok (elim (get_elem? (elements j) i) [ some v ↦ v | none ↦ nullptr ], filled E S j i)
  unfolding element
  element_lem j i h = rw (element, h) refl

  filled-IsListOpen : (j : Json) (i : ℕ) → IsListOpen json j → IsListOpen json (filled E S j i)
  unfolding filled
  filled-IsListOpen j i h = pad-IsListOpen (suc i - size j) j h

  to_int-defined : (v : Json) → to_int E S v ≢ fault
  unfolding as_int
  to_int-defined v = ground arith

  -- Reading a position with GetArrayInt in a value that is null or an array returns to the plugin,
  -- and GetArraySize after it gives the size before if the position was below it, else one more
  -- than the position: a read past the end makes the array longer.
  pub get_array_int-get_array_size :
      (p q : Plugin) (m : Machine E S) (j : Json) (i : ℕ)
      → HoldsList E S p m j
      → SameList p q
      → p.params 2 ≡ pos i
      → (r r' : Return E S) × (get_array_int E S p m ≡ ok r)
        × (get_array_size E S q r.machine ≡ ok r')
        × (r'.cell ≡ cell_of_size (reached (size j) i))
  unfolding get_array_int get_element with_json after
  get_array_int-get_array_size p q m j i h same position =
      let v : Json = elim (get_elem? (elements j) i) [ some v ↦ v | none ↦ nullptr ] in
      let m' : Machine E S = put E S h.object (filled E S j i) m in
      let (out, returns, machine) =
        attempt_lem (to_int E S v) Report.not_an_int m' (to_int-defined v) in
      let after_read = stored h same (filled E S j i) (filled-IsListOpen j i h.open_value) in
      (
        out,
        record { cell = cell_of_size (size (filled E S j i)); effects = []; machine = out.machine },
        rw
            (
              get_array_int,
              get_element,
              with_json,
              h.readable,
              h.alive,
              position,
              element_lem j i h.open_value,
              after,
            )
            returns,
        rw machine (size_lem q m' (filled E S j i) after_read),
        ap cell_of_size (size-filled j i h.open_value),
      )

  push_string_lem :
      (p : Plugin) (m : Machine E S) (j : Json) (h : HoldsList E S p m j)
      → push_json_string E S p m
        ≡ ok (record {
          cell = pos 1;
          effects = [];
          machine = put E S h.object (append j (of_string (p.text (p.params 2)))) m;
        })
  unfolding push_json_string push with_json push_back
  push_string_lem p m j h =
      rw (push_json_string, push, with_json, h.readable, h.alive, push_back, h.open_value) refl

  -- The last value of an array is found at the position before its size.
  last_lem :
      (j v : Json)
      → IsListOpen json j
      → element E S (append j v) (pos (size j)) ≡ ok (v, filled E S (append j v) (size j))
  last_lem j v h =
      let found : get_elem? (elements (append j v)) (size j) ≡ some v =
        rw (A.elements-append j v h, size-elements json L A j h) (get_elem?-snoc (elements j) v) in
      element_lem (append j v) (size j) (append-IsListOpen json L A j v h) ∙ rw found refl

  get_string_lem :
      (q : Plugin) (m : Machine E S) (j j' : Json) (text : String) (i : Cell)
      (h : HoldsList E S q m j)
      → q.params 2 ≡ i
      → element E S j i ≡ ok (of_string text, j')
      → get_array_string E S q m
        ≡ ok (record {
          cell = pos 1;
          effects = output (q.params 3) (q.params 4) text ∷ [];
          machine = put E S h.object j' m;
        })
  unfolding get_array_string with_json put_text
  get_string_lem q m j j' text i h position e =
      rw
        (
          get_array_string,
          with_json,
          h.readable,
          h.alive,
          position,
          e,
          put_text,
          of_string-is_string json L text,
          L.get_string-of_string text,
        )
        refl

  -- A text that PushString appends to a value that is null or an array is what GetArrayString
  -- writes to the plugin's buffer for the position that was the size before, and GetArraySize then
  -- gives one more than that size; the JSON library meets the documented laws of objects and
  -- arrays.
  pub push_json_string-get_array_string :
      (p q : Plugin) (m : Machine E S) (j : Json)
      → HoldsList E S p m j
      → SameList p q
      → q.params 2 ≡ pos (size j)
      → (r r' r'' : Return E S) × (push_json_string E S p m ≡ ok r)
        × (get_array_string E S q r.machine ≡ ok r')
        × (r'.effects ≡ output (q.params 3) (q.params 4) (p.text (p.params 2)) ∷ [])
        × (get_array_size E S q r'.machine ≡ ok r'')
        × (r''.cell ≡ cell_of_size (suc (size j)))
  push_json_string-get_array_string p q m j h same position =
      let v = of_string (p.text (p.params 2)) in
      let j' = append j v in
      let j'' = filled E S j' (size j) in
      let open_list = append-IsListOpen json L A j v h.open_value in
      let pushed = stored h same j' open_list in
      let size_after : size j'' ≡ suc (size j) =
        ground (arith, size-filled j' (size j) open_list, size-append json L A j v h.open_value) in
      let read =
        stored pushed (record { identity = refl; handle = refl }) j''
          (filled-IsListOpen j' (size j) open_list) in
      (
        _,
        _,
        _,
        push_string_lem p m j h,
        get_string_lem q _ j' j'' _ (pos (size j)) pushed position (last_lem j v h.open_value),
        refl,
        size_lem q _ j'' read,
        ap cell_of_size size_after,
      )
