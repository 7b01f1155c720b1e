-- ===== src/Json/Wire.antt =====
-- Values that cross the wire: `dump`, the packet terminator, and `parse` at the other end. The
-- value read back is not the same value: a `number_integer` that is not negative comes back as a
-- `number_unsigned`, and so does a whole `number_float`, whose text has no fraction. Texts, arrays,
-- objects and nulls come back as such, and integers as integers.
use sm_ext_rpc.Base.Int.{ℤ}
use sm_ext_rpc.Json.Laws.{IsLawful, touch-is_object, is_object-IsOpen}
use sm_ext_rpc.Base.{
  List, Option, refl, none, ◌||◌, String, some, [], ◌∷◌, ◌++◌, Bytes, ℕ, ◌≡◌, true,
}
use sm_ext_rpc.Json.{
  is_number_integer, is_string, is_array, is_null, member, is_object, JsonLib, touch, touch_all,
}

-- `dump() + PACKET_TERMINATOR`, as it is sent and as the other end hands it to `parse`.
abbrev pub newline : ℕ
newline = 10

abbrev pub packet : Bytes → Bytes
packet body = body ++ newline ∷ []

-- What `parse` makes of the text of a value. The values in `IsPlain` are those with a text in JSON's
-- grammar that stays the same when it is read and written: a number that is infinite or not a
-- number has none.
pub record IsReadBack (J : JsonLib) (reread : J.Json → J.Json) : Type 1 where
  pub IsPlain : J.Json → Type 0
  pub plain-nullptr : IsPlain J.nullptr
  pub plain-of_string : (s : String) → IsPlain (J.of_string s)
  pub plain-of_int : (n : ℤ) → IsPlain (J.of_int n)
  pub plain-set :
      (j : J.Json) (k : String) (v : J.Json)
      → (is_null J j || is_object J j) ≡ true
      → IsPlain j
      → IsPlain v
      → IsPlain (J.set j k v)
  pub plain-member :
      (j : J.Json) (k : String) → is_object J j ≡ true → IsPlain j → IsPlain (member J j k)
  pub plain-reread : (j : J.Json) → IsPlain j → IsPlain (reread j)
  pub parse-dump : (j : J.Json) → IsPlain j → J.parse (packet (J.dump j)) ≡ some (reread j)
  pub dump-reread : (j : J.Json) → IsPlain j → J.dump (reread j) ≡ J.dump j
  pub member-reread :
      (j : J.Json) (k : String)
      → is_object J j ≡ true
      → member J (reread j) k ≡ reread (member J j k)
  pub null-reread : (j : J.Json) → is_null J (reread j) ≡ is_null J j
  pub object-reread : (j : J.Json) → is_object J (reread j) ≡ is_object J j
  pub array-reread : (j : J.Json) → is_array J (reread j) ≡ is_array J j
  pub string-reread : (j : J.Json) → is_string J (reread j) ≡ is_string J j
  pub integer-reread :
      (j : J.Json) → is_number_integer J j ≡ true → is_number_integer J (reread j) ≡ true
  pub get_string-reread :
      (j : J.Json) → is_string J j ≡ true → J.get_string (reread j) ≡ J.get_string j
  pub get_int-reread :
      (j : J.Json) → is_number_integer J j ≡ true → J.get_int (reread j) ≡ J.get_int j

module _ (J : JsonLib) (L : IsLawful J) {reread : J.Json → J.Json} (W : IsReadBack J reread) where
  touch-plain :
      (j : J.Json) (k : String) (o : Option J.Json)
      → J.find j k ≡ o
      → is_object J j ≡ true
      → W.IsPlain j
      → W.IsPlain (touch J j k)
  unfolding touch
  touch-plain j k none e h plain =
      rw (touch, e) (W.plain-set j k J.nullptr (is_object-IsOpen J L j h) plain W.plain-nullptr)
  touch-plain j k (some v) e h plain = rw (touch, e) plain

  pub touch_all-plain :
      (ks : List String) (j : J.Json)
      → is_object J j ≡ true
      → W.IsPlain j
      → W.IsPlain (touch_all J ks j)
  unfolding touch_all
  touch_all-plain [] j h plain = plain
  touch_all-plain (k ∷ ks) j h plain =
      touch_all-plain ks (touch J j k) (touch-is_object J L j k h) (touch-plain j k _ refl h plain)
