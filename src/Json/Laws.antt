-- ===== src/Json/Laws.antt =====
-- The documented laws of the JSON library that the theorems rest on, and what follows from them
-- for the access operators.
use sm_ext_rpc.Base.{
  ap, ◌++◌, [], ◌∷◌, ◌∙◌, ◌∙◌, ◌∷◌, List, String, ◌≡◌, refl, true, false, ◌||◌, none, some, ok,
  throw, domain_error, arith, length, if◌then◌else◌, str_eq, eq_iff,
}
use sm_ext_rpc.Base.Int.{ℤ}
use sm_ext_rpc.Json.{
  touch_all, JsonLib, Kind, InInt, is_null, is_object, is_array, is_string, is_number,
  is_number_integer, member, touch, at, as_string, as_int,
}

pub record IsLawful (J : JsonLib) : Type 0 where
  pub kind-nullptr : J.kind J.nullptr ≡ Kind.null
  pub kind-of_string : (s : String) → J.kind (J.of_string s) ≡ Kind.string
  pub kind-of_int : (n : ℤ) → J.kind (J.of_int n) ≡ Kind.number_integer
  pub get_string-of_string : (s : String) → J.get_string (J.of_string s) ≡ s
  pub get_int-of_int : (n : ℤ) → InInt n → J.get_int (J.of_int n) ≡ n
  pub find-null : (j : J.Json) (k : String) → J.kind j ≡ Kind.null → J.find j k ≡ none
  pub kind-set :
      (j : J.Json) (k : String) (v : J.Json)
      → (is_null J j || is_object J j) ≡ true
      → J.kind (J.set j k v) ≡ Kind.object
  pub find-set :
      (j : J.Json) (k : String) (v : J.Json) (i : String)
      → (is_null J j || is_object J j) ≡ true
      → J.find (J.set j k v) i ≡ (if str_eq k i then some v else J.find j i)
  pub size-array : (j : J.Json) → J.kind j ≡ Kind.array → J.size j ≡ length (J.elements j)

-- A value that `operator[]` with a key accepts.
abbrev pub IsOpen : (J : JsonLib) → J.Json → Type 0
IsOpen J j = (is_null J j || is_object J j) ≡ true

module _ (J : JsonLib) (L : IsLawful J) where
  pub nullptr-is_null : is_null J J.nullptr ≡ true
  unfolding is_null
  nullptr-is_null = rw (L.kind-nullptr, is_null) refl

  pub nullptr-IsOpen : IsOpen J J.nullptr
  unfolding is_null
  nullptr-IsOpen = rw (L.kind-nullptr, is_null) refl

  pub set-is_object :
      (j : J.Json) (k : String) (v : J.Json) → IsOpen J j → is_object J (J.set j k v) ≡ true
  unfolding is_object
  set-is_object j k v h = ground (arith, L.kind-set j k v h)

  pub is_object-IsOpen : (j : J.Json) → is_object J j ≡ true → IsOpen J j
  is_object-IsOpen j h = ground arith

  pub set-IsOpen : (j : J.Json) (k : String) (v : J.Json) → IsOpen J j → IsOpen J (J.set j k v)
  set-IsOpen j k v h = is_object-IsOpen _ (set-is_object j k v h)

  pub member-set :
      (j : J.Json) (k : String) (v : J.Json) (i : String)
      → IsOpen J j
      → member J (J.set j k v) i ≡ (if str_eq k i then v else member J j i)
  unfolding member
  member-set j k v i h = ground (arith, L.find-set j k v i h)

  pub touch-is_object :
      (j : J.Json) (k : String) → is_object J j ≡ true → is_object J (touch J j k) ≡ true
  unfolding touch
  touch-is_object j k h = ground (arith, set-is_object j k J.nullptr)

  -- Reading a member leaves the value of every member.
  pub member-touch :
      (j : J.Json) (k i : String) → IsOpen J j → member J (touch J j k) i ≡ member J j i
  unfolding touch member
  member-touch j k i h = ground (arith, L.find-set j k J.nullptr i h, eq_iff k i)

  pub touch_all-is_object :
      (ks : List String) (j : J.Json) → is_object J j ≡ true → is_object J (touch_all J ks j) ≡ true
  unfolding touch_all
  touch_all-is_object [] j h = h
  touch_all-is_object (k ∷ ks) j h = touch_all-is_object ks _ (touch-is_object j k h)

  pub member-touch_all :
      (ks : List String) (j : J.Json) (i : String)
      → is_object J j ≡ true
      → member J (touch_all J ks j) i ≡ member J j i
  unfolding touch_all
  member-touch_all [] j i h = refl
  member-touch_all (k ∷ ks) j i h =
      member-touch_all ks _ i (touch-is_object j k h) ∙ member-touch j k i (is_object-IsOpen j h)

  -- After a member was read it is there.
  pub find-touch_self :
      (j : J.Json) (k : String) → IsOpen J j → J.find (touch J j k) k ≡ some (member J j k)
  unfolding touch member
  find-touch_self j k h = ground (arith, L.find-set j k J.nullptr k h, eq_iff k k)

  pub at_object : (j : J.Json) (k : String) → IsOpen J j → at J j k ≡ ok (member J j k)
  unfolding at
  at_object j k h = rw h

  pub at_scalar :
      (j : J.Json) (k : String)
      → (is_null J j || is_object J j) ≡ false
      → at J j k ≡ throw domain_error
  unfolding at
  at_scalar j k h = rw h

  pub of_string-is_string : (s : String) → is_string J (J.of_string s) ≡ true
  unfolding is_string
  of_string-is_string s = rw (L.kind-of_string s, is_string) refl

  pub of_string-is_null : (s : String) → is_null J (J.of_string s) ≡ false
  unfolding is_null
  of_string-is_null s = rw (L.kind-of_string s, is_null) refl

  pub as_string-of_string : (s : String) → as_string J (J.of_string s) ≡ ok s
  unfolding as_string
  as_string-of_string s = rw (of_string-is_string s, L.get_string-of_string s) refl

  pub of_int-is_number_integer : (n : ℤ) → is_number_integer J (J.of_int n) ≡ true
  unfolding is_number_integer
  of_int-is_number_integer n = rw (L.kind-of_int n, is_number_integer) refl

  pub of_int-is_null : (n : ℤ) → is_null J (J.of_int n) ≡ false
  unfolding is_null
  of_int-is_null n = rw (L.kind-of_int n, is_null) refl

  pub as_int-of_int : (n : ℤ) → InInt n → as_int J (J.of_int n) ≡ ok n
  unfolding as_int is_number
  as_int-of_int n h = ground (arith, L.kind-of_int n, L.get_int-of_int n h)

  -- An object is no array and no string is null.
  pub is_array_object : (j : J.Json) → is_object J j ≡ true → is_array J j ≡ false
  unfolding is_object is_array
  is_array_object j h = ground arith

  pub is_object_null : (j : J.Json) → is_null J j ≡ true → is_object J j ≡ false
  unfolding is_null is_object
  is_object_null j h = ground arith

  pub is_null_string : (j : J.Json) → is_string J j ≡ true → is_null J j ≡ false
  unfolding is_string is_null
  is_null_string j h = ground arith

  pub is_null_integer : (j : J.Json) → is_number_integer J j ≡ true → is_null J j ≡ false
  unfolding is_number_integer is_null
  is_null_integer j h = ground arith

  pub find-touch_all_last :
      (ks : List String) (j : J.Json) (k : String)
      → is_object J j ≡ true
      → J.find (touch_all J (ks ++ k ∷ []) j) k ≡ some (member J j k)
  unfolding touch_all
  find-touch_all_last [] j k h = find-touch_self j k (is_object-IsOpen j h)
  find-touch_all_last (i ∷ ks) j k h =
      find-touch_all_last ks _ k (touch-is_object j i h)
      ∙ ap some (member-touch j i k (is_object-IsOpen j h))

  -- A null has no members.
  pub member_null : (j : J.Json) (k : String) → is_null J j ≡ true → is_null J (member J j k) ≡ true
  unfolding is_null member
  member_null j k h = ground (arith, L.find-null j k, L.kind-nullptr)
