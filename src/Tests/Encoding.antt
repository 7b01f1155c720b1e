-- ===== src/Tests/Encoding.antt =====
-- An encoding of trees as numbers in postfix order, none of them a newline, and the stack machine
-- that reads it back.
use Prim.Native.Nat.{compare, Ordering}
use Prim.Native.Char.{Char, char, code, IsLt, IsScalar}
use text.Mathlib.TextEquality.{Char-path}
use sm_ext_rpc.Base.{
  ◌<◌, ℕ, String, ◌≡◌, refl, Bool, true, false, Option, none, some, List, [], ◌∷◌, ◌++◌, ◌+◌, ◌*◌,
  ◌/◌, ◌%◌, if◌then◌else◌, ◌==◌, Bytes, arith, ap, ◌∙◌,
}
use sm_ext_rpc.Base.Int.{ℤ, pos, negsuc}
use sm_ext_rpc.Tests.Tree.{
  Value, null, bool, int, unsigned, float, str, arr, obj, Items, nil, cons, Members, end, entry,
  reread, reread_items, reread_members, reread_int,
}

abbrev Both : Ordering → Ordering → Type 0
Both Ordering.lt o = IsLt o
Both Ordering.eq _ = ⊥
Both Ordering.gt _ = ⊥

abbrev Scalar : Ordering → Ordering → Ordering → Type 0
Scalar Ordering.lt _ _ = Unit
Scalar Ordering.eq o p = Both o p
Scalar Ordering.gt o p = Both o p

both_dec : (o p : Ordering) → Dec (Both o p)
both_dec Ordering.lt Ordering.lt = yes tt
both_dec Ordering.lt Ordering.eq = no (λ h. h)
both_dec Ordering.lt Ordering.gt = no (λ h. h)
both_dec Ordering.eq _ = no (λ h. h)
both_dec Ordering.gt _ = no (λ h. h)

scalar_dec : (o p q : Ordering) → Dec (Scalar o p q)
scalar_dec Ordering.lt _ _ = yes tt
scalar_dec Ordering.eq o p = both_dec o p
scalar_dec Ordering.gt o p = both_dec o p

IsScalar_dec : (n : ℕ) → Dec (IsScalar n)
IsScalar_dec n = scalar_dec (compare n 55296) (compare 57343 n) (compare n 1114112)

to_char : ℕ → Char
to_char n = elim (IsScalar_dec n) [ yes p ↦ char n p | no _ ↦ "0" ]

to_char-code : (c : Char) → to_char (code c) ≡ c
unfolding to_char
to_char-code (char n p) =
    elim (IsScalar_dec n) as (λ d. elim d [ yes q ↦ char n q | no _ ↦ "0" ] ≡ char n p) [
      | yes q ↦ Char-path (char n q) (char n p) refl
      | no m ↦ absurd (m p)
    ]

-- One number for an instruction and its operand.
abbrev token : ℕ → ℕ → ℕ
token n tag = n * 16 + tag

abbrev flag : Bool → ℕ
flag true = 1
flag false = 0

abbrev encode_int : ℤ → ℕ
encode_int (pos n) = token n 3
encode_int (negsuc n) = token n 4

abbrev encode_text : String → Bytes → Bytes
encode_text String.[] r = token 0 6 ∷ r
encode_text (String.◌∷◌ c s) r = encode_text s (token (code c) 7 ∷ r)

abbrev mutual
  pub encode : Value → Bytes → Bytes
  encode null r = token 0 0 ∷ r
  encode (bool b) r = token (flag b) 1 ∷ r
  encode (int n) r = encode_int n ∷ r
  encode (unsigned n) r = token n 3 ∷ r
  encode (float x) r = token x 3 ∷ r
  encode (str s) r = encode_text s (token 0 8 ∷ r)
  encode (arr vs) r = encode_items vs (token 0 12 ∷ r)
  encode (obj ms) r = encode_members ms (token 0 15 ∷ r)

  pub encode_items : Items → Bytes → Bytes
  encode_items nil r = token 0 9 ∷ r
  encode_items (cons v vs) r = encode_items vs (encode v (token 0 11 ∷ r))

  pub encode_members : Members → Bytes → Bytes
  encode_members end r = token 0 13 ∷ r
  encode_members (entry k v ms) r = encode_members ms (encode_text k (encode v (token 0 14 ∷ r)))

-- The entries of the stack.
data Elem : Type 0 where
  val : Value → Elem
  txt : String → Elem
  its : Items → Elem
  mem : Members → Elem

abbrev push_char : ℕ → List Elem → List Elem
push_char n (txt s ∷ st) = txt (String.◌∷◌ (to_char n) s) ∷ st
push_char n st = st

abbrev as_text : List Elem → List Elem
as_text (txt s ∷ st) = val (str s) ∷ st
as_text st = st

abbrev push_item : List Elem → List Elem
push_item (val v ∷ its vs ∷ st) = its (cons v vs) ∷ st
push_item st = st

abbrev as_array : List Elem → List Elem
as_array (its vs ∷ st) = val (arr vs) ∷ st
as_array st = st

abbrev push_member : List Elem → List Elem
push_member (val v ∷ txt k ∷ mem ms ∷ st) = mem (entry k v ms) ∷ st
push_member st = st

abbrev as_object : List Elem → List Elem
as_object (mem ms ∷ st) = val (obj ms) ∷ st
as_object st = st

step : ℕ → ℕ → List Elem → List Elem
step tag n st =
    if tag == 0
    then val null ∷ st
    else if tag == 1
    then val (bool (n == 1)) ∷ st
    else if tag == 3
    then val (unsigned n) ∷ st
    else if tag == 4
    then val (int (negsuc n)) ∷ st
    else if tag == 6
    then txt "" ∷ st
    else if tag == 7
    then push_char n st
    else if tag == 8
    then as_text st
    else if tag == 9
    then its nil ∷ st
    else if tag == 11
    then push_item st
    else if tag == 12
    then as_array st
    else if tag == 13
    then mem end ∷ st
    else if tag == 14
    then push_member st
    else if tag == 15
    then as_object st
    else st

run : Bytes → List Elem → List Elem
run [] st = st
run (t ∷ ts) st = run ts (step (t % 16) (t / 16) st)

abbrev result : List Elem → Option Value
result (val v ∷ []) = some v
result _ = none

pub parse : Bytes → Option Value
unfolding run step IsScalar_dec scalar_dec both_dec to_char
parse body = result (run body [])

run-token :
    (n tag : ℕ) (r : Bytes) (st : List Elem)
    → tag < 16
    → run (token n tag ∷ r) st ≡ run r (step tag n st)
unfolding run
run-token n tag r st h = rw (mod_token, div_token)
  where
    mod_token : token n tag % 16 ≡ tag
    mod_token = omega arith

    div_token : token n tag / 16 ≡ n
    div_token = omega arith

run_text : (s : String) (r : Bytes) (st : List Elem) → run (encode_text s r) st ≡ run r (txt s ∷ st)
unfolding step
run_text String.[] r st = run-token 0 6 r st (omega arith)
run_text (String.◌∷◌ c s) r st =
    run_text s (token (code c) 7 ∷ r) st
    ∙ run-token (code c) 7 r (txt s ∷ st) (omega arith)
    ∙ ap (λ d. run r (txt (String.◌∷◌ d s) ∷ st)) (to_char-code c)

run_bool :
    (b : Bool) (r : Bytes) (st : List Elem)
    → run (token (flag b) 1 ∷ r) st ≡ run r (val (bool b) ∷ st)
unfolding step
run_bool true r st = run-token 1 1 r st (omega arith)
run_bool false r st = run-token 0 1 r st (omega arith)

run_int :
    (n : ℤ) (r : Bytes) (st : List Elem)
    → run (encode_int n ∷ r) st ≡ run r (val (reread_int n) ∷ st)
unfolding step
run_int (pos n) r st = run-token n 3 r st (omega arith)
run_int (negsuc n) r st = run-token n 4 r st (omega arith)

-- The machine leaves the value that an encoding reads back as on top of its stack.
mutual
  unfolding step

  run-encode :
      (v : Value) (r : Bytes) (st : List Elem) → run (encode v r) st ≡ run r (val (reread v) ∷ st)
  run-encode null r st = run-token 0 0 r st (omega arith)
  run-encode (bool b) r st = run_bool b r st
  run-encode (int n) r st = run_int n r st
  run-encode (unsigned n) r st = run-token n 3 r st (omega arith)
  run-encode (float x) r st = run-token x 3 r st (omega arith)
  run-encode (str s) r st =
      run_text s (token 0 8 ∷ r) st ∙ run-token 0 8 r (txt s ∷ st) (omega arith)
  run-encode (arr vs) r st =
      run-encode_items vs (token 0 12 ∷ r) st
      ∙ run-token 0 12 r (its (reread_items vs) ∷ st) (omega arith)
  run-encode (obj ms) r st =
      run-encode_members ms (token 0 15 ∷ r) st
      ∙ run-token 0 15 r (mem (reread_members ms) ∷ st) (omega arith)

  run-encode_items :
      (vs : Items) (r : Bytes) (st : List Elem)
      → run (encode_items vs r) st ≡ run r (its (reread_items vs) ∷ st)
  run-encode_items nil r st = run-token 0 9 r st (omega arith)
  run-encode_items (cons v vs) r st =
      run-encode_items vs (encode v (token 0 11 ∷ r)) st
      ∙ run-encode v (token 0 11 ∷ r) (its (reread_items vs) ∷ st)
      ∙ run-token 0 11 r (val (reread v) ∷ its (reread_items vs) ∷ st) (omega arith)

  run-encode_members :
      (ms : Members) (r : Bytes) (st : List Elem)
      → run (encode_members ms r) st ≡ run r (mem (reread_members ms) ∷ st)
  run-encode_members end r st = run-token 0 13 r st (omega arith)
  run-encode_members (entry k v ms) r st =
      run-encode_members ms (encode_text k (encode v (token 0 14 ∷ r))) st
      ∙ run_text k (encode v (token 0 14 ∷ r)) (mem (reread_members ms) ∷ st)
      ∙ run-encode v (token 0 14 ∷ r) (txt k ∷ mem (reread_members ms) ∷ st)
      ∙ run-token 0 14 r (val (reread v) ∷ txt k ∷ mem (reread_members ms) ∷ st) (omega arith)

encode_text-append : (s : String) (q r : Bytes) → encode_text s q ++ r ≡ encode_text s (q ++ r)
encode_text-append String.[] q r = refl
encode_text-append (String.◌∷◌ c s) q r = encode_text-append s (token (code c) 7 ∷ q) r

mutual
  encode-append : (v : Value) (q r : Bytes) → encode v q ++ r ≡ encode v (q ++ r)
  encode-append null q r = refl
  encode-append (bool b) q r = refl
  encode-append (int n) q r = refl
  encode-append (unsigned n) q r = refl
  encode-append (float x) q r = refl
  encode-append (str s) q r = encode_text-append s (token 0 8 ∷ q) r
  encode-append (arr vs) q r = encode_items-append vs (token 0 12 ∷ q) r
  encode-append (obj ms) q r = encode_members-append ms (token 0 15 ∷ q) r

  encode_items-append :
      (vs : Items) (q r : Bytes) → encode_items vs q ++ r ≡ encode_items vs (q ++ r)
  encode_items-append nil q r = refl
  encode_items-append (cons v vs) q r =
      encode_items-append vs (encode v (token 0 11 ∷ q)) r
      ∙ ap (encode_items vs) (encode-append v (token 0 11 ∷ q) r)

  encode_members-append :
      (ms : Members) (q r : Bytes) → encode_members ms q ++ r ≡ encode_members ms (q ++ r)
  encode_members-append end q r = refl
  encode_members-append (entry k v ms) q r =
      encode_members-append ms (encode_text k (encode v (token 0 14 ∷ q))) r
      ∙ ap (encode_members ms) (
          encode_text-append k (encode v (token 0 14 ∷ q)) r
          ∙ ap (encode_text k) (encode-append v (token 0 14 ∷ q) r))

mutual
  encode-reread : (v : Value) (r : Bytes) → encode (reread v) r ≡ encode v r
  encode-reread null r = refl
  encode-reread (bool b) r = refl
  encode-reread (int (pos n)) r = refl
  encode-reread (int (negsuc n)) r = refl
  encode-reread (unsigned n) r = refl
  encode-reread (float x) r = refl
  encode-reread (str s) r = refl
  encode-reread (arr vs) r = encode_items-reread_items vs (token 0 12 ∷ r)
  encode-reread (obj ms) r = encode_members-reread_members ms (token 0 15 ∷ r)

  encode_items-reread_items :
      (vs : Items) (r : Bytes) → encode_items (reread_items vs) r ≡ encode_items vs r
  encode_items-reread_items nil r = refl
  encode_items-reread_items (cons v vs) r =
      encode_items-reread_items vs (encode (reread v) (token 0 11 ∷ r))
      ∙ ap (encode_items vs) (encode-reread v (token 0 11 ∷ r))

  encode_members-reread_members :
      (ms : Members) (r : Bytes) → encode_members (reread_members ms) r ≡ encode_members ms r
  encode_members-reread_members end r = refl
  encode_members-reread_members (entry k v ms) r =
      encode_members-reread_members ms (encode_text k (encode (reread v) (token 0 14 ∷ r)))
      ∙ ap (λ b. encode_members ms (encode_text k b)) (encode-reread v (token 0 14 ∷ r))

pub parse-dump : (v : Value) → parse (encode v [] ++ 10 ∷ []) ≡ some (reread v)
unfolding parse
parse-dump v = ap parse (encode-append v [] (10 ∷ [])) ∙ ap result (run-encode v (10 ∷ []) [])

pub dump-reread : (v : Value) → encode (reread v) [] ≡ encode v []
dump-reread v = encode-reread v []
