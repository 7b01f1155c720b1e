-- ===== src/Tests/Library.antt =====
-- The trees as an instance of the JSON library, and a stand-in for HMAC-SHA256.
use Prim.Native.Char.{code}
use sm_ext_rpc.Base.{
  ℕ, zero, suc, String, ◌≡◌, refl, Bool, true, false, none, some, [], ◌∷◌, ◌+◌, ◌%◌, length, All,
  str_eq, if◌then◌else◌, arith, Bytes, eq_iff, ◌||◌,
}
use sm_ext_rpc.Base.Int.{pos, negsuc}
use sm_ext_rpc.Json.{
  JsonLib, Kind, is_object, is_null, is_string, is_number, is_number_integer, is_array, member,
}
use sm_ext_rpc.Json.Laws.{IsLawful}
use sm_ext_rpc.Json.Wire.{IsReadBack}
use sm_ext_rpc.Crypto.Hex.{IsSha256, IsByte}
use sm_ext_rpc.Tests.Tree
use sm_ext_rpc.Tests.Tree.{
  Value, null, bool, int, unsigned, float, str, arr, obj, Items, nil, cons, Members, end, entry,
  reread, reread_members, kind, find, find_member, set, set_member,
}
use sm_ext_rpc.Tests.Encoding.{encode, parse, parse-dump, dump-reread}

abbrev pub tree_json : JsonLib
tree_json = record {
  Json = Value;
  Float = ℕ;
  kind = kind;
  nullptr = null;
  of_string = str;
  of_int = int;
  of_bool = bool;
  of_float = float;
  get_string = Tree.get_string;
  get_int = Tree.get_int;
  get_bool = Tree.get_bool;
  get_float = Tree.get_float;
  find = find;
  set = set;
  elements = Tree.elements;
  entries = Tree.entries;
  size = Tree.size;
  append = Tree.append;
  dump = λ v. encode v [];
  parse = parse;
}

kind-set : (v : Value) (k : String) (w : Value) → kind (set v k w) ≡ Kind.object
kind-set (obj ms) k w = refl
kind-set _ k w = refl

find_member-set_member :
    (ms : Members) (k : String) (v : Value) (i : String)
    → find_member (set_member ms k v) i ≡ (if str_eq k i then some v else find_member ms i)
find_member-set_member end k v i = ground arith
find_member-set_member (entry j w ms) k v i =
    ground (arith, eq_iff k i, eq_iff j k, eq_iff j i, find_member-set_member ms k v i)

find-set :
    (j : Value) (k : String) (v : Value) (i : String)
    → (is_null tree_json j || is_object tree_json j) ≡ true
    → find (set j k v) i ≡ (if str_eq k i then some v else find j i)
unfolding is_null is_object
find-set null k v i h = ground arith
find-set (obj ms) k v i h = find_member-set_member ms k v i
find-set _ k v i h = cc

find-null : (j : Value) (k : String) → kind j ≡ Kind.null → find j k ≡ none
find-null null k h = refl
find-null (obj ms) k h = cc
find-null _ k h = refl

size-array : (j : Value) → kind j ≡ Kind.array → Tree.size j ≡ length (Tree.elements j)
size-array (arr vs) h = refl
size-array null h = cc
size-array (obj ms) h = cc
size-array _ h = cc

pub tree_json-IsLawful : IsLawful tree_json
tree_json-IsLawful = record {
  kind-nullptr = refl;
  kind-of_string = λ s. refl;
  kind-of_int = λ n. refl;
  get_string-of_string = λ s. refl;
  get_int-of_int = λ n h. refl;
  find-null = find-null;
  kind-set = λ j k v h. kind-set j k v;
  find-set = find-set;
  size-array = size-array;
}

find_member-reread_members :
    (ms : Members) (k : String)
    → find_member (reread_members ms) k
      ≡ elim (find_member ms k) [ none ↦ none | some v ↦ some (reread v) ]
find_member-reread_members end k = refl
find_member-reread_members (entry j v ms) k = ground (arith, find_member-reread_members ms k)

member-reread :
    (j : Value) (k : String)
    → is_object tree_json j ≡ true
    → member tree_json (reread j) k ≡ reread (member tree_json j k)
unfolding is_object member
member-reread (obj ms) k h = ground (arith, find_member-reread_members ms k)
member-reread (int (pos n)) k h = cc
member-reread (int (negsuc n)) k h = cc
member-reread null k h = cc
member-reread _ k h = cc

-- A test that tells no number from another.
same_kind :
    (P : Kind → Bool)
    → P Kind.number_integer ≡ P Kind.number_unsigned
    → P Kind.number_float ≡ P Kind.number_unsigned
    → (j : Value) → P (kind (reread j)) ≡ P (kind j)
same_kind P e f null = refl
same_kind P e f (int (pos n)) = ground (arith, e)
same_kind P e f (int (negsuc n)) = refl
same_kind P e f (float x) = ground (arith, f)
same_kind P e f _ = refl

integer-reread :
    (j : Value)
    → is_number_integer tree_json j ≡ true
    → is_number_integer tree_json (reread j) ≡ true
unfolding is_number_integer
integer-reread (int (pos n)) h = refl
integer-reread (int (negsuc n)) h = refl
integer-reread (float x) h = refl
integer-reread null h = h
integer-reread _ h = h

get_string-reread :
    (j : Value) → is_string tree_json j ≡ true → Tree.get_string (reread j) ≡ Tree.get_string j
unfolding is_string
get_string-reread (str s) h = refl
get_string-reread (int (pos n)) h = cc
get_string-reread (int (negsuc n)) h = cc
get_string-reread _ h = cc

get_int-reread :
    (j : Value) → is_number_integer tree_json j ≡ true → Tree.get_int (reread j) ≡ Tree.get_int j
get_int-reread (int (pos n)) h = refl
get_int-reread (int (negsuc n)) h = refl
get_int-reread null h = refl
get_int-reread _ h = refl

pub tree_json-IsReadBack : IsReadBack tree_json reread
unfolding is_null is_object is_array is_string is_number is_number_integer
tree_json-IsReadBack = record {
  IsPlain = λ j. Unit;
  plain-nullptr = tt;
  plain-of_string = λ s. tt;
  plain-of_int = λ n. tt;
  plain-set = λ j k v h plain plain'. tt;
  plain-member = λ j k h plain. tt;
  plain-reread = λ j plain. tt;
  parse-dump = λ j plain. parse-dump j;
  dump-reread = λ j plain. dump-reread j;
  member-reread = member-reread;
  null-reread = same_kind (λ k. elim k [ Kind.null ↦ true | _ ↦ false ]) refl refl;
  object-reread = same_kind (λ k. elim k [ Kind.object ↦ true | _ ↦ false ]) refl refl;
  array-reread = same_kind (λ k. elim k [ Kind.array ↦ true | _ ↦ false ]) refl refl;
  string-reread = same_kind (λ k. elim k [ Kind.string ↦ true | _ ↦ false ]) refl refl;
  integer-reread = integer-reread;
  get_string-reread = get_string-reread;
  get_int-reread = get_int-reread;
}

-- Each of these trees has a text that can be read back.
pub tree_plain : (j : Value) → tree_json-IsReadBack.IsPlain j
unfolding tree_json-IsReadBack
tree_plain j = tt

abbrev sum : Bytes → ℕ
sum [] = 0
sum (b ∷ bs) = b + sum bs

abbrev codes : String → Bytes
codes (String.◌∷◌ first rest) = code first ∷ codes rest
codes String.[] = []

abbrev zeros : ℕ → Bytes
zeros zero = []
zeros (suc n) = 0 ∷ zeros n

-- A checksum of the message and one of the key, as a code of 32 bytes.
pub checksum : String → Bytes → Bytes
checksum key message = (sum message % 256) ∷ (sum (codes key) % 256) ∷ zeros 30

zeros-IsByte : (n : ℕ) → All IsByte (zeros n)
zeros-IsByte zero = tt
zeros-IsByte (suc n) = (omega arith, zeros-IsByte n)

pub checksum-IsSha256 : IsSha256 checksum
unfolding checksum
checksum-IsSha256 = record {
  size = λ key message. refl;
  bytes = λ key message. (omega arith, (omega arith, zeros-IsByte 30));
}
