-- ===== src/Tests/Tree.antt =====
-- JSON values as trees, with the library's operations on them.
use sm_ext_rpc.Base.{
  ℕ, String, Bool, false, Option, none, some, List, [], ◌∷◌, length, str_eq, if◌then◌else◌,
}
use sm_ext_rpc.Base.Int.{ℤ, pos, negsuc}
use sm_ext_rpc.Json.{Kind}

mutual
  pub data Value : Type 0 where
    null : Value
    bool : Bool → Value
    int : ℤ → Value
    unsigned : ℕ → Value
    float : ℕ → Value
    str : String → Value
    arr : Items → Value
    obj : Members → Value

  pub data Items : Type 0 where
    nil : Items
    cons : Value → Items → Items

  pub data Members : Type 0 where
    end : Members
    entry : String → Value → Members → Members

abbrev pub kind : Value → Kind
kind null = Kind.null
kind (bool b) = Kind.boolean
kind (int n) = Kind.number_integer
kind (unsigned n) = Kind.number_unsigned
kind (float x) = Kind.number_float
kind (str s) = Kind.string
kind (arr vs) = Kind.array
kind (obj ms) = Kind.object

abbrev pub get_string : Value → String
get_string (str s) = s
get_string _ = ""

abbrev pub get_int : Value → ℤ
get_int (int n) = n
get_int (unsigned n) = pos n
get_int (float x) = pos x
get_int _ = pos 0

abbrev pub get_bool : Value → Bool
get_bool (bool b) = b
get_bool _ = false

abbrev pub get_float : Value → ℕ
get_float (float x) = x
get_float (unsigned n) = n
get_float _ = 0

abbrev pub find_member : Members → String → Option Value
find_member end k = none
find_member (entry j v ms) k = let rest = find_member ms k in if str_eq j k then some v else rest

abbrev pub find : Value → String → Option Value
find (obj ms) k = find_member ms k
find _ k = none

abbrev pub set_member : Members → String → Value → Members
set_member end k v = entry k v end
set_member (entry j w ms) k v =
    let rest = set_member ms k v in if str_eq j k then entry k v ms else entry j w rest

abbrev pub set : Value → String → Value → Value
set (obj ms) k v = obj (set_member ms k v)
set _ k v = obj (entry k v end)

abbrev pub to_list : Items → List Value
to_list nil = []
to_list (cons v vs) = v ∷ to_list vs

abbrev pub elements : Value → List Value
elements (arr vs) = to_list vs
elements _ = []

abbrev pub member_list : Members → List (String × Value)
member_list end = []
member_list (entry k v ms) = (k, v) ∷ member_list ms

abbrev pub entries : Value → List (String × Value)
entries (obj ms) = member_list ms
entries _ = []

abbrev pub size : Value → ℕ
size null = 0
size (arr vs) = length (to_list vs)
size (obj ms) = length (member_list ms)
size _ = 1

abbrev pub snoc : Items → Value → Items
snoc nil v = cons v nil
snoc (cons w vs) v = cons w (snoc vs v)

abbrev pub append : Value → Value → Value
append (arr vs) v = arr (snoc vs v)
append _ v = arr (cons v nil)

-- The value that is read back: a number that is not negative is unsigned. The floats of these trees
-- are whole numbers, and their text has no fraction.
abbrev pub reread_int : ℤ → Value
reread_int (pos n) = unsigned n
reread_int (negsuc n) = int (negsuc n)

abbrev mutual
  pub reread : Value → Value
  reread null = null
  reread (bool b) = bool b
  reread (int n) = reread_int n
  reread (unsigned n) = unsigned n
  reread (float x) = unsigned x
  reread (str s) = str s
  reread (arr vs) = arr (reread_items vs)
  reread (obj ms) = obj (reread_members ms)

  pub reread_items : Items → Items
  reread_items nil = nil
  reread_items (cons v vs) = cons (reread v) (reread_items vs)

  pub reread_members : Members → Members
  reread_members end = end
  reread_members (entry k v ms) = entry k (reread v) (reread_members ms)
