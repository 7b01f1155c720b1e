-- ===== src/Json.antt =====
-- What the program uses of the vendored JSON library (include/json.hpp, version 2.0.1), as a
-- parameter: `JsonLib` has the library's value operations, `IsLawful` their documented laws.
-- Above them stand the access operators in the form in which the program calls them.
pub mod Laws
pub mod Arrays
pub mod Wire
use sm_ext_rpc.Base.{
  ℕ, String, Bool, true, false, ◌||◌, Option, none, some, List, [], ◌∷◌, Bytes, Result, ok, throw,
  domain_error, out_of_range, get_elem?, if◌then◌else◌,
}
use sm_ext_rpc.Base.Int.{ℤ, pos, negsuc, ◌≤ℤ◌}

-- `value_t`
pub data Kind : Type 0 where
  null object array string boolean number_integer number_unsigned number_float : Kind

pub record JsonLib : Type 1 where
  pub Json : Type 0
  pub Float : Type 0
  pub kind : Json → Kind
  -- The constructors from the C++ types `nullptr_t`, `std::string`, `int`, `bool` and `float`.
  pub nullptr : Json
  pub of_string : String → Json
  pub of_int : ℤ → Json
  pub of_bool : Bool → Json
  pub of_float : Float → Json
  -- `get<T>()` at a value of a kind that it accepts.
  pub get_string : Json → String
  pub get_int : Json → ℤ
  pub get_bool : Json → Bool
  pub get_float : Json → Float
  -- A member of an object, and `j[k] = v` at an object or a null.
  pub find : Json → String → Option Json
  pub set : Json → String → Json → Json
  -- The members that iterators and `size()` run over, and `push_back` at an array or a null.
  pub elements : Json → List Json
  pub entries : Json → List (String × Json)
  pub size : Json → ℕ
  pub append : Json → Json → Json
  -- `dump()`, and `parse` with `none` where it throws `std::invalid_argument`.
  pub dump : Json → Bytes
  pub parse : Bytes → Option Json

-- The range of `int`.
abbrev pub InInt : ℤ → Type 0
InInt n = (negsuc 2147483647 ≤ℤ n) × (n ≤ℤ pos 2147483647)

module _ (J : JsonLib) where
  open J use {Json, kind, nullptr, get_string, get_int, get_bool, get_float, find, set, elements}

  unfoldable pub is_null : Json → Bool
  is_null j = elim (kind j) [ null ↦ true | _ ↦ false ]

  unfoldable pub is_object : Json → Bool
  is_object j = elim (kind j) [ object ↦ true | _ ↦ false ]

  unfoldable pub is_array : Json → Bool
  is_array j = elim (kind j) [ array ↦ true | _ ↦ false ]

  unfoldable pub is_string : Json → Bool
  is_string j = elim (kind j) [ string ↦ true | _ ↦ false ]

  unfoldable pub is_boolean : Json → Bool
  is_boolean j = elim (kind j) [ boolean ↦ true | _ ↦ false ]

  -- True of the unsigned integers too.
  unfoldable pub is_number_integer : Json → Bool
  is_number_integer j = elim (kind j) [ number_integer ↦ true | number_unsigned ↦ true | _ ↦ false ]

  unfoldable pub is_number : Json → Bool
  is_number j = elim (kind j) [
    | number_integer ↦ true
    | number_unsigned ↦ true
    | number_float ↦ true
    | _ ↦ false
  ]

  -- The value that `j[k]` refers to: the member, or the null that is inserted for a missing one.
  unfoldable pub member : Json → String → Json
  member j k = elim (find j k) [ some v ↦ v | none ↦ nullptr ]

  -- The object after `j[k]` was read: a missing member is there as a null.
  unfoldable pub touch : Json → String → Json
  touch j k = elim (find j k) [ some v ↦ j | none ↦ set j k nullptr ]

  -- The object after several members were read, in order.
  unfoldable pub touch_all : List String → Json → Json
  touch_all [] j = j
  touch_all (k ∷ ks) j = touch_all ks (touch j k)

  -- `j[k]` on a value that is not `const`: a null counts as an empty object.
  unfoldable pub at : Json → String → Result Json
  at j k = if is_null j || is_object j then ok (member j k) else throw domain_error

  -- `get<std::string>()`
  unfoldable pub as_string : Json → Result String
  as_string j = if is_string j then ok (get_string j) else throw domain_error

  -- `get<int>()`: every kind of number is converted.
  unfoldable pub as_int : Json → Result ℤ
  as_int j = if is_number j then ok (get_int j) else throw domain_error

  -- `get<bool>()`
  unfoldable pub as_bool : Json → Result Bool
  as_bool j = if is_boolean j then ok (get_bool j) else throw domain_error

  -- `at(i)`
  unfoldable pub at_index : Json → ℕ → Result Json
  at_index j i =
      if is_array j
      then elim (get_elem? (elements j) i) [ some v ↦ ok v | none ↦ throw out_of_range ]
      else throw domain_error
