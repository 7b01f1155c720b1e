-- ===== src/Json/Arrays.antt =====
-- The documented laws of arrays in the vendored JSON library (include/json.hpp), for `push_back`,
-- `size` and iteration.
use sm_ext_rpc.Base.{
  suc, true, some, List, [], ◌∷◌, ◌++◌, ◌≡◌, refl, ◌||◌, length, get_elem?, arith, sym, ap, ◌∙◌,
}
use sm_ext_rpc.Json.{JsonLib, Kind, is_null, is_array}
use sm_ext_rpc.Json.Laws.{IsLawful}

-- A value that `push_back` and `operator[]` with a position accept.
abbrev pub IsListOpen : (J : JsonLib) → J.Json → Type 0
IsListOpen J j = (is_null J j || is_array J j) ≡ true

-- The documented laws of arrays in the JSON library.
pub record IsArrayLawful (J : JsonLib) : Type 0 where
  pub kind-append : (j v : J.Json) → IsListOpen J j → J.kind (J.append j v) ≡ Kind.array
  pub elements-append :
      (j v : J.Json) → IsListOpen J j → J.elements (J.append j v) ≡ J.elements j ++ v ∷ []
  pub elements-null : (j : J.Json) → J.kind j ≡ Kind.null → J.elements j ≡ []
  pub size-null : (j : J.Json) → J.kind j ≡ Kind.null → J.size j ≡ 0

module _ {ℓ} {A : Type ℓ} where
  length-snoc : (xs : List A) (x : A) → length (xs ++ x ∷ []) ≡ suc (length xs)
  length-snoc [] x = refl
  length-snoc (y ∷ xs) x = ap suc (length-snoc xs x)

  pub get_elem?-snoc : (xs : List A) (x : A) → get_elem? (xs ++ x ∷ []) (length xs) ≡ some x
  get_elem?-snoc [] x = refl
  get_elem?-snoc (y ∷ xs) x = get_elem?-snoc xs x

module _ (J : JsonLib) (L : IsLawful J) (A : IsArrayLawful J) where
  open J use {Json, size, elements, append, kind}

  pub append-IsListOpen : (j v : Json) → IsListOpen J j → IsListOpen J (append j v)
  unfolding is_null is_array
  append-IsListOpen j v h = rw (is_null, is_array, A.kind-append j v h) refl

  pub size-elements : (j : Json) → IsListOpen J j → size j ≡ length (elements j)
  unfolding is_null is_array
  size-elements j h = ground (arith, L.size-array j, A.size-null j, A.elements-null j)

  pub size-append : (j v : Json) → IsListOpen J j → size (append j v) ≡ suc (size j)
  size-append j v h =
      size-elements (append j v) (append-IsListOpen j v h)
      ∙ ap length (A.elements-append j v h)
      ∙ length-snoc (elements j) v
      ∙ ap suc (sym (size-elements j h))
