-- ===== src/Method/Validation.antt =====
-- `ValidateArguments` of src/RPCMethod.cpp, and a description of what it checks.
use mathlib.Core.List.{append_assoc}
use sm_ext_rpc.Base.{
  ℕ_discrete, suc, ◌≡◌, refl, ◌⊎◌, inl, inr, true, false, List, [], ◌∷◌, ◌++◌, ok, All, length,
  length-append, get_elem?, get_elem?-append, arith, ap,
}
use sm_ext_rpc.Json.{
  JsonLib, Kind, is_array, is_string, is_boolean, is_number, is_number_integer, at_index,
}
use sm_ext_rpc.Json.Laws.{IsLawful}
use sm_ext_rpc.Method.{ParamType, RpcMethod, check_type, validate_from, validate_arguments}

-- One of the five types that the enum names.
abbrev pub IsNamed : ParamType → Type 0
IsNamed (ParamType.unnamed n) = ⊥
IsNamed _ = Unit

-- The kinds of values that a type admits.
abbrev pub Admits : ParamType → Kind → Type 0
Admits ParamType.string k = k ≡ Kind.string
Admits ParamType.int k = (k ≡ Kind.number_integer) ⊎ (k ≡ Kind.number_unsigned)
Admits ParamType.bool k = k ≡ Kind.boolean
Admits ParamType.float k =
    (k ≡ Kind.number_integer) ⊎ (k ≡ Kind.number_unsigned) ⊎ (k ≡ Kind.number_float)
Admits ParamType.json k = Unit
Admits (ParamType.unnamed n) k = ⊥

module _ (J : JsonLib) where
  open J use {Json, kind, elements, size}

  -- As many values as types, each admitted by the type at its position.
  abbrev pub Conforms : List ParamType → List Json → Type 0
  Conforms [] [] = Unit
  Conforms [] (j ∷ js) = ⊥
  Conforms (t ∷ ts) [] = ⊥
  Conforms (t ∷ ts) (j ∷ js) = Admits t (kind j) × Conforms ts js

  check_type_lem :
      (t : ParamType) (j : Json)
      → IsNamed t
      → ((check_type J t j ≡ ok true) × Admits t (kind j))
        ⊎ ((check_type J t j ≡ ok false) × ¬ Admits t (kind j))
  unfolding check_type is_string is_boolean is_number is_number_integer
  check_type_lem ParamType.string j n = ground arith
  check_type_lem ParamType.int j n = ground arith
  check_type_lem ParamType.bool j n = ground arith
  check_type_lem ParamType.float j n = ground arith
  check_type_lem ParamType.json j n = inl (refl, tt)
  check_type_lem (ParamType.unnamed x) j n = elim n [ ]

  -- The value at a position of an array.
  at_index_array :
      (j : Json) (seen js : List Json) (a : Json)
      → kind j ≡ Kind.array
      → elements j ≡ seen ++ a ∷ js
      → at_index J j (length seen) ≡ ok a
  unfolding at_index is_array
  at_index_array j seen js a k e =
      ground (arith, ap (λ l. get_elem? l (length seen)) e, get_elem?-append seen js a)

  -- The loop, with the values that it has seen and those that are left.
  validate_from_lem :
      (ts : List ParamType) (j : Json) (seen js : List Json)
      → All IsNamed ts
      → kind j ≡ Kind.array
      → elements j ≡ seen ++ js
      → length js ≡ length ts
      → ((validate_from J ts (length seen) j ≡ ok true) × Conforms ts js)
        ⊎ ((validate_from J ts (length seen) j ≡ ok false) × ¬ Conforms ts js)
  unfolding validate_from
  validate_from_lem [] j seen [] n k e h = inl (refl, tt)
  validate_from_lem [] j seen (a ∷ js) n k e h = absurd (omega arith)
  validate_from_lem (t ∷ ts) j seen [] n k e h = absurd (omega arith)
  validate_from_lem (t ∷ ts) j seen (a ∷ js) n k e h =
      let shifted : elements j ≡ (seen ++ a ∷ []) ++ js = cc (e, append_assoc seen (a ∷ []) js) in
      let next : length (seen ++ a ∷ []) ≡ suc (length seen) =
        omega (arith, length-append seen (a ∷ [])) in
      let rest = validate_from_lem ts j (seen ++ a ∷ []) js n.1 k shifted (omega arith) in
      ground (
        arith,
        at_index_array j seen js a k e,
        check_type_lem t a n.0,
        rest,
        ap (λ c. validate_from J ts c j) next,
      )

  Conforms-length : (ts : List ParamType) (js : List Json) → Conforms ts js → length js ≡ length ts
  Conforms-length [] [] c = refl
  Conforms-length [] (j ∷ js) c = elim c [ ]
  Conforms-length (t ∷ ts) [] c = elim c [ ]
  Conforms-length (t ∷ ts) (j ∷ js) c = ap suc (Conforms-length ts js c.1)

  module _ (L : IsLawful J) where
    -- On an array and for types that the enum names, ValidateArguments ends without an exception,
    -- and returns true exactly if there are as many values as declared types, each of a kind that
    -- its type admits.
    pub validate_arguments_lem :
        (m : RpcMethod) (j : Json)
        → All IsNamed m.param_types
        → kind j ≡ Kind.array
        → ((validate_arguments J m j ≡ ok true) × Conforms m.param_types (elements j))
          ⊎ ((validate_arguments J m j ≡ ok false) × ¬ Conforms m.param_types (elements j))
    unfolding validate_arguments
    validate_arguments_lem m j n k =
        elim (ℕ_discrete (length (elements j)) (length m.param_types)) [
          | yes e ↦ ground (
            arith,
            L.size-array j k,
            validate_from_lem m.param_types j [] (elements j) n k refl e,
          )
          | no e ↦ inr (ground (arith, L.size-array j k), λ c. e (Conforms-length _ _ c))
        ]
