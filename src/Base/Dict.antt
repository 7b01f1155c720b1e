-- ===== src/Base/Dict.antt =====
-- `std::unordered_map<std::string, V>` as an association list without duplicate keys. The order
-- of the list stands for the map's unspecified order of iteration.
use Prim.Native.String.{String}
use mathlib.Core.Path.{◌≡◌}
use mathlib.Core.Option.{Option, none, some}
use mathlib.Core.List.{List, [], ◌∷◌, map}
use native.Mathlib.Omega.{arith}
use text.Mathlib.Text.{◌==◌ as str_eq}
use text.Mathlib.TextEquality.{eq_iff}
use sm_ext_rpc.Base.Tests.{if◌then◌else◌}

abbrev pub Dict {ℓ} : Type ℓ → Type ℓ
Dict V = List (String × V)

module _ {ℓ} {V : Type ℓ} where
  unfoldable pub lookup : String → Dict V → Option V
  lookup key [] = none
  lookup key ((other, value) ∷ rest) = if str_eq key other then some value else lookup key rest

  -- `m[key] = value`
  unfoldable pub insert : String → V → Dict V → Dict V
  insert key value [] = (key, value) ∷ []
  insert key value ((other, old) ∷ rest) =
      let later = insert key value rest in
      if str_eq key other then (other, value) ∷ rest else (other, old) ∷ later

  -- `m.erase(key)`
  unfoldable pub erase : String → Dict V → Dict V
  erase key [] = []
  erase key ((other, old) ∷ rest) =
      let later = erase key rest in if str_eq key other then later else (other, old) ∷ later

  -- `m[key]` as it is read: a missing key is first inserted with a default value.
  unfoldable pub default_at : String → V → Dict V → Dict V
  unfolding lookup insert
  default_at key value m = elim (lookup key m) [ some _ ↦ m | none ↦ insert key value m ]

  unfoldable pub keys : Dict V → List String
  keys = map (λ (key, _). key)

  pub lookup-insert :
      (key wanted : String) (value : V) (m : Dict V)
      → lookup wanted (insert key value m)
        ≡ (if str_eq key wanted then some value else lookup wanted m)
  unfolding lookup insert
  lookup-insert key wanted value [] = ground (arith, eq_iff key wanted, eq_iff wanted key)
  lookup-insert key wanted value ((other, old) ∷ rest) = ground (
    arith,
    lookup-insert key wanted value rest,
    eq_iff wanted other,
    eq_iff key other,
    eq_iff key wanted,
  )

  pub lookup-erase :
      (key wanted : String) (m : Dict V)
      → lookup wanted (erase key m) ≡ (if str_eq key wanted then none else lookup wanted m)
  unfolding lookup erase
  lookup-erase key wanted [] = ground arith
  lookup-erase key wanted ((other, old) ∷ rest) = ground (
    arith,
    lookup-erase key wanted rest,
    eq_iff wanted other,
    eq_iff key other,
    eq_iff key wanted,
  )

  pub lookup-default_at :
      (key wanted : String) (value : V) (m : Dict V)
      → lookup wanted (default_at key value m) ≡ elim (lookup wanted m) [
        | some found ↦ some found
        | none ↦ if str_eq key wanted then some value else none
      ]
  unfolding default_at
  lookup-default_at key wanted value m =
      ground (arith, lookup-insert key wanted value m, eq_iff key wanted)
