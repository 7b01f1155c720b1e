-- ===== src/Tests/Handles.antt =====
-- A handle system that meets the assumptions.
use sm_ext_rpc.Base.{
  sym, ap, ◌∙◌, Bool-cases, ℕ, Bool, true, false, ◌&&◌, Option, none, some, ◌≡◌, ◌≢◌, refl, ◌⊎◌,
  inl, inr, ◌==◌, if◌then◌else◌, arith,
}
use sm_ext_rpc.Base.Int.{pos, negsuc}
use sm_ext_rpc.Method.{IdentityId}
use sm_ext_rpc.Natives.{Cell, Address, HandleType, json_type, call_type, context_type, SourceMod}
use sm_ext_rpc.Natives.Live.{IsHandleSystem}
use sm_ext_rpc.Natives.{IsSourceMod}
use sm_ext_rpc.Tests.Library.{tree_json}

-- The type and the owner of the handle that stands for an address.
abbrev pub Owned : Type 0
Owned = HandleType × IdentityId

abbrev pub Handles : Type 0
Handles = ℕ → Option Owned

abbrev same_type : HandleType → HandleType → Bool
same_type json_type json_type = true
same_type call_type call_type = true
same_type context_type context_type = true
same_type _ _ = false

abbrev is_owned : Option Owned → HandleType → IdentityId → Bool
is_owned none type owner = false
is_owned (some (type', owner')) type owner = same_type type type' && (owner == owner')

abbrev read_at : Option Owned → HandleType → IdentityId → Address → Address ⊎ ℕ
read_at o type owner a = if is_owned o type owner then inl a else inr 1

abbrev pub read_handle : HandleType → Cell → IdentityId → Handles → Address ⊎ ℕ
read_handle type (pos a) owner table = read_at (table a) type owner a
read_handle type (negsuc n) owner table = inr 1

abbrev pub free_handle : Cell → IdentityId → Handles → Bool × Handles
free_handle (pos a) owner table = (true, λ b. if a == b then none else table b)
free_handle (negsuc n) owner table = (false, table)

abbrev pub handle_system : SourceMod tree_json
handle_system = record {
  Table = Handles;
  read = read_handle;
  create = λ type object owner table.
      (pos object, λ b. if object == b then some (type, owner) else table b);
  free = free_handle;
  sp_ctof = λ c. 0;
  sp_ftoc = λ x. pos x;
}

same_type_lem : (t u : HandleType) → same_type t u ≡ true → t ≡ u
same_type_lem json_type json_type e = refl
same_type_lem json_type call_type e = cc
same_type_lem json_type context_type e = cc
same_type_lem call_type json_type e = cc
same_type_lem call_type call_type e = refl
same_type_lem call_type context_type e = cc
same_type_lem context_type json_type e = cc
same_type_lem context_type call_type e = cc
same_type_lem context_type context_type e = refl

both : (a b : Bool) → (a && b) ≡ true → (a ≡ true) × (b ≡ true)
both true true e = (refl, refl)
both true false e = cc
both false b e = cc

is_owned_lem :
    (o : Option Owned) (type : HandleType) (owner : IdentityId)
    → is_owned o type owner ≡ true
    → o ≡ some (type, owner)
is_owned_lem none type owner e = cc
is_owned_lem (some (type', owner')) type owner e =
    let (same, equal) = both (same_type type type') (owner == owner') e in
    let same_owner : owner ≡ owner' = ground (arith, equal) in
    rw (same_type_lem type type' same, same_owner) refl

-- What a read that succeeds says of the table.
pub read_lem :
    (o : Option Owned) (type : HandleType) (owner : IdentityId) (n b : Address)
    → read_at o type owner n ≡ inl b
    → (b ≡ n) × (o ≡ some (type, owner))
read_lem o type owner n b e = elim (Bool-cases (is_owned o type owner)) [
  | inl owned ↦ let found : inl n ≡ inl b = rw owned at e in (cc, is_owned_lem o type owner owned)
  | inr other ↦ ground (arith, other, e)
]

pub created :
    (type type' : HandleType) (handle : Cell) (owner owner' : IdentityId) (a b : Address)
    (table : Handles)
    → read_handle type handle owner ((handle_system.create type' a owner' table).1) ≡ inl b
    → (read_handle type handle owner table ≡ inl b)
      ⊎ ((type ≡ type') × (b ≡ a) × (handle ≡ pos a) × (owner ≡ owner'))
created type type' (pos n) owner owner' a b table e = elim (Bool-cases (a == n)) [
  | inl same ↦
      let e' : read_at (some (type', owner')) type owner n ≡ inl b = rw same at e in
      let found = read_lem (some (type', owner')) type owner n b e' in
      let slot : ◌≡◌ {A = Option Owned} (some (type', owner')) (some (type, owner)) = found.1 in
      let object : b ≡ n = found.0 in
      let address : n ≡ a = ground (arith, same) in inr (cc, object ∙ address, ap pos address, cc)
  | inr differ ↦ inl (rw differ at e)
]
created type type' (negsuc n) owner owner' a b table e = inl e

pub kept :
    (type type' : HandleType) (handle : Cell) (owner owner' : IdentityId) (a b : Address)
    (table : Handles)
    → ((type'' : HandleType) (handle' : Cell) (owner'' : IdentityId)
        → read_handle type'' handle' owner'' table ≢ inl a)
    → read_handle type handle owner table ≡ inl b
    → read_handle type handle owner ((handle_system.create type' a owner' table).1) ≡ inl b
kept type type' (pos n) owner owner' a b table unread e = elim (Bool-cases (a == n)) [
  | inl same ↦
      let address : a ≡ n = ground (arith, same) in
      let object : b ≡ n = (read_lem (table n) type owner n b e).0 in
      absurd (unread type (pos n) owner (e ∙ ap inl (object ∙ sym address)))
  | inr differ ↦ rw differ e
]
kept type type' (negsuc n) owner owner' a b table unread e = e

pub freed_before :
    (type : HandleType) (handle freed : Cell) (owner owner' : IdentityId) (b : Address)
    (table : Handles)
    → read_handle type handle owner ((handle_system.free freed owner' table).1) ≡ inl b
    → read_handle type handle owner table ≡ inl b
freed_before type (negsuc n) freed owner owner' b table e = e
freed_before type (pos n) (negsuc k) owner owner' b table e = e
freed_before type (pos n) (pos k) owner owner' b table e = elim (Bool-cases (k == n)) [
  | inl same ↦ ground (arith, same, e)
  | inr differ ↦ rw differ at e
]

-- A handle is the address of its object.
address_lem :
    (type : HandleType) (n : ℕ) (owner : IdentityId) (b : Address) (table : Handles)
    → read_handle type (pos n) owner table ≡ inl b
    → b ≡ n
address_lem type n owner b table e = (read_lem (table n) type owner n b e).0

pub freed_gone :
    (type : HandleType) (handle freed : Cell) (owner owner' : IdentityId) (a b : Address)
    (table : Handles)
    → read_handle type freed owner' table ≡ inl a
    → read_handle type handle owner ((handle_system.free freed owner' table).1) ≡ inl b
    → b ≢ a
freed_gone type handle (negsuc k) owner owner' a b table readable e = cc
freed_gone type (negsuc n) (pos k) owner owner' a b table readable e = cc
freed_gone type (pos n) (pos k) owner owner' a b table readable e = elim (Bool-cases (k == n)) [
  | inl same ↦ ground (arith, same, e)
  | inr differ ↦
      let object = address_lem type k owner' a table readable in
      let other = address_lem type n owner b table (rw differ at e) in
      λ alike. ground (arith, differ, object, other, alike)
]

pub spared :
    (type type' : HandleType) (handle freed : Cell) (owner owner' : IdentityId) (a b : Address)
    (table : Handles)
    → read_handle type' freed owner' table ≡ inl a
    → read_handle type handle owner table ≡ inl b
    → b ≢ a
    → read_handle type handle owner ((handle_system.free freed owner' table).1) ≡ inl b
spared type type' (negsuc n) freed owner owner' a b table readable e other = e
spared type type' (pos n) (negsuc k) owner owner' a b table readable e other = e
spared type type' (pos n) (pos k) owner owner' a b table readable e other =
    elim (Bool-cases (k == n)) [
      | inl same ↦
          let freed_object = address_lem type' k owner' a table readable in
          let object = address_lem type n owner b table e in
          let alike : b ≡ a = ground (arith, same, object, freed_object) in absurd (other alike)
      | inr differ ↦ rw differ e
    ]

abbrev pub handle_laws : IsHandleSystem tree_json handle_system
handle_laws = record {
  IsSole = λ table. Unit;
  read-created = created;
  read-free = freed_before;
  read-kept = kept;
  read-freed = λ type handle freed owner owner' a b table sole.
      freed_gone type handle freed owner owner' a b table;
  read-spared = spared;
  create-IsSole = λ type a owner table sole unread. tt;
  free-IsSole = λ handle owner table sole. tt;
}

read_created :
    (type : HandleType) (object : Address) (owner : IdentityId) (table : Handles)
    → read_handle type (pos object) owner ((handle_system.create type object owner table).1)
      ≡ inl object
read_created json_type object owner table = ground arith
read_created call_type object owner table = ground arith
read_created context_type object owner table = ground arith

pub handle_system-IsSourceMod : IsSourceMod tree_json handle_system
handle_system-IsSourceMod = record { read-create = read_created }
