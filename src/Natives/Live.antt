-- ===== src/Natives/Live.antt =====
-- The objects behind the handles of src/smn_json.cpp, src/smn_rpccall.cpp and
-- src/smn_rpccontext.cpp: what the natives rely on when they use the pointer that `ReadHandle`
-- stored.
pub mod Machines
pub mod Values
pub mod Arrays
pub mod Calls
pub mod Calling
pub mod Contexts
pub mod Servers
pub mod Table
pub mod Incoming
pub mod Delivered
pub mod Runs
use sm_ext_rpc.Base.{
  String, Bool, Option, none, some, Result, ok, throw, fault, ◌>>=◌, ◌≡◌, ◌≢◌, ◌⊎◌, inl, inr, ◌<◌,
}
use sm_ext_rpc.Method.{IdentityId}
use sm_ext_rpc.Processor.{Env, ServerId}
use sm_ext_rpc.Processor.Send.Broadcast.{serves}
use sm_ext_rpc.Call.{RpcCall}
use sm_ext_rpc.Json.{JsonLib}
use sm_ext_rpc.Server.{Server}
use sm_ext_rpc.Natives.{
  Cell, Address, HandleType, json_type, call_type, context_type, SourceMod, Context, Machine,
  Return,
}

-- The behaviour is defined, and a result has the property.
abbrev pub Safely {ℓ} : {A : Type ℓ} → (A → Type 0) → Result A → Type 0
Safely P (ok a) = P a
Safely P (throw e) = Unit
Safely P fault = ⊥

-- The behaviour is defined.
abbrev pub IsDefined {ℓ} : {A : Type ℓ} → Result A → Type 0
IsDefined r = Safely (λ _. Unit) r

pub Safely-bind {ℓ κ} :
    {A : Type ℓ} {B : Type κ} (P : A → Type 0) (Q : B → Type 0) (r : Result A) (f : A → Result B)
    → Safely P r
    → ((a : A) → P a → Safely Q (f a))
    → Safely Q (r >>= f)
Safely-bind P Q (ok a) f h k = k a h
Safely-bind P Q (throw e) f h k = tt
Safely-bind P Q fault f h k = h

pub IsDefined-bind {ℓ κ} :
    {A : Type ℓ} {B : Type κ} (r : Result A) (f : A → Result B)
    → IsDefined r
    → ((a : A) → IsDefined (f a))
    → IsDefined (r >>= f)
IsDefined-bind r f d defined = Safely-bind (λ _. Unit) (λ _. Unit) r f d (λ a _. defined a)

-- SourceMod's handles of one object each. `IsSole` says of a table that no object stands under
-- two of its handles: plugins do not clone the handles of the extension, and the extension hands
-- an object to `CreateHandle` once. A type is read by the owner of the handle alone.
pub record IsHandleSystem (J : JsonLib) (S : SourceMod J) : Type 1 where
  pub IsSole : S.Table → Type 0
  -- What can be read after `CreateHandle` could be read before, or is the new object.
  pub read-created :
      (type type' : HandleType) (handle : Cell) (owner owner' : IdentityId) (a b : Address)
      (table : S.Table)
      → S.read type handle owner ((S.create type' a owner' table).1) ≡ inl b
      → (S.read type handle owner table ≡ inl b)
        ⊎ ((type ≡ type')
            × (b ≡ a)
            × (handle ≡ (S.create type' a owner' table).0)
            × (owner ≡ owner'))
  -- What can be read after `FreeHandle` could be read before.
  pub read-free :
      (type : HandleType) (handle freed : Cell) (owner owner' : IdentityId) (b : Address)
      (table : S.Table)
      → S.read type handle owner ((S.free freed owner' table).1) ≡ inl b
      → S.read type handle owner table ≡ inl b
  -- What could be read before `CreateHandle` can be read after it.
  pub read-kept :
      (type type' : HandleType) (handle : Cell) (owner owner' : IdentityId) (a b : Address)
      (table : S.Table)
      → ((type'' : HandleType) (handle' : Cell) (owner'' : IdentityId)
          → S.read type'' handle' owner'' table ≢ inl a)
      → S.read type handle owner table ≡ inl b
      → S.read type handle owner ((S.create type' a owner' table).1) ≡ inl b
  -- After `FreeHandle` the object of the handle cannot be read.
  pub read-freed :
      (type : HandleType) (handle freed : Cell) (owner owner' : IdentityId) (a b : Address)
      (table : S.Table)
      → IsSole table
      → S.read type freed owner' table ≡ inl a
      → S.read type handle owner ((S.free freed owner' table).1) ≡ inl b
      → b ≢ a
  -- What could be read before `FreeHandle` of another object's handle can be read after it.
  pub read-spared :
      (type type' : HandleType) (handle freed : Cell) (owner owner' : IdentityId) (a b : Address)
      (table : S.Table)
      → S.read type' freed owner' table ≡ inl a
      → S.read type handle owner table ≡ inl b
      → b ≢ a
      → S.read type handle owner ((S.free freed owner' table).1) ≡ inl b
  pub create-IsSole :
      (type : HandleType) (a : Address) (owner : IdentityId) (table : S.Table)
      → IsSole table
      → ((type' : HandleType) (handle : Cell) (owner' : IdentityId)
          → S.read type' handle owner' table ≢ inl a)
      → IsSole ((S.create type a owner table).1)
  pub free-IsSole :
      (handle : Cell) (owner : IdentityId) (table : S.Table)
      → IsSole table
      → IsSole ((S.free handle owner table).1)

module _ (E : Env) (S : SourceMod (E.json)) (H : IsHandleSystem (E.json) S) where
  open E use {json}
  open json use {Json}

  -- The object that a handle stands for is there: a value, a context, or a call that keeps this
  -- handle and its owner.
  abbrev pub Holds : HandleType → Cell → IdentityId → Address → Machine E S → Type 0
  Holds json_type handle owner a m = (j : Json) × (m.jsons a ≡ some j)
  Holds call_type handle owner a m =
      (call : RpcCall json) × (m.core.calls a ≡ some call)
      × (call.handle ≡ some handle)
      × (call.owner ≡ owner)
  Holds context_type handle owner a m = (context : Context E S) × (m.contexts a ≡ some context)

  -- Every server that the processor knows by a name is there.
  abbrev pub AreServed : Machine E S → Type 0
  AreServed m =
      (name : String) (s : ServerId)
      → serves m.core.processor name ≡ some s
      → (peer : Server) × (m.peers s ≡ some peer)

  -- Every handle that can be read stands for an object that is there, at an address that was given
  -- away before; and every server that the processor knows by a name is there.
  pub record IsLive (m : Machine E S) : Type 0 where
    pub sole : H.IsSole m.table
    pub old :
        (type : HandleType) (handle : Cell) (owner : IdentityId) (a : Address)
        → S.read type handle owner m.table ≡ inl a
        → a < m.fresh
    pub held :
        (type : HandleType) (handle : Cell) (owner : IdentityId) (a : Address)
        → S.read type handle owner m.table ≡ inl a
        → Holds type handle owner a m
    pub served : AreServed m

  -- A native ends without undefined behaviour, and what it leaves is live. An exception that
  -- leaves a native leaves the extension.
  abbrev pub IsSafe : Result (Return E S) → Type 0
  IsSafe r = Safely (λ out. IsLive out.machine) r

  pub then-IsSafe {ℓ} :
      {A : Type ℓ} (r : Result A) (f : A → Result (Return E S))
      → IsDefined r
      → ((a : A) → IsSafe (f a))
      → IsSafe (r >>= f)
  then-IsSafe r f d safe = Safely-bind (λ _. Unit) (λ out. IsLive out.machine) r f d (λ a _. safe a)
