-- ===== src/Natives/Live/Machines.antt =====
-- The changes of the machine that keep every object behind a handle.
use sm_ext_rpc.Base.{
  ◌<◌, ℕ, suc, Option, some, ◌≡◌, ◌≢◌, ◌⊎◌, inl, inr, ◌==◌, if◌then◌else◌, refl, arith, Bool-cases,
  sym, subst,
}
use sm_ext_rpc.Method.{IdentityId}
use sm_ext_rpc.Processor.{Env}
use sm_ext_rpc.Call.{RpcCall}
use sm_ext_rpc.Natives.{
  Cell, Address, HandleType, json_type, call_type, context_type, SourceMod, Context, Machine, put,
}
use sm_ext_rpc.Natives.Calls.{put_call}
use sm_ext_rpc.Natives.Contexts.{put_context}
use sm_ext_rpc.Natives.Live.{AreServed, IsHandleSystem, Holds, IsLive}

-- A value is found where one was found before, and at an address that gets one.
pub found-after :
    {A : Type 0} (f : ℕ → Option A) (a b : ℕ) (v : A)
    → (x : A) × (f b ≡ some x)
    → (x : A) × ((if a == b then some v else f b) ≡ some x)
found-after f a b v (x, e) = elim (Bool-cases (a == b)) [
  | inl same ↦ (v, rw same refl)
  | inr other ↦ (x, rw other e)
]

pub found_there :
    {A : Type 0} (f : ℕ → Option A) (a : ℕ) (v : Option A) → (if a == a then v else f a) ≡ v
found_there f a v = ground arith

pub found_elsewhere :
    {A : Type 0} (f : ℕ → Option A) (a b : ℕ) (v : Option A)
    → b ≢ a
    → (if a == b then v else f b) ≡ f b
found_elsewhere f a b v d = ground arith

module _ (E : Env) (S : SourceMod (E.json)) (H : IsHandleSystem (E.json) S) where
  open E use {json}
  open json use {Json}

  pub put-Holds :
      (a : Address) (j : Json) (m : Machine E S) (type : HandleType) (handle : Cell)
      (owner : IdentityId) (b : Address)
      → Holds E S H type handle owner b m
      → Holds E S H type handle owner b (put E S a j m)
  put-Holds a j m json_type handle owner b h = found-after m.jsons a b j h
  put-Holds a j m call_type handle owner b h = h
  put-Holds a j m context_type handle owner b h = h

  pub put-IsLive :
      (a : Address) (j : Json) (m : Machine E S) → IsLive E S H m → IsLive E S H (put E S a j m)
  put-IsLive a j m live = record {
    sole = live.sole;
    old = live.old;
    served = live.served;
    held = λ type handle owner b e.
        put-Holds a j m type handle owner b (live.held type handle owner b e);
  }

  -- A call with the same handle and owner takes the place of a call.
  pub put_call-IsLive :
      (c : Address) (call call' : RpcCall json) (m : Machine E S)
      → m.core.calls c ≡ some call
      → call'.handle ≡ call.handle
      → call'.owner ≡ call.owner
      → IsLive E S H m
      → IsLive E S H (put_call E S c call' m)
  put_call-IsLive c call call' m here handle_kept owner_kept live = record {
    sole = live.sole;
    old = live.old;
    served = live.served;
    held = λ type handle owner b e. go type handle owner b (live.held type handle owner b e);
  }
    where
      go :
          (type : HandleType) (handle : Cell) (owner : IdentityId) (b : Address)
          → Holds E S H type handle owner b m
          → Holds E S H type handle owner b (put_call E S c call' m)
      go json_type handle owner b h = h
      go call_type handle owner b (x, at, has, own) = elim (Bool-cases (c == b)) [
        | inl same ↦
            let here' : m.core.calls b ≡ some call = ground (arith, here, same) in
            (call', rw same refl, cc, cc)
        | inr other ↦ (x, rw other at, has, own)
      ]
      go context_type handle owner b h = h

  pub put_context-IsLive :
      (a : Address) (context : Context E S) (m : Machine E S)
      → IsLive E S H m
      → IsLive E S H (put_context E S a (some context) m)
  put_context-IsLive a context m live = record {
    sole = live.sole;
    old = live.old;
    served = live.served;
    held = λ type handle owner b e. go type handle owner b (live.held type handle owner b e);
  }
    where
      go :
          (type : HandleType) (handle : Cell) (owner : IdentityId) (b : Address)
          → Holds E S H type handle owner b m
          → Holds E S H type handle owner b (put_context E S a (some context) m)
      go json_type handle owner b h = h
      go call_type handle owner b h = h
      go context_type handle owner b h = found-after m.contexts a b context h

  -- An object is created with its handle, and the other objects stay.
  pub create-IsLive :
      (type : HandleType) (owner : IdentityId) (m m' : Machine E S)
      → IsLive E S H m
      → m'.table ≡ (S.create type m.fresh owner m.table).1
      → m'.fresh ≡ suc m.fresh
      → AreServed E S H m'
      → ((type' : HandleType) (handle : Cell) (owner' : IdentityId) (b : Address)
          → b < m.fresh
          → Holds E S H type' handle owner' b m
          → Holds E S H type' handle owner' b m')
      → Holds E S H type ((S.create type m.fresh owner m.table).0) owner m.fresh m'
      → IsLive E S H m'
  create-IsLive type owner m m' live t f served kept new = record {
    sole = subst H.IsSole (sym t) (
        H.create-IsSole type m.fresh owner m.table live.sole
          (λ type' handle owner' e. omega (arith, live.old type' handle owner' m.fresh e)));
    old = λ type' handle owner' a e. elim (before type' handle owner' a e) [
      | inl e' ↦ omega (arith, live.old type' handle owner' a e', f)
      | inr (_, same, _, _) ↦ omega (arith, same, f)
    ];
    served = served;
    held = λ type' handle owner' a e. elim (before type' handle owner' a e) [
      | inl e' ↦
          kept type' handle owner' a (live.old type' handle owner' a e')
            (live.held type' handle owner' a e')
      | inr (same_type, same, same_handle, same_owner) ↦
          rw (same_type, same, same_handle, same_owner) new
    ];
  }
    where
      before :
          (type' : HandleType) (handle : Cell) (owner' : IdentityId) (b : Address)
          → S.read type' handle owner' m'.table ≡ inl b
          → (S.read type' handle owner' m.table ≡ inl b)
            ⊎ ((type' ≡ type)
                × (b ≡ m.fresh)
                × (handle ≡ (S.create type m.fresh owner m.table).0)
                × (owner' ≡ owner))
      before type' handle owner' b e =
          H.read-created type' type handle owner' owner m.fresh b m.table
            (subst (λ table. S.read type' handle owner' table ≡ inl b) t e)

  -- A handle is closed that can be read, and the other objects stay.
  pub free-IsLive :
      (type : HandleType) (handle : Cell) (owner : IdentityId) (a : Address) (m m' : Machine E S)
      → IsLive E S H m
      → S.read type handle owner m.table ≡ inl a
      → m'.table ≡ (S.free handle owner m.table).1
      → m'.fresh ≡ m.fresh
      → AreServed E S H m'
      → ((type' : HandleType) (handle' : Cell) (owner' : IdentityId) (b : Address)
          → ¬ ((type' ≡ type) × (b ≡ a))
          → Holds E S H type' handle' owner' b m
          → Holds E S H type' handle' owner' b m')
      → IsLive E S H m'
  free-IsLive type handle owner a m m' live readable t f served kept = record {
    sole = subst H.IsSole (sym t) (H.free-IsSole handle owner m.table live.sole);
    old = λ type' handle' owner' b e.
        omega (arith, live.old type' handle' owner' b (before type' handle' owner' b e), f);
    served = served;
    held = λ type' handle' owner' b e.
        kept type' handle' owner' b (other type' handle' owner' b e)
          (live.held type' handle' owner' b (before type' handle' owner' b e));
  }
    where
      after :
          (type' : HandleType) (handle' : Cell) (owner' : IdentityId) (b : Address)
          → S.read type' handle' owner' m'.table ≡ inl b
          → S.read type' handle' owner' ((S.free handle owner m.table).1) ≡ inl b
      after type' handle' owner' b e =
          subst (λ table. S.read type' handle' owner' table ≡ inl b) t e

      before :
          (type' : HandleType) (handle' : Cell) (owner' : IdentityId) (b : Address)
          → S.read type' handle' owner' m'.table ≡ inl b
          → S.read type' handle' owner' m.table ≡ inl b
      before type' handle' owner' b e =
          H.read-free type' handle' handle owner' owner b m.table (after type' handle' owner' b e)

      other :
          (type' : HandleType) (handle' : Cell) (owner' : IdentityId) (b : Address)
          → S.read type' handle' owner' m'.table ≡ inl b
          → ¬ ((type' ≡ type) × (b ≡ a))
      other type' handle' owner' b e (same_type, same) =
          H.read-freed type handle' handle owner' owner a b m.table live.sole readable
            (subst (λ u. S.read u handle' owner' ((S.free handle owner m.table).1) ≡ inl b)
              same_type (after type' handle' owner' b e))
            same
