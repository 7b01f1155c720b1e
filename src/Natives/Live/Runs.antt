-- ===== src/Natives/Live/Runs.antt =====
-- What happens to the handles between two calls of src/smn_json.cpp, src/smn_rpccall.cpp,
-- src/smn_rpccontext.cpp and src/smn_extension.cpp: other natives, requests and replies of
-- other servers, and handles that plugins close.
use sm_ext_rpc.Base.{
  Bytes, subst, String, Bool, true, false, none, ok, ◌≡◌, inl, refl, if◌then◌else◌, ◌∙◌,
}
use sm_ext_rpc.Base.Int.{ℤ}
use sm_ext_rpc.Method.{IdentityId}
use sm_ext_rpc.Processor.{Env}
use sm_ext_rpc.Natives.{
  Plugin, Cell, Address, HandleType, json_type, call_type, context_type, SourceMod, Machine, Return,
}
use sm_ext_rpc.Natives.Live.Values.{with_value-IsLive}
use sm_ext_rpc.Natives.Incoming.{with_value, Incoming, receive_request, receive_reply}
use sm_ext_rpc.Natives.Types.{on_handle_destroy}
use sm_ext_rpc.Natives.Table.{Native, perform}
use sm_ext_rpc.Natives.Live.{IsHandleSystem, Holds, IsLive, IsSafe}
use sm_ext_rpc.Natives.Live.Machines.{free-IsLive, found_elsewhere}
use sm_ext_rpc.Natives.Live.Incoming.{receive_request-IsLive, receive_reply-IsLive}
use sm_ext_rpc.Json.Laws.{IsLawful}
use sm_ext_rpc.Natives.Live.Table.{IsAllowed, perform-IsSafe}

module _ (E : Env) (S : SourceMod (E.json)) where
  open E use {json}
  open json use {Json}

  -- `CloseHandle` of a plugin: SourceMod has the class of the handle's type delete the object.
  unfoldable pub close : HandleType → Cell → IdentityId → Address → Machine E S → Machine E S
  unfolding on_handle_destroy
  close type handle owner a m =
      let (destroyed, table) = S.free handle owner m.table in
      record (if destroyed then on_handle_destroy E S type a m else m) { table = table }

  pub data Step : Machine E S → Machine E S → Type 0 where
    native :
        (now : ℤ) (uuid : String) (n : Native) (plugin : Plugin) (m : Machine E S)
        (out : Return E S)
        → IsAllowed E S n plugin m
        → perform E S now uuid n plugin m ≡ ok out
        → Step m out.machine
    requested :
        (now : ℤ) (remote : String) (body : Bytes) (m : Machine E S) (out : Incoming E S)
        → receive_request E S now remote body m ≡ ok out
        → Step m out.machine
    replied :
        (c : Address) (res : Json) (handle : Cell) (owner : IdentityId) (m : Machine E S)
        (out : Incoming E S)
        → S.read call_type handle owner m.table ≡ inl c
        → receive_reply E S c res m ≡ ok out
        → Step m out.machine
    -- A value that a plugin's function is about to get, under a new handle of its owner. What the
    -- function does is further steps, and so is the closing of the call's handle after it.
    handed : (owner : IdentityId) (j : Json) (m : Machine E S) → Step m (with_value E S owner j m)
    closed :
        (type : HandleType) (handle : Cell) (owner : IdentityId) (a : Address) (m : Machine E S)
        → S.read type handle owner m.table ≡ inl a
        → Step m (close type handle owner a m)

  pub data Reach (m : Machine E S) : Machine E S → Type 0 where
    here : Reach m m
    there : (m' m'' : Machine E S) → Reach m m' → Step m' m'' → Reach m m''

  module _ (H : IsHandleSystem (E.json) S) (L : IsLawful (E.json)) where
    destroy-Holds :
        (type : HandleType) (a : Address) (m : Machine E S) (table : S.Table) (type' : HandleType)
        (handle : Cell) (owner : IdentityId) (b : Address)
        → ¬ ((type' ≡ type) × (b ≡ a))
        → Holds E S H type' handle owner b m
        → Holds E S H type' handle owner b
            (record (on_handle_destroy E S type a m) { table = table })
    unfolding on_handle_destroy
    destroy-Holds json_type a m table json_type handle owner b d (j, found) =
        (j, found_elsewhere m.jsons a b none (λ e. d (refl, e)) ∙ found)
    destroy-Holds json_type a m table call_type handle owner b d h = h
    destroy-Holds json_type a m table context_type handle owner b d h = h
    destroy-Holds call_type a m table json_type handle owner b d h = h
    destroy-Holds call_type a m table call_type handle owner b d (call, found, has, own) =
        (call, found_elsewhere m.core.calls a b none (λ e. d (refl, e)) ∙ found, has, own)
    destroy-Holds call_type a m table context_type handle owner b d h = h
    destroy-Holds context_type a m table json_type handle owner b d h = h
    destroy-Holds context_type a m table call_type handle owner b d h = h
    destroy-Holds context_type a m table context_type handle owner b d (context, found) =
        (context, found_elsewhere m.contexts a b none (λ e. d (refl, e)) ∙ found)

    keep-Holds :
        (m : Machine E S) (table : S.Table) (type : HandleType) (handle : Cell) (owner : IdentityId)
        (b : Address)
        → Holds E S H type handle owner b m
        → Holds E S H type handle owner b (record m { table = table })
    keep-Holds m table json_type handle owner b h = h
    keep-Holds m table call_type handle owner b h = h
    keep-Holds m table context_type handle owner b h = h

    freed-IsLive :
        (type : HandleType) (handle : Cell) (owner : IdentityId) (a : Address) (m : Machine E S)
        (destroyed : Bool)
        → IsLive E S H m
        → S.read type handle owner m.table ≡ inl a
        → IsLive E S H (record (if destroyed then on_handle_destroy E S type a m else m) {
          table = (S.free handle owner m.table).1;
        })
    unfolding on_handle_destroy
    freed-IsLive json_type handle owner a m true live readable =
        free-IsLive E S H json_type handle owner a m _ live readable refl refl live.served
          (λ type handle' owner' b d h. destroy-Holds json_type a m _ type handle' owner' b d h)
    freed-IsLive call_type handle owner a m true live readable =
        free-IsLive E S H call_type handle owner a m _ live readable refl refl live.served
          (λ type handle' owner' b d h. destroy-Holds call_type a m _ type handle' owner' b d h)
    freed-IsLive context_type handle owner a m true live readable =
        free-IsLive E S H context_type handle owner a m _ live readable refl refl live.served
          (λ type handle' owner' b d h. destroy-Holds context_type a m _ type handle' owner' b d h)
    freed-IsLive type handle owner a m false live readable =
        free-IsLive E S H type handle owner a m _ live readable refl refl live.served
          (λ type' handle' owner' b d h. keep-Holds m _ type' handle' owner' b h)

    pub close-IsLive :
        (type : HandleType) (handle : Cell) (owner : IdentityId) (a : Address) (m : Machine E S)
        → IsLive E S H m
        → S.read type handle owner m.table ≡ inl a
        → IsLive E S H (close type handle owner a m)
    unfolding close
    close-IsLive type handle owner a m live readable =
        freed-IsLive type handle owner a m _ live readable

    Step-IsLive : (m m' : Machine E S) → IsLive E S H m → Step m m' → IsLive E S H m'
    Step-IsLive m m' live (native now uuid n plugin m0 out allowed e) =
        subst (IsSafe E S H) e (perform-IsSafe E S H now uuid n plugin m live allowed)
    Step-IsLive m m' live (requested now remote body m0 out e) =
        receive_request-IsLive E S H L now remote body m out live e
    Step-IsLive m m' live (replied c res handle owner m0 out readable e) =
        receive_reply-IsLive E S H c res handle owner m out live readable e
    Step-IsLive m m' live (handed owner j m0) = with_value-IsLive E S H owner j m live
    Step-IsLive m m' live (closed type handle owner a m0 readable) =
        close-IsLive type handle owner a m live readable

    pub Reach-IsLive : (m m' : Machine E S) → IsLive E S H m → Reach m m' → IsLive E S H m'
    Reach-IsLive m m' live here = live
    Reach-IsLive m m' live (there m1 m2 reach step) =
        Step-IsLive m1 m' (Reach-IsLive m m1 live reach) step
