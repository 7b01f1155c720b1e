-- ===== src/Natives/Live/Calls.antt =====
-- src/smn_rpccall.cpp: the natives on calls use calls that are there, and close the handle of a call
-- that is deleted.
use sm_ext_rpc.Base.{
  arith, ◌==◌, sym, ◌∙◌, Option-cases, Option, none, some, ok, ◌≡◌, inl, inr, refl, Bool-cases,
  String,
}
use sm_ext_rpc.Base.Int.{ℤ}
use sm_ext_rpc.Processor.{Env, Processor, get_server, ServerId, pointer}
use sm_ext_rpc.Processor.Signature.{req_sig}
use sm_ext_rpc.Processor.Reply.{State}
use sm_ext_rpc.Processor.Send.{
  send_broadcast, seal, send_request, Caller, Outgoing, record_call, sent,
}
use sm_ext_rpc.Processor.Send.Broadcast.{send_all-receivers, HasNoNull, serves, get_server-serves}
use sm_ext_rpc.Call.{RpcCall, update, free_handle}
use sm_ext_rpc.Call.Requests.{send, notify, broadcast}
use sm_ext_rpc.Natives.{
  Cell, Address, json_type, call_type, context_type, SourceMod, Machine, HandleType,
}
use sm_ext_rpc.Natives.Live.{
  Safely, Safely-bind, IsDefined, IsDefined-bind, IsHandleSystem, Holds, IsLive,
}
use sm_ext_rpc.Natives.Live.Values.{assign-IsDefined, at-IsDefined}
use sm_ext_rpc.Base.Dict.{lookup}
use sm_ext_rpc.Method.{IdentityId}
use sm_ext_rpc.Natives.Live.Machines.{free-IsLive, found_elsewhere}

module _ (E : Env) (S : SourceMod (E.json)) (H : IsHandleSystem (E.json) S) where
  open E use {json}
  open json use {Json, dump}

  -- The same server under every name.
  abbrev pub SameServers : Processor → Processor → Type 0
  SameServers p q = (name : String) → serves q name ≡ serves p name

  req_sig-IsDefined : (key : String) (req : Json) → IsDefined (req_sig E key req)
  unfolding req_sig
  req_sig-IsDefined key req = IsDefined-bind _ _ (at-IsDefined E S H req _) (λ a.
      IsDefined-bind _ _ (at-IsDefined E S H req _) (λ b.
        IsDefined-bind _ _ (at-IsDefined E S H req _) (λ c.
          IsDefined-bind _ _ (at-IsDefined E S H req _)
            (λ d. IsDefined-bind _ _ (at-IsDefined E S H req _) (λ e. tt)))))

  pub seal-IsDefined : (p : Processor) (now : ℤ) (req : Json) → IsDefined (seal E p now req)
  unfolding seal
  seal-IsDefined p now req = IsDefined-bind _ _ (assign-IsDefined E S H req _ _) (λ stamped.
      IsDefined-bind _ _ (req_sig-IsDefined p.api_key stamped)
        (λ (sig, touched). assign-IsDefined E S H touched _ _))

  record_call-SameServers :
      (call : Option Caller) (p : Processor) → SameServers p (record_call call p)
  unfolding record_call
  record_call-SameServers none p name = refl
  record_call-SameServers (some c) p name = refl

  get_server-SameServers :
      (target : String) (p : Processor) → SameServers p ((get_server target p).1)
  get_server-SameServers target p name =
      let (_, _, kept, _) = get_server-serves p target name 0 in kept

  abbrev sent_by : Processor → ServerId → Option Caller → Json → Outgoing
  sent_by p s call body = record {
    result = sent;
    message = some (s, dump body);
    processor = record_call call p;
  }

  send_request-SameServers :
      (p : Processor) (now : ℤ) (target : String) (req : Json) (call : Option Caller)
      → Safely (λ out. SameServers p out.processor) (send_request E p now target req call)
  unfolding send_request get_server
  send_request-SameServers p now target req call =
      let after = get_server-SameServers target p in
      elim (Option-cases (pointer (lookup target p.servers))) [
        | inl missing ↦ rw (send_request, get_server, missing) after
        | inr (s, there) ↦
            rw (send_request, get_server, there)
              (Safely-bind (λ _. Unit) (λ out. SameServers p out.processor) _
                (λ body. ok (sent_by ((get_server target p).1) s call body))
                (seal-IsDefined ((get_server target p).1) now req)
                (λ body _ name.
                  record_call-SameServers call ((get_server target p).1) name ∙ after name))
      ]

  -- A call with the same handle and owner stands for every call, and the servers are the same.
  pub record IsKept (s t : State E) : Type 0 where
    calls :
        (c : Address) (call : RpcCall json)
        → s.calls c ≡ some call
        → (call' : RpcCall json) × (t.calls c ≡ some call')
          × (call'.handle ≡ call.handle)
          × (call'.owner ≡ call.owner)
    pub servers : SameServers s.processor t.processor

  pub kept-IsLive :
      (m : Machine E S) (core : State E)
      → IsLive E S H m
      → IsKept m.core core
      → IsLive E S H (record m { core = core })
  kept-IsLive m core live kept = record {
    sole = live.sole;
    old = live.old;
    served = λ name s e. live.served name s (sym (kept.servers name) ∙ e);
    held = λ type handle owner b e. go type handle owner b (live.held type handle owner b e);
  }
    where
      go :
          (type : HandleType) (handle : Cell) (owner : _) (b : Address)
          → Holds E S H type handle owner b m
          → Holds E S H type handle owner b (record m { core = core })
      go json_type handle owner b h = h
      go call_type handle owner b (call, at, has, own) =
          let (call', at', has', own') = kept.calls b call at in
          (call', at', has' ∙ has, own' ∙ own)
      go context_type handle owner b h = h

  -- A call of the same handle and owner takes the place of one.
  pub put_call-IsKept :
      (s : State E) (c : Address) (call call' : RpcCall json)
      → s.calls c ≡ some call
      → call'.handle ≡ call.handle
      → call'.owner ≡ call.owner
      → IsKept s (record s { calls = update json s.calls c (some call') })
  put_call-IsKept s c call call' here same_handle same_owner = record {
    servers = λ name. refl;
    calls = λ b x at. elim (Bool-cases (c == b)) [
      | inl same ↦
          let same_call : s.calls b ≡ some call = ground (arith, here, same) in
          (call', rw same refl, cc, cc)
      | inr other ↦ (x, rw other at, refl, refl)
    ];
  }

  pub send-IsKept :
      (s : State E) (now : ℤ) (uuid server : String) (c : Address) (call : RpcCall json)
      → s.calls c ≡ some call
      → Safely (λ out. IsKept s out.state) (send E s now uuid server c)
  unfolding send
  send-IsKept s now uuid server c call here =
      rw (send, here)
        (Safely-bind (λ out. SameServers s.processor out.processor) (λ out. IsKept s out.state) _ _
          (send_request-SameServers s.processor now server _ _)
          (λ out same. record {
            servers = same;
            calls = (put_call-IsKept s c call (record call { id = uuid }) here refl refl).calls;
          }))

  -- The call is deleted.
  pub record IsGone (s t : State E) (c : Address) : Type 0 where
    pub calls : t.calls ≡ update json s.calls c none
    pub servers : SameServers s.processor t.processor

  pub notify-IsGone :
      (s : State E) (now : ℤ) (server : String) (c : Address) (call : RpcCall json)
      → s.calls c ≡ some call
      → Safely (λ out. IsGone s out.state c) (notify E s now server c)
  unfolding notify free_handle
  notify-IsGone s now server c call here =
      rw (notify, here)
        (Safely-bind (λ out. SameServers s.processor out.processor) (λ out. IsGone s out.state c) _
          _ (send_request-SameServers s.processor now server _ _)
          (λ out same. rw (free_handle, here) (record { calls = refl; servers = same })))

  pub broadcast-IsGone :
      (s : State E) (now : ℤ) (c : Address) (call : RpcCall json)
      → s.calls c ≡ some call
      → HasNoNull s.processor.servers
      → Safely (λ (messages, t). IsGone s t c) (broadcast E s now c)
  unfolding broadcast free_handle send_broadcast
  broadcast-IsGone s now c call here no_null =
      rw (broadcast, here, send_broadcast)
        (Safely-bind (λ _. Unit) (λ (messages, t). IsGone s t c) _ _
          (IsDefined-bind _ _ (seal-IsDefined s.processor now _)
            (λ body. rw (send_all-receivers E s.processor.servers _ no_null) tt))
          (λ out _. rw (free_handle, here) (record { calls = refl; servers = λ name. refl })))

  -- The call is deleted and its handle is closed.
  pub gone-IsLive :
      (handle : Cell) (owner : IdentityId) (m : Machine E S) (c : Address) (core : State E)
      → IsLive E S H m
      → S.read call_type handle owner m.table ≡ inl c
      → IsGone m.core core c
      → IsLive E S H (record m { core = core; table = (S.free handle owner m.table).1 })
  gone-IsLive handle owner m c core live readable gone =
      free-IsLive E S H call_type handle owner c m _ live readable refl refl
        (λ name s e. live.served name s (sym (gone.servers name) ∙ e))
        (λ type handle' owner' b d held. go type handle' owner' b d held)
    where
      go :
          (type : HandleType) (handle' : Cell) (owner' : IdentityId) (b : Address)
          → ¬ ((type ≡ call_type) × (b ≡ c))
          → Holds E S H type handle' owner' b m
          → Holds E S H type handle' owner' b
              (record m { core = core; table = (S.free handle owner m.table).1 })
      go json_type handle' owner' b d h = h
      go call_type handle' owner' b d (x, there, has, own) = (
        x,
        (λ i. gone.calls i b) ∙ found_elsewhere m.core.calls c b none (λ e. d (refl, e)) ∙ there,
        has,
        own,
      )
      go context_type handle' owner' b d h = h
