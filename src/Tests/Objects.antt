-- ===== src/Tests/Objects.antt =====
-- The theorems about the objects behind the handles, at a machine of the sample handle system.
use sm_ext_rpc.Base.{
  ok, ◌∷◌, sym, ap, Bool-cases, ℕ, Option, none, some, [], ◌≡◌, ◌≢◌, refl, ◌⊎◌, inl, inr, ◌==◌,
  if◌then◌else◌, arith,
}
use sm_ext_rpc.Base.Int.{pos, negsuc}
use sm_ext_rpc.Method.{IdentityId}
use sm_ext_rpc.Natives.{Cell, Address, HandleType, json_type, call_type, Machine, Plugin}
use sm_ext_rpc.Json.Wire.{packet}
use sm_ext_rpc.Processor.Reply.{handle_reply}
use sm_ext_rpc.Processor.Reply.Completed.{completed}
use sm_ext_rpc.Natives.Replies.{receive_packet}
use sm_ext_rpc.Natives.Replies.Related.{AreHandled, Simulates}
use sm_ext_rpc.Natives.Replies.Simulated.{receive_packet-handle_reply}
use sm_ext_rpc.Base.{Bytes}
use sm_ext_rpc.Natives.Live.{IsLive}
use sm_ext_rpc.Call.{call_reply}
use sm_ext_rpc.Natives.Live.Delivered.{receive_reply-call_reply}
use sm_ext_rpc.Tests.Tree.{Value, entry, str, str, obj, end}
use sm_ext_rpc.Tests.Library.{tree_json}
use sm_ext_rpc.Natives.Incoming.{Incoming, receive_reply, hand_over}
use sm_ext_rpc.Call.{update}
use sm_ext_rpc.Tests.Samples.{env, state, echo_call}
use sm_ext_rpc.Tests.Plugins.{with_cells}
use sm_ext_rpc.Tests.Surroundings.{peer}
use sm_ext_rpc.Call.{RpcCall}
use sm_ext_rpc.Tests.Handles.{
  Owned, read_handle, free_handle, handle_system, handle_laws, read_lem, handle_system-IsSourceMod,
}

-- A call under the handle 5, and a value under the handle 3.
abbrev held_call : RpcCall tree_json
held_call = record echo_call { handle = some (pos 5); owner = 1 }

abbrev entry_of : ℕ → Option Owned
entry_of a = if a == 3 then some (json_type, 1) else if a == 5 then some (call_type, 1) else none

abbrev machine : Machine env handle_system
machine = record {
  table = entry_of;
  fresh = 10;
  jsons = λ a. if a == 3 then some (obj end) else none;
  contexts = λ a. none;
  core = record state { calls = λ a. if a == 5 then some held_call else none };
  peers = λ s. some peer;
  services = [];
}

entry_cases :
    (type : HandleType) (n : ℕ) (owner : IdentityId)
    → entry_of n ≡ some (type, owner)
    → ((type ≡ json_type) × (n ≡ 3)) ⊎ ((type ≡ call_type) × (n ≡ 5) × (owner ≡ 1))
entry_cases type n owner e = elim (Bool-cases (n == 3)) [
  | inl three ↦
      let here : ◌≡◌ {A = Option Owned} (some (json_type, 1)) (some (type, owner)) =
        rw three at e in
      inl (cc, ground (arith, three))
  | inr other ↦ elim (Bool-cases (n == 5)) [
    | inl five ↦
        let here : ◌≡◌ {A = Option Owned} (some (call_type, 1)) (some (type, owner)) =
          rw (other, five) at e in
        inr (cc, ground (arith, five), cc)
    | inr missing ↦
        let gone : ◌≡◌ {A = Option Owned} none (some (type, owner)) = rw (other, missing) at e in cc
  ]
]

machine-entry :
    (type : HandleType) (handle : Cell) (owner : IdentityId) (a : Address)
    → read_handle type handle owner entry_of ≡ inl a
    → (handle ≡ pos a)
      × (((type ≡ json_type) × (a ≡ 3)) ⊎ ((type ≡ call_type) × (a ≡ 5) × (owner ≡ 1)))
machine-entry type (negsuc n) owner a e = cc
machine-entry type (pos n) owner a e =
    let found = read_lem (entry_of n) type owner n a e in
    let object : a ≡ n = found.0 in
    (ap pos (sym object), rw object (entry_cases type n owner found.1))

machine-IsLive : IsLive env handle_system handle_laws machine
machine-IsLive = record {
  sole = tt;
  old = λ type handle owner a e. elim ((machine-entry type handle owner a e).1) [
    | inl (_, three) ↦ omega (arith, three)
    | inr (_, five, _) ↦ omega (arith, five)
  ];
  held = λ type handle owner a e.
      let (handle_is, slot) = machine-entry type handle owner a e in
      elim slot [
        | inl (json, three) ↦ rw (json, three) (obj end, refl)
        | inr (call, five, own) ↦ rw (handle_is, call, five, own) (held_call, refl, refl, refl)
      ];
  served = λ name s e. (peer, refl);
}

abbrev caller_plugin : Plugin
caller_plugin = record (with_cells (pos 20) (pos 21) (pos 0)) { params = λ n. pos 5 }

-- The reply to the call comes, and its function gets a handle of the result.
abbrev result_of_call : Value
result_of_call = obj (entry "result" (str "done") end)

abbrev delivered : Incoming env handle_system
delivered =
    hand_over env handle_system (record { callback = 9; value = str "done"; owner = 1 } ∷ [])
      machine

abbrev answered : Incoming env handle_system
answered = record delivered {
  machine = record delivered.machine {
    core = record delivered.machine.core {
      calls = update tree_json delivered.machine.core.calls 5 none;
    };
    table = (free_handle (pos 5) 1 delivered.machine.table).1;
  };
}

receive_reply-call_reply_example :
    (out : Incoming env handle_system) × (h : Cell) × (a : Address) × (receive_reply env
        handle_system 5 result_of_call machine
      ≡ ok out)
    × (call_reply tree_json 5 result_of_call machine.core.calls
        ≡ ok (record { callback = 9; value = str "done"; owner = 1 } ∷ [], out.machine.core.calls))
    × (out.called ≡ (9, h) ∷ [])
    × (read_handle json_type h 1 out.machine.table ≡ inl a)
    × (out.machine.jsons a ≡ some (str "done"))
    × ((handle : Cell) (owner : IdentityId)
        → read_handle call_type handle owner out.machine.table ≢ inl 5)
receive_reply-call_reply_example =
    receive_reply-call_reply env handle_system handle_laws handle_system-IsSourceMod 5
      result_of_call machine held_call 9 (pos 5) (str "done") machine-IsLive refl refl refl refl

-- A machine that waits for the reply to its call.
abbrev waiting : Machine env handle_system
waiting = record machine {
  core = record {
    processor = record state.processor { outstanding_calls = ("u1", 5) ∷ [] };
    calls = machine.core.calls;
  };
}

waiting-AreHandled : AreHandled env handle_system waiting.core.calls
waiting-AreHandled = λ c call e. elim (Bool-cases (c == 5)) [
  | inl five ↦ let found : some held_call ≡ some call = rw five at e in (pos 5, cc)
  | inr other ↦ let none_there : none ≡ some call = rw other at e in cc
]

abbrev reply_packet : Bytes
reply_packet = packet (tree_json.dump (completed env "k" (str "u1") (str "hi")))

receive_packet-handle_reply_example :
    Simulates env handle_system
      (handle_reply env waiting.core reply_packet)
      (receive_packet env handle_system waiting reply_packet)
receive_packet-handle_reply_example =
    receive_packet-handle_reply env handle_system waiting reply_packet waiting-AreHandled
