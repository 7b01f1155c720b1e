-- ===== src/Call/Twice.antt =====
-- src/RPCCall.cpp: a call that is sent a second time while no reply to it has come.
use sm_ext_rpc.Base.{
  String, Option, none, some, ok, fault, true, ◌≡◌, ◌≢◌, refl, arith, eq_iff, eq_refl, sym, ◌∙◌,
}
use sm_ext_rpc.Base.Int.{ℤ}
use sm_ext_rpc.Base.Dict.{Dict, lookup, insert, lookup-insert, default_at, lookup-default_at}
use sm_ext_rpc.Processor.{Env, CallId, ServerId, pointer}
use sm_ext_rpc.Processor.Send.{record_call}
use sm_ext_rpc.Json.{member, is_string}
use sm_ext_rpc.Json.Laws.{IsLawful, IsOpen}
use sm_ext_rpc.Processor.Reply.{State, Step, process_command_reply}
use sm_ext_rpc.Processor.Reply.Delivered.{process_for}
use sm_ext_rpc.Processor.Reply.Genuine.{IsGenuine}
use sm_ext_rpc.Processor.Reply.Dangling.{process_dangling}
use sm_ext_rpc.Call.{RpcCall}
use sm_ext_rpc.Call.Requests.{Sending, send, request}
use sm_ext_rpc.Call.RoundTrip.{send_lem, sent_state}

module _ (E : Env) (L : IsLawful E.json) where
  open E use {json}
  open json use {Json, get_string, dump}

  -- A genuine reply with a text for its id.
  pub record IsReplyTo (key id : String) (j : Json) : Type 0 where
    pub genuine : IsGenuine E key j
    pub text : is_string json (member json j "id") ≡ true
    pub named : get_string (member json j "id") ≡ id

  -- Reading a name that is there changes nothing.
  known_again :
      (target : String) (servers : Dict (Option ServerId)) {server : ServerId}
      → pointer (lookup target servers) ≡ some server
      → pointer (lookup target (default_at target none servers)) ≡ some server
  known_again target servers known = ground (arith, lookup-default_at target target none servers)

  -- If one call is sent twice to a known server, with two different identifiers, and a genuine
  -- reply for the second is processed, then the call is deleted while the first identifier is
  -- still recorded for it: a genuine reply for the first uses the deleted call.
  pub send-send :
      (s : State E) (now : ℤ) (target first second : String) (c : CallId) (j k : Json)
      {old : RpcCall json} {server : ServerId}
      → s.calls c ≡ some old
      → IsOpen json (request E (record old { id = first }))
      → IsOpen json (request E (record old { id = second }))
      → pointer (lookup target s.processor.servers) ≡ some server
      → first ≢ second
      → IsReplyTo s.processor.api_key second j
      → IsReplyTo s.processor.api_key first k
      → (out out' : Sending E) × (send E s now first target c ≡ ok out)
        × (send E out.state now second target c ≡ ok out')
        × (step : Step E) × (process_command_reply E out'.state j ≡ ok step)
        × (process_command_reply E step.state k ≡ fault)
  unfolding record_call
  send-send s now target first second c j k {old} {server} alive open1 open2 known differ rj rk =
      let call1 : RpcCall json = record old { id = first } in
      let call2 : RpcCall json = record old { id = second } in
      let s1 = sent_state E L s target call1 c in
      let s2 = sent_state E L s1 target call2 c in
      let alive1 : s1.calls c ≡ some call1 = ground arith in
      let known1 : pointer (lookup target s1.processor.servers) ≡ some server =
        known_again target s.processor.servers known in
      let all = s.processor.outstanding_calls in
      let second_there : lookup (get_string (member json j "id")) s2.processor.outstanding_calls
          ≡ some c =
        rw (rj.named, lookup-insert second second c (insert first c all), eq_refl second) refl in
      let first_there : lookup (get_string (member json k "id")) s2.processor.outstanding_calls
          ≡ some c =
        rw (rk.named) (
          ground (
            arith,
            lookup-insert second first c (insert first c all),
            lookup-insert first first c all,
            eq_iff first first,
          )) in
      (
        _,
        _,
        send_lem E L s now first target c alive open1 known,
        send_lem E L s1 now second target c alive1 open2 known1,
        _,
        process_for E L s2 j {call = call2} (record {
          genuine = rj.genuine;
          text = rj.text;
          recorded = second_there;
          alive = ground arith;
        }),
        process_dangling E L s2 (get_string (member json j "id")) k c rk.genuine rk.text first_there
            (λ e. differ (sym rk.named ∙ e ∙ rj.named)),
      )
