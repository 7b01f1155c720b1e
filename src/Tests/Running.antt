-- ===== src/Tests/Running.antt =====
-- The theorems about replies whose functions act on the calls, with sample functions.
use sm_ext_rpc.Base.{none, ◌≡◌, refl, fault, Bytes}
use sm_ext_rpc.Json.Wire.{packet}
use sm_ext_rpc.Call.{Delivery}
use sm_ext_rpc.Processor.{register_server}
use sm_ext_rpc.Processor.Reply.{State}
use sm_ext_rpc.Processor.Reply.Completed.{completed}
use sm_ext_rpc.Processor.Reply.Safety.{IsSafe}
use sm_ext_rpc.Processor.Reply.Running.{run_packet, run_command_reply}
use sm_ext_rpc.Processor.Reply.Running.Safe.{AreTame, run_packet-IsSafe}
use sm_ext_rpc.Processor.Reply.Running.Closed.{run_command_reply_closed}
use sm_ext_rpc.Tests.Tree.{str}
use sm_ext_rpc.Tests.Library.{tree_json, tree_json-IsLawful}
use sm_ext_rpc.Tests.Samples.{env, state, state-IsSound, echo_call}
use sm_ext_rpc.Tests.Examples.{answered, answered-IsFor}

-- A function that registers a server.
abbrev registers : Delivery tree_json → State env → State env
registers d s = record s { processor = register_server "d" 12 s.processor }

registers-AreTame : AreTame env registers
unfolding register_server
registers-AreTame = record {
  sound = λ d s sound. record { alive = sound.alive };
  kept = λ d s id c call sound recorded here. (call, here, refl);
}

abbrev reply_packet : Bytes
reply_packet = packet (tree_json.dump (completed env "k" (str "u1") (str "hi")))

run_packet-IsSafe_example : IsSafe env (run_packet env registers state reply_packet)
run_packet-IsSafe_example =
    run_packet-IsSafe env registers tree_json-IsLawful registers-AreTame state reply_packet
      state-IsSound

-- A function that closes every handle of a call.
abbrev closes : Delivery tree_json → State env → State env
closes d s = record s { calls = λ c. none }

run_command_reply_closed_example : run_command_reply env closes state answered ≡ fault
run_command_reply_closed_example =
    run_command_reply_closed env closes tree_json-IsLawful state answered 3 echo_call 9
      answered-IsFor refl refl
