-- ===== src/Client/Tests.antt =====
-- A connection on concrete histories.
use rtl_debugger.Common.{◌≡◌, refl, List, [], ◌∷◌, ◌++◌, map, none}
use rtl_debugger.Common.Text.{codes}
use rtl_debugger.Proto.{
  get_simulation_status, pause_simulation, simulation_started, ErrorPacket, ServerGreeting,
  scopes_listed,
}
use rtl_debugger.Client.{
  Connection, fresh, connected, disconnected, perform, on_link_recv, on_link_done,
}
use rtl_debugger.Client.Calls.{Call, called, received_reply, AllTyped, run-AllTyped}
use rtl_debugger.Proto
use rtl_debugger.Client.History.{
  Op, performs, receives, ends, run, step, settled, performed, IsSteady,
}
use rtl_debugger.Client.Queue.{run-settled}
use rtl_debugger.Client.Replies.{Reply, answer, refusal, packet, Pairs, run-replies, run-ends}

abbrev hello : ServerGreeting
hello = record { version = 0; commands = []; events = []; item_values_encoding = [] }

abbrev idle : Connection
idle = record fresh { state = connected }

abbrev waiting : Connection
waiting = record idle { promises = 4 ∷ 5 ∷ []; timestamps = 20 ∷ 21 ∷ [] }

idle-IsSteady : IsSteady idle
idle-IsSteady = record { none_starting = refl; none_left = λ e. absurd (cc) }

waiting-IsSteady : IsSteady waiting
waiting-IsSteady = record { none_starting = refl; none_left = λ e. absurd (cc) }

abbrev history : List Op
history =
    performs 1 get_simulation_status 10
    ∷ performs 2 pause_simulation 11
    ∷ receives (packet (answer simulation_started))
    ∷ ends
    ∷ performs 3 pause_simulation 12
    ∷ []

history_settled : settled (run history idle).1 ≡ 1 ∷ 2 ∷ 3 ∷ []
unfolding run step perform on_link_recv on_link_done settled
history_settled = refl

run-settled_example :
    (settled (run history idle).1 ++ (run history idle).0.promises ≡ 1 ∷ 2 ∷ 3 ∷ [])
    × IsSteady (run history idle).0
unfolding performed
run-settled_example = run-settled history idle idle-IsSteady

run-replies_example :
    let r = run (map (λ x. receives (packet x)) (answer simulation_started ∷ [])) waiting in
    Pairs (4 ∷ []) (answer simulation_started ∷ []) r.1
    × (r.0.promises ≡ 5 ∷ [])
    × (r.0.state ≡ connected)
run-replies_example =
    run-replies (4 ∷ []) (5 ∷ []) (answer simulation_started ∷ []) (20 ∷ []) (21 ∷ []) waiting refl
      refl refl refl refl

run-ends_example :
    let r = run (ends ∷ performs 3 pause_simulation 12 ∷ []) waiting in
    (settled r.1 ≡ 4 ∷ 5 ∷ 3 ∷ []) × (r.0.promises ≡ []) × (r.0.state ≡ disconnected)
unfolding performed
run-ends_example = run-ends (performs 3 pause_simulation 12 ∷ []) waiting waiting-IsSteady

abbrev oops : ErrorPacket
oops = record { error = codes "invalid"; message = [] }

-- The design is listed and a pause asked for: the first is answered, the second refused.
abbrev calls : List Call
calls =
    record { id = 1; command = Proto.list_scopes none; now = 10 }
    ∷ record { id = 2; command = pause_simulation; now = 11 }
    ∷ []

abbrev replies : List Reply
replies = answer (scopes_listed []) ∷ refusal oops ∷ []

run-AllTyped_example :
    let r = run (map received_reply replies) (run (map called calls) idle).0 in
    AllTyped calls r.1 × (r.0.promises ≡ [])
run-AllTyped_example = run-AllTyped calls replies idle refl refl refl refl (tt, tt)
