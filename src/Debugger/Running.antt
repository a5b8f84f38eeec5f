-- ===== src/Debugger/Running.antt =====
-- A debugger whose status is running has a session (src/debugger.ts).
use rtl_debugger.Common.{
  ℕ, ◌+◌, ◌-◌, ◌≡◌, ◌≢◌, sym, ◌∙◌, true, false, List, [], ◌∷◌, Option, none, some,
}
use rtl_debugger.Common.Text.{Text}
use rtl_debugger.Debugger.{
  Debugger, absent, starting, running, new_debugger, tell, message, connection_failed,
  disconnected_from_server, set_simulation_status, stop_session, start_session, start_with, launch,
  launched, timer_fired, connection_refused, socket_failed, socket_closed,
}
use rtl_debugger.Debugger.Steps.{
  Step, starts, stops, launches, times_out, connects, refuses, breaks, closes, simulates, Reach,
  here, later,
}
use rtl_debugger.Debugger.Fields.{
  some-not_none, stop_session_lem, set_simulation_status_lem, launch_lem, connected_lem,
}

abbrev HasSession : Debugger → Type 0
HasSession d = d.session_status ≡ running → d.session ≢ none

stopped : (d : Debugger) → HasSession (stop_session d)
stopped d h =
    let (t, s, a, p, o) = stop_session_lem d in let clash : absent ≡ running = sym a ∙ h in cc

-- A change that keeps the status and the session.
kept :
    (d e : Debugger)
    → e.session_status ≡ d.session_status
    → e.session ≡ d.session
    → HasSession d
    → HasSession e
kept d e x s h r z = h (sym x ∙ r) (sym s ∙ z)

launch-HasSession :
    (command : List Text) (d : Debugger) → HasSession d → HasSession (launch command d)
unfolding launch
launch-HasSession [] d h = h
launch-HasSession (c ∷ command) d h = λ r.
    let (t, s, a, p, o) = launch_lem c command d in let clash : starting ≡ running = sym a ∙ r in cc

start_with-HasSession :
    (t : Option ℕ) (command : List Text) (d : Debugger)
    → HasSession d
    → HasSession (start_with t command d)
unfolding start_with
start_with-HasSession (some t) command d h = h
start_with-HasSession none command d h = launch-HasSession command d h

Step-HasSession : {d e : Debugger} → Step d e → HasSession d → HasSession e
unfolding start_session launched timer_fired connection_refused socket_failed socket_closed
Step-HasSession {d} (starts command) h = start_with-HasSession d.terminal command d h
Step-HasSession {d} stops h = stopped d
Step-HasSession (launches n) h = h
Step-HasSession (times_out n) h = h
Step-HasSession {d} (connects n) h = λ r. some-not_none (connected_lem d n).1
Step-HasSession {d} (refuses n) h = stopped (record (tell (message connection_failed) d) {
  connecting = d.connecting - 1;
  open_sockets = d.open_sockets + 1;
})
Step-HasSession {d} (breaks n) h = stopped (tell (message connection_failed) d)
Step-HasSession {d} (closes n true) h = stopped (record d { open_sockets = d.open_sockets - 1 })
Step-HasSession {d} (closes n false) h =
    let closed = record d { open_sockets = d.open_sockets - 1 } in
    stopped (tell (message disconnected_from_server) closed)
Step-HasSession {d} (simulates x) h =
    let (t, s, a, p, o) = set_simulation_status_lem x d in kept d (set_simulation_status x d) a s h

-- In every state that a new debugger comes to, there is a session if the status is running.
pub Reach-running :
    {d : Debugger} → Reach new_debugger d → d.session_status ≡ running → d.session ≢ none
unfolding new_debugger
Reach-running here h = cc
Reach-running (later r step) h = Step-HasSession step (Reach-running r) h
