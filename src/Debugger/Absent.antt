-- ===== src/Debugger/Absent.antt =====
-- A debugger whose status is absent has no session (src/debugger.ts).
use rtl_debugger.Common.{
  ℕ, ◌+◌, ◌-◌, ◌≡◌, refl, sym, ◌∙◌, true, false, List, [], ◌∷◌, Option, none, some,
}
use rtl_debugger.Common.Text.{Text}
use rtl_debugger.Debugger.{
  Debugger, absent, starting, running, new_debugger, tell, message, connection_failed,
  disconnected_from_server, set_simulation_status, stop_session, start_session, start_with, launch,
  launched, timer_fired, connection_refused, socket_failed, socket_closed,
}
use rtl_debugger.Debugger.Steps.{
  Step, starts, stops, launches, times_out, connects, refuses, breaks, closes, simulates, Reach,
  here, later,
}
use rtl_debugger.Debugger.Fields.{
  stop_session_lem, set_simulation_status_lem, launch_lem, connected_lem,
}

abbrev LacksSession : Debugger → Type 0
LacksSession d = d.session_status ≡ absent → d.session ≡ none

stopped : (d : Debugger) → LacksSession (stop_session d)
stopped d h = let (t, s, a, p, o) = stop_session_lem d in s

-- A change that keeps the status and the session.
kept :
    (d e : Debugger)
    → e.session_status ≡ d.session_status
    → e.session ≡ d.session
    → LacksSession d
    → LacksSession e
kept d e x s h r = s ∙ h (sym x ∙ r)

launch-LacksSession :
    (command : List Text) (d : Debugger) → LacksSession d → LacksSession (launch command d)
unfolding launch
launch-LacksSession [] d h = h
launch-LacksSession (c ∷ command) d h = λ r.
    let (t, s, a, p, o) = launch_lem c command d in let clash : starting ≡ absent = sym a ∙ r in cc

start_with-LacksSession :
    (t : Option ℕ) (command : List Text) (d : Debugger)
    → LacksSession d
    → LacksSession (start_with t command d)
unfolding start_with
start_with-LacksSession (some t) command d h = h
start_with-LacksSession none command d h = launch-LacksSession command d h

Step-LacksSession : {d e : Debugger} → Step d e → LacksSession d → LacksSession e
unfolding start_session launched timer_fired connection_refused socket_failed socket_closed
Step-LacksSession {d} (starts command) h = start_with-LacksSession d.terminal command d h
Step-LacksSession {d} stops h = stopped d
Step-LacksSession (launches n) h = h
Step-LacksSession (times_out n) h = h
Step-LacksSession {d} (connects n) h =
    λ r. let (t, s, a, o) = connected_lem d n in let clash : running ≡ absent = sym a ∙ r in cc
Step-LacksSession {d} (refuses n) h = stopped (record (tell (message connection_failed) d) {
  connecting = d.connecting - 1;
  open_sockets = d.open_sockets + 1;
})
Step-LacksSession {d} (breaks n) h = stopped (tell (message connection_failed) d)
Step-LacksSession {d} (closes n true) h = stopped (record d { open_sockets = d.open_sockets - 1 })
Step-LacksSession {d} (closes n false) h =
    let closed = record d { open_sockets = d.open_sockets - 1 } in
    stopped (tell (message disconnected_from_server) closed)
Step-LacksSession {d} (simulates x) h =
    let (t, s, a, p, o) = set_simulation_status_lem x d in kept d (set_simulation_status x d) a s h

-- In every state that a new debugger comes to, there is no session if the status is absent.
pub Reach-absent :
    {d : Debugger} → Reach new_debugger d → d.session_status ≡ absent → d.session ≡ none
unfolding new_debugger
Reach-absent here h = refl
Reach-absent (later r step) h = Step-LacksSession step (Reach-absent r) h
