-- ===== src/Debugger.antt =====
-- src/debugger.ts: starting and stopping a session. What is under way outside (a process that is being
-- launched, the timer of a start, sockets) is counted; terminals and sessions are numbers. The timer of
-- a start is not kept by the code, so nothing cancels it.
pub mod Steps
pub mod Told
pub mod Fields
pub mod Phases
pub mod Running
pub mod Absent
pub mod Tests
use rtl_debugger.Common.{
  ℕ, ◌+◌, ◌-◌, Bool, true, false, List, [], ◌∷◌, ◌++◌, Option, none, some, if◌then◌else◌,
}
use rtl_debugger.Common.Text.{Text}
use rtl_debugger.Session.{RunState, is_running, is_paused, is_finished, state_eq}

pub data SessionStatus : Type 0 where
  absent starting running : SessionStatus

abbrev pub status_eq : SessionStatus → SessionStatus → Bool
status_eq absent absent = true
status_eq starting starting = true
status_eq running running = true
status_eq _ _ = false

pub data Message : Type 0 where
  already_started configure_command connected_to_server : Message
  connection_failed disconnected_from_server : Message

-- What listeners and the user are told.
pub data Notice : Type 0 where
  session_changed : Option ℕ → Notice
  session_status_changed : SessionStatus → Notice
  simulation_status_changed : RunState → Notice
  message : Message → Notice

-- The debugger's fields; `told` so far; then processes that are being launched, timers that run,
-- sockets that connect, sockets whose end is still to come, and the next free number.
pub record Debugger : Type 0 where
  pub terminal : Option ℕ
  pub session : Option ℕ
  pub session_status : SessionStatus
  pub simulation_status : RunState
  pub told : List Notice
  pub launching : ℕ
  pub timers : ℕ
  pub connecting : ℕ
  pub open_sockets : ℕ
  pub next_id : ℕ

unfoldable pub new_debugger : Debugger
new_debugger = record {
  terminal = none;
  session = none;
  session_status = absent;
  simulation_status = is_finished;
  told = [];
  launching = 0;
  timers = 0;
  connecting = 0;
  open_sockets = 0;
  next_id = 0;
}

abbrev pub tell : Notice → Debugger → Debugger
tell n d = record d { told = d.told ++ n ∷ [] }

pub set_session_status : SessionStatus → Debugger → Debugger
set_session_status x d =
    if status_eq d.session_status x
    then d
    else tell (session_status_changed x) (record d { session_status = x })

unfoldable pub set_simulation_status : RunState → Debugger → Debugger
set_simulation_status x d =
    if state_eq d.simulation_status x
    then d
    else tell (simulation_status_changed x) (record d { simulation_status = x })

unfoldable pub stop_session : Debugger → Debugger
unfolding set_session_status set_simulation_status
stop_session d = set_simulation_status is_finished (
    set_session_status absent
      (record (tell (session_changed none) d) { terminal = none; session = none }))

pub launch : List Text → Debugger → Debugger
unfolding set_session_status
launch [] d = tell (message configure_command) d
launch (c ∷ command) d =
    let launched = record d {
      terminal = some d.next_id;
      next_id = d.next_id + 1;
      launching = d.launching + 1;
    } in
    set_session_status starting launched

pub start_with : Option ℕ → List Text → Debugger → Debugger
unfolding launch
start_with (some t) command d = tell (message already_started) d
start_with none command d = launch command d

-- `startSession` up to its await of the process; `command` is the configured one.
unfoldable pub start_session : List Text → Debugger → Debugger
unfolding start_with
start_session command d = start_with d.terminal command d

-- Behind the await: the timer is set.
unfoldable pub launched : Debugger → Debugger
launched d = record d { launching = d.launching - 1; timers = d.timers + 1 }

-- The timer's callback.
unfoldable pub timer_fired : Debugger → Debugger
timer_fired d = record d { timers = d.timers - 1; connecting = d.connecting + 1 }

-- The callback of a socket that is connected. A new session's simulation is paused.
unfoldable pub connected : Debugger → Debugger
unfolding set_session_status set_simulation_status
connected d =
    let begun = record (tell (message connected_to_server) d) {
      session = some d.next_id;
      next_id = d.next_id + 1;
      connecting = d.connecting - 1;
      open_sockets = d.open_sockets + 1;
    } in
    let shown = tell (session_changed (some d.next_id)) (set_session_status running begun) in
    set_simulation_status is_paused shown

-- An error of a socket that connects, and of one that is connected: its close is still to come.
unfoldable pub connection_refused : Debugger → Debugger
unfolding stop_session
connection_refused d = stop_session (record (tell (message connection_failed) d) {
  connecting = d.connecting - 1;
  open_sockets = d.open_sockets + 1;
})

unfoldable pub socket_failed : Debugger → Debugger
unfolding stop_session
socket_failed d = stop_session (tell (message connection_failed) d)

unfoldable pub socket_closed : Bool → Debugger → Debugger
unfolding stop_session
socket_closed had_error d =
    let closed = record d { open_sockets = d.open_sockets - 1 } in
    stop_session (if had_error then closed else tell (message disconnected_from_server) closed)
