-- ===== src/Debugger/Steps.antt =====
-- What can happen to the debugger (src/debugger.ts), and what always holds of it.
use rtl_debugger.Common.{ℕ, ◌<◌, ◌≡◌, refl, Bool, List, [], ◌∷◌, ◌++◌, Option, none}
use rtl_debugger.Common.Text.{Text}
use rtl_debugger.Session.{RunState, is_finished}
use rtl_debugger.Debugger.{
  Debugger, SessionStatus, absent, Notice, session_changed, session_status_changed,
  simulation_status_changed, message, set_simulation_status, stop_session, start_session, launched,
  timer_fired, connected, connection_refused, socket_failed, socket_closed,
}

-- The statuses of a session's simulation come from any session that was ever begun.
pub data Step (d : Debugger) : Debugger → Type 0 where
  starts : (command : List Text) → Step d (start_session command d)
  stops : Step d (stop_session d)
  launches : 0 < d.launching → Step d (launched d)
  times_out : 0 < d.timers → Step d (timer_fired d)
  connects : 0 < d.connecting → Step d (connected d)
  refuses : 0 < d.connecting → Step d (connection_refused d)
  breaks : 0 < d.open_sockets → Step d (socket_failed d)
  closes : 0 < d.open_sockets → (had_error : Bool) → Step d (socket_closed had_error d)
  simulates : (x : RunState) → Step d (set_simulation_status x d)

pub data Reach (d : Debugger) : Debugger → Type 0 where
  here : Reach d d
  later : {e f : Debugger} → Reach d e → Step e f → Reach d f

-- The status that listeners were told last, from one that they knew.
abbrev pub last_status : SessionStatus → List Notice → SessionStatus
last_status x [] = x
last_status x (session_status_changed y ∷ ns) = last_status y ns
last_status x (session_changed s ∷ ns) = last_status x ns
last_status x (simulation_status_changed s ∷ ns) = last_status x ns
last_status x (message m ∷ ns) = last_status x ns

abbrev pub last_simulation : RunState → List Notice → RunState
last_simulation x [] = x
last_simulation x (simulation_status_changed y ∷ ns) = last_simulation y ns
last_simulation x (session_changed s ∷ ns) = last_simulation x ns
last_simulation x (session_status_changed s ∷ ns) = last_simulation x ns
last_simulation x (message m ∷ ns) = last_simulation x ns

abbrev pub last_session : Option ℕ → List Notice → Option ℕ
last_session x [] = x
last_session x (session_changed y ∷ ns) = last_session y ns
last_session x (session_status_changed s ∷ ns) = last_session x ns
last_session x (simulation_status_changed s ∷ ns) = last_session x ns
last_session x (message m ∷ ns) = last_session x ns

pub last_status-append :
    (x : SessionStatus) (ms ns : List Notice)
    → last_status x (ms ++ ns) ≡ last_status (last_status x ms) ns
last_status-append x [] ns = refl
last_status-append x (session_status_changed y ∷ ms) ns = last_status-append y ms ns
last_status-append x (session_changed s ∷ ms) ns = last_status-append x ms ns
last_status-append x (simulation_status_changed s ∷ ms) ns = last_status-append x ms ns
last_status-append x (message m ∷ ms) ns = last_status-append x ms ns

pub last_simulation-append :
    (x : RunState) (ms ns : List Notice)
    → last_simulation x (ms ++ ns) ≡ last_simulation (last_simulation x ms) ns
last_simulation-append x [] ns = refl
last_simulation-append x (simulation_status_changed y ∷ ms) ns = last_simulation-append y ms ns
last_simulation-append x (session_changed s ∷ ms) ns = last_simulation-append x ms ns
last_simulation-append x (session_status_changed s ∷ ms) ns = last_simulation-append x ms ns
last_simulation-append x (message m ∷ ms) ns = last_simulation-append x ms ns

pub last_session-append :
    (x : Option ℕ) (ms ns : List Notice)
    → last_session x (ms ++ ns) ≡ last_session (last_session x ms) ns
last_session-append x [] ns = refl
last_session-append x (session_changed y ∷ ms) ns = last_session-append y ms ns
last_session-append x (session_status_changed s ∷ ms) ns = last_session-append x ms ns
last_session-append x (simulation_status_changed s ∷ ms) ns = last_session-append x ms ns
last_session-append x (message m ∷ ms) ns = last_session-append x ms ns

-- Listeners know the state.
pub record IsKnown (d : Debugger) : Type 0 where
  pub status : last_status absent d.told ≡ d.session_status
  pub simulation : last_simulation is_finished d.told ≡ d.simulation_status
  pub session : last_session none d.told ≡ d.session
