-- ===== src/Debugger/Fields.antt =====
-- What the operations of the debugger (src/debugger.ts) do to its fields.
use rtl_debugger.Common.{ℕ, ◌+◌, ◌<◌, ◌≡◌, ◌≢◌, refl, List, ◌∷◌, Option, none, some, arith}
use rtl_debugger.Common.Text.{Text}
use rtl_debugger.Session.{RunState}
use rtl_debugger.Debugger.{
  Debugger, absent, starting, running, set_session_status, set_simulation_status, stop_session,
  start_session, start_with, launch, connected,
}

-- Starts that are under way.
abbrev pub pending : Debugger → ℕ
pending d = d.launching + d.timers + d.connecting

pub some-not_none : {t : Option ℕ} {n : ℕ} → t ≡ some n → t ≢ none
some-not_none h z = cc

pub stop_session_lem :
    (d : Debugger)
    → let e = stop_session d in
      (e.terminal ≡ none)
      × (e.session ≡ none)
      × (e.session_status ≡ absent)
      × (pending e ≡ pending d)
      × (e.open_sockets ≡ d.open_sockets)
unfolding stop_session set_session_status set_simulation_status
stop_session_lem d = ground arith

pub set_simulation_status_lem :
    (x : RunState) (d : Debugger)
    → let e = set_simulation_status x d in
      (e.terminal ≡ d.terminal)
      × (e.session ≡ d.session)
      × (e.session_status ≡ d.session_status)
      × (pending e ≡ pending d)
      × (e.open_sockets ≡ d.open_sockets)
unfolding set_simulation_status
set_simulation_status_lem x d = ground arith

pub launch_lem :
    (c : Text) (command : List Text) (d : Debugger)
    → let e = launch (c ∷ command) d in
      (e.terminal ≡ some d.next_id)
      × (e.session ≡ d.session)
      × (e.session_status ≡ starting)
      × (pending e ≡ pending d + 1)
      × (e.open_sockets ≡ d.open_sockets)
unfolding launch set_session_status
launch_lem c command d = ground arith

pub connected_lem :
    (d : Debugger)
    → 0 < d.connecting
    → let e = connected d in
      (e.terminal ≡ d.terminal)
      × (e.session ≡ some d.next_id)
      × (e.session_status ≡ running)
      × (pending e + 1 ≡ pending d)
unfolding connected set_session_status set_simulation_status
connected_lem d h = ground arith

start_with_lem :
    (c : Text) (command : List Text) (d : Debugger)
    → start_with none (c ∷ command) d ≡ launch (c ∷ command) d
unfolding start_with
start_with_lem c command d = refl

pub launched_start :
    (c : Text) (command : List Text) (d : Debugger)
    → d.terminal ≡ none
    → let e = start_session (c ∷ command) d in
      (e.terminal ≡ some d.next_id) × (e.session ≡ d.session) × (e.session_status ≡ starting)
unfolding start_session
launched_start c command d h =
    let (t, s, y, q, o) = launch_lem c command d in rw (h, start_with_lem c command d) (t, s, y)
