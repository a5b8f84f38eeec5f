-- ===== src/Debugger/Tests.antt =====
-- A session that is started, connects, and is stopped too early (src/debugger.ts).
use rtl_debugger.Common.{◌≡◌, ◌≢◌, ◌<◌, refl, List, [], ◌∷◌, none, some, arith}
use rtl_debugger.Common.Text.{Text, codes}
use rtl_debugger.Session.{is_paused}
use rtl_debugger.Debugger.{
  Debugger, starting, running, session_changed, session_status_changed, simulation_status_changed,
  message, connected_to_server, new_debugger, set_session_status, set_simulation_status, start_with,
  launch, stop_session, start_session, launched, timer_fired, connected,
}
use rtl_debugger.Debugger.Steps.{
  starts, stops, launches, times_out, connects, Reach, here, later, IsKnown,
}
use rtl_debugger.Debugger.Told.{Reach-IsKnown}
use rtl_debugger.Debugger.Phases.{
  Edge, IsInPhase, PatientReach, rest, go, PatientReach-Moved, stop_session-connected,
}

abbrev shell : List Text
shell = codes "-c" ∷ []

abbrev begun : Debugger
begun = start_session (codes "sh" ∷ shell) new_debugger

abbrev waiting : Debugger
waiting = launched begun

abbrev trying : Debugger
trying = timer_fired waiting

abbrev pub joined : Debugger
joined = connected trying

one_launch : 0 < begun.launching
unfolding start_session start_with launch new_debugger set_session_status
one_launch = omega arith

one_timer : 0 < waiting.timers
unfolding launched start_session start_with launch new_debugger set_session_status
one_timer = omega arith

one_socket : 0 < trying.connecting
unfolding timer_fired launched start_session start_with launch new_debugger set_session_status
one_socket = omega arith

pub joined_status : joined.session_status ≡ running
unfolding connected timer_fired launched start_session start_with launch new_debugger
    set_session_status set_simulation_status
joined_status = refl

pub joined_told :
    joined.told
    ≡ session_status_changed starting
      ∷ message connected_to_server
      ∷ session_status_changed running
      ∷ session_changed (some 1)
      ∷ simulation_status_changed is_paused
      ∷ []
unfolding connected timer_fired launched start_session start_with launch new_debugger
    set_session_status set_simulation_status
joined_told = refl

no_socket : new_debugger.open_sockets ≡ 0
unfolding new_debugger
no_socket = refl

begun-Reach : PatientReach new_debugger trying
begun-Reach =
    go (go (go rest (starts (codes "sh" ∷ shell)) no_socket) (launches one_launch) tt)
      (times_out one_timer) tt

PatientReach-Moved_example : Edge trying.session_status joined.session_status × IsInPhase joined
PatientReach-Moved_example = PatientReach-Moved begun-Reach (connects one_socket) tt

pub joined-Reach : Reach new_debugger joined
joined-Reach =
    later
      (later (later (later here (starts (codes "sh" ∷ shell))) (launches one_launch))
        (times_out one_timer))
      (connects one_socket)

Reach-IsKnown_example : IsKnown (stop_session joined)
Reach-IsKnown_example = Reach-IsKnown (later joined-Reach stops)

stop_session-connected_example :
    let e = connected (timer_fired (stop_session waiting)) in
    let f = start_session (codes "sh" ∷ shell) e in
    (e.session_status ≡ running)
    × (e.terminal ≡ none)
    × (e.session ≢ none)
    × (f.session_status ≡ starting)
    × (f.session ≡ e.session)
stop_session-connected_example = stop_session-connected (codes "sh") shell waiting one_timer
