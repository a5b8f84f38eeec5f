-- ===== src/Debugger/Phases.antt =====
-- Who waits for the debugger (src/debugger.ts): its status follows a machine of three phases when
-- nobody stops a session that is being started, and a start that is stopped goes on.
use rtl_debugger.Common.{
  ℕ, ◌+◌, ◌-◌, ◌<◌, ◌≡◌, ◌≢◌, refl, sym, ap, ◌∙◌, Bool, true, false, List, [], ◌∷◌, Option, none,
  some, arith,
}
use mathlib.Core.Path.{subst}
use rtl_debugger.Common.Text.{Text}
use rtl_debugger.Session.{RunState}
use rtl_debugger.Debugger.{
  already_started, configure_command, connection_failed, disconnected_from_server, tell, Debugger,
  SessionStatus, absent, starting, running, message, Message, new_debugger, set_simulation_status,
  stop_session, start_session, start_with, launch, launched, timer_fired, connected,
  connection_refused, socket_failed, socket_closed,
}
use rtl_debugger.Debugger.Steps.{
  Step, starts, stops, launches, times_out, connects, refuses, breaks, closes, simulates,
}
use rtl_debugger.Debugger.Fields.{
  pending, some-not_none, stop_session_lem, set_simulation_status_lem, launch_lem, connected_lem,
  launched_start,
}

-- The machine that the status promises.
pub data Edge : SessionStatus → SessionStatus → Type 0 where
  stay : {x : SessionStatus} → Edge x x
  begin : Edge absent starting
  connect : Edge starting running
  halt : {x : SessionStatus} → Edge x absent

-- A session is stopped only when no start is under way, and started when no socket is open.
abbrev pub Patient : {d e : Debugger} → Step d e → Type 0
Patient {d} (starts command) = d.open_sockets ≡ 0
Patient {d} stops = pending d ≡ 0
Patient (launches n) = Unit
Patient (times_out n) = Unit
Patient (connects n) = Unit
Patient (refuses n) = Unit
Patient (breaks n) = Unit
Patient (closes n had_error) = Unit
Patient (simulates x) = Unit

pub data PatientReach (d : Debugger) : Debugger → Type 0 where
  rest : PatientReach d d
  go : {e f : Debugger} → PatientReach d e → (s : Step e f) → Patient s → PatientReach d f

-- What the fields say together: a terminal is kept from the start to the end, a session while it runs,
-- and one start at most is under way.
abbrev pub Phase : SessionStatus → Debugger → Type 0
Phase absent d = (d.terminal ≡ none) × (d.session ≡ none) × (pending d ≡ 0)
Phase starting d = (d.terminal ≢ none) × (d.session ≡ none) × (pending d ≡ 1) × (d.open_sockets ≡ 0)
Phase running d = (d.terminal ≢ none) × (d.session ≢ none) × (pending d ≡ 0)

abbrev pub IsInPhase : Debugger → Type 0
IsInPhase d = Phase d.session_status d

-- A change to a phase of the machine.
record Moved (x : SessionStatus) (e : Debugger) : Type 0 where
  pub edge : Edge x e.session_status
  pub in_phase : IsInPhase e

Moved-at :
    {x : SessionStatus} (y : SessionStatus) {e : Debugger}
    → e.session_status ≡ y
    → Edge x y
    → Phase y e
    → Moved x e
Moved-at {x} y {e} h g p = record { edge = rw h g; in_phase = subst (λ z. Phase z e) (sym h) p }

Phase-same :
    (x : SessionStatus) (d e : Debugger)
    → e.terminal ≡ d.terminal
    → e.session ≡ d.session
    → pending e ≡ pending d
    → e.open_sockets ≡ d.open_sockets
    → Phase x d
    → Phase x e
Phase-same absent d e t s p o (a, b, c) = (t ∙ a, s ∙ b, p ∙ c)
Phase-same starting d e t s p o (a, b, c, f) = ((λ z. a (sym t ∙ z)), s ∙ b, p ∙ c, o ∙ f)
Phase-same running d e t s p o (a, b, c) = ((λ z. a (sym t ∙ z)), (λ z. b (sym s ∙ z)), p ∙ c)

stop_session-Moved : (x : SessionStatus) (d : Debugger) → pending d ≡ 0 → Moved x (stop_session d)
stop_session-Moved x d h =
    let (t, s, a, p, o) = stop_session_lem d in Moved-at absent a halt (t, s, p ∙ h)

closed-Moved :
    (x : SessionStatus) (had_error : Bool) (d : Debugger)
    → pending d ≡ 0
    → Moved x (socket_closed had_error d)
unfolding socket_closed
closed-Moved x true d h = stop_session-Moved x (record d { open_sockets = d.open_sockets - 1 }) h
closed-Moved x false d h =
    stop_session-Moved x
      (tell (message disconnected_from_server) (record d { open_sockets = d.open_sockets - 1 })) h

-- Changes of the counters alone.
Moved-same : {x : SessionStatus} {e : Debugger} → e.session_status ≡ x → Phase x e → Moved x e
Moved-same {x} h p = Moved-at x h stay p

message-Moved :
    (m : Message) (x : SessionStatus) (d : Debugger)
    → d.session_status ≡ x
    → Phase x d
    → Moved x (tell (message m) d)
message-Moved m x d h p =
    Moved-same {e = tell (message m) d} h
      (Phase-same x d (tell (message m) d) refl refl refl refl p)

set_simulation_status-Moved :
    (r : RunState) (x : SessionStatus) (d : Debugger)
    → d.session_status ≡ x
    → Phase x d
    → Moved x (set_simulation_status r d)
set_simulation_status-Moved r x d h p =
    let (t, s, a, q, o) = set_simulation_status_lem r d in
    Moved-same (a ∙ h) (Phase-same x d (set_simulation_status r d) t s q o p)

start_with-Moved :
    (t : Option ℕ) (command : List Text) (x : SessionStatus) (d : Debugger)
    → d.terminal ≡ t
    → d.open_sockets ≡ 0
    → d.session_status ≡ x
    → Phase x d
    → Moved x (start_with t command d)
unfolding start_with launch
start_with-Moved (some t) command x d k o h p = message-Moved already_started x d h p
start_with-Moved none [] x d k o h p = message-Moved configure_command x d h p
start_with-Moved none (c ∷ command) absent d k o h (a, b, f) =
    let (t, s, y, q, z) = launch_lem c command d in
    Moved-at starting y begin (some-not_none t, s ∙ b, q ∙ ap (λ n. n + 1) f, z ∙ o)
start_with-Moved none (c ∷ command) starting d k o h (a, b, f, z) = absurd (a k)
start_with-Moved none (c ∷ command) running d k o h (a, b, f) = absurd (a k)

Step-Moved :
    (x : SessionStatus) {d e : Debugger} (s : Step d e)
    → Patient s
    → d.session_status ≡ x
    → Phase x d
    → Moved x e
unfolding start_session launched timer_fired connection_refused socket_failed socket_closed
Step-Moved x {d} (starts command) q h p = start_with-Moved d.terminal command x d refl q h p
Step-Moved x {d} stops q h p = stop_session-Moved x d q
Step-Moved absent {d} (launches n) q h (a, b, c) = absurd (omega arith)
Step-Moved starting {d} (launches n) q h (a, b, c, o) =
    Moved-same {e = launched d} h (a, b, omega arith, o)
Step-Moved running {d} (launches n) q h (a, b, c) = absurd (omega arith)
Step-Moved absent {d} (times_out n) q h (a, b, c) = absurd (omega arith)
Step-Moved starting {d} (times_out n) q h (a, b, c, o) =
    Moved-same {e = timer_fired d} h (a, b, omega arith, o)
Step-Moved running {d} (times_out n) q h (a, b, c) = absurd (omega arith)
Step-Moved absent {d} (connects n) q h (a, b, c) = absurd (omega arith)
Step-Moved starting {d} (connects n) q h (a, b, c, o) =
    let (t, s, y, z) = connected_lem d n in
    Moved-at running y connect ((λ w. a (sym t ∙ w)), some-not_none s, omega arith)
Step-Moved running {d} (connects n) q h (a, b, c) = absurd (omega arith)
Step-Moved absent {d} (refuses n) q h (a, b, c) = absurd (omega arith)
Step-Moved starting {d} (refuses n) q h (a, b, c, o) =
    let tried = record (tell (message connection_failed) d) {
      connecting = d.connecting - 1;
      open_sockets = d.open_sockets + 1;
    } in
    stop_session-Moved starting tried (omega arith)
Step-Moved running {d} (refuses n) q h (a, b, c) = absurd (omega arith)
Step-Moved absent {d} (breaks n) q h (a, b, c) =
    stop_session-Moved absent (tell (message connection_failed) d) c
Step-Moved starting {d} (breaks n) q h (a, b, c, o) = absurd (omega arith)
Step-Moved running {d} (breaks n) q h (a, b, c) =
    stop_session-Moved running (tell (message connection_failed) d) c
Step-Moved absent {d} (closes n had_error) q h (a, b, c) = closed-Moved absent had_error d c
Step-Moved starting {d} (closes n had_error) q h (a, b, c, o) = absurd (omega arith)
Step-Moved running {d} (closes n had_error) q h (a, b, c) = closed-Moved running had_error d c
Step-Moved x {d} (simulates r) q h p = set_simulation_status-Moved r x d h p

PatientReach-IsInPhase : {d : Debugger} → PatientReach new_debugger d → IsInPhase d
unfolding new_debugger
PatientReach-IsInPhase rest = (refl, refl, refl)
PatientReach-IsInPhase (go {e} r s q) =
    (Step-Moved e.session_status s q refl (PatientReach-IsInPhase r)).in_phase

-- A new debugger's patient steps go along the machine's edges: in every state that it comes to, a step
-- that does not stop a start under way, and does not start while a socket is open, leaves the session's
-- status or takes it along an edge of absent, starting and running; and then the terminal, the session
-- and the starts under way are those of the phase it is in.
pub PatientReach-Moved :
    {d e : Debugger}
    → PatientReach new_debugger d
    → (s : Step d e) → Patient s
    → Edge d.session_status e.session_status × IsInPhase e
PatientReach-Moved {d} r s q =
    let m = Step-Moved d.session_status s q refl (PatientReach-IsInPhase r) in (m.edge, m.in_phase)

-- Stopping while the timer of a start runs does not cancel it: when it fires and its socket connects,
-- there is a session without a terminal, and the next start is let through beside it, to a status of
-- starting while that session is there.
pub stop_session-connected :
    (c : Text) (command : List Text) (d : Debugger)
    → 0 < d.timers
    → let e = connected (timer_fired (stop_session d)) in
      let f = start_session (c ∷ command) e in
      (e.session_status ≡ running)
      × (e.terminal ≡ none)
      × (e.session ≢ none)
      × (f.session_status ≡ starting)
      × (f.session ≡ e.session)
unfolding timer_fired
stop_session-connected c command d h =
    let (t, s, a, p, o) = stop_session_lem d in
    let fired = timer_fired (stop_session d) in
    let (u, v, w, z) = connected_lem fired (omega arith) in
    let (k, l, m) = launched_start c command (connected fired) (u ∙ t) in
    (w, u ∙ t, some-not_none v, m, l)
