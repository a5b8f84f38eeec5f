-- ===== src/Debugger/Told.antt =====
-- Listeners of the debugger (src/debugger.ts) know its state.
use rtl_debugger.Common.{
  ℕ, ◌+◌, ◌-◌, ◌≡◌, refl, ap, ◌∙◌, inl, inr, true, false, Bool-cases, List, [], ◌∷◌, ◌++◌, Option,
  none, some,
}
use rtl_debugger.Common.Text.{Text}
use rtl_debugger.Session.{RunState, is_paused, is_finished, state_eq}
use rtl_debugger.Session.Status.{state_eq-eq}
use rtl_debugger.Debugger.{
  already_started, configure_command, connected_to_server, connection_failed,
  disconnected_from_server, tell, Debugger, SessionStatus, absent, starting, running, status_eq,
  Notice, session_changed, session_status_changed, simulation_status_changed, message, Message,
  new_debugger, set_session_status, set_simulation_status, stop_session, start_session, start_with,
  launch, launched, timer_fired, connected, connection_refused, socket_failed, socket_closed,
}
use rtl_debugger.Debugger.Steps.{
  Step, starts, stops, launches, times_out, connects, refuses, breaks, closes, simulates, Reach,
  here, later, last_status, last_simulation, last_session, last_status-append,
  last_simulation-append, last_session-append, IsKnown,
}

pub status_eq-eq : (x y : SessionStatus) → status_eq x y ≡ true → x ≡ y
status_eq-eq absent absent h = refl
status_eq-eq starting starting h = refl
status_eq-eq running running h = refl
status_eq-eq absent starting h = cc
status_eq-eq absent running h = cc
status_eq-eq starting absent h = cc
status_eq-eq starting running h = cc
status_eq-eq running absent h = cc
status_eq-eq running starting h = cc

-- What was told is told of a status, a simulation and a session.
record Told (ns : List Notice) (x : SessionStatus) (r : RunState) (s : Option ℕ) : Type 0 where
  pub status : last_status absent ns ≡ x
  pub simulation : last_simulation is_finished ns ≡ r
  pub session : last_session none ns ≡ s

Told-tell :
    (n : Notice) {ns : List Notice} {x : SessionStatus} {r : RunState} {s : Option ℕ}
    → Told ns x r s
    → Told
        (ns ++ n ∷ [])
        (last_status x (n ∷ []))
        (last_simulation r (n ∷ []))
        (last_session s (n ∷ []))
Told-tell n {ns} h = record {
  status = last_status-append absent ns (n ∷ []) ∙ ap (λ x. last_status x (n ∷ [])) h.status;
  simulation =
      last_simulation-append is_finished ns (n ∷ [])
      ∙ ap (λ x. last_simulation x (n ∷ [])) h.simulation;
  session = last_session-append none ns (n ∷ []) ∙ ap (λ x. last_session x (n ∷ [])) h.session;
}

set_session_status-Told :
    (x : SessionStatus) (d : Debugger) {r : RunState} {s : Option ℕ}
    → Told d.told d.session_status r s
    → let e = set_session_status x d in
      Told e.told x r s
      × (e.session_status ≡ x)
      × (e.simulation_status ≡ d.simulation_status)
      × (e.session ≡ d.session)
unfolding set_session_status
set_session_status-Told x d h = elim (Bool-cases (status_eq d.session_status x)) [
  | inl same ↦
      let e = status_eq-eq d.session_status x same in
      rw same (
        record { status = h.status ∙ e; simulation = h.simulation; session = h.session },
        e,
        refl,
        refl,
      )
  | inr new ↦ rw new (Told-tell (session_status_changed x) h, refl, refl, refl)
]

set_simulation_status-Told :
    (x : RunState) (d : Debugger) {y : SessionStatus} {s : Option ℕ}
    → Told d.told y d.simulation_status s
    → let e = set_simulation_status x d in
      Told e.told y x s
      × (e.session_status ≡ d.session_status)
      × (e.simulation_status ≡ x)
      × (e.session ≡ d.session)
unfolding set_simulation_status
set_simulation_status-Told x d h = elim (Bool-cases (state_eq d.simulation_status x)) [
  | inl same ↦
      let e = state_eq-eq d.simulation_status x same in
      rw same (
        record { status = h.status; simulation = h.simulation ∙ e; session = h.session },
        refl,
        e,
        refl,
      )
  | inr new ↦ rw new (Told-tell (simulation_status_changed x) h, refl, refl, refl)
]

-- The state is as it was told.
abbrev Knows : Debugger → Type 0
Knows d = Told d.told d.session_status d.simulation_status d.session

message-Knows : (m : Message) (d : Debugger) → Knows d → Knows (tell (message m) d)
message-Knows m d h = Told-tell (message m) h

set_simulation_status-Knows :
    (x : RunState) (d : Debugger) → Knows d → Knows (set_simulation_status x d)
set_simulation_status-Knows x d h =
    let (k, e, f, g) = set_simulation_status-Told x d h in rw (e, f, g) k

set_session_status-Knows :
    (x : SessionStatus) (d : Debugger) → Knows d → Knows (set_session_status x d)
set_session_status-Knows x d h = let (k, e, f, g) = set_session_status-Told x d h in rw (e, f, g) k

stop_session-Knows : (d : Debugger) → Knows d → Knows (stop_session d)
unfolding stop_session
stop_session-Knows d h =
    let cleared = record (tell (session_changed none) d) { terminal = none; session = none } in
    set_simulation_status-Knows is_finished (set_session_status absent cleared)
      (set_session_status-Knows absent cleared (Told-tell (session_changed none) h))

start_with-Knows :
    (t : Option ℕ) (command : List Text) (d : Debugger) → Knows d → Knows (start_with t command d)
unfolding start_with launch
start_with-Knows (some t) command d h = message-Knows already_started d h
start_with-Knows none [] d h = message-Knows configure_command d h
start_with-Knows none (c ∷ command) d h =
    set_session_status-Knows starting
      (record d { terminal = some d.next_id; next_id = d.next_id + 1; launching = d.launching + 1 })
      (record { status = h.status; simulation = h.simulation; session = h.session })

connected-Knows : (d : Debugger) → Knows d → Knows (connected d)
unfolding connected
connected-Knows d h =
    let begun = record (tell (message connected_to_server) d) {
      session = some d.next_id;
      next_id = d.next_id + 1;
      connecting = d.connecting - 1;
      open_sockets = d.open_sockets + 1;
    } in
    let (k, e, f, g) =
      set_session_status-Told running begun (message-Knows connected_to_server d h) in
    let shown = tell (session_changed (some d.next_id)) (set_session_status running begun) in
    let known : Knows shown = rw (e, f, g) (Told-tell (session_changed (some d.next_id)) k) in
    set_simulation_status-Knows is_paused shown known

same-Knows :
    (d e : Debugger)
    → e.told ≡ d.told
    → e.session_status ≡ d.session_status
    → e.simulation_status ≡ d.simulation_status
    → e.session ≡ d.session
    → Knows d
    → Knows e
same-Knows d e a b c f h =
    rw (a, b, c, f) (record { status = h.status; simulation = h.simulation; session = h.session })

Step-Knows : {d e : Debugger} → Step d e → Knows d → Knows e
unfolding start_session launched timer_fired connection_refused socket_failed socket_closed
Step-Knows {d} (starts command) h = start_with-Knows d.terminal command d h
Step-Knows {d} stops h = stop_session-Knows d h
Step-Knows {d} (launches n) h = same-Knows d (launched d) refl refl refl refl h
Step-Knows {d} (times_out n) h = same-Knows d (timer_fired d) refl refl refl refl h
Step-Knows {d} (connects n) h = connected-Knows d h
Step-Knows {d} (refuses n) h =
    let tried = record (tell (message connection_failed) d) {
      connecting = d.connecting - 1;
      open_sockets = d.open_sockets + 1;
    } in
    stop_session-Knows tried (
      same-Knows (tell (message connection_failed) d) tried refl refl refl refl
        (message-Knows connection_failed d h))
Step-Knows {d} (breaks n) h =
    stop_session-Knows (tell (message connection_failed) d) (message-Knows connection_failed d h)
Step-Knows {d} (closes n true) h =
    let closed = record d { open_sockets = d.open_sockets - 1 } in
    stop_session-Knows closed (same-Knows d closed refl refl refl refl h)
Step-Knows {d} (closes n false) h =
    let closed = record d { open_sockets = d.open_sockets - 1 } in
    stop_session-Knows (tell (message disconnected_from_server) closed)
      (message-Knows disconnected_from_server closed (same-Knows d closed refl refl refl refl h))
Step-Knows {d} (simulates x) h = set_simulation_status-Knows x d h

Reach-Knows : {d : Debugger} → Reach new_debugger d → Knows d
unfolding new_debugger
Reach-Knows here = record { status = refl; simulation = refl; session = refl }
Reach-Knows (later r step) = Step-Knows step (Reach-Knows r)

-- In every state that a new debugger comes to, its listeners were told last the session, the session's
-- status and the simulation's status that the debugger has.
pub Reach-IsKnown : {d : Debugger} → Reach new_debugger d → IsKnown d
Reach-IsKnown r =
    let h = Reach-Knows r in
    record { status = h.status; simulation = h.simulation; session = h.session }
