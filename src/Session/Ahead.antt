-- ===== src/Session/Ahead.antt =====
-- Steps forward at the end of the recorded part (src/debug/session.ts).
use rtl_debugger.Common.{
  ℕ, ◌≡◌, refl, ap, ◌∙◌, inl, inr, true, false, [], ◌∷◌, ◌++◌, none, some, ok, throw, type_error,
  arith, Bool-cases, if◌then◌else◌,
}
use rtl_debugger.Common.Int.{pos}
use rtl_debugger.Proto.{StatusResponse}
use rtl_debugger.Time.{zero_time, equals, less_than, greater_than}
use rtl_debugger.Session.{
  Session, Server, SimulationStatus, is_paused, cursor_changed, until, new_session, status_of,
  set_time_cursor, step_forward, run_ahead, run_to, reach, run_simulation, at_end,
}
use rtl_debugger.Session.Status.{query_simulation_status-Known}

reach_lem :
    (server : Server) (n : ℕ) (s : Session)
    → (t : Session) × (reach (some (record { raw = pos n })) s ≡ (ok tt, t))
      × (t.simulation_status ≡ s.simulation_status)
      × (t.time_cursor ≡ (
          if greater_than (record { raw = pos n }) s.simulation_status.latest_time
          then s.time_cursor
          else record { raw = pos n }))
unfolding reach set_time_cursor
reach_lem server n s =
    let later : less_than (record { raw = pos n }) zero_time ≡ false = ground arith in
    elim (Bool-cases (greater_than (record { raw = pos n }) s.simulation_status.latest_time)) [
      | inl far ↦ (s, rw far refl, refl, rw far refl)
      | inr near ↦ (
        record s {
          time_cursor = record { raw = pos n };
          fired = s.fired ++ cursor_changed (record { raw = pos n }) ∷ [];
        },
        rw (near, later) refl,
        refl,
        rw near refl,
      )
    ]

run_to_lem :
    (server : Server) (s : Session) (n : ℕ) (r0 r1 : StatusResponse) (x0 x1 : SimulationStatus)
    → server.run_simulation (until (some (record { raw = pos n }))) ≡ ok tt
    → server.get_simulation_status 0 ≡ ok r0
    → status_of r0 ≡ ok x0
    → server.get_simulation_status 1 ≡ ok r1
    → status_of r1 ≡ ok x1
    → (t : Session) × (run_to server (some (record { raw = pos n })) s ≡ (ok tt, t))
      × (t.simulation_status.latest_time ≡ x1.latest_time)
      × (t.time_cursor ≡ (
          if greater_than (record { raw = pos n }) x1.latest_time
          then s.time_cursor
          else record { raw = pos n }))
unfolding run_to run_simulation
run_to_lem server s n r0 r1 x0 x1 run e0 h0 e1 h1 =
    let (t, e, k) = query_simulation_status-Known r0 x0 s h0 in
    let (u, f, l) = query_simulation_status-Known r1 x1 t h1 in
    let (v, g, status, cursor) = reach_lem server n u in
    (
      v,
      rw (run, e0, e, e1, f) g,
      ap (λ x. x.latest_time) status ∙ l.latest,
      cursor ∙ rw (l.latest, l.cursor, k.cursor) refl,
    )

-- Where the cursor is at the end of a paused simulation whose next sample's time is known, a step
-- forward runs the simulation until then; if its status can be read twice, the cursor is at that time
-- unless the latest time is still before it, and the call gives the cursor.
pub step_forward-run :
    (server : Server) (fuel : ℕ) (s : Session) (n : ℕ) (r0 r1 : StatusResponse)
    (x0 x1 : SimulationStatus)
    → s.time_cursor ≡ s.simulation_status.latest_time
    → s.simulation_status.status ≡ is_paused
    → s.simulation_status.next_sample_time ≡ some (record { raw = pos n })
    → server.run_simulation (until (some (record { raw = pos n }))) ≡ ok tt
    → server.get_simulation_status 0 ≡ ok r0
    → status_of r0 ≡ ok x0
    → server.get_simulation_status 1 ≡ ok r1
    → status_of r1 ≡ ok x1
    → (t : Session) × (step_forward server fuel s ≡ some (ok t.time_cursor, t))
      × (t.simulation_status.latest_time ≡ x1.latest_time)
      × (t.time_cursor ≡ (
          if greater_than (record { raw = pos n }) x1.latest_time
          then s.time_cursor
          else record { raw = pos n }))
unfolding step_forward run_ahead
step_forward-run server fuel s n r0 r1 x0 x1 c p next run e0 h0 e1 h1 =
    let (t, e, latest, cursor) = run_to_lem server s n r0 r1 x0 x1 run e0 h0 e1 h1 in
    let there : equals s.time_cursor s.simulation_status.latest_time ≡ true = rw c (ground arith) in
    let ran : at_end server s.simulation_status.status s ≡ (ok tt, t) =
      ap (λ x. at_end server x s) p ∙ (ap (λ x. run_to server x s) next ∙ e) in
    (t, rw (there, ran) refl, latest, cursor)

-- Before the first status reply a step forward runs the simulation with no time to stop at; if the
-- simulation starts and its status can be read, the step then throws a TypeError.
step_forward-unasked :
    (server : Server) (fuel : ℕ) (r0 r1 : StatusResponse) (x0 x1 : SimulationStatus)
    → server.run_simulation (until none) ≡ ok tt
    → server.get_simulation_status 0 ≡ ok r0
    → status_of r0 ≡ ok x0
    → server.get_simulation_status 1 ≡ ok r1
    → status_of r1 ≡ ok x1
    → (t : Session) × (step_forward server fuel new_session ≡ some (throw type_error, t))
      × (t.simulation_status.latest_time ≡ x1.latest_time)
      × (t.time_cursor ≡ zero_time)
unfolding step_forward run_ahead run_to run_simulation reach
step_forward-unasked server fuel r0 r1 x0 x1 run e0 h0 e1 h1 =
    let (t, e, k) = query_simulation_status-Known r0 x0 new_session h0 in
    let (u, f, l) = query_simulation_status-Known r1 x1 t h1 in
    (u, rw (run, e0, e, e1, f) refl, l.latest, l.cursor ∙ k.cursor)
