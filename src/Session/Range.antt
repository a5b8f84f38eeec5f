-- ===== src/Session/Range.antt =====
-- The range of the cursor: its setter and the steps of src/debug/session.ts.
use rtl_debugger.Common.{
  ℕ, zero, suc, ◌*◌, ◌≡◌, refl, inl, inr, true, false, Bool, ◌||◌, List, [], ◌∷◌, Option, none,
  some, Result, ok, throw, arith, Bool-cases, if◌then◌else◌,
}
use rtl_debugger.Common.Int.{pos, negsuc, ◌≤ℤ◌}
use rtl_debugger.Proto.{ProtoSample, StatusResponse}
use rtl_debugger.Time.{
  TimePoint, zero_time, equals, less_than, greater_than, from_cxxrtl, offset_by_femtos,
}
use rtl_debugger.Session.{
  Session, Server, Outcome, SimulationStatus, RunState, is_running, is_paused, is_finished,
  timeline, until, status_of, status_known, query_simulation_status, move_to, set_time_cursor,
  look_ahead, step_forward, step_backward, run_ahead, run_to, reach, run_simulation, forward_reply,
  with_cursor, back_reply, at_end, continue,
}
use rtl_debugger.Session.Status.{status_known-Known}

abbrev pub InRange : Session → Type 0
InRange s =
    (pos 0 ≤ℤ s.time_cursor.raw) × (s.time_cursor.raw ≤ℤ s.simulation_status.latest_time.raw)

pub set_time_cursor-InRange :
    (u : TimePoint) (s : Session) → InRange s → InRange ((set_time_cursor u s).1)
unfolding set_time_cursor
set_time_cursor-InRange u s h =
    elim (Bool-cases (less_than u zero_time || greater_than u s.simulation_status.latest_time)) [
      | inl bad ↦ rw bad h
      | inr fine ↦ rw fine (ground arith, ground arith)
    ]

move_to-InRange : (y : ProtoSample) (s : Session) → InRange s → InRange ((move_to y s).1)
unfolding move_to
move_to-InRange y s h = moved (from_cxxrtl y.time)
  where
    moved : (r : Result TimePoint) → InRange ((continue {B = Unit {0}} (r, s) set_time_cursor).1)
    moved (ok t) = set_time_cursor-InRange t s h
    moved (throw e) = h

-- The outcome of a loop that ended is in range.
abbrev pub EndsInRange : {A : Type 0} → Option (Outcome A) → Type 0
EndsInRange none = Unit
EndsInRange (some o) = InRange (o.1)

forward_reply-InRange :
    (r : Result (List ProtoSample)) (s : Session) (again : Option (Outcome Unit))
    → InRange s
    → EndsInRange again
    → EndsInRange (forward_reply r s again)
forward_reply-InRange (throw e) s again h a = h
forward_reply-InRange (ok []) s again h a = h
forward_reply-InRange (ok (x ∷ [])) s again h a = a
forward_reply-InRange (ok (x ∷ y ∷ samples)) s again h a = move_to-InRange y s h

look_ahead-InRange :
    (server : Server) (fuel : ℕ) (s : Session) → InRange s → EndsInRange (look_ahead server fuel s)
unfolding look_ahead
look_ahead-InRange server zero s h = tt
look_ahead-InRange server (suc fuel) s h =
    let rest =
      look_ahead-InRange server fuel (record s { forward_time_step = s.forward_time_step * 2 }) h in
    forward_reply-InRange
      (server.query_interval
        (timeline s.time_cursor (offset_by_femtos s.time_cursor (pos s.forward_time_step))))
      s _ h rest

with_cursor-InRange :
    (server : Server) (o : Outcome Unit) → InRange (o.1) → InRange ((with_cursor server o).1)
with_cursor-InRange server (ok u, s) h = h
with_cursor-InRange server (throw e, s) h = h

back_reply-InRange :
    (server : Server) (r : Result (List ProtoSample)) (s : Session)
    → InRange s
    → InRange ((back_reply server r s).1)
back_reply-InRange server (throw e) s h = h
back_reply-InRange server (ok []) s h = h
back_reply-InRange server (ok (x ∷ samples)) s h = move_to-InRange x s h

-- A step back keeps the cursor between zero and the latest time, whatever the server answers.
step_backward-InRange :
    (server : Server) (s : Session) → InRange s → InRange ((step_backward server s).1)
unfolding step_backward
step_backward-InRange server s h =
    let preceding = offset_by_femtos s.time_cursor (negsuc 0) in
    let reply = server.query_interval (timeline preceding preceding) in
    elim (Bool-cases (equals s.time_cursor zero_time)) [
      | inl e ↦ rw e h
      | inr e ↦ rw e (
          with_cursor-InRange server (back_reply server reply s)
            (back_reply-InRange server reply s h))
    ]

-- The server's statuses are of a time or later.
abbrev pub IsLater : Server → TimePoint → Type 0
IsLater server b =
    (k : ℕ) (r : StatusResponse) (new : SimulationStatus)
    → server.get_simulation_status k ≡ ok r
    → status_of r ≡ ok new
    → b.raw ≤ℤ new.latest_time.raw

-- The cursor is no later than a time that the latest time is not before.
abbrev Below : TimePoint → Session → Type 0
Below b s =
    (pos 0 ≤ℤ s.time_cursor.raw)
    × (s.time_cursor.raw ≤ℤ b.raw)
    × (b.raw ≤ℤ s.simulation_status.latest_time.raw)

Below-InRange : (b : TimePoint) (s : Session) → Below b s → InRange s
Below-InRange b s h = (h.0, ground arith)

query_simulation_status-Below :
    (b : TimePoint) (reply : Result StatusResponse) (s : Session)
    → ((r : StatusResponse) (new : SimulationStatus)
        → reply ≡ ok r
        → status_of r ≡ ok new
        → b.raw ≤ℤ new.latest_time.raw)
    → Below b s
    → Below b ((query_simulation_status reply s).1)
unfolding query_simulation_status
query_simulation_status-Below b (throw e) s later h = h
query_simulation_status-Below b (ok r) s later h = known (status_of r) refl
  where
    known :
        (x : Result SimulationStatus)
        → status_of r ≡ x
        → Below b (
            (continue {B = Unit {0}}
              (x, record s { timeout = false })
              λ new u. (ok tt, status_known new u)).1)
    known (throw e) h' = h
    known (ok new) h' =
        let k = status_known-Known new (record s { timeout = false }) in
        rw (k.cursor, k.latest) (h.0, h.1, later r new refl h')

continue-Below :
    (b : TimePoint) (o : Outcome Unit) (f : Unit {0} → Session → Outcome Unit)
    → Below b (o.1)
    → ((u : Session) → Below b u → InRange ((f tt u).1))
    → InRange ((continue o f).1)
continue-Below b (ok tt, s) f h k = k s h
continue-Below b (throw e, s) f h k = Below-InRange b s h

reach-InRange :
    (server : Server) (t : Option TimePoint) (s : Session) → InRange s → InRange ((reach t s).1)
unfolding reach
reach-InRange server none s h = h
reach-InRange server (some t) s h = pick (greater_than t s.simulation_status.latest_time)
  where
    pick : (b : Bool) → InRange ((if b then (ok tt, s) else set_time_cursor t s).1)
    pick true = h
    pick false = set_time_cursor-InRange t s h

run_simulation-Below :
    (server : Server) (b : TimePoint) (t : Option TimePoint) (s : Session)
    → IsLater server b
    → Below b s
    → Below b ((run_simulation server t s).1)
unfolding run_simulation
run_simulation-Below server b t s later h = started (server.run_simulation (until t))
  where
    started :
        (r : Result Unit)
        → Below b
            ((continue (r, s) λ _. query_simulation_status (server.get_simulation_status 0)).1)
    started (throw e) = h
    started (ok u) = query_simulation_status-Below b (server.get_simulation_status 0) s (later 0) h

run_ahead-InRange :
    (server : Server) (b : TimePoint) (s : Session)
    → IsLater server b
    → Below b s
    → InRange ((run_ahead server s).1)
unfolding run_ahead run_to
run_ahead-InRange server b s later h =
    let next = s.simulation_status.next_sample_time in
    continue-Below b (run_simulation server next s) _ (run_simulation-Below server b next s later h)
      λ u hu.
        continue-Below b (query_simulation_status (server.get_simulation_status 1) u) _
          (query_simulation_status-Below b (server.get_simulation_status 1) u (later 1) hu)
          λ v hv. reach-InRange server next v (Below-InRange b v hv)

at_end-InRange :
    (server : Server) (s : Session) (x : RunState)
    → IsLater server s.simulation_status.latest_time
    → InRange s
    → InRange ((at_end server x s).1)
at_end-InRange server s is_paused later h =
    run_ahead-InRange server s.simulation_status.latest_time s later (h.0, h.1, omega arith)
at_end-InRange server s is_running later h = h
at_end-InRange server s is_finished later h = h

-- A step forward that ends keeps the cursor between zero and the latest time, whatever the server
-- answers, if it tells no latest time before the one that is known.
step_forward-InRange :
    (server : Server) (fuel : ℕ) (s : Session)
    → IsLater server s.simulation_status.latest_time
    → InRange s
    → EndsInRange (step_forward server fuel s)
unfolding step_forward
step_forward-InRange server fuel s later h =
    pick (equals s.time_cursor s.simulation_status.latest_time)
  where
    ended :
        (o : Option (Outcome Unit))
        → EndsInRange o
        → EndsInRange (elim o [ none ↦ none | some o ↦ some (with_cursor server o) ])
    ended none h' = tt
    ended (some o) h' = with_cursor-InRange server o h'

    pick :
        (b : Bool)
        → EndsInRange (
            if b
            then some (with_cursor server (at_end server s.simulation_status.status s))
            else elim (look_ahead server fuel s) [
              | none ↦ none
              | some o ↦ some (with_cursor server o)
            ])
    pick true =
        with_cursor-InRange server (at_end server s.simulation_status.status s)
          (at_end-InRange server s s.simulation_status.status later h)
    pick false = ended (look_ahead server fuel s) (look_ahead-InRange server fuel s h)
