-- ===== src/Session.antt =====
-- src/debug/session.ts: the status of the simulation, the time cursor and its steps. What a call of
-- the server gives is a parameter; a whole call runs with no other call in between, and Live cuts the
-- calls at their awaits.
pub mod Forward
pub mod Status
pub mod Live
pub mod Range
pub mod Ahead
pub mod Database
pub mod Design
mod Tests
mod Listings
use rtl_debugger.Common.{
  ℕ, zero, suc, ◌*◌, ◌≡◌, Bool, true, false, not, ◌&&◌, ◌||◌, List, [], ◌∷◌, ◌++◌, Option, none,
  some, Result, ok, throw, type_error, range_error, if◌then◌else◌,
}
use rtl_debugger.Common.Int.{ℤ, pos, negsuc}
use rtl_debugger.Common.Text.{Text}
use rtl_debugger.Proto.{
  ProtoSample, QueryInterval, RunSimulation, StatusResponse, paused, running, finished,
}
use rtl_debugger.Time.{
  TimePoint, zero_time, equals, less_than, greater_than, offset_by_femtos, from_cxxrtl, to_cxxrtl,
  TimeInterval, interval_to_cxxrtl,
}

pub data RunState : Type 0 where
  is_running is_paused is_finished : RunState

abbrev pub state_eq : RunState → RunState → Bool
state_eq is_running is_running = true
state_eq is_paused is_paused = true
state_eq is_finished is_finished = true
state_eq _ _ = false

pub record SimulationStatus : Type 0 where
  pub status : RunState
  pub latest_time : TimePoint
  pub next_sample_time : Option TimePoint

-- What listeners are told.
pub data Notice : Type 0 where
  status_changed : SimulationStatus → Notice
  cursor_changed : TimePoint → Notice

-- `fired` is what was told so far; `timeout` is whether the timer of the next query runs.
pub record Session : Type 0 where
  pub simulation_status : SimulationStatus
  pub timeout : Bool
  pub time_cursor : TimePoint
  pub forward_time_step : ℕ
  pub fired : List Notice

abbrev pub new_session : Session
new_session = record {
  simulation_status = record {
    status = is_paused;
    latest_time = zero_time;
    next_sample_time = none;
  };
  timeout = false;
  time_cursor = zero_time;
  forward_time_step = 1;
  fired = [];
}

-- What the connection's calls give: status queries are told apart by their number in one call.
pub record Server : Type 0 where
  pub query_interval : QueryInterval → Result (List ProtoSample)
  pub run_simulation : RunSimulation → Result (Unit {0})
  pub pause_simulation : Result Text
  pub get_simulation_status : ℕ → Result StatusResponse

-- What a call gives or throws, and the session behind it.
abbrev pub Outcome : Type 0 → Type 0
Outcome A = Result A × Session

abbrev pub Code : Type 0 → Type 0
Code A = Session → Outcome A

abbrev pub continue : {A B : Type 0} → Outcome A → (A → Code B) → Outcome B
continue (ok a, s) f = f a s
continue (throw e, s) f = (throw e, s)

infixl 5 ◌>>=◌
abbrev ◌>>=◌ : {A B : Type 0} → Code A → (A → Code B) → Code B
m >>= f = λ s. continue (m s) f

abbrev call : {A : Type 0} → Result A → Code A
call r s = (r, s)

abbrev status_at : RunState → Option TimePoint → TimePoint → SimulationStatus
status_at status next latest = record {
  status = status;
  latest_time = latest;
  next_sample_time = next;
}

abbrev paused_at : Result TimePoint → Result TimePoint → Result SimulationStatus
paused_at (ok latest) (ok next) = ok (status_at is_paused (some next) latest)
paused_at (throw e) next = throw e
paused_at (ok latest) (throw e) = throw e

abbrev going_at : RunState → Result TimePoint → Result SimulationStatus
going_at status (ok latest) = ok (status_at status none latest)
going_at status (throw e) = throw e

pub status_of : StatusResponse → Result SimulationStatus
status_of (paused latest next) = paused_at (from_cxxrtl latest) (from_cxxrtl next)
status_of (running latest) = going_at is_running (from_cxxrtl latest)
status_of (finished latest) = going_at is_finished (from_cxxrtl latest)

abbrev pub is_some : {A : Type 0} → Option A → Bool
is_some none = false
is_some (some a) = true

abbrev pub differs : SimulationStatus → SimulationStatus → Bool
differs old new =
    not (state_eq old.status new.status)
    || (not (equals old.latest_time new.latest_time)
        || (not (is_some old.next_sample_time) && is_some new.next_sample_time))

-- The status of a reply, and the notice of it where it differs.
unfoldable pub changed_status : SimulationStatus → Session → Session
changed_status new s =
    if differs s.simulation_status new
    then record s { simulation_status = new; fired = s.fired ++ status_changed new ∷ [] }
    else s

-- Behind the reply to a status query.
pub status_known : SimulationStatus → Session → Session
unfolding changed_status
status_known new s = record (changed_status new s) { timeout = state_eq new.status is_running }

pub query_simulation_status : Result StatusResponse → Code Unit
unfolding status_known
query_simulation_status reply s =
    continue (reply, record s { timeout = false })
      λ response t. continue (status_of response, t) λ new u. (ok tt, status_known new u)

abbrev pub until : Option TimePoint → RunSimulation
until t = record {
  until_time = elim t [ none ↦ none | some t ↦ some (to_cxxrtl t) ];
  until_diagnostics = [];
  sample_item_values = true;
}

unfoldable pub set_time_cursor : TimePoint → Code Unit
set_time_cursor t s =
    if less_than t zero_time || greater_than t s.simulation_status.latest_time
    then (throw range_error, s)
    else (ok tt, record s { time_cursor = t; fired = s.fired ++ cursor_changed t ∷ [] })

-- The query of a step: times only, no values.
abbrev pub timeline : TimePoint → TimePoint → QueryInterval
timeline begin end = record {
  interval = interval_to_cxxrtl (record { begin = begin; end = end });
  collapse = true;
  items = none;
  item_values_encoding = none;
  diagnostics = false;
}

-- `this.timeCursor = TimePoint.fromCXXRTL(sample.time)`.
unfoldable pub move_to : ProtoSample → Code Unit
unfolding set_time_cursor
move_to sample = do t ← call (from_cxxrtl sample.time); set_time_cursor t

-- Behind the reply within the loop of `stepForward`; `again` is the loop's next round.
abbrev pub forward_reply :
    Result (List ProtoSample) → Session → Option (Outcome Unit) → Option (Outcome Unit)
forward_reply (throw e) s again = some (throw e, s)
forward_reply (ok []) s again = some (throw type_error, s)
forward_reply (ok (x ∷ [])) s again = again
forward_reply (ok (x ∷ y ∷ samples)) s again = some (move_to y s)

-- `if (!nextSampleTime.greaterThan(latestTime)) this.timeCursor = nextSampleTime`.
pub reach : Option TimePoint → Code Unit
unfolding set_time_cursor
reach none s = (throw type_error, s)
reach (some t) s =
    if greater_than t s.simulation_status.latest_time then (ok tt, s) else set_time_cursor t s

module _ (server : Server) where
  pub run_simulation : Option TimePoint → Code Unit
  unfolding query_simulation_status
  run_simulation t = do
    _ ← call (server.run_simulation (until t))
    query_simulation_status (server.get_simulation_status 0)

  pub pause_simulation : Code Unit
  unfolding query_simulation_status
  pause_simulation = do
    _ ← call server.pause_simulation
    query_simulation_status (server.get_simulation_status 0)

  -- The loop of `stepForward`; none is running out of fuel.
  pub look_ahead : ℕ → Session → Option (Outcome Unit)
  unfolding move_to
  look_ahead zero s = none
  look_ahead (suc fuel) s =
      let again = look_ahead fuel (record s { forward_time_step = s.forward_time_step * 2 }) in
      let following = offset_by_femtos s.time_cursor (pos s.forward_time_step) in
      forward_reply (server.query_interval (timeline s.time_cursor following)) s again

  run_to : Option TimePoint → Code Unit
  unfolding run_simulation query_simulation_status reach
  run_to next = do
    _ ← run_simulation next
    _ ← query_simulation_status (server.get_simulation_status 1)
    reach next

  -- A step of a paused simulation whose cursor is at its end.
  pub run_ahead : Code Unit
  unfolding run_to
  run_ahead s = run_to s.simulation_status.next_sample_time s

  abbrev pub at_end : RunState → Code Unit
  at_end is_paused s = run_ahead s
  at_end _ s = (ok tt, s)

  abbrev pub with_cursor : Outcome Unit → Outcome TimePoint
  with_cursor (ok _, s) = (ok s.time_cursor, s)
  with_cursor (throw e, s) = (throw e, s)

  unfoldable pub step_forward : ℕ → Session → Option (Outcome TimePoint)
  unfolding look_ahead run_ahead
  step_forward fuel s =
      if equals s.time_cursor s.simulation_status.latest_time
      then some (with_cursor (at_end s.simulation_status.status s))
      else elim (look_ahead fuel s) [ none ↦ none | some o ↦ some (with_cursor o) ]

  abbrev pub back_reply : Result (List ProtoSample) → Code Unit
  back_reply (throw e) s = (throw e, s)
  back_reply (ok []) s = (throw type_error, s)
  back_reply (ok (x ∷ samples)) s = move_to x s

  pub step_backward : Code TimePoint
  unfolding move_to
  step_backward s =
      let preceding = offset_by_femtos s.time_cursor (negsuc 0) in
      if equals s.time_cursor zero_time
      then (ok s.time_cursor, s)
      else with_cursor (back_reply (server.query_interval (timeline preceding preceding)) s)
