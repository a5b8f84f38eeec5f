-- ===== src/Session/Live.antt =====
-- src/debug/session.ts: calls of a session that overlap. Each call is cut where it waits: its code
-- up to an `await`, and the code behind it. The connection answers its commands in their order.
pub mod Steps
pub mod Stable
pub mod Listeners
pub mod Polling
pub mod Timers
pub mod Alone
pub mod Connected
mod Tests
use rtl_debugger.Common.{
  ℕ, suc, ◌*◌, ◌≡◌, Bool, true, false, not, List, [], ◌∷◌, ◌++◌, Option, none, some, ◌==◌,
  if◌then◌else◌, Result, ok, throw, type_error, Exception,
}
use rtl_debugger.Common.Int.{pos, negsuc}
use rtl_debugger.Common.Text.{Text}
use rtl_debugger.Proto.{
  Command, Event, ProtoSample, QueryInterval, RunSimulation, StatusResponse, query_interval,
  get_simulation_status, simulation_paused, simulation_finished,
}
use rtl_debugger.Proto
use rtl_debugger.Time.{TimePoint, zero_time, equals, offset_by_femtos}
use rtl_debugger.Session.{
  Session, SimulationStatus, RunState, is_running, is_paused, is_finished, state_eq, new_session,
  Outcome, status_of, changed_status, set_time_cursor, until, timeline, move_to, reach,
}

-- What is done behind `await this.querySimulationStatus()`: nothing, or the next lines of
-- `stepForward`, which goes to the time where the simulation was to stop.
pub data Then : Type 0 where
  call_ends : Then
  asks_again reaches : Option TimePoint → Then

-- A command whose reply is awaited, by the code behind it.
pub data Await : Type 0 where
  status_reply : Then → Await
  run_reply : RunSimulation → Then → Await
  pause_reply : Await
  ahead_reply back_reply : QueryInterval → Await

pub command_of : Await → Command
command_of (status_reply k) = Proto.get_simulation_status
command_of (run_reply r k) = Proto.run_simulation r
command_of pause_reply = Proto.pause_simulation
command_of (ahead_reply q) = Proto.query_interval q
command_of (back_reply q) = Proto.query_interval q

abbrev pub Answer : Await → Type 0
Answer (status_reply k) = Result StatusResponse
Answer (run_reply r k) = Result (Unit {0})
Answer pause_reply = Result Text
Answer (ahead_reply q) = Result (List ProtoSample)
Answer (back_reply q) = Result (List ProtoSample)

-- How a call's promise is settled; a step gives the cursor.
pub data Settled : Type 0 where
  ended : Settled
  stepped : TimePoint → Settled
  failed : Exception → Settled

-- A timer is named by a number, the next one is `made`; `timers` are those that run, and `kept` is
-- `simulationStatusTimeout`, of which the session's `timeout` says whether it is null. `awaiting` are
-- the commands without a reply, and `ready` the calls whose status query has its reply.
pub record Live : Type 0 where
  pub session : Session
  pub kept : Option ℕ
  pub timers : List ℕ
  pub made : ℕ
  pub awaiting : List Await
  pub ready : List Then
  pub settled : List Settled

abbrev pub keep : Option ℕ → Live → Live
keep none l = record l { kept = none; session = record l.session { timeout = false } }
keep (some i) l = record l { kept = some i; session = record l.session { timeout = true } }

unfoldable pub without : ℕ → List ℕ → List ℕ
without i [] = []
without i (j ∷ js) = if i == j then without i js else j ∷ without i js

-- `clearTimeout`.
unfoldable pub clear : Option ℕ → List ℕ → List ℕ
unfolding without
clear none timers = timers
clear (some i) timers = without i timers

abbrev pub ask : Await → Live → Live
ask a l = record l { awaiting = l.awaiting ++ a ∷ [] }

abbrev pub settle : Settled → Live → Live
settle r l = record l { settled = l.settled ++ r ∷ [] }

-- `querySimulationStatus` up to its `await`.
unfoldable pub begin_query : Then → Live → Live
unfolding clear
begin_query k l = ask (status_reply k) (keep none (record l { timers = clear l.kept l.timers }))

abbrev pub set_timeout : Live → Live
set_timeout l =
    keep (some l.made) (record l { timers = l.timers ++ l.made ∷ []; made = suc l.made })

abbrev pub learn : SimulationStatus → Then → Live → Live
learn new k l = record l { session = changed_status new l.session; ready = l.ready ++ k ∷ [] }

-- `querySimulationStatus` behind its `await`.
unfoldable pub end_query : Then → Result SimulationStatus → Live → Live
end_query k (throw e) l = settle (failed e) l
end_query k (ok new) l =
    if state_eq new.status is_running then set_timeout (learn new k l) else learn new k l

pub run_simulation : Option TimePoint → Live → Live
run_simulation t = ask (run_reply (until t) call_ends)

pub pause_simulation : Live → Live
pause_simulation = ask pause_reply

-- The end of a step, where the cursor may be set.
abbrev pub end_step : Outcome Unit → Live → Live
end_step (ok u, s) l = settle (stepped s.time_cursor) (record l { session = s })
end_step (throw e, s) l = settle (failed e) (record l { session = s })

-- The queries of the steps.
abbrev pub ahead : Session → QueryInterval
ahead s = timeline s.time_cursor (offset_by_femtos s.time_cursor (pos s.forward_time_step))

abbrev pub before : Session → QueryInterval
before s = let preceding = offset_by_femtos s.time_cursor (negsuc 0) in timeline preceding preceding

-- A round of the loop of `stepForward` up to its `await`.
abbrev pub ask_ahead : Live → Live
ask_ahead l = ask (ahead_reply (ahead l.session)) l

abbrev pub step_at_end : RunState → Live → Live
step_at_end is_paused l =
    let next = l.session.simulation_status.next_sample_time in
    ask (run_reply (until next) (asks_again next)) l
step_at_end is_running l = settle (stepped l.session.time_cursor) l
step_at_end is_finished l = settle (stepped l.session.time_cursor) l

unfoldable pub step_forward : Live → Live
step_forward l =
    if equals l.session.time_cursor l.session.simulation_status.latest_time
    then step_at_end l.session.simulation_status.status l
    else ask_ahead l

unfoldable pub step_backward : Live → Live
step_backward l =
    if equals l.session.time_cursor zero_time
    then settle (stepped l.session.time_cursor) l
    else ask (back_reply (before l.session)) l

-- The setter of `timeCursor`, called from outside.
pub set_cursor : TimePoint → Live → Live
unfolding set_time_cursor
set_cursor t l = record l { session = (set_time_cursor t l.session).1 }

-- The listener of the connection's events.
pub on_event : Event → Live → Live
unfolding begin_query
on_event (simulation_paused time cause) = begin_query call_ends
on_event (simulation_finished time) = begin_query call_ends

-- A timer goes off.
unfoldable pub time_out : ℕ → Live → Live
unfolding begin_query without
time_out i l = begin_query call_ends (record l { timers = without i l.timers })

-- Behind a reply to the first command that awaits one.
pub resume : (a : Await) → Answer a → Live → Live
unfolding begin_query end_query move_to
resume (status_reply k) (ok r) l = end_query k (status_of r) l
resume (status_reply k) (throw e) l = settle (failed e) l
resume (run_reply r k) (ok u) l = begin_query k l
resume (run_reply r k) (throw e) l = settle (failed e) l
resume pause_reply (ok time) l = begin_query call_ends l
resume pause_reply (throw e) l = settle (failed e) l
resume (ahead_reply q) (throw e) l = settle (failed e) l
resume (ahead_reply q) (ok []) l = settle (failed type_error) l
resume (ahead_reply q) (ok (x ∷ [])) l =
    let s = l.session in
    ask_ahead (record l { session = record s { forward_time_step = s.forward_time_step * 2 } })
resume (ahead_reply q) (ok (x ∷ y ∷ samples)) l = end_step (move_to y l.session) l
resume (back_reply q) (throw e) l = settle (failed e) l
resume (back_reply q) (ok []) l = settle (failed type_error) l
resume (back_reply q) (ok (x ∷ samples)) l = end_step (move_to x l.session) l

-- Behind the promise of `querySimulationStatus`.
pub go_on : Then → Live → Live
unfolding begin_query reach
go_on call_ends l = settle ended l
go_on (asks_again t) l = begin_query (reaches t) l
go_on (reaches t) l = end_step (reach t l.session) l

abbrev pub unasked : Live
unasked = record {
  session = new_session;
  kept = none;
  timers = [];
  made = 0;
  awaiting = [];
  ready = [];
  settled = [];
}

-- Behind the constructor, which asks for the status.
unfoldable pub new_live : Live
unfolding begin_query
new_live = begin_query call_ends unasked
