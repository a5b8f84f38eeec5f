-- ===== src/Session/Live/Alone.antt =====
-- A call of a session that no other overlaps (src/debug/session.ts), cut at its awaits and answered
-- by a server, and the whole call that is given the server's answers at once.
pub mod Queries
pub mod Stepping
pub mod Calls
pub mod Samples
use rtl_debugger.Common.{
  if◌then◌else◌, ℕ, zero, suc, ◌+◌, ◌*◌, ◌≤◌, ◌≡◌, refl, sym, ap, ◌∙◌, inl, inr, Bool, true, false,
  List, [], ◌∷◌, ◌++◌, Option, none, some, Result, ok, throw, type_error, Exception, Bool-cases,
  arith,
}
use mathlib.Core.Path.{subst}
use rtl_debugger.Common.Text.{Text}
use rtl_debugger.Proto.{ProtoSample, RunSimulation, QueryInterval, StatusResponse}
use rtl_debugger.Time.{TimePoint, zero_time, equals}
use rtl_debugger.Session
use rtl_debugger.Session.{
  Session, Server, SimulationStatus, RunState, Outcome, is_running, is_paused, is_finished,
  state_eq, differs, continue, status_of, changed_status, status_known, query_simulation_status,
  until, move_to, reach, look_ahead, forward_reply, back_reply, at_end, with_cursor,
}
use rtl_debugger.Session.Live
use rtl_debugger.Session.Live.{
  Live, Await, Answer, Then, call_ends, asks_again, reaches, status_reply, run_reply, pause_reply,
  ahead_reply, Settled, ended, stepped, failed, settle, ask, learn, begin_query, end_query,
  end_step, clear, keep, set_timeout, ahead, before, ask_ahead, run_simulation, pause_simulation,
  step_at_end, step_forward, step_backward, resume, go_on,
}

pub data Call : Type 0 where
  runs : Option TimePoint → Call
  pauses steps_forward steps_backward : Call

-- A call up to its first `await`.
abbrev pub begin : Call → Live → Live
begin (runs t) = run_simulation t
begin pauses = pause_simulation
begin steps_forward = step_forward
begin steps_backward = step_backward

abbrev pub as_ended : Outcome Unit → Settled × Session
as_ended (ok u, s) = (ended, s)
as_ended (throw e, s) = (failed e, s)

abbrev pub as_stepped : Outcome TimePoint → Settled × Session
as_stepped (ok t, s) = (stepped t, s)
as_stepped (throw e, s) = (failed e, s)

-- Nothing is under way.
abbrev pub idle : Live → Live
idle l = record l { awaiting = []; ready = [] }

-- A call has settled, and nothing is under way.
pub record Done (r : Settled × Session) (l m : Live) : Type 0 where
  pub session : m.session ≡ r.1
  pub settled : m.settled ≡ l.settled ++ r.0 ∷ []
  pub awaiting : m.awaiting ≡ []
  pub ready : m.ready ≡ []

module _ (server : Server) where
  -- The whole call, with the server's answers at hand.
  abbrev pub whole : ℕ → Call → Session → Option (Settled × Session)
  whole fuel (runs t) s = some (as_ended (Session.run_simulation server t s))
  whole fuel pauses s = some (as_ended (Session.pause_simulation server s))
  whole fuel steps_forward s = elim (Session.step_forward server fuel s) [
    | none ↦ none
    | some o ↦ some (as_stepped o)
  ]
  whole fuel steps_backward s = some (as_stepped (Session.step_backward server s))

  -- Status queries are counted.
  abbrev answer : ℕ → (a : Await) → Answer a
  answer k (status_reply th) = server.get_simulation_status k
  answer k (run_reply r th) = server.run_simulation r
  answer k pause_reply = server.pause_simulation
  answer k (ahead_reply q) = server.query_interval q
  answer k (Live.back_reply q) = server.query_interval q

  abbrev count : ℕ → Await → ℕ
  count k (status_reply th) = suc k
  count k (run_reply r th) = k
  count k pause_reply = k
  count k (ahead_reply q) = k
  count k (Live.back_reply q) = k

  -- The next step: a call goes on, or the server answers.
  turn : ℕ → List Then → List Await → Live → Option (ℕ × Live)
  turn k (th ∷ ready) ws l = some (k, go_on th (record l { ready = ready }))
  turn k [] (w ∷ ws) l = some (count k w, resume w (answer k w) (record l { awaiting = ws }))
  turn k [] [] l = none

  pub serve : ℕ → ℕ → Live → Live
  unfolding turn
  serve zero k l = l
  serve (suc n) k l = elim (turn k l.ready l.awaiting l) [ none ↦ l | some (j, m) ↦ serve n j m ]
