-- ===== src/Session/Live/Timers.antt =====
-- How many timers run and status queries wait while calls overlap (src/debug/session.ts).
pub mod Load
pub mod Apart
pub mod Single
use rtl_debugger.Common.{
  ℕ, suc, ◌+◌, ◌*◌, ◌≤◌, ◌≡◌, refl, ap, inl, inr, List, [], ◌∷◌, ◌++◌, Option, none, some, Result,
  ok, throw, type_error, ◌==◌, ==_iff, Bool-cases, length, length-append, arith,
}
use rtl_debugger.Proto.{Event, simulation_paused, simulation_finished}
use rtl_debugger.Time.{zero_time, equals}
use rtl_debugger.Session.{
  Session, SimulationStatus, RunState, Outcome, is_running, is_paused, is_finished, state_eq,
  status_of, until, move_to, reach,
}
use rtl_debugger.Session.Live.{
  Live, Await, Settled, ended, failed, settle, ask_ahead, ahead, before, Answer, Then, call_ends,
  asks_again, reaches, status_reply, run_reply, pause_reply, ahead_reply, back_reply, ask, without,
  clear, begin_query, end_query, end_step, run_simulation, pause_simulation, step_at_end,
  step_forward, step_backward, set_cursor, on_event, time_out, resume, go_on, new_live,
}
use rtl_debugger.Session.Live.Steps.{
  Replies, Runs, first, next, Step, Reach, runs, pauses, steps_forward, steps_backward, sets, hears,
  times_out, replied, goes_on, here, later,
}
use rtl_debugger.Session.Live.Timers.Load.{
  queries_then, queries_at, awaited, to_come, awaited-append, to_come-append, load, length-without,
  length-without_running, lighter, begin_query-load, end_step-load, end_query-load, ask-load,
}
use rtl_debugger.Session.Live.Timers.Apart.{queries}

step_at_end-load : (x : RunState) (l : Live) → load (step_at_end x l) ≤ load l + 2
unfolding load awaited
step_at_end-load is_paused l =
    let next = l.session.simulation_status.next_sample_time in
    omega (arith, awaited-append l.awaiting (run_reply (until next) (asks_again next) ∷ []))
step_at_end-load is_running l = omega arith
step_at_end-load is_finished l = omega arith

ask_ahead-load : (l : Live) → load (ask_ahead l) ≡ load l
ask_ahead-load l = omega (arith, ask-load (ahead_reply (ahead l.session)) l)

ask_ahead_again-load :
    (s : Session) (l : Live) → load (ask_ahead (record l { session = s })) ≤ load l + 0
unfolding load awaited
ask_ahead_again-load s l = omega (arith, awaited-append l.awaiting (ahead_reply (ahead s) ∷ []))

step_forward-load : (l : Live) → load (step_forward l) ≤ load l + 2
unfolding step_forward
step_forward-load l =
    elim (Bool-cases (equals l.session.time_cursor l.session.simulation_status.latest_time)) [
      | inl e ↦ rw e (step_at_end-load l.session.simulation_status.status l)
      | inr e ↦ rw e (omega (arith, ask_ahead-load l))
    ]

step_backward-load : (l : Live) → load (step_backward l) ≡ load l
unfolding step_backward load awaited
step_backward-load l = elim (Bool-cases (equals l.session.time_cursor zero_time)) [
  | inl e ↦ rw e refl
  | inr e ↦ rw e (omega (arith, awaited-append l.awaiting (back_reply (before l.session) ∷ [])))
]

on_event-load : (e : Event) (l : Live) → load (on_event e l) ≤ suc (load l)
unfolding on_event
on_event-load (simulation_paused time cause) l = omega (arith, begin_query-load call_ends l)
on_event-load (simulation_finished time) l = omega (arith, begin_query-load call_ends l)

-- Behind a reply nothing is to come that was not.
resume-load : (a : Await) (r : Answer a) (l : Live) → load (resume a r l) ≤ load l + queries_at a
unfolding resume
resume-load (status_reply k) (ok r) l = end_query-load k (status_of r) l
resume-load (status_reply k) (throw e) l = lighter (failed e) (suc (queries_then k)) l
resume-load (run_reply r k) (ok u) l = begin_query-load k l
resume-load (run_reply r k) (throw e) l = lighter (failed e) (suc (queries_then k)) l
resume-load pause_reply (ok time) l = begin_query-load call_ends l
resume-load pause_reply (throw e) l = lighter (failed e) 1 l
resume-load (ahead_reply q) (throw e) l = lighter (failed e) 0 l
resume-load (ahead_reply q) (ok []) l = lighter (failed type_error) 0 l
resume-load (ahead_reply q) (ok (x ∷ [])) l =
    ask_ahead_again-load (record l.session { forward_time_step = l.session.forward_time_step * 2 })
      l
resume-load (ahead_reply q) (ok (x ∷ y ∷ samples)) l =
    omega (arith, end_step-load (move_to y l.session) l)
resume-load (back_reply q) (throw e) l = lighter (failed e) 0 l
resume-load (back_reply q) (ok []) l = lighter (failed type_error) 0 l
resume-load (back_reply q) (ok (x ∷ samples)) l =
    omega (arith, end_step-load (move_to x l.session) l)

go_on-load : (k : Then) (l : Live) → load (go_on k l) ≤ load l + queries_then k
unfolding go_on
go_on-load call_ends l = lighter ended 0 l
go_on-load (asks_again t) l = begin_query-load (reaches t) l
go_on-load (reaches t) l = omega (arith, end_step-load (reach t l.session) l)

-- The status queries that a step gives rise to, at most.
abbrev pub demand : {P : Replies} {l m : Live} → Step P l m → ℕ
demand (runs t) = 1
demand pauses = 1
demand steps_forward = 2
demand steps_backward = 0
demand (sets t) = 0
demand (hears e) = 1
demand (times_out i r) = 0
demand (replied a rest r e p) = 0
demand (goes_on k rest e) = 0

Step-load : {P : Replies} {l m : Live} (step : Step P l m) → load m ≤ load l + demand step
unfolding load awaited to_come run_simulation pause_simulation set_cursor time_out
Step-load {l = l} (runs t) =
    omega (arith, awaited-append l.awaiting (run_reply (until t) call_ends ∷ []))
Step-load {l = l} pauses = omega (arith, awaited-append l.awaiting (pause_reply ∷ []))
Step-load {l = l} steps_forward = step_forward-load l
Step-load {l = l} steps_backward = omega (arith, step_backward-load l)
Step-load {l = l} (sets t) = omega arith
Step-load {l = l} (hears e) = omega (arith, on_event-load e l)
Step-load {l = l} (times_out i r) = omega (
  arith,
  begin_query-load call_ends (record l { timers = without i l.timers }),
  length-without_running i l.timers r,
)
Step-load {l = l} (replied a rest r e p) =
    omega (arith, resume-load a r (record l { awaiting = rest }), ap awaited e)
Step-load {l = l} (goes_on k rest e) =
    omega (arith, go_on-load k (record l { ready = rest }), ap to_come e)

-- Those of all steps; the first is the constructor's.
pub demanded : {P : Replies} {l : Live} → Reach P l → ℕ
demanded here = 1
demanded (later reached step) = demanded reached + demand step

Reach-load : {P : Replies} {l : Live} (reached : Reach P l) → load l ≤ demanded reached
unfolding demanded new_live begin_query load awaited to_come clear
Reach-load here = omega arith
Reach-load (later reached step) = omega (arith, Reach-load reached, Step-load step)

queries-awaited : (ws : List Await) → queries ws ≤ awaited ws
unfolding awaited
queries-awaited [] = omega arith
queries-awaited (status_reply k ∷ ws) = omega (arith, queries-awaited ws)
queries-awaited (run_reply r k ∷ ws) = omega (arith, queries-awaited ws)
queries-awaited (pause_reply ∷ ws) = omega (arith, queries-awaited ws)
queries-awaited (ahead_reply q ∷ ws) = omega (arith, queries-awaited ws)
queries-awaited (back_reply q ∷ ws) = omega (arith, queries-awaited ws)

-- However calls, events, timers and replies follow on each other, the timers that run and the status
-- queries without a reply are together no more than one, for the constructor, and one for each run,
-- each pause and each event, and two for each step forward; whatever the replies are.
Reach-queries :
    {P : Replies} {l : Live} (reached : Reach P l)
    → length l.timers + queries l.awaiting ≤ demanded reached
unfolding load
Reach-queries {l = l} reached = omega (arith, Reach-load reached, queries-awaited l.awaiting)
