-- ===== src/Session/Live/Stable.antt =====
-- Properties of the session's fields that every step of overlapping calls keeps
-- (src/debug/session.ts), from what its two setters keep.
use rtl_debugger.Common.{
  ℕ, ◌*◌, ◌≡◌, refl, inl, inr, Bool, true, false, [], ◌∷◌, Option, none, some, Result, ok, throw,
  Bool-cases, if◌then◌else◌,
}
use rtl_debugger.Proto.{Event, ProtoSample, StatusResponse, simulation_paused, simulation_finished}
use rtl_debugger.Time.{TimePoint, equals, greater_than, from_cxxrtl, zero_time}
use rtl_debugger.Session.{
  Session, SimulationStatus, RunState, Outcome, is_running, is_paused, is_finished, state_eq,
  new_session, continue, status_of, changed_status, set_time_cursor, move_to, reach,
}
use rtl_debugger.Session.Live.{
  Live, Await, Answer, Then, call_ends, asks_again, reaches, status_reply, run_reply, pause_reply,
  ahead_reply, back_reply, without, begin_query, end_query, end_step, run_simulation,
  pause_simulation, step_at_end, step_forward, step_backward, set_cursor, on_event, time_out,
  resume, go_on, new_live,
}
use rtl_debugger.Session.Live.Steps.{
  Replies, Step, Reach, runs, pauses, steps_forward, steps_backward, sets, hears, times_out,
  replied, goes_on, here, later,
}

pub record IsStable (P : Replies) (I : Session → Type 0) : Type 0 where
  pub start : I new_session
  pub timer : (b : Bool) (s : Session) → I s → I (record s { timeout = b })
  pub guess : (n : ℕ) (s : Session) → I s → I (record s { forward_time_step = n })
  pub cursor : (t : TimePoint) (s : Session) → I s → I ((set_time_cursor t s).1)
  pub status :
      (k : Then) (r : StatusResponse) (new : SimulationStatus) (s : Session)
      → P s (status_reply k) (ok r)
      → status_of r ≡ ok new
      → I s
      → I (changed_status new s)

module _ {P : Replies} {I : Session → Type 0} (stable : IsStable P I) where
  begin_query-stable : (k : Then) (l : Live) → I l.session → I ((begin_query k l).session)
  unfolding begin_query
  begin_query-stable k l h = stable.timer false l.session h

  end_step-stable : (o : Outcome Unit) (l : Live) → I (o.1) → I ((end_step o l).session)
  end_step-stable (ok u, s) l h = h
  end_step-stable (throw e, s) l h = h

  move_to-stable : (x : ProtoSample) (s : Session) → I s → I ((move_to x s).1)
  unfolding move_to
  move_to-stable x s h = moved (from_cxxrtl x.time)
    where
      moved : (r : Result TimePoint) → I ((continue {B = Unit {0}} (r, s) set_time_cursor).1)
      moved (ok t) = stable.cursor t s h
      moved (throw e) = h

  reach-stable : (t : Option TimePoint) (s : Session) → I s → I ((reach t s).1)
  unfolding reach
  reach-stable none s h = h
  reach-stable (some t) s h = go (greater_than t s.simulation_status.latest_time)
    where
      go : (late : Bool) → I ((if late then (ok tt, s) else set_time_cursor t s).1)
      go true = h
      go false = stable.cursor t s h

  end_query-stable :
      (k : Then) (x : Result SimulationStatus) (l : Live)
      → ((new : SimulationStatus) → x ≡ ok new → I (changed_status new l.session))
      → I l.session
      → I ((end_query k x l).session)
  unfolding end_query
  end_query-stable k (throw e) l f h = h
  end_query-stable k (ok new) l f h = elim (Bool-cases (state_eq new.status is_running)) [
    | inl on ↦ rw on (stable.timer true (changed_status new l.session) (f new refl))
    | inr off ↦ rw off (f new refl)
  ]

  step_at_end-stable : (x : RunState) (l : Live) → I l.session → I ((step_at_end x l).session)
  step_at_end-stable is_paused l h = h
  step_at_end-stable is_running l h = h
  step_at_end-stable is_finished l h = h

  step_forward-stable : (l : Live) → I l.session → I ((step_forward l).session)
  unfolding step_forward
  step_forward-stable l h =
      elim (Bool-cases (equals l.session.time_cursor l.session.simulation_status.latest_time)) [
        | inl e ↦ rw e (step_at_end-stable l.session.simulation_status.status l h)
        | inr e ↦ rw e h
      ]

  step_backward-stable : (l : Live) → I l.session → I ((step_backward l).session)
  unfolding step_backward
  step_backward-stable l h = elim (Bool-cases (equals l.session.time_cursor zero_time)) [
    | inl e ↦ rw e h
    | inr e ↦ rw e h
  ]

  on_event-stable : (e : Event) (l : Live) → I l.session → I ((on_event e l).session)
  unfolding on_event
  on_event-stable (simulation_paused time cause) l h = begin_query-stable call_ends l h
  on_event-stable (simulation_finished time) l h = begin_query-stable call_ends l h

  resume-stable :
      (a : Await) (r : Answer a) (l : Live)
      → P l.session a r
      → I l.session
      → I ((resume a r l).session)
  unfolding resume
  resume-stable (status_reply k) (ok r) l p h =
      end_query-stable k (status_of r) l (λ new e. stable.status k r new l.session p e h) h
  resume-stable (status_reply k) (throw e) l p h = h
  resume-stable (run_reply r k) (ok u) l p h = begin_query-stable k l h
  resume-stable (run_reply r k) (throw e) l p h = h
  resume-stable pause_reply (ok time) l p h = begin_query-stable call_ends l h
  resume-stable pause_reply (throw e) l p h = h
  resume-stable (ahead_reply q) (throw e) l p h = h
  resume-stable (ahead_reply q) (ok []) l p h = h
  resume-stable (ahead_reply q) (ok (x ∷ [])) l p h =
      stable.guess (l.session.forward_time_step * 2) l.session h
  resume-stable (ahead_reply q) (ok (x ∷ y ∷ samples)) l p h =
      end_step-stable (move_to y l.session) l (move_to-stable y l.session h)
  resume-stable (back_reply q) (throw e) l p h = h
  resume-stable (back_reply q) (ok []) l p h = h
  resume-stable (back_reply q) (ok (x ∷ samples)) l p h =
      end_step-stable (move_to x l.session) l (move_to-stable x l.session h)

  go_on-stable : (k : Then) (l : Live) → I l.session → I ((go_on k l).session)
  unfolding go_on
  go_on-stable call_ends l h = h
  go_on-stable (asks_again t) l h = begin_query-stable (reaches t) l h
  go_on-stable (reaches t) l h = end_step-stable (reach t l.session) l (reach-stable t l.session h)

  Step-stable : {l m : Live} → Step P l m → I l.session → I m.session
  unfolding run_simulation pause_simulation set_cursor time_out
  Step-stable (runs t) h = h
  Step-stable pauses h = h
  Step-stable {l} steps_forward h = step_forward-stable l h
  Step-stable {l} steps_backward h = step_backward-stable l h
  Step-stable {l} (sets t) h = stable.cursor t l.session h
  Step-stable {l} (hears e) h = on_event-stable e l h
  Step-stable {l} (times_out i r) h =
      begin_query-stable call_ends (record l { timers = without i l.timers }) h
  Step-stable {l} (replied a rest r e p) h = resume-stable a r (record l { awaiting = rest }) p h
  Step-stable {l} (goes_on k rest e) h = go_on-stable k (record l { ready = rest }) h

  -- What the setters keep holds in every state that overlapping calls come to.
  pub Reach-stable : {l : Live} → Reach P l → I l.session
  unfolding new_live begin_query
  Reach-stable here = stable.start
  Reach-stable (later reached step) = Step-stable step (Reach-stable reached)
