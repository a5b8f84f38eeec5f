-- ===== src/Session/Live/Polling.antt =====
-- The queries of the simulation's status while calls overlap (src/debug/session.ts): they go on
-- while the simulation runs.
pub mod Kept
use rtl_debugger.Common.{
  ℕ, arith, ◌≡◌, ◌*◌, refl, sym, ap, ◌∙◌, ◌⊎◌, inl, inr, Bool, true, false, List, [], ◌∷◌, ◌++◌,
  Option, none, some, Result, ok, throw, Bool-cases, if◌then◌else◌,
}
use mathlib.Core.Path.{subst}
use rtl_debugger.Proto.{Event, ProtoSample, simulation_paused, simulation_finished}
use rtl_debugger.Time.{TimePoint, zero_time, equals, greater_than, from_cxxrtl}
use rtl_debugger.Session.{
  Session, SimulationStatus, RunState, Outcome, is_running, is_paused, is_finished, state_eq,
  continue, status_known, changed_status, set_time_cursor, move_to, reach,
}
use rtl_debugger.Session.Status.{status_known-Known}
use rtl_debugger.Session.Live.{
  Live, Await, Answer, Then, call_ends, asks_again, reaches, status_reply, run_reply, pause_reply,
  ahead_reply, back_reply, ask, without, begin_query, end_query, end_step, run_simulation,
  pause_simulation, step_at_end, step_forward, step_backward, set_cursor, on_event, time_out,
  resume, go_on, unasked, new_live,
}
use rtl_debugger.Session.Live.Steps.{
  IsRead, Runs, first, next, Step, Reach, runs, pauses, steps_forward, steps_backward, sets, hears,
  times_out, replied, goes_on, here, later,
}
use rtl_debugger.Session.Live.Polling.Kept.{
  IsAsked, KeptRuns, IsKept, IsPolled, begin_query-IsPolled, ask-IsPolled, session-IsPolled,
  set_time_cursor-status, move_to-status, reach-status, not_running, Runs-last,
}

end_step-IsPolled :
    (o : Outcome Unit) (l : Live)
    → (o.1).simulation_status ≡ l.session.simulation_status
    → IsPolled l
    → IsPolled (end_step o l)
end_step-IsPolled (ok u, s) l e p =
    let q = session-IsPolled s l e p in record { kept = q.kept; polls = q.polls }
end_step-IsPolled (throw x, s) l e p =
    let q = session-IsPolled s l e p in record { kept = q.kept; polls = q.polls }

end_query-IsPolled :
    (k : Then) (new : SimulationStatus) (l : Live)
    → KeptRuns l.kept l.timers
    → IsPolled (end_query k (ok new) l)
unfolding end_query
end_query-IsPolled k new l p = elim (Bool-cases (state_eq new.status is_running)) [
  | inl on ↦ rw on (record { kept = Runs-last l.made l.timers; polls = λ h. inl tt })
  | inr off ↦ rw off (record { kept = p; polls = λ h. absurd (not_running new l.session off h) })
]

step_at_end-IsPolled : (x : RunState) (l : Live) → IsPolled l → IsPolled (step_at_end x l)
step_at_end-IsPolled is_paused l p = ask-IsPolled _ l p
step_at_end-IsPolled is_running l p = record { kept = p.kept; polls = p.polls }
step_at_end-IsPolled is_finished l p = record { kept = p.kept; polls = p.polls }

step_forward-IsPolled : (l : Live) → IsPolled l → IsPolled (step_forward l)
unfolding step_forward
step_forward-IsPolled l p =
    elim (Bool-cases (equals l.session.time_cursor l.session.simulation_status.latest_time)) [
      | inl e ↦ rw e (step_at_end-IsPolled l.session.simulation_status.status l p)
      | inr e ↦ rw e (ask-IsPolled _ l p)
    ]

step_backward-IsPolled : (l : Live) → IsPolled l → IsPolled (step_backward l)
unfolding step_backward
step_backward-IsPolled l p = elim (Bool-cases (equals l.session.time_cursor zero_time)) [
  | inl e ↦ rw e (record { kept = p.kept; polls = p.polls })
  | inr e ↦ rw e (ask-IsPolled _ l p)
]

on_event-IsPolled : (e : Event) (l : Live) → IsPolled (on_event e l)
unfolding on_event
on_event-IsPolled (simulation_paused time cause) l = begin_query-IsPolled call_ends l
on_event-IsPolled (simulation_finished time) l = begin_query-IsPolled call_ends l

-- Behind the reply that the first command awaited.
resume-IsPolled :
    (a : Await) (r : Answer a) (l : Live)
    → IsRead l.session a r
    → IsPolled (record l { awaiting = a ∷ l.awaiting })
    → IsPolled (resume a r l)
unfolding resume
resume-IsPolled (status_reply k) (ok r) l (new, e) p = rw e (end_query-IsPolled k new l p.kept)
resume-IsPolled (status_reply k) (throw e) l h p = absurd h
resume-IsPolled (run_reply r k) (ok u) l h p = begin_query-IsPolled k l
resume-IsPolled (run_reply r k) (throw e) l h p = record { kept = p.kept; polls = p.polls }
resume-IsPolled pause_reply (ok time) l h p = begin_query-IsPolled call_ends l
resume-IsPolled pause_reply (throw e) l h p = record { kept = p.kept; polls = p.polls }
resume-IsPolled (ahead_reply q) (throw e) l h p = record { kept = p.kept; polls = p.polls }
resume-IsPolled (ahead_reply q) (ok []) l h p = record { kept = p.kept; polls = p.polls }
resume-IsPolled (ahead_reply q) (ok (x ∷ [])) l h p =
    ask-IsPolled _
      (record l {
        session = record l.session { forward_time_step = l.session.forward_time_step * 2 };
      })
      (record { kept = p.kept; polls = p.polls })
resume-IsPolled (ahead_reply q) (ok (x ∷ y ∷ samples)) l h p =
    end_step-IsPolled (move_to y l.session) l (move_to-status y l.session)
      (record { kept = p.kept; polls = p.polls })
resume-IsPolled (back_reply q) (throw e) l h p = record { kept = p.kept; polls = p.polls }
resume-IsPolled (back_reply q) (ok []) l h p = record { kept = p.kept; polls = p.polls }
resume-IsPolled (back_reply q) (ok (x ∷ samples)) l h p =
    end_step-IsPolled (move_to x l.session) l (move_to-status x l.session)
      (record { kept = p.kept; polls = p.polls })

go_on-IsPolled : (k : Then) (l : Live) → IsPolled l → IsPolled (go_on k l)
unfolding go_on
go_on-IsPolled call_ends l p = record { kept = p.kept; polls = p.polls }
go_on-IsPolled (asks_again t) l p = begin_query-IsPolled (reaches t) l
go_on-IsPolled (reaches t) l p =
    end_step-IsPolled (reach t l.session) l (reach-status t l.session) p

Step-IsPolled : {l m : Live} → Step IsRead l m → IsPolled l → IsPolled m
unfolding run_simulation pause_simulation set_cursor time_out
Step-IsPolled {l} (runs t) p = ask-IsPolled _ l p
Step-IsPolled {l} pauses p = ask-IsPolled pause_reply l p
Step-IsPolled {l} steps_forward p = step_forward-IsPolled l p
Step-IsPolled {l} steps_backward p = step_backward-IsPolled l p
Step-IsPolled {l} (sets t) p =
    session-IsPolled ((set_time_cursor t l.session).1) l (set_time_cursor-status t l.session) p
Step-IsPolled {l} (hears e) p = on_event-IsPolled e l
Step-IsPolled {l} (times_out i r) p =
    begin_query-IsPolled call_ends (record l { timers = without i l.timers })
Step-IsPolled {l} (replied a rest r e h) p =
    resume-IsPolled a r (record l { awaiting = rest }) h
      (record {
        kept = p.kept;
        polls = λ s. elim (p.polls s) [ inl k ↦ inl k | inr q ↦ inr (subst IsAsked e q) ];
      })
Step-IsPolled {l} (goes_on k rest e) p =
    go_on-IsPolled k (record l { ready = rest }) (record { kept = p.kept; polls = p.polls })

Reach-IsPolled : {l : Live} → Reach IsRead l → IsPolled l
unfolding new_live
Reach-IsPolled here = begin_query-IsPolled call_ends unasked
Reach-IsPolled (later reached step) = Step-IsPolled step (Reach-IsPolled reached)

-- However calls, events, timers and replies follow on each other, while the status that is known is
-- that the simulation runs, the session goes on to ask for it: the timer that it keeps runs, or a
-- status query has no reply yet; if each reply to a status query is a status that can be read.
pub Reach_asks :
    (l : Live)
    → Reach IsRead l
    → l.session.simulation_status.status ≡ is_running
    → ((i : ℕ) × (l.kept ≡ some i) × Runs i l.timers) ⊎ IsAsked l.awaiting
Reach_asks l reached h =
    let p = Reach-IsPolled reached in
    elim (p.polls h) [ inl k ↦ inl (found l.kept l.timers k p.kept) | inr q ↦ inr q ]
  where
    found :
        (kept : Option ℕ) (timers : List ℕ)
        → IsKept kept
        → KeptRuns kept timers
        → (i : ℕ) × (kept ≡ some i) × Runs i timers
    found none timers k r = absurd k
    found (some i) timers k r = (i, refl, r)
