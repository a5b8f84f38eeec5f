-- ===== src/Session/Live/Connected/Extends.antt =====
-- A step of the session asks for replies behind those that it awaits (src/debug/session.ts).
use rtl_debugger.Common.{
  ◌≡◌, refl, sym, ap, ◌∙◌, inl, inr, List, [], ◌∷◌, ◌++◌, append-nil, Bool-cases, Result, ok, throw,
}
use rtl_debugger.Proto.{Event, simulation_paused, simulation_finished}
use rtl_debugger.Time.{zero_time, equals}
use rtl_debugger.Session.{
  SimulationStatus, RunState, Outcome, is_running, is_paused, is_finished, state_eq, status_of,
  until, move_to, reach,
}
use rtl_debugger.Session.Live.{
  Live, Await, Answer, Then, call_ends, asks_again, reaches, status_reply, run_reply, pause_reply,
  ahead_reply, back_reply, ahead, before, begin_query, end_query, end_step, run_simulation,
  pause_simulation, step_at_end, step_forward, step_backward, set_cursor, on_event, time_out,
  resume, go_on, without,
}
use rtl_debugger.Session.Live.Steps.{
  Any, Step, runs, pauses, steps_forward, steps_backward, sets, hears, times_out, replied, goes_on,
}
use rtl_debugger.Session.Live.Connected.{IsOwn}

pub record Extends (l m : Live) : Type 0 where
  pub asked : List Await
  pub same : m.awaiting ≡ l.awaiting ++ asked

unchanged : (l m : Live) → m.awaiting ≡ l.awaiting → Extends l m
unchanged l m e = record { asked = []; same = e ∙ sym (append-nil l.awaiting) }

one : (a : Await) (l m : Live) → m.awaiting ≡ l.awaiting ++ a ∷ [] → Extends l m
one a l m e = record { asked = a ∷ []; same = e }

begin_query-Extends : (k : Then) (l : Live) → Extends l (begin_query k l)
unfolding begin_query
begin_query-Extends k l = one (status_reply k) l _ refl

end_step-Extends : (o : Outcome Unit) (l : Live) → Extends l (end_step o l)
end_step-Extends (ok u, s) l = unchanged l _ refl
end_step-Extends (throw e, s) l = unchanged l _ refl

end_query-Extends :
    (k : Then) (x : Result SimulationStatus) (l : Live) → Extends l (end_query k x l)
unfolding end_query
end_query-Extends k (throw e) l = unchanged l _ refl
end_query-Extends k (ok new) l = elim (Bool-cases (state_eq new.status is_running)) [
  | inl on ↦ rw on (unchanged l _ refl)
  | inr off ↦ rw off (unchanged l _ refl)
]

step_at_end-Extends : (x : RunState) (l : Live) → Extends l (step_at_end x l)
step_at_end-Extends is_paused l =
    let next = l.session.simulation_status.next_sample_time in
    one (run_reply (until next) (asks_again next)) l _ refl
step_at_end-Extends is_running l = unchanged l _ refl
step_at_end-Extends is_finished l = unchanged l _ refl

step_forward-Extends : (l : Live) → Extends l (step_forward l)
unfolding step_forward
step_forward-Extends l =
    elim (Bool-cases (equals l.session.time_cursor l.session.simulation_status.latest_time)) [
      | inl e ↦ rw e (step_at_end-Extends l.session.simulation_status.status l)
      | inr e ↦ rw e (one (ahead_reply (ahead l.session)) l _ refl)
    ]

step_backward-Extends : (l : Live) → Extends l (step_backward l)
unfolding step_backward
step_backward-Extends l = elim (Bool-cases (equals l.session.time_cursor zero_time)) [
  | inl e ↦ rw e (unchanged l _ refl)
  | inr e ↦ rw e (one (back_reply (before l.session)) l _ refl)
]

pub on_event-Extends : (e : Event) (l : Live) → Extends l (on_event e l)
unfolding on_event
on_event-Extends (simulation_paused time cause) l = begin_query-Extends call_ends l
on_event-Extends (simulation_finished time) l = begin_query-Extends call_ends l

pub resume-Extends : (a : Await) (x : Answer a) (l : Live) → Extends l (resume a x l)
unfolding resume
resume-Extends (status_reply k) (ok r) l = end_query-Extends k (status_of r) l
resume-Extends (status_reply k) (throw e) l = unchanged l _ refl
resume-Extends (run_reply r k) (ok u) l = begin_query-Extends k l
resume-Extends (run_reply r k) (throw e) l = unchanged l _ refl
resume-Extends pause_reply (ok time) l = begin_query-Extends call_ends l
resume-Extends pause_reply (throw e) l = unchanged l _ refl
resume-Extends (ahead_reply q) (throw e) l = unchanged l _ refl
resume-Extends (ahead_reply q) (ok []) l = unchanged l _ refl
resume-Extends (ahead_reply q) (ok (x ∷ [])) l = one _ l _ refl
resume-Extends (ahead_reply q) (ok (x ∷ y ∷ samples)) l = end_step-Extends (move_to y l.session) l
resume-Extends (back_reply q) (throw e) l = unchanged l _ refl
resume-Extends (back_reply q) (ok []) l = unchanged l _ refl
resume-Extends (back_reply q) (ok (x ∷ samples)) l = end_step-Extends (move_to x l.session) l

go_on-Extends : (k : Then) (l : Live) → Extends l (go_on k l)
unfolding go_on
go_on-Extends call_ends l = unchanged l _ refl
go_on-Extends (asks_again t) l = begin_query-Extends (reaches t) l
go_on-Extends (reaches t) l = end_step-Extends (reach t l.session) l

alike : (k l m : Live) → k.awaiting ≡ l.awaiting → Extends k m → Extends l m
alike k l m e x = record { asked = x.asked; same = x.same ∙ ap (λ ws. ws ++ x.asked) e }

pub Step-Extends : {l m : Live} (s : Step Any l m) → IsOwn s → Extends l m
unfolding run_simulation pause_simulation set_cursor time_out
Step-Extends {l} (runs t) h = one (run_reply (until t) call_ends) l _ refl
Step-Extends {l} pauses h = one pause_reply l _ refl
Step-Extends {l} steps_forward h = step_forward-Extends l
Step-Extends {l} steps_backward h = step_backward-Extends l
Step-Extends {l} (sets t) h = unchanged l _ refl
Step-Extends {l} (hears e) h = absurd h
Step-Extends {l} (times_out i r) h =
    let k = record l { timers = without i l.timers } in
    alike k l _ refl (begin_query-Extends call_ends k)
Step-Extends {l} (replied a rest r e p) h = absurd h
Step-Extends {l} (goes_on k rest e) h =
    let j = record l { ready = rest } in alike j l _ refl (go_on-Extends k j)
