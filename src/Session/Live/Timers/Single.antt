-- ===== src/Session/Live/Timers/Single.antt =====
-- One status query or one timer at a time (src/debug/session.ts), as long as a call or an event begins
-- no status query while another has no reply.
use rtl_debugger.Common.{
  ◌*◌, ◌≡◌, refl, sym, ap, ◌∙◌, inl, inr, List, [], ◌∷◌, ◌++◌, none, Result, ok, throw, type_error,
  Bool-cases, arith,
}
use rtl_debugger.Proto.{Event, simulation_paused, simulation_finished}
use rtl_debugger.Time.{zero_time, equals}
use rtl_debugger.Session.{
  SimulationStatus, RunState, Outcome, is_running, is_paused, is_finished, state_eq, status_known,
  changed_status, status_of, until, move_to, reach,
}
use rtl_debugger.Session.Status.{status_known-Known, state_eq-eq}
use rtl_debugger.Session.Live.{
  Live, Await, Answer, Settled, ended, failed, Then, call_ends, asks_again, reaches, status_reply,
  run_reply, pause_reply, ahead_reply, back_reply, settle, clear, end_query, end_step,
  run_simulation, pause_simulation, step_at_end, step_forward, step_backward, set_cursor, on_event,
  resume, go_on, unasked, new_live,
}
use rtl_debugger.Session.Live.Polling.Kept.{move_to-status, reach-status, set_time_cursor-status}
use rtl_debugger.Session.Live.Steps.{
  Replies, Step, Reach, runs, pauses, steps_forward, steps_backward, sets, hears, times_out,
  replied, goes_on, here, later,
}
use rtl_debugger.Session.Live.Timers.Apart.{
  queries, ReplyApart, ThenApart, StepApart, AllApart, IsSingle, waits, rests, polls, same-IsSingle,
  begin_query-IsSingle, next-IsSingle, time_out-IsSingle, ask-IsSingle,
}

end_step-IsSingle :
    (o : Outcome Unit) (l : Live)
    → (o.1).simulation_status ≡ l.session.simulation_status
    → IsSingle l
    → IsSingle (end_step o l)
end_step-IsSingle (ok u, s) l e p =
    same-IsSingle l (end_step (ok u, s) l) refl refl refl (ap (λ x. x.status) e) p
end_step-IsSingle (throw x, s) l e p =
    same-IsSingle l (end_step (throw x, s) l) refl refl refl (ap (λ x. x.status) e) p

-- Behind the reply of the only query: a timer runs exactly if the simulation does.
end_query-IsSingle :
    (k : Then) (x : Result SimulationStatus) (l : Live)
    → queries l.awaiting ≡ 0
    → l.timers ≡ []
    → l.kept ≡ none
    → IsSingle (end_query k x l)
unfolding end_query changed_status status_known
end_query-IsSingle k (throw e) l q t n = rests q t n
end_query-IsSingle k (ok new) l q t n = elim (Bool-cases (state_eq new.status is_running)) [
  | inl on ↦ rw on (
      polls l.made q (ap (λ ts. ts ++ l.made ∷ []) t) refl
        ((status_known-Known new l.session).status ∙ state_eq-eq new.status is_running on))
  | inr off ↦ rw off (rests q t n)
]

step_at_end-IsSingle : (x : RunState) (l : Live) → IsSingle l → IsSingle (step_at_end x l)
step_at_end-IsSingle is_paused l p =
    let t = l.session.simulation_status.next_sample_time in
    ask-IsSingle (run_reply (until t) (asks_again t)) l refl p
step_at_end-IsSingle is_running l p = same-IsSingle l _ refl refl refl refl p
step_at_end-IsSingle is_finished l p = same-IsSingle l _ refl refl refl refl p

step_forward-IsSingle : (l : Live) → IsSingle l → IsSingle (step_forward l)
unfolding step_forward
step_forward-IsSingle l p =
    elim (Bool-cases (equals l.session.time_cursor l.session.simulation_status.latest_time)) [
      | inl e ↦ rw e (step_at_end-IsSingle l.session.simulation_status.status l p)
      | inr e ↦ rw e (ask-IsSingle _ l refl p)
    ]

step_backward-IsSingle : (l : Live) → IsSingle l → IsSingle (step_backward l)
unfolding step_backward
step_backward-IsSingle l p = elim (Bool-cases (equals l.session.time_cursor zero_time)) [
  | inl e ↦ rw e (same-IsSingle l _ refl refl refl refl p)
  | inr e ↦ rw e (ask-IsSingle _ l refl p)
]

settle-IsSingle : (r : Settled) (l : Live) → IsSingle l → IsSingle (settle r l)
settle-IsSingle r l p = same-IsSingle l (settle r l) refl refl refl refl p

-- Behind the reply that a command other than a status query awaited.
resume-IsSingle :
    (a : Await) (r : Answer a) (l : Live)
    → queries (a ∷ []) ≡ 0
    → ReplyApart a r l.awaiting
    → IsSingle l
    → IsSingle (resume a r l)
unfolding resume
resume-IsSingle (status_reply k) r l z h p = absurd (omega (arith, z))
resume-IsSingle (run_reply r k) (ok u) l z h p = next-IsSingle k l p h
resume-IsSingle (run_reply r k) (throw e) l z h p = settle-IsSingle (failed e) l p
resume-IsSingle pause_reply (ok time) l z h p = next-IsSingle call_ends l p h
resume-IsSingle pause_reply (throw e) l z h p = settle-IsSingle (failed e) l p
resume-IsSingle (ahead_reply q) (throw e) l z h p = settle-IsSingle (failed e) l p
resume-IsSingle (ahead_reply q) (ok []) l z h p = settle-IsSingle (failed type_error) l p
resume-IsSingle (ahead_reply q) (ok (x ∷ [])) l z h p =
    let s = l.session in
    let m : Live = record l {
      session = record s { forward_time_step = s.forward_time_step * 2 };
    } in
    ask-IsSingle _ m refl (same-IsSingle l m refl refl refl refl p)
resume-IsSingle (ahead_reply q) (ok (x ∷ y ∷ samples)) l z h p =
    end_step-IsSingle (move_to y l.session) l (move_to-status y l.session) p
resume-IsSingle (back_reply q) (throw e) l z h p = settle-IsSingle (failed e) l p
resume-IsSingle (back_reply q) (ok []) l z h p = settle-IsSingle (failed type_error) l p
resume-IsSingle (back_reply q) (ok (x ∷ samples)) l z h p =
    end_step-IsSingle (move_to x l.session) l (move_to-status x l.session) p

-- Behind the reply to the status query that waited.
status-IsSingle :
    (k : Then) (r : Answer (status_reply k)) (rest : List Await) (l : Live)
    → l.awaiting ≡ status_reply k ∷ rest
    → IsSingle l
    → IsSingle (resume (status_reply k) r (record l { awaiting = rest }))
unfolding resume
status-IsSingle k r rest l e (rests a b c) = absurd (omega (arith, ap queries e, a))
status-IsSingle k r rest l e (polls i a b c d) = absurd (omega (arith, ap queries e, a))
status-IsSingle k (ok r) rest l e (waits a b c) =
    end_query-IsSingle k (status_of r) (record l { awaiting = rest })
      (omega (arith, ap queries e, a)) b c
status-IsSingle k (throw x) rest l e (waits a b c) = rests (omega (arith, ap queries e, a)) b c

reply-IsSingle :
    (a : Await) (r : Answer a) (rest : List Await) (l : Live)
    → l.awaiting ≡ a ∷ rest
    → ReplyApart a r rest
    → IsSingle l
    → IsSingle (resume a r (record l { awaiting = rest }))
reply-IsSingle (status_reply k) r rest l e h p = status-IsSingle k r rest l e p
reply-IsSingle (run_reply t k) r rest l e h p =
    resume-IsSingle (run_reply t k) r (record l { awaiting = rest }) refl h
      (same-IsSingle l (record l { awaiting = rest }) (sym (ap queries e)) refl refl refl p)
reply-IsSingle pause_reply r rest l e h p =
    resume-IsSingle pause_reply r (record l { awaiting = rest }) refl h
      (same-IsSingle l (record l { awaiting = rest }) (sym (ap queries e)) refl refl refl p)
reply-IsSingle (ahead_reply q) r rest l e h p =
    resume-IsSingle (ahead_reply q) r (record l { awaiting = rest }) refl h
      (same-IsSingle l (record l { awaiting = rest }) (sym (ap queries e)) refl refl refl p)
reply-IsSingle (back_reply q) r rest l e h p =
    resume-IsSingle (back_reply q) r (record l { awaiting = rest }) refl h
      (same-IsSingle l (record l { awaiting = rest }) (sym (ap queries e)) refl refl refl p)

go_on-IsSingle : (k : Then) (l : Live) → ThenApart k l.awaiting → IsSingle l → IsSingle (go_on k l)
unfolding go_on
go_on-IsSingle call_ends l h p = settle-IsSingle ended l p
go_on-IsSingle (asks_again t) l h p = next-IsSingle (reaches t) l p h
go_on-IsSingle (reaches t) l h p =
    end_step-IsSingle (reach t l.session) l (reach-status t l.session) p

on_event-IsSingle :
    (e : Event) (l : Live) → queries l.awaiting ≡ 0 → IsSingle l → IsSingle (on_event e l)
unfolding on_event
on_event-IsSingle (simulation_paused time cause) l h p = next-IsSingle call_ends l p h
on_event-IsSingle (simulation_finished time) l h p = next-IsSingle call_ends l p h

Step-IsSingle :
    {P : Replies} {l m : Live} (step : Step P l m) → StepApart step → IsSingle l → IsSingle m
unfolding run_simulation pause_simulation set_cursor
Step-IsSingle {l = l} (runs t) h p = ask-IsSingle (run_reply (until t) call_ends) l refl p
Step-IsSingle {l = l} pauses h p = ask-IsSingle pause_reply l refl p
Step-IsSingle {l = l} steps_forward h p = step_forward-IsSingle l p
Step-IsSingle {l = l} steps_backward h p = step_backward-IsSingle l p
Step-IsSingle {l = l} (sets t) h p =
    same-IsSingle l _ refl refl refl (ap (λ x. x.status) (set_time_cursor-status t l.session)) p
Step-IsSingle {l = l} (hears e) h p = on_event-IsSingle e l h p
Step-IsSingle {l = l} (times_out i r) h p = time_out-IsSingle i l r p
Step-IsSingle {l = l} (replied a rest r e q) h p = reply-IsSingle a r rest l e h p
Step-IsSingle {l = l} (goes_on k rest e) h p =
    go_on-IsSingle k (record l { ready = rest }) h (same-IsSingle l _ refl refl refl refl p)

-- However calls, events, timers and replies follow on each other, if no event, run, pause or step
-- begins a status query while another has no reply: either one status query waits, no timer runs
-- and none is kept; or no query waits and no timer runs or is kept; or no query waits and exactly the
-- timer that is kept runs, and the status that is known is that the simulation runs.
pub Reach-IsSingle : {P : Replies} {l : Live} (reached : Reach P l) → AllApart reached → IsSingle l
unfolding new_live clear
Reach-IsSingle here h = begin_query-IsSingle call_ends unasked refl refl
Reach-IsSingle (later reached step) (h, g) = Step-IsSingle step g (Reach-IsSingle reached h)
