-- ===== src/Session/Live/Tests.antt =====
-- Overlapping calls of a session with a concrete server (src/debug/session.ts).
use rtl_debugger.Common.{ℕ, ◌≡◌, refl, sym, ◌∙◌, ◌⊎◌, [], ◌∷◌, none, some, ok, arith}
use rtl_debugger.Proto.{StatusResponse, running, simulation_paused, until_time}
use rtl_debugger.Common.Text.{codes}
use rtl_debugger.Time.{to_cxxrtl}
use rtl_debugger.Time.Protocol.{from_cxxrtl-to_cxxrtl}
use rtl_debugger.Session.{SimulationStatus, is_running, status_of, changed_status}
use rtl_debugger.Session.Forward.{at}
use rtl_debugger.Session.Range.{InRange}
use rtl_debugger.Session.Live.{
  Live, call_ends, status_reply, new_live, begin_query, end_query, resume, pause_simulation,
  on_event, clear, without,
}
use rtl_debugger.Session.Live.Steps.{
  Replies, Any, IsRead, Runs, Reach, here, later, replied, hears, pauses,
}
use rtl_debugger.Session.Live.Listeners.{IsTold, IsForward, Reach-IsTold, Reach-InRange}
use rtl_debugger.Session.Live.Polling.Kept.{IsAsked}
use rtl_debugger.Session.Live.Polling.{Reach_asks}
use rtl_debugger.Session.Live.Timers.Apart.{AllApart, IsSingle}
use rtl_debugger.Session.Live.Timers.Single.{Reach-IsSingle}

abbrev going : StatusResponse
going = running (to_cxxrtl (at 5))

abbrev going_status : SimulationStatus
going_status = record { status = is_running; latest_time = at 5; next_sample_time = none }

going-status : status_of going ≡ ok going_status
unfolding status_of
going-status = rw (from_cxxrtl-to_cxxrtl 5) refl

-- The first query has its reply, an event comes, and the simulation is paused.
abbrev answered : Live
answered = resume (status_reply call_ends) (ok going) (record new_live { awaiting = [] })

abbrev interrupted : Live
interrupted = pause_simulation (on_event (simulation_paused (codes "5.0") until_time) answered)

asked : new_live.awaiting ≡ status_reply call_ends ∷ []
unfolding new_live begin_query
asked = refl

reached :
    (P : Replies) → P new_live.session (status_reply call_ends) (ok going) → Reach P interrupted
reached P h =
    later
      (later (later here (replied (status_reply call_ends) [] (ok going) asked h))
        (hears (simulation_paused (codes "5.0") until_time)))
      pauses

interrupted-running : interrupted.session.simulation_status.status ≡ is_running
unfolding resume end_query changed_status pause_simulation on_event begin_query new_live
interrupted-running = rw going-status refl

Reach-IsTold_example : IsTold interrupted.session
Reach-IsTold_example = Reach-IsTold interrupted (reached Any tt)

going-IsForward : IsForward new_live.session (status_reply call_ends) (ok going)
unfolding new_live begin_query
going-IsForward new h =
    let known : going_status ≡ new =
      (let both : ok going_status ≡ ok new = sym going-status ∙ h in cc) in
    rw (← known) (omega arith)

Reach-InRange_example : InRange interrupted.session
Reach-InRange_example = Reach-InRange interrupted (reached IsForward going-IsForward)

Reach_asks_example :
    ((i : ℕ) × (interrupted.kept ≡ some i) × Runs i interrupted.timers)
    ⊎ IsAsked interrupted.awaiting
Reach_asks_example =
    Reach_asks interrupted (reached IsRead (going_status, going-status)) interrupted-running

reached-AllApart : AllApart (reached Any tt)
unfolding reached resume end_query changed_status new_live begin_query
reached-AllApart = (((tt, tt), rw going-status refl), tt)

Reach-IsSingle_example : IsSingle interrupted
Reach-IsSingle_example = Reach-IsSingle (reached Any tt) reached-AllApart

-- Two status queries that wait together and are both answered while the simulation runs leave two
-- timers, of which one is kept.
abbrev twice : Live
twice =
    resume (status_reply call_ends) (ok going)
      (record (resume (status_reply call_ends) (ok going)
        (record (on_event (simulation_paused (codes "5.0") until_time) new_live) {
          awaiting = status_reply call_ends ∷ [];
        })) { awaiting = [] })

twice_lem : (twice.timers ≡ 0 ∷ 1 ∷ []) × (twice.kept ≡ some 1)
unfolding resume end_query on_event begin_query new_live clear without
twice_lem = (rw going-status refl, rw going-status refl)
