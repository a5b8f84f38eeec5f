-- ===== src/Session/Live/Alone/Calls.antt =====
-- Calls that no other overlaps do what the whole calls do (src/debug/session.ts).
use rtl_debugger.Common.{
  if◌then◌else◌, ℕ, suc, ◌≤◌, ◌≡◌, refl, sym, ap, ◌∙◌, inl, inr, Bool, List, [], ◌∷◌, Option, none,
  some, Result, ok, throw, type_error, Bool-cases, arith,
}
use mathlib.Core.Path.{subst}
use rtl_debugger.Common.Text.{Text}
use rtl_debugger.Proto.{ProtoSample, RunSimulation, QueryInterval}
use rtl_debugger.Time.{TimePoint, zero_time, equals}
use rtl_debugger.Session
use rtl_debugger.Session.{
  Session, Server, SimulationStatus, RunState, Outcome, is_running, is_paused, is_finished,
  state_eq, differs, continue, status_of, changed_status, status_known, query_simulation_status,
  until, move_to, reach, look_ahead, forward_reply, back_reply, at_end, with_cursor,
}
use rtl_debugger.Session.Live
use rtl_debugger.Session.Live.{
  Live, Await, Answer, Then, call_ends, asks_again, reaches, status_reply, run_reply, pause_reply,
  ahead_reply, Settled, ended, stepped, failed, settle, ask, learn, begin_query, end_query,
  end_step, clear, keep, set_timeout, ahead, before, ask_ahead, run_simulation, pause_simulation,
  step_at_end, step_forward, step_backward, resume, go_on,
}
use rtl_debugger.Session.Live.Alone.{
  Call, runs, pauses, steps_forward, steps_backward, begin, as_ended, as_stepped, idle, Done, whole,
  serve,
}
use rtl_debugger.Session.Live.Alone.Queries.{settle-Done, status_lem}
use rtl_debugger.Session.Live.Alone.Stepping.{end_step-Done, at_end_lem, ahead_lem}

module _ (server : Server) where
  run_lem :
      (n : ℕ) (r : RunSimulation) (x : Result (Unit {0})) (l : Live)
      → Done
          (as_ended
            (continue (x, l.session) λ u. query_simulation_status (server.get_simulation_status 0)))
          l
          (serve server (suc (suc n)) 0 (resume (run_reply r call_ends) x (idle l)))
  unfolding resume
  run_lem n r (ok u) l = status_lem server n 0 l
  run_lem n r (throw e) l = settle-Done server (suc (suc n)) 0 (failed e) l.session l l refl refl

  pause_lem :
      (n : ℕ) (x : Result Text) (l : Live)
      → Done
          (as_ended
            (continue (x, l.session) λ u. query_simulation_status (server.get_simulation_status 0)))
          l
          (serve server (suc (suc n)) 0 (resume pause_reply x (idle l)))
  unfolding resume
  pause_lem n (ok u) l = status_lem server n 0 l
  pause_lem n (throw e) l = settle-Done server (suc (suc n)) 0 (failed e) l.session l l refl refl

  looked :
      (fuel n : ℕ) (x : Option (Outcome Unit)) (l : Live) (o : Outcome TimePoint)
      → fuel ≤ n
      → look_ahead server fuel l.session ≡ x
      → elim x [ none ↦ none | some p ↦ some (with_cursor server p) ] ≡ some o
      → Done (as_stepped o) l (serve server n 0 (ask_ahead (idle l)))
  looked fuel n none l o w e g = cc
  looked fuel n (some p) l o w e g =
      let same : with_cursor server p ≡ o = cc in rw (← same) (ahead_lem server fuel n l p w e)

  forward_lem :
      (fuel : ℕ) (l : Live) (o : Outcome TimePoint)
      → Session.step_forward server fuel l.session ≡ some o
      → Done
          (as_stepped o)
          l
          (serve server (suc (suc (suc (suc (suc fuel))))) 0 (step_forward (idle l)))
  unfolding Session.step_forward step_forward
  forward_lem fuel l o h =
      let s = l.session in
      let here = at_end server s.simulation_status.status s in
      let there : Option (Outcome TimePoint) = elim (look_ahead server fuel s) [
        | none ↦ none
        | some p ↦ some (with_cursor server p)
      ] in
      let chosen : Bool → Option (Outcome TimePoint) =
        λ b. if b then some (with_cursor server here) else there in
      elim (Bool-cases (equals s.time_cursor s.simulation_status.latest_time)) [
        | inl e ↦
            let taken : some (with_cursor server here) ≡ some o = sym (ap chosen e) ∙ h in
            let same : with_cursor server here ≡ o = cc in
            rw (e, ← same) (at_end_lem server fuel s.simulation_status.status l)
        | inr e ↦
            let taken : there ≡ some o = sym (ap chosen e) ∙ h in
            rw e (
              looked fuel (suc (suc (suc (suc (suc fuel))))) (look_ahead server fuel s) l o
                (omega arith) refl taken)
      ]

  back_reply_lem :
      (n : ℕ) (q : QueryInterval) (x : Result (List ProtoSample)) (l : Live)
      → Done
          (as_stepped (with_cursor server (back_reply server x l.session)))
          l
          (serve server n 0 (resume (Live.back_reply q) x (idle l)))
  unfolding resume
  back_reply_lem n q (throw e) l = settle-Done server n 0 (failed e) l.session l l refl refl
  back_reply_lem n q (ok []) l = settle-Done server n 0 (failed type_error) l.session l l refl refl
  back_reply_lem n q (ok (x ∷ samples)) l = end_step-Done server n 0 (move_to x l.session) l l refl

  backward_lem :
      (n : ℕ) (l : Live)
      → Done
          (as_stepped (Session.step_backward server l.session))
          l
          (serve server (suc n) 0 (step_backward (idle l)))
  unfolding Session.step_backward step_backward serve
  backward_lem n l = elim (Bool-cases (equals l.session.time_cursor zero_time)) [
    | inl e ↦
        rw e (settle-Done server (suc n) 0 (stepped l.session.time_cursor) l.session l l refl refl)
    | inr e ↦
        rw e (back_reply_lem n (before l.session) (server.query_interval (before l.session)) l)
  ]

  serve-idle_begin :
      (fuel : ℕ) (c : Call) (l : Live) (r : Settled × Session)
      → whole server fuel c l.session ≡ some r
      → Done r l (serve server (suc (suc (suc (suc (suc fuel))))) 0 (begin c (idle l)))
  unfolding Session.run_simulation Session.pause_simulation run_simulation pause_simulation serve
  serve-idle_begin fuel (runs t) l r h =
      let same : as_ended (Session.run_simulation server t l.session) ≡ r = cc in
      rw (← same) (run_lem (suc (suc fuel)) (until t) (server.run_simulation (until t)) l)
  serve-idle_begin fuel pauses l r h =
      let same : as_ended (Session.pause_simulation server l.session) ≡ r = cc in
      rw (← same) (pause_lem (suc (suc fuel)) server.pause_simulation l)
  serve-idle_begin fuel steps_forward l r h =
      whole_forward (Session.step_forward server fuel l.session) refl h
    where
      whole_forward :
          (x : Option (Outcome TimePoint))
          → Session.step_forward server fuel l.session ≡ x
          → elim x [ none ↦ none | some o ↦ some (as_stepped o) ] ≡ some r
          → Done r l (serve server (suc (suc (suc (suc (suc fuel))))) 0 (step_forward (idle l)))
      whole_forward none e g = cc
      whole_forward (some o) e g =
          let same : as_stepped o ≡ r = cc in rw (← same) (forward_lem fuel l o e)
  serve-idle_begin fuel steps_backward l r h =
      let same : as_stepped (Session.step_backward server l.session) ≡ r = cc in
      rw (← same) (backward_lem (suc (suc (suc (suc fuel)))) l)

idle-eq : (l : Live) → l.awaiting ≡ [] → l.ready ≡ [] → idle l ≡ l
idle-eq l a b = rw (← a, ← b) refl

-- A call of a session with nothing under way, whose commands the server answers one behind the other
-- with nothing in between: if the whole call, given these answers at once, ends within a number of
-- rounds of its loop, then five answers more than these are enough for the call to settle as the
-- whole one does, with the session that it leaves, and nothing is under way behind it.
pub serve-begin :
    (server : Server) (fuel : ℕ) (c : Call) (l : Live) (r : Settled × Session)
    → l.awaiting ≡ []
    → l.ready ≡ []
    → whole server fuel c l.session ≡ some r
    → Done r l (serve server (suc (suc (suc (suc (suc fuel))))) 0 (begin c l))
serve-begin server fuel c l r a b h =
    subst (λ x. Done r l (serve server (suc (suc (suc (suc (suc fuel))))) 0 (begin c x)))
      (idle-eq l a b) (serve-idle_begin server fuel c l r h)
