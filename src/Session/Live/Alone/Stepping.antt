-- ===== src/Session/Live/Alone/Stepping.antt =====
-- The steps of the cursor that no other call overlaps (src/debug/session.ts).
use rtl_debugger.Common.{
  ℕ, zero, suc, ◌*◌, ◌≤◌, ◌≡◌, refl, List, [], ◌∷◌, Option, some, Result, ok, throw, type_error,
  arith,
}
use rtl_debugger.Proto.{ProtoSample, QueryInterval}
use rtl_debugger.Time.{TimePoint}
use rtl_debugger.Session
use rtl_debugger.Session.{
  Session, Server, SimulationStatus, RunState, Outcome, is_running, is_paused, is_finished,
  state_eq, differs, continue, status_of, changed_status, status_known, query_simulation_status,
  until, move_to, reach, look_ahead, forward_reply, back_reply, at_end, with_cursor,
}
use rtl_debugger.Session.Live.{
  Live, asks_again, reaches, run_reply, ahead_reply, stepped, failed, end_step, ahead, ask_ahead,
  step_at_end, resume, go_on,
}
use rtl_debugger.Session.Live.Alone.{as_stepped, idle, Done, serve}
use rtl_debugger.Session.Live.Alone.Queries.{Done-from, after, query-Done, settle-Done, go_on-turn}

module _ (server : Server) where
  pub end_step-Done :
      (n k : ℕ) (o : Outcome Unit) (l m : Live)
      → m.settled ≡ l.settled
      → Done (as_stepped (with_cursor server o)) l (serve server n k (end_step o (idle m)))
  end_step-Done n k (ok u, s) l m f =
      settle-Done server n k (stepped s.time_cursor) s l (record m { session = s }) refl f
  end_step-Done n k (throw e, s) l m f =
      settle-Done server n k (failed e) s l (record m { session = s }) refl f

  -- The end of a step that runs the simulation, behind its second status query.
  reaches_lem :
      (n k : ℕ) (t : Option TimePoint) (o : Outcome Unit) (l m : Live)
      → m.settled ≡ l.settled
      → m.session ≡ o.1
      → Done
          (as_stepped (with_cursor server (continue o λ u. reach t)))
          l
          (serve server (suc n) k (after (o.0) (reaches t) m))
  unfolding go_on
  reaches_lem n k t (ok u, s) l m f e =
      rw (go_on-turn server n k (reaches t) m, ← e) (end_step-Done n k (reach t m.session) l m f)
  reaches_lem n k t (throw x, s) l m f e = settle-Done server (suc n) k (failed x) s l m e f

  asks_again_lem :
      (n : ℕ) (t : Option TimePoint) (o : Outcome Unit) (l m : Live)
      → m.settled ≡ l.settled
      → m.session ≡ o.1
      → Done
          (as_stepped (
            with_cursor server (
              continue o λ u v.
                continue
                  (query_simulation_status (server.get_simulation_status 1) v)
                  λ w. reach t)))
          l
          (serve server (suc (suc (suc n))) 1 (after (o.0) (asks_again t) m))
  unfolding go_on
  asks_again_lem n t (ok u, s) l m f e =
      rw (go_on-turn server (suc (suc n)) 1 (asks_again t) m, ← e)
        (Done-from f
          (query-Done server (suc n) 1 (reaches t) m _ (λ p g h. reaches_lem n 2 t _ m p g h)))
  asks_again_lem n t (throw x, s) l m f e =
      settle-Done server (suc (suc (suc n))) 1 (failed x) s l m e f

  -- A step at the end of a paused simulation, behind the reply to its run.
  ahead_run_lem :
      (n : ℕ) (t : Option TimePoint) (x : Result (Unit {0})) (l : Live)
      → Done
          (as_stepped (
            with_cursor server (
              continue
                (continue
                  (x, l.session)
                  λ u. query_simulation_status (server.get_simulation_status 0))
                λ w z.
                  continue
                    (query_simulation_status (server.get_simulation_status 1) z)
                    λ y. reach t)))
          l
          (serve server
            (suc (suc (suc (suc n))))
            0
            (resume (run_reply (until t) (asks_again t)) x (idle l)))
  unfolding resume
  ahead_run_lem n t (ok u) l =
      query-Done server (suc (suc (suc n))) 0 (asks_again t) l _
        (λ m f e. asks_again_lem n t _ l m f e)
  ahead_run_lem n t (throw e) l =
      settle-Done server (suc (suc (suc (suc n)))) 0 (failed e) l.session l l refl refl

  pub at_end_lem :
      (n : ℕ) (x : RunState) (l : Live)
      → Done
          (as_stepped (with_cursor server (at_end server x l.session)))
          l
          (serve server (suc (suc (suc (suc (suc n))))) 0 (step_at_end x (idle l)))
  unfolding serve Session.run_ahead Session.run_to Session.run_simulation
  at_end_lem n is_paused l =
      ahead_run_lem n l.session.simulation_status.next_sample_time
        (server.run_simulation (until l.session.simulation_status.next_sample_time)) l
  at_end_lem n is_running l =
      settle-Done server (suc (suc (suc (suc (suc n))))) 0 (stepped l.session.time_cursor) l.session
        l l refl refl
  at_end_lem n is_finished l =
      settle-Done server (suc (suc (suc (suc (suc n))))) 0 (stepped l.session.time_cursor) l.session
        l l refl refl

  -- Behind a reply in the loop of a step; `again` is its next round.
  ahead_reply_lem :
      (n : ℕ) (q : QueryInterval) (x : Result (List ProtoSample)) (l : Live) (o : Outcome Unit)
      (again : Option (Outcome Unit))
      → (again ≡ some o
          → Done (as_stepped (with_cursor server o)) l (
              serve server n 0 (
                ask_ahead (
                  idle (record l {
                    session = record l.session {
                      forward_time_step = l.session.forward_time_step * 2;
                    };
                  })))))
      → forward_reply x l.session again ≡ some o
      → Done
          (as_stepped (with_cursor server o))
          l
          (serve server n 0 (resume (ahead_reply q) x (idle l)))
  unfolding resume
  ahead_reply_lem n q (throw e) l o again f h =
      let same : (throw e, l.session) ≡ o = cc in
      rw (← same) (settle-Done server n 0 (failed e) l.session l l refl refl)
  ahead_reply_lem n q (ok []) l o again f h =
      let same : (throw type_error, l.session) ≡ o = cc in
      rw (← same) (settle-Done server n 0 (failed type_error) l.session l l refl refl)
  ahead_reply_lem n q (ok (x ∷ [])) l o again f h = f h
  ahead_reply_lem n q (ok (x ∷ y ∷ samples)) l o again f h =
      let same : move_to y l.session ≡ o = cc in
      rw (← same) (end_step-Done n 0 (move_to y l.session) l l refl)

  ahead-turn :
      (n : ℕ) (l : Live)
      → serve server (suc n) 0 (ask_ahead (idle l))
        ≡ serve server n 0 (
            resume
              (ahead_reply (ahead l.session))
              (server.query_interval (ahead l.session))
              (idle l))
  unfolding serve
  ahead-turn n l = refl

  pub ahead_lem :
      (fuel n : ℕ) (l : Live) (o : Outcome Unit)
      → fuel ≤ n
      → look_ahead server fuel l.session ≡ some o
      → Done (as_stepped (with_cursor server o)) l (serve server n 0 (ask_ahead (idle l)))
  unfolding look_ahead
  ahead_lem zero n l o w h = cc
  ahead_lem (suc fuel) zero l o w h = absurd (omega (arith, w))
  ahead_lem (suc fuel) (suc n) l o w h =
      let t = record l.session { forward_time_step = l.session.forward_time_step * 2 } in
      rw (ahead-turn n l) (
        ahead_reply_lem n (ahead l.session) (server.query_interval (ahead l.session)) l o
          (look_ahead server fuel t)
          (λ g. Done-from refl (ahead_lem fuel n (record l { session = t }) o (omega (arith, w)) g))
          h)
