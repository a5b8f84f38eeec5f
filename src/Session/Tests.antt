-- ===== src/Session/Tests.antt =====
-- A session with a concrete server, which has samples at 0 and at 5 femtoseconds.
use rtl_debugger.Common.{
  ℕ, suc, ◌≡◌, refl, ◌∙◌, List, [], ◌∷◌, ◌++◌, none, some, ◌==◌, Result, ok, throw, range_error,
  arith, ltb, if◌then◌else◌,
}
use rtl_debugger.Common.Int.{pos_part}
use rtl_debugger.Common.Text.{Text, codes}
use rtl_debugger.Proto.{ProtoSample, StatusResponse, paused}
use rtl_debugger.Time.{TimeInterval, to_cxxrtl, interval_from_cxxrtl, interval_to_cxxrtl}
use rtl_debugger.Time.Protocol.{from_cxxrtl-to_cxxrtl, interval_from_cxxrtl-interval_to_cxxrtl}
use rtl_debugger.Session.{
  Session, Server, SimulationStatus, is_paused, new_session, cursor_changed, step_forward,
  step_backward, set_time_cursor,
}
use rtl_debugger.Session.Forward.{
  at, Adjacent, Stands, Moved, step_forward-next, step_backward-step_forward,
}
use rtl_debugger.Session.Live
use rtl_debugger.Session.Live.{Live, Settled, unasked}
use rtl_debugger.Session.Live.Alone.{begin}

abbrev sample_at : ℕ → ProtoSample
sample_at n = record { time = to_cxxrtl (at n); item_values = none; diagnostics = none }

abbrev answer : ℕ → ℕ → List ProtoSample
answer begin end =
    if ltb begin 5
    then sample_at 0 ∷ (if ltb end 5 then [] else sample_at 5 ∷ [])
    else sample_at 5 ∷ []

abbrev answered : Result TimeInterval → Result (List ProtoSample)
answered (throw e) = throw e
answered (ok i) = ok (answer (pos_part i.begin.raw) (pos_part i.end.raw))

abbrev reply : Text × Text → Result (List ProtoSample)
reply interval = answered (interval_from_cxxrtl interval)

abbrev at_pause : StatusResponse
at_pause = paused (to_cxxrtl (at 5)) (to_cxxrtl (at 9))

abbrev server : Server
server = record {
  query_interval = λ q. reply q.interval;
  run_simulation = λ r. ok tt;
  pause_simulation = ok (codes "0.0");
  get_simulation_status = λ k. ok at_pause;
}

abbrev pause_status : SimulationStatus
pause_status = record { status = is_paused; latest_time = at 5; next_sample_time = some (at 9) }

abbrev started : Session
started = record new_session { simulation_status = pause_status }

reply_lem :
    (b e : ℕ) → reply (interval_to_cxxrtl (record { begin = at b; end = at e })) ≡ ok (answer b e)
reply_lem b e = rw (interval_from_cxxrtl-interval_to_cxxrtl b e) refl

server-Adjacent : Adjacent server 0 5
server-Adjacent = record {
  order = omega arith;
  alone = λ e g h. (sample_at 0, reply_lem 0 e ∙ ground arith);
  next =
      λ e h. (sample_at 0, sample_at 5, [], reply_lem 0 e ∙ ground arith, from_cxxrtl-to_cxxrtl 5);
  last = λ e g h. (
    sample_at 0,
    if ltb e 5 then [] else sample_at 5 ∷ [],
    reply_lem e e ∙ ground arith,
    from_cxxrtl-to_cxxrtl 0,
  );
}

started-Stands : Stands started 0 5
started-Stands = record { cursor = refl; latest = refl; positive = omega arith }

out_of_range : (set_time_cursor (at 6) started).0 ≡ throw range_error
unfolding set_time_cursor
out_of_range = refl

step_forward-next_example :
    (t : Session) × (step_forward server (suc 4) started ≡ some (ok (at 5), t))
    × Moved started t 0 5
step_forward-next_example =
    step_forward-next server started 0 5 5 4 server-Adjacent started-Stands (omega arith)
      (omega arith)

step_backward-step_forward_example :
    (t : Session) × (step_forward server (suc 4) started ≡ some (ok (at 5), t))
    × ((u : Session) × (step_backward server t ≡ (ok (at 0), u))
        × (u.time_cursor ≡ started.time_cursor)
        × (u.fired ≡ started.fired ++ cursor_changed (at 5) ∷ cursor_changed (at 0) ∷ []))
step_backward-step_forward_example =
    step_backward-step_forward server started 0 5 5 4 server-Adjacent started-Stands (omega arith)
      (omega arith)

abbrev alone : Live
alone = record unasked { session = started }

-- The simulation goes on until the time that it was to stop at.
abbrev later_pause : StatusResponse
later_pause = paused (to_cxxrtl (at 9)) (to_cxxrtl (at 12))

abbrev later_status : SimulationStatus
later_status = record { status = is_paused; latest_time = at 9; next_sample_time = some (at 12) }

abbrev resumed : Server
resumed = record server {
  get_simulation_status = λ k. ok (if k == 0 then at_pause else later_pause);
}

abbrev at_latest : Live
at_latest = record unasked { session = record started { time_cursor = at 5 } }
