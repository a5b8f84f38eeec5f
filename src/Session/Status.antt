-- ===== src/Session/Status.antt =====
-- What the session knows of the simulation's status (src/debug/session.ts).
use rtl_debugger.Common.{
  ◌≡◌, refl, ap, ◌⊎◌, inl, inr, true, false, Bool, ◌||◌, not, ◌&&◌, [], ◌∷◌, ◌++◌, ok, arith,
  Bool-cases,
}
use rtl_debugger.Common.Int.{eq_of_parts}
use rtl_debugger.Proto.{StatusResponse}
use rtl_debugger.Time.{TimePoint, equals}
use rtl_debugger.Session.{
  Session, SimulationStatus, RunState, is_running, is_paused, is_finished, state_eq, is_some,
  differs, status_changed, status_of, status_known, query_simulation_status,
}

-- The session behind a status that was received.
pub record Known (new : SimulationStatus) (s t : Session) : Type 0 where
  pub status : t.simulation_status.status ≡ new.status
  pub latest : t.simulation_status.latest_time ≡ new.latest_time
  pub timer : t.timeout ≡ state_eq new.status is_running
  pub cursor : t.time_cursor ≡ s.time_cursor
  pub guess : t.forward_time_step ≡ s.forward_time_step
  pub told :
      ((t.simulation_status ≡ s.simulation_status) × (t.fired ≡ s.fired))
      ⊎ ((t.simulation_status ≡ new) × (t.fired ≡ s.fired ++ status_changed new ∷ []))

pub state_eq-eq : (x y : RunState) → state_eq x y ≡ true → x ≡ y
state_eq-eq is_running is_running h = refl
state_eq-eq is_paused is_paused h = refl
state_eq-eq is_finished is_finished h = refl
state_eq-eq is_running is_paused h = cc
state_eq-eq is_running is_finished h = cc
state_eq-eq is_paused is_running h = cc
state_eq-eq is_paused is_finished h = cc
state_eq-eq is_finished is_running h = cc
state_eq-eq is_finished is_paused h = cc

equals-eq : (t u : TimePoint) → equals t u ≡ true → t ≡ u
equals-eq t u h = ap (λ r. record { raw = r }) (eq_of_parts t.raw u.raw (ground arith))

both : (a b c : Bool) → (not a || (not b || c)) ≡ false → (a ≡ true) × (b ≡ true)
both true true c h = (refl, refl)
both true false c h = cc
both false b c h = cc

same :
    (old new : SimulationStatus)
    → differs old new ≡ false
    → (old.status ≡ new.status) × (old.latest_time ≡ new.latest_time)
same old new h =
    let (e, f) =
      both (state_eq old.status new.status) (equals old.latest_time new.latest_time)
        (not (is_some old.next_sample_time) && is_some new.next_sample_time) h in
    (state_eq-eq old.status new.status e, equals-eq old.latest_time new.latest_time f)

pub status_known-Known : (new : SimulationStatus) (s : Session) → Known new s (status_known new s)
unfolding status_known
status_known-Known new s = elim (Bool-cases (differs s.simulation_status new)) [
  | inl d ↦ rw d (record {
    status = refl;
    latest = refl;
    timer = refl;
    cursor = refl;
    guess = refl;
    told = inr (refl, refl);
  })
  | inr d ↦
      let (e, f) = same s.simulation_status new d in
      rw d (record {
        status = e;
        latest = f;
        timer = refl;
        cursor = refl;
        guess = refl;
        told = inl (refl, refl);
      })
]

-- Behind a status reply that can be read, the session's status and latest time are those of the
-- reply; its timer runs exactly if the simulation does; the cursor is as before; and listeners are
-- told the new status, once, unless the session's status is unchanged.
pub query_simulation_status-Known :
    (r : StatusResponse) (new : SimulationStatus) (s : Session)
    → status_of r ≡ ok new
    → (t : Session) × (query_simulation_status (ok r) s ≡ (ok tt, t)) × Known new s t
unfolding query_simulation_status
query_simulation_status-Known r new s h =
    let k = status_known-Known new (record s { timeout = false }) in
    (
      status_known new (record s { timeout = false }),
      rw h refl,
      record {
        status = k.status;
        latest = k.latest;
        timer = k.timer;
        cursor = k.cursor;
        guess = k.guess;
        told = k.told;
      },
    )
