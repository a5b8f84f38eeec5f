-- ===== src/Session/Live/Listeners.antt =====
-- What listeners know of a session and where its cursor is, while calls overlap
-- (src/debug/session.ts).
use rtl_debugger.Common.{
  ◌≡◌, refl, ◌∙◌, inl, inr, List, [], ◌∷◌, ◌++◌, ok, throw, ◌||◌, Bool-cases, arith,
}
use rtl_debugger.Common.Int.{◌≤ℤ◌}
use rtl_debugger.Time.{TimePoint, zero_time, less_than, greater_than}
use rtl_debugger.Session.{
  Session, SimulationStatus, Notice, status_changed, cursor_changed, new_session, differs,
  status_of, changed_status, set_time_cursor,
}
use rtl_debugger.Session.Range.{InRange, set_time_cursor-InRange}
use rtl_debugger.Session.Live.{Live, status_reply, run_reply, pause_reply, ahead_reply, back_reply}
use rtl_debugger.Session.Live.Steps.{Replies, Any, Reach}
use rtl_debugger.Session.Live.Stable.{Reach-stable}

-- What a listener knows that keeps the last of each kind.
abbrev pub last_status : SimulationStatus → List Notice → SimulationStatus
last_status x [] = x
last_status x (status_changed y ∷ ns) = last_status y ns
last_status x (cursor_changed t ∷ ns) = last_status x ns

abbrev pub last_cursor : TimePoint → List Notice → TimePoint
last_cursor x [] = x
last_cursor x (status_changed y ∷ ns) = last_cursor x ns
last_cursor x (cursor_changed t ∷ ns) = last_cursor t ns

last_status-append :
    (x : SimulationStatus) (ms ns : List Notice)
    → last_status x (ms ++ ns) ≡ last_status (last_status x ms) ns
last_status-append x [] ns = refl
last_status-append x (status_changed y ∷ ms) ns = last_status-append y ms ns
last_status-append x (cursor_changed t ∷ ms) ns = last_status-append x ms ns

last_cursor-append :
    (x : TimePoint) (ms ns : List Notice)
    → last_cursor x (ms ++ ns) ≡ last_cursor (last_cursor x ms) ns
last_cursor-append x [] ns = refl
last_cursor-append x (status_changed y ∷ ms) ns = last_cursor-append x ms ns
last_cursor-append x (cursor_changed t ∷ ms) ns = last_cursor-append t ms ns

abbrev pub IsTold : Session → Type 0
IsTold s =
    (last_status new_session.simulation_status s.fired ≡ s.simulation_status)
    × (last_cursor zero_time s.fired ≡ s.time_cursor)

set_time_cursor-IsTold : (t : TimePoint) (s : Session) → IsTold s → IsTold ((set_time_cursor t s).1)
unfolding set_time_cursor
set_time_cursor-IsTold t s (h, c) =
    elim (Bool-cases (less_than t zero_time || greater_than t s.simulation_status.latest_time)) [
      | inl bad ↦ rw bad (h, c)
      | inr fine ↦ rw fine (
        last_status-append new_session.simulation_status s.fired (cursor_changed t ∷ []) ∙ h,
        last_cursor-append zero_time s.fired (cursor_changed t ∷ []),
      )
    ]

changed_status-IsTold :
    (new : SimulationStatus) (s : Session) → IsTold s → IsTold (changed_status new s)
unfolding changed_status
changed_status-IsTold new s (h, c) = elim (Bool-cases (differs s.simulation_status new)) [
  | inl d ↦ rw d (
    last_status-append new_session.simulation_status s.fired (status_changed new ∷ []),
    last_cursor-append zero_time s.fired (status_changed new ∷ []) ∙ c,
  )
  | inr d ↦ rw d (h, c)
]

-- However calls, events, timers and replies follow on each other, and whatever the replies are, the
-- last status and the last cursor that a new session told its listeners, and at first the paused
-- status at time zero and the cursor zero, are those it has.
pub Reach-IsTold : (l : Live) → Reach Any l → IsTold l.session
Reach-IsTold l = Reach-stable {P = Any} {I = IsTold} (record {
  start = (refl, refl);
  timer = λ b s h. h;
  guess = λ n s h. h;
  cursor = set_time_cursor-IsTold;
  status = λ k r new s p e. changed_status-IsTold new s;
})

-- The status replies are of no time before the latest one known.
abbrev pub IsForward : Replies
IsForward s (status_reply k) (ok r) =
    (new : SimulationStatus)
    → status_of r ≡ ok new
    → s.simulation_status.latest_time.raw ≤ℤ new.latest_time.raw
IsForward s (status_reply k) (throw e) = Unit
IsForward s (run_reply r k) x = Unit
IsForward s pause_reply x = Unit
IsForward s (ahead_reply q) x = Unit
IsForward s (back_reply q) x = Unit

changed_status-InRange :
    (new : SimulationStatus) (s : Session)
    → s.simulation_status.latest_time.raw ≤ℤ new.latest_time.raw
    → InRange s
    → InRange (changed_status new s)
unfolding changed_status
changed_status-InRange new s p h = elim (Bool-cases (differs s.simulation_status new)) [
  | inl d ↦ rw d (h.0, ground arith)
  | inr d ↦ rw d h
]

-- However calls, events, timers and replies follow on each other, the cursor is between zero and the
-- latest time that is known, if no status reply tells a time before that.
pub Reach-InRange : (l : Live) → Reach IsForward l → InRange l.session
Reach-InRange l = Reach-stable {P = IsForward} {I = InRange} (record {
  start = (omega arith, omega arith);
  timer = λ b s h. h;
  guess = λ n s h. h;
  cursor = set_time_cursor-InRange;
  status = λ k r new s p e. changed_status-InRange new s (p new e);
})
