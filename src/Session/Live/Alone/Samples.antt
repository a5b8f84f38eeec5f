-- ===== src/Session/Live/Alone/Samples.antt =====
-- The steps of a session, cut at their awaits, from sample to sample and at the end of the recorded
-- part (src/debug/session.ts).
use rtl_debugger.Common.{ℕ, ◌≡◌, ap, none, some}
use rtl_debugger.Time.{TimePoint}
use rtl_debugger.Session
use rtl_debugger.Session.{Session, Server, Outcome}
use rtl_debugger.Session.Forward
use rtl_debugger.Session.Ahead
use rtl_debugger.Session.Live.{Live, step_forward}
use rtl_debugger.Session.Live.Alone.{as_stepped, whole, steps_forward}

module _ (server : Server) where
  went :
      (fuel : ℕ) (s : Session) (o : Outcome TimePoint)
      → Session.step_forward server fuel s ≡ some o
      → whole server fuel steps_forward s ≡ some (as_stepped o)
  went fuel s o e = ap (λ x. elim x [ none ↦ none | some o ↦ some (as_stepped o) ]) e
