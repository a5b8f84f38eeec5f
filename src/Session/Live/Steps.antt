-- ===== src/Session/Live/Steps.antt =====
-- The steps of a session whose calls overlap (src/debug/session.ts), and the states they lead to.
use rtl_debugger.Common.{ℕ, ◌≡◌, List, ◌∷◌, Option, ok, throw}
use rtl_debugger.Proto.{Event}
use rtl_debugger.Time.{TimePoint}
use rtl_debugger.Session.{Session, SimulationStatus, status_of}
use rtl_debugger.Session.Live.{
  Live, Await, Answer, Then, status_reply, run_reply, pause_reply, ahead_reply, back_reply,
  run_simulation, pause_simulation, step_forward, step_backward, set_cursor, on_event, time_out,
  resume, go_on, new_live,
}

-- Which timers run.
pub data Runs (i : ℕ) : List ℕ → Type 0 where
  first : {is : List ℕ} → Runs i (i ∷ is)
  next : {j : ℕ} {is : List ℕ} → Runs i is → Runs i (j ∷ is)

-- What is asked of the replies.
abbrev pub Replies : Type 1
Replies = Session → (a : Await) → Answer a → Type 0

-- A call, an event, a timer, a reply, or a call that goes on.
pub data Step (P : Replies) (l : Live) : Live → Type 0 where
  runs : (t : Option TimePoint) → Step P l (run_simulation t l)
  pauses : Step P l (pause_simulation l)
  steps_forward : Step P l (step_forward l)
  steps_backward : Step P l (step_backward l)
  sets : (t : TimePoint) → Step P l (set_cursor t l)
  hears : (e : Event) → Step P l (on_event e l)
  times_out : (i : ℕ) → Runs i l.timers → Step P l (time_out i l)
  replied :
      (a : Await) (rest : List Await) (r : Answer a)
      → l.awaiting ≡ a ∷ rest
      → P l.session a r
      → Step P l (resume a r (record l { awaiting = rest }))
  goes_on :
      (k : Then) (rest : List Then)
      → l.ready ≡ k ∷ rest
      → Step P l (go_on k (record l { ready = rest }))

pub data Reach (P : Replies) : Live → Type 0 where
  here : Reach P new_live
  later : {l m : Live} → Reach P l → Step P l m → Reach P m

-- Any replies.
abbrev pub Any : Replies
Any s a r = Unit

-- A status query has a reply whose status can be read.
abbrev pub IsRead : Replies
IsRead s (status_reply k) (ok r) = (new : SimulationStatus) × (status_of r ≡ ok new)
IsRead s (status_reply k) (throw e) = ⊥
IsRead s (run_reply r k) x = Unit
IsRead s pause_reply x = Unit
IsRead s (ahead_reply q) x = Unit
IsRead s (back_reply q) x = Unit
