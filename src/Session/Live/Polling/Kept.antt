-- ===== src/Session/Live/Polling/Kept.antt =====
-- What a session keeps to go on asking for the status (src/debug/session.ts).
use rtl_debugger.Common.{
  ℕ, arith, ◌≡◌, refl, sym, ap, ◌∙◌, ◌⊎◌, inl, inr, Bool, true, false, List, [], ◌∷◌, ◌++◌, Option,
  none, some, Result, ok, throw, if◌then◌else◌,
}
use rtl_debugger.Proto.{ProtoSample}
use rtl_debugger.Time.{TimePoint, greater_than, from_cxxrtl}
use rtl_debugger.Session.{
  Session, SimulationStatus, is_running, state_eq, continue, status_known, changed_status,
  set_time_cursor, move_to, reach,
}
use rtl_debugger.Session.Status.{status_known-Known}
use rtl_debugger.Session.Live.{
  Live, Await, Then, status_reply, run_reply, pause_reply, ahead_reply, back_reply, ask,
  begin_query,
}
use rtl_debugger.Session.Live.Steps.{Runs, first, next}

-- A status query has no reply yet.
abbrev pub IsAsked : List Await → Type 0
IsAsked [] = ⊥
IsAsked (status_reply k ∷ ws) = Unit
IsAsked (run_reply r k ∷ ws) = IsAsked ws
IsAsked (pause_reply ∷ ws) = IsAsked ws
IsAsked (ahead_reply q ∷ ws) = IsAsked ws
IsAsked (back_reply q ∷ ws) = IsAsked ws

IsAsked-append : (ws vs : List Await) → IsAsked ws → IsAsked (ws ++ vs)
IsAsked-append [] vs h = absurd h
IsAsked-append (status_reply k ∷ ws) vs h = tt
IsAsked-append (run_reply r k ∷ ws) vs h = IsAsked-append ws vs h
IsAsked-append (pause_reply ∷ ws) vs h = IsAsked-append ws vs h
IsAsked-append (ahead_reply q ∷ ws) vs h = IsAsked-append ws vs h
IsAsked-append (back_reply q ∷ ws) vs h = IsAsked-append ws vs h

IsAsked-last : (k : Then) (ws : List Await) → IsAsked (ws ++ status_reply k ∷ [])
IsAsked-last k [] = tt
IsAsked-last k (status_reply j ∷ ws) = tt
IsAsked-last k (run_reply r j ∷ ws) = IsAsked-last k ws
IsAsked-last k (pause_reply ∷ ws) = IsAsked-last k ws
IsAsked-last k (ahead_reply q ∷ ws) = IsAsked-last k ws
IsAsked-last k (back_reply q ∷ ws) = IsAsked-last k ws

pub Runs-last : (i : ℕ) (is : List ℕ) → Runs i (is ++ i ∷ [])
Runs-last i [] = first
Runs-last i (j ∷ is) = next (Runs-last i is)

-- The timer that is kept runs.
abbrev pub KeptRuns : Option ℕ → List ℕ → Type 0
KeptRuns none timers = Unit
KeptRuns (some i) timers = Runs i timers

abbrev pub IsKept : Option ℕ → Type 0
IsKept none = ⊥
IsKept (some i) = Unit

pub record IsPolled (l : Live) : Type 0 where
  pub kept : KeptRuns l.kept l.timers
  pub polls : l.session.simulation_status.status ≡ is_running → IsKept l.kept ⊎ IsAsked l.awaiting

pub begin_query-IsPolled : (k : Then) (l : Live) → IsPolled (begin_query k l)
unfolding begin_query
begin_query-IsPolled k l = record { kept = tt; polls = λ h. inr (IsAsked-last k l.awaiting) }

pub ask-IsPolled : (a : Await) (l : Live) → IsPolled l → IsPolled (ask a l)
ask-IsPolled a l p = record {
  kept = p.kept;
  polls =
      λ h. elim (p.polls h) [ inl k ↦ inl k | inr q ↦ inr (IsAsked-append l.awaiting (a ∷ []) q) ];
}

-- A change of the session that leaves its status.
pub session-IsPolled :
    (s : Session) (l : Live)
    → s.simulation_status ≡ l.session.simulation_status
    → IsPolled l
    → IsPolled (record l { session = s })
session-IsPolled s l e p = record {
  kept = p.kept;
  polls = λ h. p.polls (sym (ap (λ x. x.status) e) ∙ h);
}

pub set_time_cursor-status :
    (t : TimePoint) (s : Session)
    → ((set_time_cursor t s).1).simulation_status ≡ s.simulation_status
unfolding set_time_cursor
set_time_cursor-status t s = ground arith

pub move_to-status :
    (x : ProtoSample) (s : Session) → ((move_to x s).1).simulation_status ≡ s.simulation_status
unfolding move_to
move_to-status x s = moved (from_cxxrtl x.time)
  where
    moved :
        (r : Result TimePoint)
        → ((continue {B = Unit {0}} (r, s) set_time_cursor).1).simulation_status
          ≡ s.simulation_status
    moved (ok t) = set_time_cursor-status t s
    moved (throw e) = refl

pub reach-status :
    (t : Option TimePoint) (s : Session) → ((reach t s).1).simulation_status ≡ s.simulation_status
unfolding reach
reach-status none s = refl
reach-status (some t) s = go (greater_than t s.simulation_status.latest_time)
  where
    go :
        (late : Bool)
        → ((if late then (ok tt, s) else set_time_cursor t s).1).simulation_status
          ≡ s.simulation_status
    go true = refl
    go false = set_time_cursor-status t s

pub not_running :
    (new : SimulationStatus) (s : Session)
    → state_eq new.status is_running ≡ false
    → (changed_status new s).simulation_status.status ≡ is_running
    → ⊥
unfolding status_known
not_running new s off h =
    let same : new.status ≡ is_running = sym (status_known-Known new s).status ∙ h in cc
