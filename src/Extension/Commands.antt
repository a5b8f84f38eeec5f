-- ===== src/Extension/Commands.antt =====
-- src/extension.ts: the commands that the extension registers for the debugger and its session, and
-- the contexts that the editor is told. A command with a prompt goes on behind it. The promise that a
-- session's call returns is not awaited: what it does later, also a rejection, is the session's.
use rtl_debugger.Common.{
  ℕ, ◌≡◌, ◌≢◌, refl, sym, ap, ◌∙◌, inl, inr, false, List, [], ◌∷◌, ◌++◌, Option, none, some, ◌==◌,
  if◌then◌else◌, Bool-cases, Result, ok, throw, type_error,
}
use rtl_debugger.Common.Text.{Text}
use rtl_debugger.Time.{TimePoint, less_than, zero_time}
use rtl_debugger.Session.{RunState, is_running, state_eq, set_time_cursor}
use rtl_debugger.Session.Live
use rtl_debugger.Session.Live.{Live}
use rtl_debugger.Debugger
use rtl_debugger.Debugger.{
  Debugger, SessionStatus, absent, starting, running, new_debugger, Notice, session_changed,
  session_status_changed, simulation_status_changed, message,
}
use rtl_debugger.Debugger.Steps.{Reach, last_status, last_simulation}
use rtl_debugger.Debugger.Told.{Reach-IsKnown}
use rtl_debugger.Debugger.Running.{Reach-running}
use rtl_debugger.Debugger.Absent.{Reach-absent}

pub data Command : Type 0 where
  start_session : List Text → Command
  stop_session run_simulation pause_simulation run_pause_simulation run_simulation_until : Command
  step_backward step_forward go_to_time : Command

-- What the user is asked for a time for.
pub data Prompt : Type 0 where
  until_prompt cursor_prompt : Prompt

-- The debugger, the sessions by the numbers that it names them with, the prompts that were opened,
-- and the times that the user was shown the simulation has not advanced to.
pub record Program : Type 0 where
  pub debugger : Debugger
  pub sessions : ℕ → Live
  pub prompts : List Prompt
  pub not_yet : List TimePoint

abbrev pub Executed : Type 0
Executed = Result (Unit {0}) × Program

-- `rtlDebugger.session!` is null without a session.
abbrev pub in_session : (ℕ → Live → Executed) → Option ℕ → Program → Executed
in_session f none p = (throw type_error, p)
in_session f (some id) p = f id (p.sessions id)

-- A session, by its number, is left as it then is.
abbrev pub leave : Program → Result (Unit {0}) → ℕ → Live → Executed
leave p r id l = (r, record p { sessions = λ n. if n == id then l else p.sessions n })

abbrev pub calls : (Live → Live) → Program → Executed
calls f p = in_session (λ id l. leave p (ok tt) id (f l)) p.debugger.session p

abbrev pub with_debugger : Debugger → Program → Executed
with_debugger d p = (ok tt, record p { debugger = d })

-- `inputTime` is called, and awaited.
abbrev pub asks : Prompt → Program → Executed
asks x p = (ok tt, record p { prompts = p.prompts ++ x ∷ [] })

-- Whether it runs, the session is paused or run.
unfoldable pub run_or_pause : Live → Live
run_or_pause l =
    if state_eq l.session.simulation_status.status is_running
    then Live.pause_simulation l
    else Live.run_simulation none l

pub execute : Command → Program → Executed
unfolding run_or_pause
execute (start_session command) p = with_debugger (Debugger.start_session command p.debugger) p
execute stop_session p = with_debugger (Debugger.stop_session p.debugger) p
execute run_simulation p = calls (Live.run_simulation none) p
execute pause_simulation p = calls Live.pause_simulation p
execute run_pause_simulation p = calls run_or_pause p
execute run_simulation_until p = asks until_prompt p
execute step_backward p = calls Live.step_backward p
execute step_forward p = calls Live.step_forward p
execute go_to_time p = asks cursor_prompt p

-- A time that the session has advanced to, or not.
unfoldable pub went : TimePoint → Program → ℕ → Live → Executed
went t p id l =
    if less_than l.session.simulation_status.latest_time t
    then (ok tt, record p { not_yet = p.not_yet ++ t ∷ [] })
    else leave p ((set_time_cursor t l.session).0) id (Live.set_cursor t l)

-- Behind the prompt: the time that was entered, or none.
pub entered : Prompt → Option TimePoint → Program → Executed
unfolding went
entered x none p = (ok tt, p)
entered until_prompt (some t) p = calls (Live.run_simulation (some t)) p
entered cursor_prompt (some t) p = in_session (went t p) p.debugger.session p

-- `rtlDebugger.sessionStatus` and `rtlDebugger.simulationStatus`.
pub record Contexts : Type 0 where
  pub session_status : SessionStatus
  pub simulation_status : RunState

-- On activation the contexts are set, and then as the listeners are told.
abbrev pub set_contexts : Debugger → Contexts
set_contexts d = record {
  session_status = d.session_status;
  simulation_status = d.simulation_status;
}

pub follow : List Notice → Contexts → Contexts
follow [] c = c
follow (session_changed s ∷ ns) c = follow ns c
follow (session_status_changed x ∷ ns) c = follow ns (record c { session_status = x })
follow (simulation_status_changed x ∷ ns) c = follow ns (record c { simulation_status = x })
follow (message m ∷ ns) c = follow ns c

follow_lem :
    (ns : List Notice) (c : Contexts)
    → (((follow ns c).session_status) ≡ last_status c.session_status ns)
      × (((follow ns c).simulation_status) ≡ last_simulation c.simulation_status ns)
unfolding follow
follow_lem [] c = (refl, refl)
follow_lem (session_changed s ∷ ns) c = follow_lem ns c
follow_lem (session_status_changed x ∷ ns) c = follow_lem ns (record c { session_status = x })
follow_lem (simulation_status_changed x ∷ ns) c = follow_lem ns (record c { simulation_status = x })
follow_lem (message m ∷ ns) c = follow_lem ns c

-- The contexts are the debugger's statuses.
Reach-contexts :
    {d : Debugger}
    → Reach new_debugger d
    → follow d.told (set_contexts new_debugger) ≡ set_contexts d
unfolding new_debugger
Reach-contexts {d} r =
    let known = Reach-IsKnown r in
    let (x, y) = follow_lem d.told (set_contexts new_debugger) in
    let told = follow d.told (set_contexts new_debugger) in
    ap (λ z. record { session_status = z; simulation_status = told.simulation_status })
      (x ∙ known.status)
    ∙ ap (λ z. record { session_status = d.session_status; simulation_status = z })
        (y ∙ known.simulation)

-- A command, or the rest of one behind its prompt, that needs a session at once.
pub data NeedsSession : (Program → Executed) → Type 0 where
  command_runs : NeedsSession (execute run_simulation)
  command_pauses : NeedsSession (execute pause_simulation)
  command_runs_or_pauses : NeedsSession (execute run_pause_simulation)
  command_steps_backward : NeedsSession (execute step_backward)
  command_steps_forward : NeedsSession (execute step_forward)
  runs_until : (t : TimePoint) → NeedsSession (entered until_prompt (some t))
  goes_to :
      (t : TimePoint)
      → less_than t zero_time ≡ false
      → NeedsSession (entered cursor_prompt (some t))

-- What is thrown, by whether there is a session.
abbrev Throws : Option ℕ → Result (Unit {0}) → Type 0
Throws none r = r ≡ throw type_error
Throws (some id) r = r ≡ ok tt

in_session-Throws :
    (f : ℕ → Live → Executed) (s : Option ℕ) (p : Program)
    → ((id : ℕ) (l : Live) → (f id l).0 ≡ ok tt)
    → Throws s (in_session f s p).0
in_session-Throws f none p h = refl
in_session-Throws f (some id) p h = h id (p.sessions id)

went-ok :
    (t : TimePoint) (p : Program) (id : ℕ) (l : Live)
    → less_than t zero_time ≡ false
    → (went t p id l).0 ≡ ok tt
unfolding went set_time_cursor
went-ok t p id l h = elim (Bool-cases (less_than l.session.simulation_status.latest_time t)) [
  | inl later ↦ rw later refl
  | inr reached ↦ rw (reached, h) refl
]

calls-Throws : (f : Live → Live) (p : Program) → Throws p.debugger.session (calls f p).0
calls-Throws f p =
    in_session-Throws (λ id l. leave p (ok tt) id (f l)) p.debugger.session p λ id l. refl

NeedsSession-Throws :
    {f : Program → Executed} (p : Program) → NeedsSession f → Throws p.debugger.session (f p).0
unfolding execute entered
NeedsSession-Throws p command_runs = calls-Throws (Live.run_simulation none) p
NeedsSession-Throws p command_pauses = calls-Throws Live.pause_simulation p
NeedsSession-Throws p command_runs_or_pauses = calls-Throws run_or_pause p
NeedsSession-Throws p command_steps_backward = calls-Throws Live.step_backward p
NeedsSession-Throws p command_steps_forward = calls-Throws Live.step_forward p
NeedsSession-Throws p (runs_until t) = calls-Throws (Live.run_simulation (some t)) p
NeedsSession-Throws p (goes_to t h) =
    in_session-Throws (went t p) p.debugger.session p λ id l. went-ok t p id l h

Throws-ok : (s : Option ℕ) (r : Result (Unit {0})) → s ≢ none → Throws s r → r ≡ ok tt
Throws-ok none r h e = absurd (h refl)
Throws-ok (some id) r h e = e

Throws-none : (s : Option ℕ) (r : Result (Unit {0})) → s ≡ none → Throws s r → r ≡ throw type_error
Throws-none none r h e = e
Throws-none (some id) r h e = cc

-- What a command throws, by the session's status that the editor was told last.
abbrev pub Responds : SessionStatus → Result (Unit {0}) → Type 0
Responds running r = r ≡ ok tt
Responds absent r = r ≡ throw type_error
Responds starting r = Unit

by_status :
    (x : SessionStatus) (d : Debugger) (r : Result (Unit {0}))
    → Reach new_debugger d
    → d.session_status ≡ x
    → Throws d.session r
    → Responds x r
by_status running d r reached e h = Throws-ok d.session r (Reach-running reached e) h
by_status absent d r reached e h = Throws-none d.session r (Reach-absent reached e) h
by_status starting d r reached e h = tt

-- In every state that a new debugger comes to: if the editor was told last that the session's status is
-- running, a command that needs a session does not throw when it is called, nor does the rest of one
-- behind its prompt, with a time that is not before zero; if it was told last, or at first, that the
-- status is absent, each of them throws a TypeError.
pub NeedsSession-Responds :
    {f : Program → Executed} (p : Program)
    → Reach new_debugger p.debugger
    → NeedsSession f
    → Responds (follow p.debugger.told (set_contexts new_debugger)).session_status (f p).0
NeedsSession-Responds {f} p reached n =
    by_status (follow p.debugger.told (set_contexts new_debugger)).session_status p.debugger (f p).0
      reached (sym (ap (λ c. c.session_status) (Reach-contexts reached))) (NeedsSession-Throws p n)
