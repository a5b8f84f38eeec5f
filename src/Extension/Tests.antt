-- ===== src/Extension/Tests.antt =====
-- Commands on a session at its start, and on the stored options.
use rtl_debugger.Common.{◌≡◌, refl, sym, inl, ◌++◌, List, [], ◌∷◌, none, some, ok, true, false}
use rtl_debugger.Common.Int.{pos}
use rtl_debugger.Common.Text.{codes}
use rtl_debugger.Variable.{Variable, scalar_variable, cxxrtl_identifier}
use rtl_debugger.Styling.{Radix, binary, hexadecimal}
use rtl_debugger.Time.{TimePoint, zero_time, from_text, to_text}
use rtl_debugger.Session.{Session, new_session, is_running, is_paused}
use rtl_debugger.Status.{validate_input, update, new_status_bar_item}
use rtl_debugger.Observer.Tests.{counter}
use rtl_debugger.Extension.{go_to_time}
use rtl_debugger.Extension.Times.{Goes, go_to_time-Goes}
use rtl_debugger.Debugger.Steps.{later, stops}
use rtl_debugger.Debugger.Tests.{joined, joined-Reach, joined_told}
use rtl_debugger.Extension.Views.{Change, debugger_tells, session_tells, Shows, follow, new_views}
use rtl_debugger.Extension.Views.Shown.{Reach-Shows}
use rtl_debugger.Extension.Views.Listened.{follow-shown}
use rtl_debugger.Session.Live.{new_live}
use rtl_debugger.Debugger.{
  new_debugger, stop_session, starting, running, session_changed, session_status_changed,
  simulation_status_changed, message, connected_to_server,
}
use rtl_debugger.Extension.Commands
use rtl_debugger.Extension.Commands.{
  Program, NeedsSession, goes_to, cursor_prompt, entered, Responds, set_contexts,
  NeedsSession-Responds,
}
use rtl_debugger.Extension.Stored.{radix_of, set_radices, chosen, set_radices-chosen}

accepted : validate_input (codes "10 ms") ≡ ok true
unfolding validate_input from_text
accepted = refl

refused : validate_input (codes "10 minutes") ≡ ok false
unfolding validate_input from_text
refused = refl

go_to_time-Goes_example :
    (p : TimePoint) × (from_text (codes "10 ms") ≡ ok p)
    × Goes new_session p (go_to_time (some (codes "10 ms")) new_session)
go_to_time-Goes_example = go_to_time-Goes (codes "10 ms") new_session accepted

abbrev commands : List (Radix × Variable)
commands = (binary, scalar_variable counter) ∷ (hexadecimal, scalar_variable counter) ∷ []

set_radices-chosen_example :
    radix_of (set_radices commands none) (codes "top counter")
    ≡ chosen commands (radix_of none) (codes "top counter")
set_radices-chosen_example = set_radices-chosen commands none (codes "top counter")

last_one : chosen commands (radix_of none) (codes "top counter") ≡ some hexadecimal
unfolding cxxrtl_identifier
last_one = refl

shown_at_start :
    (update (some new_session) new_status_bar_item).text ≡ codes "$(debug-continue) 0s / 0s"
unfolding update to_text
shown_at_start = refl

-- The session runs on, and its listeners are called.
abbrev later_on : Session
later_on = record new_session {
  simulation_status = record {
    status = is_running;
    latest_time = record { raw = pos 5 };
    next_sample_time = none;
  };
}

abbrev changes : List Change
changes =
    debugger_tells (session_status_changed starting)
    ∷ debugger_tells (message connected_to_server)
    ∷ debugger_tells (session_status_changed running)
    ∷ debugger_tells (session_changed (some 1))
    ∷ session_tells 1 later_on
    ∷ debugger_tells (simulation_status_changed is_paused)
    ∷ []

Reach-Shows_example :
    Shows (Unit {0}) joined.session later_on (follow (Unit {0}) changes (new_views (Unit {0})))
Reach-Shows_example = Reach-Shows (Unit {0}) changes joined-Reach (sym joined_told) (refl, tt)

abbrev stopped : List Change
stopped = changes ++ debugger_tells (session_changed none) ∷ []

shown_again :
    ((follow
        (Unit {0})
        (stopped ++ session_tells 1 new_session ∷ [])
        (new_views (Unit {0}))).status_bar.is_shown
      ≡ true)
    × ((follow
          (Unit {0})
          (stopped ++ session_tells 1 new_session ∷ [])
          (new_views (Unit {0}))).sidebar
        ≡ (follow (Unit {0}) stopped (new_views (Unit {0}))).sidebar)
shown_again = follow-shown (Unit {0}) 1 new_session stopped (inl refl)

-- The prompt for a time is behind, and the session was stopped meanwhile, or not.
abbrev in_one_session : Program
in_one_session = record {
  debugger = joined;
  sessions = λ n. new_live;
  prompts = cursor_prompt ∷ [];
  not_yet = [];
}

abbrev stopped_meanwhile : Program
stopped_meanwhile = record in_one_session { debugger = stop_session joined }

asked_for : NeedsSession (entered cursor_prompt (some zero_time))
asked_for = goes_to zero_time refl

NeedsSession-Responds_example :
    Responds
      (Commands.follow joined.told (set_contexts new_debugger)).session_status
      (entered cursor_prompt (some zero_time) in_one_session).0
NeedsSession-Responds_example = NeedsSession-Responds in_one_session joined-Reach asked_for

-- Such a command throws where the session was stopped meanwhile.
throws_meanwhile :
    Responds
      (Commands.follow (stop_session joined).told (set_contexts new_debugger)).session_status
      (entered cursor_prompt (some zero_time) stopped_meanwhile).0
throws_meanwhile = NeedsSession-Responds stopped_meanwhile (later joined-Reach stops) asked_for
