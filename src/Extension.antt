-- ===== src/Extension.antt =====
-- src/extension.ts: what the commands do. A command that needs a session is given one; without
-- one the code throws a TypeError. The text that is entered for a time is an argument; a promise that a command does not await is
-- not followed further than its result.
pub mod Times
pub mod Stored
pub mod Views
pub mod Commands
mod Tests
use rtl_debugger.Common.{
  ℕ, Bool, List, [], ◌∷◌, ◌++◌, Option, none, some, if◌then◌else◌, Result, ok, throw, type_error,
}
use rtl_debugger.Common.Int.{ℤ, pos}
use rtl_debugger.Common.Text.{Text, codes}
use rtl_debugger.Time.{TimePoint, less_than}
use rtl_debugger.Variable.{Variable, cxxrtl_identifier}
use rtl_debugger.Styling.{Radix}
use rtl_debugger.Options
use rtl_debugger.Options.{update_options}
use rtl_debugger.Watch
use rtl_debugger.Watch.{WatchItem, append_item, remove_item}
use rtl_debugger.Session.{
  Session, Server, Outcome, Code, is_running, state_eq, run_simulation, pause_simulation,
  set_time_cursor,
}
use rtl_debugger.Sidebar.{TreeItem, Listed, get_watch_item}
use rtl_debugger.Status.{input_time}

-- What a command did to the session, and whether the user was shown that the time is not reached yet.
pub record Done : Type 0 where
  pub outcome : Result (Unit {0})
  pub session : Session
  pub not_yet : Option TimePoint

abbrev of_outcome : Outcome (Unit {0}) → Done
of_outcome (r, s) = record { outcome = r; session = s; not_yet = none }

pub is_simulation_running : Session → Bool
is_simulation_running s = state_eq s.simulation_status.status is_running

module _ (server : Server) where
  pub run_pause_simulation : Session → Outcome (Unit {0})
  run_pause_simulation s =
      if is_simulation_running s then pause_simulation server s else run_simulation server none s

  abbrev run_until : Result (Option TimePoint) → Session → Outcome (Unit {0})
  run_until (throw e) s = (throw e, s)
  run_until (ok none) s = (ok tt, s)
  run_until (ok (some t)) s = run_simulation server (some t) s

  pub run_simulation_until : Option Text → Session → Outcome (Unit {0})
  unfolding input_time
  run_simulation_until entered s = run_until (input_time entered) s

abbrev pub go_to : Result (Option TimePoint) → Session → Done
go_to (throw e) s = record { outcome = throw e; session = s; not_yet = none }
go_to (ok none) s = record { outcome = ok tt; session = s; not_yet = none }
go_to (ok (some t)) s =
    if less_than s.simulation_status.latest_time t
    then record { outcome = ok tt; session = s; not_yet = some t }
    else of_outcome (set_time_cursor t s)

pub go_to_time : Option Text → Session → Done
unfolding input_time
go_to_time entered s = go_to (input_time entered) s

-- `setRadix.2`, `.8`, `.10` and `.16`, of an item of a variable.
unfoldable pub set_radix : Radix → Variable → Options.Configuration → Options.Configuration
set_radix radix v options =
    update_options (cxxrtl_identifier v) (record { radix = some radix }) options

-- `watchVariable`, of an item that has a watch item; `unWatchVariable`, of one that the list shows.
abbrev pub watch : Option WatchItem → Watch.Configuration → Result Watch.Configuration
watch none c = throw type_error
watch (some w) c = ok (append_item w c)

pub watch_variable : {S : Type 0} → TreeItem S → Watch.Configuration → Result Watch.Configuration
watch_variable t c = watch (get_watch_item t) c

pub unwatch_variable : {S : Type 0} → Listed S → Watch.Configuration → Watch.Configuration
unwatch_variable l c = remove_item (pos l.index) c
