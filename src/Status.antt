-- ===== src/Status.antt =====
-- src/ui/status.ts and src/ui/input.ts: the status bar's item, and the asking for a time. The editor
-- shows the item and asks for the text.
use rtl_debugger.Common.{
  Bool, true, false, [], ◌++◌, Option, none, some, syntax_error, Result, ok, throw,
}
use rtl_debugger.Common.Text.{Text, codes}
use rtl_debugger.Time.{TimePoint, to_text, from_text}
use rtl_debugger.Session.{Session, RunState, is_running, is_paused, is_finished}

pub record StatusBarItem : Type 0 where
  pub is_shown : Bool
  pub text : Text
  pub tooltip : Text

abbrev pub new_status_bar_item : StatusBarItem
new_status_bar_item = record { is_shown = false; text = []; tooltip = codes "RTL Debugger Status" }

abbrev pub state_icon : RunState → Text
state_icon is_running = codes "$(debug-pause) "
state_icon is_paused = codes "$(debug-continue) "
state_icon is_finished = []

abbrev pub state_tooltip : RunState → Text
state_tooltip is_running = codes "RTL Debugger: Running"
state_tooltip is_paused = codes "RTL Debugger: Paused"
state_tooltip is_finished = codes "RTL Debugger: Finished"

-- `update`, at a session's begin and end, and at each change of its status and cursor.
unfoldable pub update : Option Session → StatusBarItem → StatusBarItem
update none item = record item { is_shown = false }
update (some s) item =
    let status = s.simulation_status in
    record {
      is_shown = true;
      text =
          state_icon status.status
          ++ (to_text s.time_cursor ++ (codes " / " ++ to_text status.latest_time));
      tooltip = state_tooltip status.status;
    }

-- `validateInput`: whether there is no message; another exception than a SyntaxError goes on.
abbrev pub validated : Result TimePoint → Result Bool
validated (ok t) = ok true
validated (throw syntax_error) = ok false
validated (throw e) = throw e

unfoldable pub validate_input : Text → Result Bool
validate_input t = validated (from_text t)

abbrev pub map_time : Result TimePoint → Result (Option TimePoint)
map_time (ok t) = ok (some t)
map_time (throw e) = throw e

-- `inputTime`, behind the text that was entered, or none.
unfoldable pub input_time : Option Text → Result (Option TimePoint)
input_time none = ok none
input_time (some t) = map_time (from_text t)
