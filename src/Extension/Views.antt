-- ===== src/Extension/Views.antt =====
-- What the editor shows follows the debugger: the listeners of src/ui/sidebar.ts and src/ui/status.ts on
-- the sessions that src/debugger.ts begins and ends, and the status bar's listeners on each of these
-- sessions, which are never disposed. A new session has no epochs, and its cursor is zero; its root
-- scope, which is fetched later, is left aside.
pub mod Shown
pub mod Listened
use rtl_debugger.Common.{
  ℕ, ◌≡◌, refl, ap, sym, ◌∙◌, ◌⊎◌, inl, inr, Bool, true, false, ◌||◌, List, [], ◌∷◌, ◌++◌, Option,
  none, some, ◌==◌, ==_iff, Bool-cases, if◌then◌else◌,
}
use mathlib.Core.Path.{subst}
use rtl_debugger.Common.Text.{Text, codes}
use rtl_debugger.Time.{zero_time, to_text}
use rtl_debugger.Session.{Session, RunState, is_running, is_paused, is_finished, new_session}
use rtl_debugger.Observer.{Observer}
use rtl_debugger.Debugger.{
  Debugger, new_debugger, Notice, session_changed, session_status_changed,
  simulation_status_changed, message,
}
use rtl_debugger.Debugger.Steps.{Reach, last_session}
use rtl_debugger.Debugger.Told.{Reach-IsKnown}
use rtl_debugger.Sidebar.Provider.{Provider, new_provider, session_begun, session_ended}
use rtl_debugger.Status
use rtl_debugger.Status.{StatusBarItem, new_status_bar_item}

-- What the listeners are called with: a notice of the debugger, or a change of the status or the cursor
-- of a session, by its number, with what the session then is.
pub data Change : Type 0 where
  debugger_tells : Notice → Change
  session_tells : ℕ → Session → Change

-- `listened` are the sessions that the status bar listens to.
pub record Views (S : Type 0) : Type 0 where
  pub sidebar : Provider S
  pub status_bar : StatusBarItem
  pub listened : List ℕ

pub is_among : ℕ → List ℕ → Bool
is_among id [] = false
is_among id (j ∷ js) = (id == j) || is_among id js

-- The notices among the changes.
abbrev pub notices : List Change → List Notice
notices [] = []
notices (debugger_tells n ∷ cs) = n ∷ notices cs
notices (session_tells id s ∷ cs) = notices cs

-- Only the session that was told last changes.
abbrev pub Current : Option ℕ → List Change → Type 0
Current x [] = Unit
Current x (debugger_tells (session_changed y) ∷ cs) = Current y cs
Current x (debugger_tells (session_status_changed y) ∷ cs) = Current x cs
Current x (debugger_tells (simulation_status_changed y) ∷ cs) = Current x cs
Current x (debugger_tells (message m) ∷ cs) = Current x cs
Current x (session_tells id s ∷ cs) = (x ≡ some id) × Current x cs

-- What the last session was told to be.
abbrev pub last_known : Session → List Change → Session
last_known s [] = s
last_known s (debugger_tells (session_changed y) ∷ cs) = last_known new_session cs
last_known s (debugger_tells (session_status_changed y) ∷ cs) = last_known s cs
last_known s (debugger_tells (simulation_status_changed y) ∷ cs) = last_known s cs
last_known s (debugger_tells (message m) ∷ cs) = last_known s cs
last_known s (session_tells id t ∷ cs) = last_known t cs

-- The debugger told of a session.
abbrev pub Begun : ℕ → List Change → Type 0
Begun id [] = ⊥
Begun id (debugger_tells (session_changed none) ∷ cs) = Begun id cs
Begun id (debugger_tells (session_changed (some j)) ∷ cs) = (id ≡ j) ⊎ Begun id cs
Begun id (debugger_tells (session_status_changed y) ∷ cs) = Begun id cs
Begun id (debugger_tells (simulation_status_changed y) ∷ cs) = Begun id cs
Begun id (debugger_tells (message m) ∷ cs) = Begun id cs
Begun id (session_tells j s ∷ cs) = Begun id cs

-- The word for a state of the simulation.
abbrev pub state_word : RunState → Text
state_word is_running = codes "Running"
state_word is_paused = codes "Paused"
state_word is_finished = codes "Finished"

-- Behind an icon, the text has the session's cursor and the latest time; the tooltip has its status.
abbrev pub Displays : Session → StatusBarItem → Type 0
Displays s item =
    let latest = to_text s.simulation_status.latest_time in
    ((icon : Text) × (item.text ≡ icon ++ (to_text s.time_cursor ++ (codes " / " ++ latest))))
    × (item.tooltip ≡ codes "RTL Debugger: " ++ state_word s.simulation_status.status)

state_tooltip-state_word :
    (x : RunState) → Status.state_tooltip x ≡ codes "RTL Debugger: " ++ state_word x
state_tooltip-state_word is_running = refl
state_tooltip-state_word is_paused = refl
state_tooltip-state_word is_finished = refl

pub update-Displays :
    (s : Session) (item : StatusBarItem) → Displays s (Status.update (some s) item)
unfolding Status.update
update-Displays s item =
    let status = s.simulation_status.status in
    ((Status.state_icon status, refl), state_tooltip-state_word status)

module _ (S : Type 0) where
  abbrev pub new_views : Views S
  new_views = record { sidebar = new_provider; status_bar = new_status_bar_item; listened = [] }

  -- Both listeners of one change of the session.
  pub session_follows : Option ℕ → Views S → Views S
  session_follows none v = record v {
    sidebar = session_ended v.sidebar;
    status_bar = Status.update none v.status_bar;
  }
  session_follows (some id) v = record {
    sidebar = session_begun id [] 0 zero_time v.sidebar;
    status_bar = Status.update (some new_session) v.status_bar;
    listened = id ∷ v.listened;
  }

  -- The listeners on the sessions themselves.
  pub session_hears : ℕ → Session → Views S → Views S
  unfolding is_among
  session_hears id s v =
      if is_among id v.listened
      then record v { status_bar = Status.update (some s) v.status_bar }
      else v

  pub follow : List Change → Views S → Views S
  unfolding session_follows session_hears
  follow [] v = v
  follow (debugger_tells (session_changed s) ∷ cs) v = follow cs (session_follows s v)
  follow (debugger_tells (session_status_changed x) ∷ cs) v = follow cs v
  follow (debugger_tells (simulation_status_changed x) ∷ cs) v = follow cs v
  follow (debugger_tells (message m) ∷ cs) v = follow cs v
  follow (session_tells id s ∷ cs) v = follow cs (session_hears id s v)

  -- A session is shown exactly if there is one, by what it was last told to be.
  abbrev pub Shows : Option ℕ → Session → Views S → Type 0
  Shows none s v =
      (v.sidebar.session ≡ none)
      × (v.sidebar.observer ≡ none)
      × (v.sidebar.watch_root ≡ false)
      × (v.status_bar.is_shown ≡ false)
  Shows (some id) s v =
      (v.sidebar.session ≡ some id)
      × ((o : Observer) × (v.sidebar.observer ≡ some o))
      × (v.sidebar.watch_root ≡ true)
      × (v.status_bar.is_shown ≡ true)
      × Displays s v.status_bar

  -- The status bar listens to the session that is shown.
  abbrev pub Listens : Option ℕ → Views S → Type 0
  Listens none v = Unit
  Listens (some id) v = is_among id v.listened ≡ true

  pub is_among-head : (id : ℕ) (js : List ℕ) → is_among id (id ∷ js) ≡ true
  unfolding is_among
  is_among-head id js = rw ((==_iff id id).1 refl) refl

  pub session_follows-Listens : (x : Option ℕ) (v : Views S) → Listens x (session_follows x v)
  unfolding session_follows
  session_follows-Listens none v = tt
  session_follows-Listens (some id) v = is_among-head id v.listened

  session_hears-listened :
      (id : ℕ) (t : Session) (v : Views S) → (session_hears id t v).listened ≡ v.listened
  unfolding session_hears
  session_hears-listened id t v = elim (Bool-cases (is_among id v.listened)) [
    | inl e ↦ rw e refl
    | inr e ↦ rw e refl
  ]

  pub session_hears-Listens :
      (id j : ℕ) (t : Session) (v : Views S)
      → is_among j v.listened ≡ true
      → is_among j (session_hears id t v).listened ≡ true
  session_hears-Listens id j t v l = ap (is_among j) (session_hears-listened id t v) ∙ l
