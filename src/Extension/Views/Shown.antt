-- ===== src/Extension/Views/Shown.antt =====
-- The sidebar and the status bar show the debugger's session (src/ui/sidebar.ts, src/ui/status.ts).
use rtl_debugger.Common.{ℕ, ◌≡◌, refl, ap, ◌∙◌, true, List, [], ◌∷◌, Option, none, some}
use mathlib.Core.Path.{subst}
use rtl_debugger.Session.{Session, new_session}
use rtl_debugger.Debugger.{
  Debugger, new_debugger, session_changed, session_status_changed, simulation_status_changed,
  message,
}
use rtl_debugger.Debugger.Steps.{Reach, last_session}
use rtl_debugger.Debugger.Told.{Reach-IsKnown}
use rtl_debugger.Sidebar.Provider.{new_provider, session_begun, session_ended}
use rtl_debugger.Status
use rtl_debugger.Status.{StatusBarItem, new_status_bar_item}
use rtl_debugger.Extension.Views.{
  Change, update-Displays, debugger_tells, session_tells, Views, is_among, notices, Current,
  last_known, new_views, session_follows, session_hears, follow, Shows, Listens,
  session_follows-Listens, session_hears-Listens,
}

module _ (S : Type 0) where
  session_follows-Shows :
      (x : Option ℕ) (v : Views S) → Shows S x new_session (session_follows S x v)
  unfolding session_follows session_begun session_ended Status.update
  session_follows-Shows none v = (refl, refl, refl, refl)
  session_follows-Shows (some id) v =
      (refl, (_, refl), refl, refl, update-Displays new_session v.status_bar)

  session_hears-Shows :
      (id : ℕ) (s t : Session) (v : Views S)
      → is_among id v.listened ≡ true
      → Shows S (some id) s v
      → Shows S (some id) t (session_hears S id t v)
  unfolding session_hears Status.update
  session_hears-Shows id s t v l (a, b, c, d, e) =
      rw l (a, b, c, refl, update-Displays t v.status_bar)

  follow-Shows :
      (cs : List Change) (x : Option ℕ) (s : Session) (v : Views S)
      → Current x cs
      → Shows S x s v
      → Listens S x v
      → Shows S (last_session x (notices cs)) (last_known s cs) (follow S cs v)
  unfolding follow
  follow-Shows [] x s v c h l = h
  follow-Shows (debugger_tells (session_changed y) ∷ cs) x s v c h l =
      follow-Shows cs y new_session (session_follows S y v) c (session_follows-Shows y v)
        (session_follows-Listens S y v)
  follow-Shows (debugger_tells (session_status_changed y) ∷ cs) x s v c h l =
      follow-Shows cs x s v c h l
  follow-Shows (debugger_tells (simulation_status_changed y) ∷ cs) x s v c h l =
      follow-Shows cs x s v c h l
  follow-Shows (debugger_tells (message m) ∷ cs) x s v c h l = follow-Shows cs x s v c h l
  follow-Shows (session_tells id t ∷ cs) none s v (e, c) h l = cc
  follow-Shows (session_tells id t ∷ cs) (some j) s v (e, c) h l =
      let same : j ≡ id = cc in
      follow-Shows cs (some j) t (session_hears S id t v) c
        (rw (← same) (session_hears-Shows j s t v l h)) (session_hears-Listens S id j t v l)

  new_views-Shows : Shows S none new_session (new_views S)
  unfolding new_provider
  new_views-Shows = (refl, refl, refl, refl)

  -- In every state that a new debugger comes to, the sidebar and the status bar that followed what it
  -- told, and the changes of its sessions in between, show its session, if only the session that was
  -- told last changes: if there is none, the sidebar has no session, no observer and no watch list,
  -- and the status bar is hidden; if there is one, the sidebar has that session, an observer and the
  -- watch list, and the status bar is shown, with the cursor and the latest time in its text and the
  -- status in its tooltip, as the session was last told to have them.
  pub Reach-Shows :
      {d : Debugger} (cs : List Change)
      → Reach new_debugger d
      → notices cs ≡ d.told
      → Current none cs
      → Shows S d.session (last_known new_session cs) (follow S cs (new_views S))
  Reach-Shows {d} cs r told current =
      subst (λ x. Shows S x (last_known new_session cs) (follow S cs (new_views S)))
        (ap (last_session none) told ∙ (Reach-IsKnown r).session)
        (follow-Shows cs none new_session (new_views S) current new_views-Shows tt)
