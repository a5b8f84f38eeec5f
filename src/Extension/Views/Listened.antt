-- ===== src/Extension/Views/Listened.antt =====
-- The listeners of the status bar on the sessions (src/ui/status.ts), which are never disposed.
use rtl_debugger.Common.{
  ℕ, ◌≡◌, refl, inl, inr, Bool, true, false, ◌||◌, List, [], ◌∷◌, ◌++◌, Option, none, some, ◌==◌,
}
use rtl_debugger.Session.{Session}
use rtl_debugger.Debugger.{
  session_changed, session_status_changed, simulation_status_changed, message,
}
use rtl_debugger.Status
use rtl_debugger.Status.{StatusBarItem, new_status_bar_item}
use rtl_debugger.Extension.Views.{
  Change, debugger_tells, session_tells, Views, is_among, Begun, new_views, session_follows,
  session_hears, follow, session_follows-Listens, session_hears-Listens,
}

or-true : (b : Bool) → (b || true) ≡ true
or-true true = refl
or-true false = refl

module _ (S : Type 0) where
  session_follows-listened :
      (id : ℕ) (x : Option ℕ) (v : Views S)
      → is_among id v.listened ≡ true
      → is_among id (session_follows S x v).listened ≡ true
  unfolding session_follows is_among
  session_follows-listened id none v l = l
  session_follows-listened id (some j) v l = rw l (or-true (id == j))

  session_follows-Begun :
      (id j : ℕ) (v : Views S) → id ≡ j → is_among id (session_follows S (some j) v).listened ≡ true
  session_follows-Begun id j v e = rw e (session_follows-Listens S (some j) v)

  -- No listener is ever disposed.
  follow-listened :
      (id : ℕ) (cs : List Change) (v : Views S)
      → is_among id v.listened ≡ true
      → is_among id (follow S cs v).listened ≡ true
  unfolding follow
  follow-listened id [] v l = l
  follow-listened id (debugger_tells (session_changed y) ∷ cs) v l =
      follow-listened id cs (session_follows S y v) (session_follows-listened id y v l)
  follow-listened id (debugger_tells (session_status_changed y) ∷ cs) v l =
      follow-listened id cs v l
  follow-listened id (debugger_tells (simulation_status_changed y) ∷ cs) v l =
      follow-listened id cs v l
  follow-listened id (debugger_tells (message m) ∷ cs) v l = follow-listened id cs v l
  follow-listened id (session_tells j t ∷ cs) v l =
      follow-listened id cs (session_hears S j t v) (session_hears-Listens S j id t v l)

  follow-Begun :
      (id : ℕ) (cs : List Change) (v : Views S)
      → Begun id cs
      → is_among id (follow S cs v).listened ≡ true
  unfolding follow
  follow-Begun id [] v b = absurd b
  follow-Begun id (debugger_tells (session_changed none) ∷ cs) v b =
      follow-Begun id cs (session_follows S none v) b
  follow-Begun id (debugger_tells (session_changed (some j)) ∷ cs) v (inl e) =
      follow-listened id cs (session_follows S (some j) v) (session_follows-Begun id j v e)
  follow-Begun id (debugger_tells (session_changed (some j)) ∷ cs) v (inr b) =
      follow-Begun id cs (session_follows S (some j) v) b
  follow-Begun id (debugger_tells (session_status_changed y) ∷ cs) v b = follow-Begun id cs v b
  follow-Begun id (debugger_tells (simulation_status_changed y) ∷ cs) v b = follow-Begun id cs v b
  follow-Begun id (debugger_tells (message m) ∷ cs) v b = follow-Begun id cs v b
  follow-Begun id (session_tells j t ∷ cs) v b = follow-Begun id cs (session_hears S j t v) b

  follow-append :
      (cs ds : List Change) (v : Views S) → follow S (cs ++ ds) v ≡ follow S ds (follow S cs v)
  unfolding follow
  follow-append [] ds v = refl
  follow-append (debugger_tells (session_changed y) ∷ cs) ds v =
      follow-append cs ds (session_follows S y v)
  follow-append (debugger_tells (session_status_changed y) ∷ cs) ds v = follow-append cs ds v
  follow-append (debugger_tells (simulation_status_changed y) ∷ cs) ds v = follow-append cs ds v
  follow-append (debugger_tells (message m) ∷ cs) ds v = follow-append cs ds v
  follow-append (session_tells j t ∷ cs) ds v = follow-append cs ds (session_hears S j t v)

  session_hears-shown :
      (id : ℕ) (s : Session) (v : Views S)
      → is_among id v.listened ≡ true
      → ((session_hears S id s v).status_bar.is_shown ≡ true)
        × ((session_hears S id s v).sidebar ≡ v.sidebar)
  unfolding session_hears Status.update
  session_hears-shown id s v l = rw l (refl, refl)

  -- The status bar goes on to listen to every session that it was told of: if such a session changes
  -- once more, the status bar is shown, also where the debugger has stopped it or begun another, or
  -- has no session at all; the sidebar stays as it is.
  pub follow-shown :
      (id : ℕ) (s : Session) (cs : List Change)
      → Begun id cs
      → ((follow S (cs ++ session_tells id s ∷ []) (new_views S)).status_bar.is_shown ≡ true)
        × ((follow S (cs ++ session_tells id s ∷ []) (new_views S)).sidebar
            ≡ (follow S cs (new_views S)).sidebar)
  unfolding follow
  follow-shown id s cs b =
      rw (follow-append cs (session_tells id s ∷ []) (new_views S))
        (session_hears-shown id s (follow S cs (new_views S)) (follow-Begun id cs (new_views S) b))
