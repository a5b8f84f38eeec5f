-- ===== src/Observer/Ends.antt =====
-- The loop of `refresh` (src/debug/observer.ts) ends.
use rtl_debugger.Common.{
  ℕ, ◌≡◌, refl, sym, Bool, true, false, if◌then◌else◌, List, ◌∷◌, Option, none, some, ok,
}
use mathlib.Core.Path.{subst}
use rtl_debugger.Common.Text.{Text}
use rtl_debugger.Time.{TimePoint}
use rtl_debugger.Sample.{Extracted, Reference, Sample, new_reference, all_handles}
use rtl_debugger.Sample.Layout.{add_all-Added}
use rtl_debugger.Session.Database.{Epochs}
use rtl_debugger.Observer.{
  Observer, Observable, Call, idle, awaiting, designations, new_observer, begin_round, ask_with,
  ask_for, ask, resume, resumed, go_on, deliver_all,
}
use rtl_debugger.Observer.Values.{Truth}
use rtl_debugger.Observer.Steps.{Reach, later, replies, IsTrue}
use rtl_debugger.Observer.Ready.{Waits, IsCurrent}
use rtl_debugger.Observer.Current.{Reach-IsCurrent, delivery}
use rtl_debugger.Observer.Idle.{new_observer-IsCurrent}

-- A question is asked at the cursor, and no other is needed so far.
abbrev pub Asks : Observer → TimePoint → Type 0
Asks u t = (q : Reference) × (u.refreshing ≡ awaiting q t) × (u.refresh_needed ≡ false)

begin_round-Asks : (s : Observer) → Asks (begin_round s) s.time_cursor
unfolding begin_round ask_with ask_for ask
begin_round-Asks s = with_reference s.reference
  where
    cleared : Observer
    cleared = record s { refresh_needed = false }

    with_reference : (o : Option Reference) → Asks (ask_with o cleared) s.time_cursor
    with_reference (some r) = (r, refl, refl)
    with_reference none =
        let made = add_all-Added (new_reference s.next_id) (designations s.observables) refl in
        rw made.added (_, refl, refl)

-- Where the loop goes behind a delivery: to another question if one is needed, or to its end.
abbrev pub Turns : Bool → Observer → TimePoint → Type 0
Turns true u t = Asks u t
Turns false u t = u.refreshing ≡ idle

module _ (retains : ℕ → Extracted → Bool) (truth : TimePoint → Truth) where
  go_on-Turns :
      (s : Observer) (after : List (Text × Observable)) (calls : List Call)
      → Turns s.refresh_needed (go_on retains (ok tt, after, calls) s) s.time_cursor
  unfolding go_on
  go_on-Turns s after calls = by_flag s.refresh_needed
    where
      next : Observer
      next = record s { observables = after; calls = calls }

      by_flag :
          (x : Bool)
          → Turns x
              (if x then begin_round next else record next { refreshing = idle })
              s.time_cursor
      by_flag true = begin_round-Asks next
      by_flag false = refl

  resume-Turns :
      (s : Observer) (r : Reference) (t : TimePoint) (sample : Sample) (more : List Sample)
      → IsCurrent truth s
      → s.refreshing ≡ awaiting r t
      → IsTrue truth r t sample
      → Turns s.refresh_needed (resume retains (ok (sample ∷ more)) s) s.time_cursor
  unfolding resume resumed
  resume-Turns s r t sample more h e true_sample =
      let (ds, b, present) = subst (Waits s.observables) e h.ready.waits in
      let (after, calls, ran, d) = delivery truth retains r t sample s ds b present true_sample in
      let turns : Turns s.refresh_needed
          (go_on retains
            (deliver_all retains (some sample) (all_handles r.unbound) s.observables s.calls) s)
          s.time_cursor =
        subst (λ o. Turns s.refresh_needed (go_on retains o s) s.time_cursor) (sym ran)
          (go_on-Turns s after calls) in
      subst (λ x. Turns s.refresh_needed (resumed retains x (ok (sample ∷ more)) s) s.time_cursor)
        (sym e) turns

  -- If the samples of the server are true ones, and between the replies nothing is observed and the
  -- cursor does not move, a refresh has ended behind two replies: the second is to the question that the
  -- observer asks at the cursor behind the first, if it asks one.
  pub resume_ends :
      (name : Text) (epochs : Epochs) (id : ℕ) (cursor : TimePoint) {s : Observer} (r : Reference)
      (t : TimePoint) (sample second : Sample) (more others : List Sample)
      → Reach retains truth (new_observer name epochs id cursor) s
      → s.refreshing ≡ awaiting r t
      → IsTrue truth r t sample
      → ((q : Reference)
          → (resume retains (ok (sample ∷ more)) s).refreshing ≡ awaiting q s.time_cursor
          → IsTrue truth q s.time_cursor second)
      → (resume retains (ok (second ∷ others)) (resume retains (ok (sample ∷ more)) s)).refreshing
        ≡ idle
  unfolding resume resumed
  resume_ends name epochs id cursor {s} r t sample second more others reached e true_sample
        answers =
      let fresh = new_observer-IsCurrent truth name epochs id cursor in
      ends s.refresh_needed
        (resume-Turns s r t sample more (Reach-IsCurrent truth retains fresh reached) e true_sample)
        (Reach-IsCurrent truth retains fresh
          (later reached (replies r t sample more e true_sample)))
        answers
    where
      ends :
          (x : Bool) {u : Observer}
          → Turns x u s.time_cursor
          → IsCurrent truth u
          → ((q : Reference)
              → u.refreshing ≡ awaiting q s.time_cursor
              → IsTrue truth q s.time_cursor second)
          → (resume retains (ok (second ∷ others)) u).refreshing ≡ idle
      ends false {u} h current answers =
          subst (λ x. (resumed retains x (ok (second ∷ others)) u).refreshing ≡ idle) (sym h) h
      ends true {u} (q, asked, enough) current answers =
          subst (λ x. Turns x (resume retains (ok (second ∷ others)) u) u.time_cursor) enough
            (resume-Turns u q s.time_cursor second others current asked (answers q asked))
