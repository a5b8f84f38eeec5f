-- ===== src/Observer/Idle.antt =====
-- What an observer (src/debug/observer.ts) promises: values that are up to date when it is idle, one
-- question at a time, and what a failure and a second disposal of a callback do to it.
use rtl_debugger.Common.{
  ℕ, ◌≡◌, ◌≢◌, refl, ap, ◌∙◌, Bool, true, false, List, [], ◌∷◌, ◌++◌, Option, none, some,
  if◌then◌else◌, Result, ok, throw, arith,
}
use mathlib.Core.Path.{subst}
use rtl_debugger.Common.Map.{get}
use rtl_debugger.Common.Text.{Text}
use rtl_debugger.Time.{TimePoint}
use rtl_debugger.Variable.{Designation}
use rtl_debugger.Sample.{all_handles, Extracted, canonical_key, Reference, Sample}
use rtl_debugger.Sample.Reading.{extracted}
use rtl_debugger.Session.Database.{Epochs}
use rtl_debugger.Observer.{
  put_observable, new_observable, Call, deliver_all, first_sample, is_idle, Observer, Observable,
  Refreshing, idle, failed, awaiting, queried, designations, cursor_moved, observe, observe_at,
  dispose_callback, unregister_at, resume, resumed, go_on, invalidate, begin_round, ask_with, ask,
  register, unregister, query, new_observer, remove_last, remove_first, is_member,
}
use rtl_debugger.Observer.Values.{Keyed, Truth, Has}
use rtl_debugger.Observer.Steps.{
  Step, moves, observes, disposes, fails, replies, Reach, here, later,
}
use rtl_debugger.Observer.Ready.{IsCurrent, UpToDate}
use rtl_debugger.Observer.Current.{Reach-IsCurrent}

module _ (truth : TimePoint → Truth) where
  pub new_observer-IsCurrent :
      (name : Text) (epochs : Epochs) (id : ℕ) (cursor : TimePoint)
      → IsCurrent truth (new_observer name epochs id cursor)
  unfolding new_observer Keyed
  new_observer-IsCurrent name epochs id cursor = record {
    ready = record { subscribed = refl; keyed = tt; bound = λ r e. cc; waits = tt };
    fresh = (refl, λ k has. absurd has);
  }

-- Whatever the cursor, the callers and the server do, an observer that is idle gives for each part of
-- the design that is observed what the design holds at the time cursor, if each sample that the server
-- gives is a true one.
pub query-idle :
    (retains : ℕ → Extracted → Bool) (truth : TimePoint → Truth) (name : Text) (epochs : Epochs)
    (id : ℕ) (cursor : TimePoint) {s : Observer} (d : Designation)
    → Reach retains truth (new_observer name epochs id cursor) s
    → s.refreshing ≡ idle
    → Has (canonical_key d) (designations s.observables)
    → query d s ≡ some (extracted (truth s.time_cursor (canonical_key d)))
unfolding query
query-idle retains truth name epochs id cursor {s} d r e has =
    let c = Reach-IsCurrent truth retains (new_observer-IsCurrent truth name epochs id cursor) r in
    let f : UpToDate truth s idle = subst (UpToDate truth s) e c.fresh in
    let (o, found, shown) = f.1 (canonical_key d) has in rw found shown

-- Nothing is asked, and nothing called.
abbrev IsSilent : Observer → Observer → Type 0
IsSilent s t = (t.refreshing ≡ s.refreshing) × (t.effects ≡ s.effects) × (t.calls ≡ s.calls)

invalidate-IsSilent : (s : Observer) → s.refreshing ≢ idle → IsSilent s (invalidate s)
unfolding invalidate
invalidate-IsSilent s busy = by_state s.refreshing refl
  where
    by_state :
        (x : Refreshing)
        → s.refreshing ≡ x
        → IsSilent s (
            if is_idle x
            then begin_round (record s { refresh_needed = true })
            else record s { refresh_needed = true })
    by_state idle e = absurd (busy e)
    by_state failed e = (refl, refl, refl)
    by_state (awaiting r t) e = (refl, refl, refl)

cursor_moved-IsSilent :
    (t : TimePoint) (s : Observer) → s.refreshing ≢ idle → IsSilent s (cursor_moved t s)
unfolding cursor_moved
cursor_moved-IsSilent t s busy = by_flag s.subscribed
  where
    moved : Observer
    moved = record s { time_cursor = t }

    by_flag : (b : Bool) → IsSilent s (if b then invalidate moved else moved)
    by_flag true = invalidate-IsSilent moved busy
    by_flag false = (refl, refl, refl)

observe-IsSilent :
    (d : Designation) (callback : ℕ) (s : Observer)
    → s.refreshing ≢ idle
    → IsSilent s (observe d callback s)
unfolding observe observe_at
observe-IsSilent d callback s busy = by_entry (get (canonical_key d) s.observables)
  where
    by_entry : (o : Option Observable) → IsSilent s (observe_at (canonical_key d) d callback o s)
    by_entry (some o) = (refl, refl, refl)
    by_entry none =
        invalidate-IsSilent
          (record (put_observable (canonical_key d) (new_observable d) s) { reference = none }) busy

dispose_callback-IsSilent :
    (key : Text) (callback : ℕ) (s : Observer) → IsSilent s (dispose_callback key callback s)
unfolding dispose_callback unregister_at
dispose_callback-IsSilent key callback s = by_entry (get key s.observables)
  where
    by_entry : (o : Option Observable) → IsSilent s (unregister_at key callback o s)
    by_entry none = (refl, refl, refl)
    by_entry (some o) = (refl, refl, refl)

module _ (retains : ℕ → Extracted → Bool) where
  resume-failed :
      (reply : Result (List Sample)) (s : Observer)
      → s.refreshing ≡ failed
      → resume retains reply s ≡ s
  unfolding resume resumed
  resume-failed reply s e = ap (λ x. resumed retains x reply s) e

  Step-failed :
      {truth : TimePoint → Truth} {s t : Observer}
      → Step retains truth s t
      → s.refreshing ≡ failed
      → IsSilent s t
  Step-failed {s} (moves t) e = cursor_moved-IsSilent t s (cc)
  Step-failed {s} (observes d callback) e = observe-IsSilent d callback s (cc)
  Step-failed {s} (disposes key callback) e = dispose_callback-IsSilent key callback s
  Step-failed {s} (fails x) e = rw (resume-failed (throw x) s e) (refl, refl, refl)
  Step-failed {s} (replies r t sample more f _) e = cc

  -- After one refresh has failed, nothing that happens makes the observer ask the session or call a
  -- callback again.
  pub Reach-failed :
      {truth : TimePoint → Truth} {s t : Observer}
      → Reach retains truth s t
      → s.refreshing ≡ failed
      → (t.refreshing ≡ failed) × (t.effects ≡ s.effects) × (t.calls ≡ s.calls)
  Reach-failed here e = (e, refl, refl)
  Reach-failed (later r step) e =
      let (f, effects, calls) = Reach-failed r e in
      let (g, effects', calls') = Step-failed step f in (g ∙ f, effects' ∙ effects, calls' ∙ calls)

abbrev pub last_of : TimePoint → List TimePoint → TimePoint
last_of t [] = t
last_of t (u ∷ ts) = last_of u ts

abbrev pub move_all : List TimePoint → Observer → Observer
move_all [] s = s
move_all (t ∷ ts) s = move_all ts (cursor_moved t s)

cursor_moved_busy :
    (t : TimePoint) (s : Observer) (r : Reference) (u : TimePoint)
    → s.subscribed ≡ true
    → s.refreshing ≡ awaiting r u
    → cursor_moved t s ≡ record s { time_cursor = t; refresh_needed = true }
unfolding cursor_moved invalidate
cursor_moved_busy t s r u b e = simp (b, e)

move_all_busy :
    (t : TimePoint) (ts : List TimePoint) (s : Observer) (r : Reference) (u : TimePoint)
    → s.subscribed ≡ true
    → s.refreshing ≡ awaiting r u
    → move_all (t ∷ ts) s ≡ record s { time_cursor = last_of t ts; refresh_needed = true }
move_all_busy t [] s r u b e = cursor_moved_busy t s r u b e
move_all_busy t (v ∷ ts) s r u b e =
    ap (λ s. move_all (v ∷ ts) s) (cursor_moved_busy t s r u b e)
    ∙ move_all_busy v ts (record s { time_cursor = t; refresh_needed = true }) r u b e

-- However often the cursor moves while an observer that listens to it, and whose reference is bound,
-- awaits a reply, nothing is asked until the reply, and then, if its samples can be delivered, one
-- question is asked, of the last position of the cursor.
resume-move_all :
    (retains : ℕ → Extracted → Bool) (s : Observer) (r q : Reference) (u t : TimePoint)
    (ts : List TimePoint) (samples : List Sample) (after : List (Text × Observable))
    (calls : List Call)
    → s.subscribed ≡ true
    → s.refreshing ≡ awaiting r u
    → s.reference ≡ some q
    → deliver_all retains (first_sample samples) (all_handles r.unbound) s.observables s.calls
      ≡ (ok tt, after, calls)
    → let moved = move_all (t ∷ ts) s in
      let asked = resume retains (ok samples) moved in
      (moved.effects ≡ s.effects)
      × (asked.refreshing ≡ awaiting q (last_of t ts))
      × (asked.effects
          ≡ s.effects ++ queried (record { begin = last_of t ts; end = last_of t ts }) q ∷ [])
unfolding resume resumed go_on begin_round ask_with ask
resume-move_all retains s r q u t ts samples after calls b e f ran =
    let moved = record s { time_cursor = last_of t ts; refresh_needed = true } in
    let m : move_all (t ∷ ts) s ≡ moved = move_all_busy t ts s r u b e in
    let next = record moved { observables = after; calls = calls; refresh_needed = false } in
    let asked : resume retains (ok samples) (move_all (t ∷ ts) s) ≡ ask q next =
      ap (resume retains (ok samples)) m
      ∙ ap (λ x. resumed retains x (ok samples) moved) e
      ∙ ap (λ o. go_on retains o moved) ran
      ∙ ap (λ o. ask_with o next) f in
    (ap (λ s. s.effects) m, ap (λ s. s.refreshing) asked, ap (λ s. s.effects) asked)

is_member_last : (c : ℕ) (cs : List ℕ) → is_member c (cs ++ c ∷ []) ≡ true
is_member_last c [] = ground arith
is_member_last c (d ∷ ds) = ground (arith, is_member_last c ds)

remove_first_last :
    (c : ℕ) (cs : List ℕ) → is_member c cs ≡ false → remove_first c (cs ++ c ∷ []) ≡ cs
remove_first_last c [] h = ground arith
remove_first_last c (d ∷ ds) h = ground (arith, remove_first_last c ds)

-- Disposing of a callback twice takes another callback off the observable, the last one.
unregister-unregister :
    (callback : ℕ) (o : Observable)
    → is_member callback o.callbacks ≡ false
    → (unregister callback (unregister callback (register callback o))).callbacks
      ≡ remove_last o.callbacks
unfolding unregister register
unregister-unregister callback o h =
    rw (is_member_last callback o.callbacks, remove_first_last callback o.callbacks h, h) refl
