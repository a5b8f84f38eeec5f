-- ===== src/Observer/Bound.antt =====
-- The reference that an observer asks with (src/debug/observer.ts) is the session's current one
-- (src/debug/session.ts).
use rtl_debugger.Common.{
  ℕ, ◌≡◌, refl, ap, ◌∙◌, inl, inr, true, false, Bool-cases, List, ◌∷◌, Option, none, some, Result,
  ok, throw, ◌>>=◌, Bool, if◌then◌else◌,
}
use mathlib.Core.Path.{subst}
use rtl_debugger.Common.Map.{get, get-put}
use rtl_debugger.Common.Text.{Text}
use rtl_debugger.Proto.{QueryInterval, ProtoSample}
use rtl_debugger.Time.{TimePoint}
use rtl_debugger.Variable.{Designation}
use rtl_debugger.Sample.{
  bind, Extracted, canonical_key, UnboundReference, new_reference, all_handles, Reference, Sample,
}
use rtl_debugger.Sample.Layout.{add_all}
use rtl_debugger.Session.Database.{
  Epochs, next_epoch, bind_reference, interval_query, query_interval, query_interval_current,
  read_samples,
}
use rtl_debugger.Observer.{
  Observer, Observable, Call, Refreshing, idle, failed, awaiting, is_idle, ask, ask_for, ask_with,
  begin_round, invalidate, cursor_moved, observe, observe_at, put_observable, new_observable,
  dispose_callback, unregister_at, resume, resumed, go_on, deliver_all, new_observer, designations,
  first_sample,
}
use rtl_debugger.Observer.Values.{Truth}
use rtl_debugger.Observer.Steps.{
  Step, moves, observes, disposes, fails, replies, Reach, here, later,
}

-- A reference of the name that was bound last.
abbrev IsCurrent : Text → Epochs → Reference → Type 0
IsCurrent name epochs r = (r.name ≡ name) × (get name epochs ≡ some r.epoch)

abbrev AllCurrent : Text → Epochs → Option Reference → Type 0
AllCurrent name epochs none = Unit
AllCurrent name epochs (some r) = IsCurrent name epochs r

abbrev AwaitsCurrent : Text → Epochs → Refreshing → Type 0
AwaitsCurrent name epochs idle = Unit
AwaitsCurrent name epochs failed = Unit
AwaitsCurrent name epochs (awaiting r t) = IsCurrent name epochs r

record IsBound (s : Observer) : Type 0 where
  reference : AllCurrent s.reference_name s.epochs s.reference
  refreshing : AwaitsCurrent s.reference_name s.epochs s.refreshing

ask_for-IsBound :
    (u : Result UnboundReference) (s : Observer)
    → AllCurrent s.reference_name s.epochs s.reference
    → IsBound (ask_for u s)
unfolding ask_for ask bind_reference bind
ask_for-IsBound (throw e) s h = record { reference = h; refreshing = tt }
ask_for-IsBound (ok unbound) s h =
    let (r, command, epochs) = bind_reference s.reference_name unbound s.epochs in
    let now : IsCurrent s.reference_name epochs r =
      (refl, get-put s.reference_name (next_epoch s.reference_name s.epochs) s.epochs) in
    record { reference = now; refreshing = now }

ask_with-IsBound :
    (r : Option Reference) (s : Observer)
    → AllCurrent s.reference_name s.epochs s.reference
    → AllCurrent s.reference_name s.epochs r
    → IsBound (ask_with r s)
unfolding ask_with ask
ask_with-IsBound (some r) s h c = record { reference = h; refreshing = c }
ask_with-IsBound none s h c =
    ask_for-IsBound (add_all (new_reference s.next_id) (designations s.observables)) s h

begin_round-IsBound :
    (s : Observer) → AllCurrent s.reference_name s.epochs s.reference → IsBound (begin_round s)
unfolding begin_round
begin_round-IsBound s h = ask_with-IsBound s.reference (record s { refresh_needed = false }) h h

invalidate-IsBound : (s : Observer) → IsBound s → IsBound (invalidate s)
unfolding invalidate
invalidate-IsBound s h = elim (Bool-cases (is_idle s.refreshing)) [
  | inl e ↦ rw e (begin_round-IsBound (record s { refresh_needed = true }) h.reference)
  | inr e ↦ rw e (record { reference = h.reference; refreshing = h.refreshing })
]

cursor_moved-IsBound : (t : TimePoint) (s : Observer) → IsBound s → IsBound (cursor_moved t s)
unfolding cursor_moved
cursor_moved-IsBound t s h =
    let moved = record s { time_cursor = t } in
    let same : IsBound moved = record { reference = h.reference; refreshing = h.refreshing } in
    told s.subscribed moved same
  where
    told : (b : Bool) (m : Observer) → IsBound m → IsBound (if b then invalidate m else m)
    told true m h = invalidate-IsBound m h
    told false m h = h

observe_at-IsBound :
    (key : Text) (d : Designation) (callback : ℕ) (o : Option Observable) (s : Observer)
    → IsBound s
    → IsBound (observe_at key d callback o s)
unfolding observe_at
observe_at-IsBound key d callback (some o) s h = record {
  reference = h.reference;
  refreshing = h.refreshing;
}
observe_at-IsBound key d callback none s h =
    let added = record (put_observable key (new_observable d) s) { reference = none } in
    let next = invalidate-IsBound added (record { reference = tt; refreshing = h.refreshing }) in
    record { reference = next.reference; refreshing = next.refreshing }

unregister_at-IsBound :
    (key : Text) (callback : ℕ) (o : Option Observable) (s : Observer)
    → IsBound s
    → IsBound (unregister_at key callback o s)
unfolding unregister_at
unregister_at-IsBound key callback none s h = h
unregister_at-IsBound key callback (some o) s h = record {
  reference = h.reference;
  refreshing = h.refreshing;
}

module _ (retains : ℕ → Extracted → Bool) (truth : TimePoint → Truth) where
  go_on-IsBound :
      (x : Result (Unit {0}) × List (Text × Observable) × List Call) (s : Observer)
      → IsBound s
      → IsBound (go_on retains x s)
  unfolding go_on
  go_on-IsBound (throw e, observables, calls) s h = record {
    reference = h.reference;
    refreshing = tt;
  }
  go_on-IsBound (ok u, observables, calls) s h = elim (Bool-cases s.refresh_needed) [
    | inl e ↦
        rw e
          (begin_round-IsBound (record s { observables = observables; calls = calls }) h.reference)
    | inr e ↦ rw e (record { reference = h.reference; refreshing = tt })
  ]

  resumed-IsBound :
      (x : Refreshing) (reply : Result (List Sample)) (s : Observer)
      → IsBound s
      → IsBound (resumed retains x reply s)
  unfolding resumed
  resumed-IsBound (awaiting r t) (throw e) s h = record { reference = h.reference; refreshing = tt }
  resumed-IsBound (awaiting r t) (ok samples) s h =
      go_on-IsBound
        (deliver_all retains (first_sample samples) (all_handles r.unbound) s.observables s.calls) s
        h
  resumed-IsBound idle reply s h = h
  resumed-IsBound failed reply s h = h

  Step-IsBound : {s u : Observer} → Step retains truth s u → IsBound s → IsBound u
  unfolding observe dispose_callback resume
  Step-IsBound {s} (moves t) h = cursor_moved-IsBound t s h
  Step-IsBound {s} (observes d callback) h =
      observe_at-IsBound (canonical_key d) d callback (get (canonical_key d) s.observables) s h
  Step-IsBound {s} (disposes key callback) h =
      unregister_at-IsBound key callback (get key s.observables) s h
  Step-IsBound {s} (fails e) h = resumed-IsBound s.refreshing (throw e) s h
  Step-IsBound {s} (replies r t sample more w k) h =
      resumed-IsBound s.refreshing (ok (sample ∷ more)) s h

  Reach-IsBound : {s u : Observer} → Reach retains truth s u → IsBound s → IsBound u
  Reach-IsBound here h = h
  Reach-IsBound (later r step) h = Step-IsBound step (Reach-IsBound r h)

-- Whenever an observer awaits the samples of a reference, the session takes a query with it: whatever
-- names other than the observer's are bound, it gives what the server's samples are read as, and
-- throws no ReferenceError.
pub Reach-query_interval :
    (retains : ℕ → Extracted → Bool) (truth : TimePoint → Truth) (name : Text) (epochs : Epochs)
    (id : ℕ) (cursor : TimePoint) (u : Observer) (r : Reference) (t : TimePoint) (bound : Epochs)
    (decode : Text → List ℕ) (server : QueryInterval → Result (List ProtoSample))
    → Reach retains truth (new_observer name epochs id cursor) u
    → u.refreshing ≡ awaiting r t
    → get r.name bound ≡ get r.name u.epochs
    → query_interval decode bound (record { begin = t; end = t }) r none server ≡ (
        server (interval_query (record { begin = t; end = t }) r none) >>= λ samples.
        read_samples decode r.unbound samples)
unfolding new_observer
Reach-query_interval retains truth name epochs id cursor u r t bound decode server reached e same =
    let h = Reach-IsBound retains truth reached (record { reference = tt; refreshing = tt }) in
    let (n, c) = subst (AwaitsCurrent u.reference_name u.epochs) e h.refreshing in
    query_interval_current bound r decode (record { begin = t; end = t }) server
      (same ∙ ap (λ x. get x u.epochs) n ∙ c)
