-- ===== src/Observer/Changes.antt =====
-- What the cursor and the callers do to an observer (src/debug/observer.ts) leaves it up to date.
use rtl_debugger.Common.{
  ℕ, ◌≡◌, refl, sym, ap, ◌∙◌, inl, inr, Bool, true, false, Bool-cases, List, Option, none, some,
  if◌then◌else◌,
}
use rtl_debugger.Common.Map.{get, put, get-put, get-put_if}
use rtl_debugger.Common.Text.{Text, text_eq, text_eq-eq}
use rtl_debugger.Time.{TimePoint}
use rtl_debugger.Variable.{Designation}
use rtl_debugger.Sample.{canonical_key}
use rtl_debugger.Observer.{
  Observer, Observable, Refreshing, idle, failed, awaiting, designations, put_observable,
  cursor_moved, observe, dispose_callback, invalidate, register, unregister, new_observable,
}
use rtl_debugger.Observer.Values.{
  Keyed-put, Keyed-get, Truth, Shows, designations-put, All_Present-put,
}
use rtl_debugger.Observer.{observe_at, unregister_at}
use rtl_debugger.Observer.Ready.{
  Waits, IsReady, UpToDate, IsCurrent, invalidate-IsCurrent, invalidate-observables,
}

Waits-put :
    (key : Text) (o : Observable) (observables : List (Text × Observable)) (x : Refreshing)
    → Waits observables x
    → Waits (put key o observables) x
Waits-put key o observables idle h = tt
Waits-put key o observables failed h = tt
Waits-put key o observables (awaiting r t) (ds, b, h) =
    (ds, b, All_Present-put observables key o ds h)

module _ (truth : TimePoint → Truth) where
  -- An entry changes its callbacks only.
  put-IsCurrent :
      (key : Text) (o o' : Observable) (s : Observer)
      → get key s.observables ≡ some o
      → o'.designation ≡ o.designation
      → o'.value ≡ o.value
      → IsCurrent truth s
      → IsCurrent truth (put_observable key o' s)
  put-IsCurrent key o o' s found d v h = record {
    ready = ready;
    fresh = fresh s.refreshing h.fresh;
  }
    where
      same : designations (put key o' s.observables) ≡ designations s.observables
      same = designations-put key o o' s.observables found d

      ready : IsReady (put_observable key o' s)
      ready = record {
        subscribed = h.ready.subscribed;
        keyed =
            Keyed-put key o' s.observables
              (Keyed-get key o s.observables h.ready.keyed found ∙ ap canonical_key (sym d))
              h.ready.keyed;
        bound = λ r e. rw same (h.ready.bound r e);
        waits = Waits-put key o' s.observables s.refreshing h.ready.waits;
      }

      shows :
          (k : Text)
          → Shows (truth s.time_cursor) s.observables k
          → Shows (truth s.time_cursor) (put key o' s.observables) k
      shows k (p, there, shown) = elim (Bool-cases (text_eq key k)) [
        | inl at ↦
            let found' : get k s.observables ≡ some o =
              ap (λ k. get k s.observables) (sym (text_eq-eq key k at)) ∙ found in
            let one : p ≡ o = cc in
            (o', get-put_if k key o' s.observables ∙ rw at, v ∙ ap (λ o. o.value) (sym one) ∙ shown)
        | inr off ↦ (p, get-put_if k key o' s.observables ∙ rw off there, shown)
      ]

      fresh : (x : Refreshing) → UpToDate truth s x → UpToDate truth (put_observable key o' s) x
      fresh idle (n, all) = (n, λ k has. shows k (all k (rw same at has)))
      fresh failed u = tt
      fresh (awaiting r t) u = λ n. (rw same (u n).0, (u n).1)

  pub cursor_moved-IsCurrent :
      (t : TimePoint) (s : Observer) → IsCurrent truth s → IsCurrent truth (cursor_moved t s)
  unfolding cursor_moved
  cursor_moved-IsCurrent t s h = by_flag s.subscribed h.ready.subscribed
    where
      moved : Observer
      moved = record s { time_cursor = t }

      by_flag : (b : Bool) → b ≡ true → IsCurrent truth (if b then invalidate moved else moved)
      by_flag false e = cc
      by_flag true e = invalidate-IsCurrent truth moved (record {
        subscribed = h.ready.subscribed;
        keyed = h.ready.keyed;
        bound = h.ready.bound;
        waits = h.ready.waits;
      })

  pub observe-IsCurrent :
      (d : Designation) (callback : ℕ) (s : Observer)
      → IsCurrent truth s
      → IsCurrent truth (observe d callback s)
  unfolding observe observe_at register new_observable
  observe-IsCurrent d callback s h = by_entry (get (canonical_key d) s.observables) refl
    where
      key : Text
      key = canonical_key d

      added : Observer
      added = record (put_observable key (new_observable d) s) { reference = none }

      ready : IsReady added
      ready = record {
        subscribed = h.ready.subscribed;
        keyed = Keyed-put key (new_observable d) s.observables refl h.ready.keyed;
        bound = λ r e. cc;
        waits = Waits-put key (new_observable d) s.observables s.refreshing h.ready.waits;
      }

      by_entry :
          (o : Option Observable)
          → get key s.observables ≡ o
          → IsCurrent truth (observe_at key d callback o s)
      by_entry (some o) e = put-IsCurrent key o (register callback o) s e refl refl h
      by_entry none e =
          put-IsCurrent key (new_observable d) (register callback (new_observable d))
            (invalidate added)
            (ap (get key) (invalidate-observables added)
              ∙ get-put key (new_observable d) s.observables)
            refl refl (invalidate-IsCurrent truth added ready)

  pub dispose_callback-IsCurrent :
      (key : Text) (callback : ℕ) (s : Observer)
      → IsCurrent truth s
      → IsCurrent truth (dispose_callback key callback s)
  unfolding dispose_callback unregister_at unregister
  dispose_callback-IsCurrent key callback s h = by_entry (get key s.observables) refl
    where
      by_entry :
          (o : Option Observable)
          → get key s.observables ≡ o
          → IsCurrent truth (unregister_at key callback o s)
      by_entry none e = h
      by_entry (some o) e = put-IsCurrent key o (unregister callback o) s e refl refl h
