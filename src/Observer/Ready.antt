-- ===== src/Observer/Ready.antt =====
-- The state in which an observer can refresh, and what a refresh makes of it.
use rtl_debugger.Common.{
  ℕ, ◌≡◌, refl, inl, inr, true, false, Bool-cases, List, [], ◌∷◌, map, Option, none, some, All,
  if◌then◌else◌, Result, ok, throw,
}
use mathlib.Core.Path.{subst}
use rtl_debugger.Sample.{bind}
use rtl_debugger.Common.Text.{Text, text_eq, text_eq_refl}
use rtl_debugger.Time.{TimePoint}
use rtl_debugger.Variable.{Designation}
use rtl_debugger.Sample.{canonical_key, UnboundReference, new_reference, freeze, Reference}
use rtl_debugger.Sample.Layout.{add_all, add_all-Added}
use rtl_debugger.Observer.{
  Observer, Observable, Refreshing, idle, failed, awaiting, designations, invalidate, begin_round,
}
use rtl_debugger.Observer.Values.{Keyed, Truth, Has, Shows, Present}
use rtl_debugger.Session.Database.{bind_reference}
use rtl_debugger.Observer.{ask, ask_for, ask_with, is_idle}

-- A reference that was bound for some designations.
pub record Bound (r : Reference) (ds : List Designation) : Type 0 where
  pub id : ℕ
  pub unbound : UnboundReference
  pub added : add_all (new_reference id) ds ≡ ok unbound
  pub same_id : unbound.id ≡ id
  pub listed : map (λ h. h.designation) unbound.handles ≡ ds
  pub frozen : r.unbound ≡ freeze unbound

abbrev pub Waits : List (Text × Observable) → Refreshing → Type 0
Waits observables (awaiting r t) =
    (ds : List Designation) × Bound r ds × All (Present observables) ds
Waits observables idle = Unit
Waits observables failed = Unit

-- A refresh may begin.
pub record IsReady (s : Observer) : Type 0 where
  pub subscribed : s.subscribed ≡ true
  pub keyed : Keyed s.observables
  pub bound : (r : Reference) → s.reference ≡ some r → Bound r (designations s.observables)
  pub waits : Waits s.observables s.refreshing

-- An idle observer is up to date, and one that needs no other refresh waits for what it needs.
abbrev pub UpToDate : (TimePoint → Truth) → Observer → Refreshing → Type 0
UpToDate truth s idle =
    (s.refresh_needed ≡ false)
    × ((k : Text)
        → Has k (designations s.observables)
        → Shows (truth s.time_cursor) s.observables k)
UpToDate truth s failed = Unit
UpToDate truth s (awaiting r t) =
    s.refresh_needed ≡ false → Bound r (designations s.observables) × (t ≡ s.time_cursor)

pub record IsCurrent (truth : TimePoint → Truth) (s : Observer) : Type 0 where
  pub ready : IsReady s
  pub fresh : UpToDate truth s s.refreshing

entry-Present :
    (k : Text) (o : Observable) (rest : List (Text × Observable)) (d : Designation)
    → Present rest d
    → Present ((k, o) ∷ rest) d
entry-Present k o rest d (p, found) = elim (Bool-cases (text_eq k (canonical_key d))) [
  | inl same ↦ (o, rw same)
  | inr off ↦ (p, rw off found)
]

entries-Present :
    (k : Text) (o : Observable) (rest : List (Text × Observable)) (ds : List Designation)
    → All (Present rest) ds
    → All (Present ((k, o) ∷ rest)) ds
entries-Present k o rest [] h = tt
entries-Present k o rest (d ∷ ds) h =
    (entry-Present k o rest d h.0, entries-Present k o rest ds h.1)

-- The designations of all entries are found.
pub Keyed-Present :
    (observables : List (Text × Observable))
    → Keyed observables
    → All (Present observables) (designations observables)
unfolding Keyed
Keyed-Present [] h = tt
Keyed-Present ((k, o) ∷ rest) (e, h) = (
  (o, rw (e, text_eq_refl (canonical_key o.designation))),
  entries-Present k o rest (designations rest) (Keyed-Present rest h),
)

ask_for-observables :
    (u : Result UnboundReference) (s : Observer) → (ask_for u s).observables ≡ s.observables
unfolding ask_for ask
ask_for-observables (throw e) s = refl
ask_for-observables (ok u) s = refl

ask_with-observables :
    (o : Option Reference) (s : Observer) → (ask_with o s).observables ≡ s.observables
unfolding ask_with ask
ask_with-observables (some r) s = refl
ask_with-observables none s =
    ask_for-observables (add_all (new_reference s.next_id) (designations s.observables)) s

pub invalidate-observables : (s : Observer) → (invalidate s).observables ≡ s.observables
unfolding invalidate begin_round
invalidate-observables s = elim (Bool-cases (is_idle s.refreshing)) [
  | inl e ↦ rw e (ask_with-observables s.reference (record s { refresh_needed = false }))
  | inr e ↦ rw e
]

module _ (truth : TimePoint → Truth) where
  ask-IsCurrent :
      (r : Reference) (s : Observer)
      → IsReady s
      → s.refresh_needed ≡ false
      → Bound r (designations s.observables)
      → IsCurrent truth (ask r s)
  unfolding ask
  ask-IsCurrent r s h n b = record {
    ready = record {
      subscribed = h.subscribed;
      keyed = h.keyed;
      bound = h.bound;
      waits = (designations s.observables, b, Keyed-Present s.observables h.keyed);
    };
    fresh = λ _. (b, refl);
  }

  ask_for-IsCurrent :
      (id : ℕ) (s : Observer)
      → IsReady s
      → s.refresh_needed ≡ false
      → IsCurrent truth (ask_for (add_all (new_reference id) (designations s.observables)) s)
  unfolding ask_for bind_reference bind
  ask_for-IsCurrent id s h n =
      let a = add_all-Added (new_reference id) (designations s.observables) refl in
      let (r, command, epochs) = bind_reference s.reference_name a.result s.epochs in
      let b : Bound r (designations s.observables) = record {
        id = id;
        unbound = a.result;
        added = a.added;
        same_id = a.id;
        listed = a.listed;
        frozen = refl;
      } in
      rw a.added (
        ask-IsCurrent r _
          (record {
            subscribed = h.subscribed;
            keyed = h.keyed;
            bound = λ q e.
                let same : r ≡ q = cc in subst (λ r. Bound r (designations s.observables)) same b;
            waits = h.waits;
          })
          n b)

  pub begin_round-IsCurrent : (s : Observer) → IsReady s → IsCurrent truth (begin_round s)
  unfolding begin_round ask_with
  begin_round-IsCurrent s h = with_reference s.reference refl
    where
      cleared : Observer
      cleared = record s { refresh_needed = false }

      ready : IsReady cleared
      ready = record {
        subscribed = h.subscribed;
        keyed = h.keyed;
        bound = h.bound;
        waits = h.waits;
      }

      with_reference :
          (o : Option Reference) → s.reference ≡ o → IsCurrent truth (ask_with o cleared)
      with_reference none e = ask_for-IsCurrent s.next_id cleared ready refl
      with_reference (some r) e = ask-IsCurrent r cleared ready refl (h.bound r e)

  pub invalidate-IsCurrent : (s : Observer) → IsReady s → IsCurrent truth (invalidate s)
  unfolding invalidate
  invalidate-IsCurrent s h = by_state s.refreshing refl
    where
      needed : Observer
      needed = record s { refresh_needed = true }

      ready : IsReady needed
      ready = record {
        subscribed = h.subscribed;
        keyed = h.keyed;
        bound = h.bound;
        waits = h.waits;
      }

      by_state :
          (x : Refreshing)
          → s.refreshing ≡ x
          → IsCurrent truth (if is_idle x then begin_round needed else needed)
      by_state idle e = begin_round-IsCurrent needed ready
      by_state failed e = record { ready = ready; fresh = rw e tt }
      by_state (awaiting r t) e = record { ready = ready; fresh = rw e (λ no. cc) }
