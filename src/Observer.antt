-- ===== src/Observer.antt =====
-- src/debug/observer.ts: the observed parts of the design and the refreshing of their values. A
-- callback is a number, and what it returns for a value is a parameter; a callback does not call the
-- observer. `refresh` is cut at its await: what runs before it, and what runs behind it.
pub mod Values
pub mod Steps
pub mod Ready
pub mod Changes
pub mod Current
pub mod Idle
pub mod Asking
pub mod Ends
pub mod Bound
pub mod Tests
use rtl_debugger.Common.{
  ℕ, suc, ◌+◌, ◌≡◌, Bool, true, false, not, List, [], ◌∷◌, ◌++◌, map, Option, none, some, ◌==◌,
  if◌then◌else◌, Result, ok, throw, type_error,
}
use rtl_debugger.Common.Map.{get, put}
use rtl_debugger.Common.Text.{Text}
use rtl_debugger.Proto.{Command}
use rtl_debugger.Time.{TimePoint, TimeInterval}
use rtl_debugger.Variable.{Designation}
use rtl_debugger.Sample.{
  Extracted, bigint, iterable, canonical_key, UnboundReference, new_reference, all_handles, Handle,
  Reference, Sample, sample_extract,
}
use rtl_debugger.Sample.Layout.{add_all}
use rtl_debugger.Session.Database.{Epochs, bind_reference}

pub record Observable : Type 0 where
  pub designation : Designation
  pub callbacks : List ℕ
  pub value : Option Extracted

-- A callback that was called with a value.
pub record Call : Type 0 where
  pub callback : ℕ
  pub value : Extracted

-- `samplePromise`: undefined, the promise of a refresh that waits for the samples of an interval, or
-- a promise that was rejected.
pub data Refreshing : Type 0 where
  idle failed : Refreshing
  awaiting : Reference → TimePoint → Refreshing

pub data Effect : Type 0 where
  bound : Command → Effect
  queried : TimeInterval → Reference → Effect

-- The fields of the observer, by canonical key; then the session's epochs and time cursor, and what
-- was asked of the session and called so far. A reference's identity is the next free number.
pub record Observer : Type 0 where
  pub observables : List (Text × Observable)
  pub reference : Option Reference
  pub refreshing : Refreshing
  pub refresh_needed : Bool
  pub subscribed : Bool
  pub reference_name : Text
  pub epochs : Epochs
  pub next_id : ℕ
  pub time_cursor : TimePoint
  pub effects : List Effect
  pub calls : List Call

-- The constructor.
unfoldable pub new_observer : Text → Epochs → ℕ → TimePoint → Observer
new_observer name epochs id cursor = record {
  observables = [];
  reference = none;
  refreshing = idle;
  refresh_needed = false;
  subscribed = true;
  reference_name = name;
  epochs = epochs;
  next_id = id;
  time_cursor = cursor;
  effects = [];
  calls = [];
}

unfoldable pub new_observable : Designation → Observable
new_observable d = record { designation = d; callbacks = []; value = none }

unfoldable pub register : ℕ → Observable → Observable
register callback o = record o { callbacks = o.callbacks ++ callback ∷ [] }

abbrev pub is_member : ℕ → List ℕ → Bool
is_member c [] = false
is_member c (d ∷ ds) = let rest = is_member c ds in if d == c then true else rest

abbrev pub remove_first : ℕ → List ℕ → List ℕ
remove_first c [] = []
remove_first c (d ∷ ds) = let rest = remove_first c ds in if d == c then ds else d ∷ rest

abbrev pub remove_last : List ℕ → List ℕ
remove_last [] = []
remove_last (d ∷ []) = []
remove_last (d ∷ e ∷ ds) = d ∷ remove_last (e ∷ ds)

-- `splice(indexOf(callback), 1)`: the index of a callback that is not there is -1.
unfoldable pub unregister : ℕ → Observable → Observable
unregister callback o = record o {
  callbacks =
      if is_member callback o.callbacks
      then remove_first callback o.callbacks
      else remove_last o.callbacks;
}

-- `this.value !== newValue`: what an iteration gives is a new object each time.
abbrev pub is_new : Option Extracted → Extracted → Bool
is_new (some (bigint m)) (bigint n) = not (m == n)
is_new _ v = true

abbrev pub keep : (ℕ → Bool) → List ℕ → List ℕ
keep test [] = []
keep test (c ∷ cs) = let rest = keep test cs in if test c then c ∷ rest else rest

abbrev pub first_sample : List Sample → Option Sample
first_sample [] = none
first_sample (s ∷ ss) = some s

abbrev pub designations : List (Text × Observable) → List Designation
designations = map λ e. e.1.designation

abbrev pub is_idle : Refreshing → Bool
is_idle idle = true
is_idle _ = false

-- A reply with no samples leaves `sample` undefined.
abbrev pub extract_from : Option Sample → Handle → Result Extracted
extract_from none h = throw type_error
extract_from (some sample) h = sample_extract sample h

-- The loop's body up to its await, with the reference that is there.
pub ask : Reference → Observer → Observer
ask r s = record s {
  refreshing = awaiting r s.time_cursor;
  effects = s.effects ++ queried (record { begin = s.time_cursor; end = s.time_cursor }) r ∷ [];
}

-- A reference to all observables is bound and asked for.
pub ask_for : Result UnboundReference → Observer → Observer
unfolding ask
ask_for (throw e) s = record s { refreshing = failed }
ask_for (ok unbound) s =
    let (r, command, epochs) = bind_reference s.reference_name unbound s.epochs in
    ask r (record s {
      reference = some r;
      epochs = epochs;
      next_id = s.next_id + 1;
      effects = s.effects ++ bound command ∷ [];
    })

pub ask_with : Option Reference → Observer → Observer
unfolding ask ask_for
ask_with (some r) s = ask r s
ask_with none s = ask_for (add_all (new_reference s.next_id) (designations s.observables)) s

pub begin_round : Observer → Observer
unfolding ask_with
begin_round s = ask_with s.reference (record s { refresh_needed = false })

pub invalidate : Observer → Observer
unfolding begin_round
invalidate s =
    let needed = record s { refresh_needed = true } in
    if is_idle s.refreshing then begin_round needed else needed

-- The observer's constructor subscribes to the session's cursor.
unfoldable pub cursor_moved : TimePoint → Observer → Observer
unfolding invalidate
cursor_moved t s =
    let moved = record s { time_cursor = t } in if s.subscribed then invalidate moved else moved

abbrev pub put_observable : Text → Observable → Observer → Observer
put_observable key o s = record s { observables = put key o s.observables }

observe_at : Text → Designation → ℕ → Option Observable → Observer → Observer
unfolding register invalidate new_observable
observe_at key d callback (some o) s = put_observable key (register callback o) s
observe_at key d callback none s =
    let added = record (put_observable key (new_observable d) s) { reference = none } in
    put_observable key (register callback (new_observable d)) (invalidate added)

unfoldable pub observe : Designation → ℕ → Observer → Observer
unfolding observe_at
observe d callback s =
    observe_at (canonical_key d) d callback (get (canonical_key d) s.observables) s

unregister_at : Text → ℕ → Option Observable → Observer → Observer
unfolding unregister
unregister_at key callback none s = s
unregister_at key callback (some o) s = put_observable key (unregister callback o) s

-- The `dispose` that `observe` gives back, of an observable that is still in the map.
unfoldable pub dispose_callback : Text → ℕ → Observer → Observer
unfolding unregister_at
dispose_callback key callback s = unregister_at key callback (get key s.observables) s

abbrev pub value_of : Option Observable → Option Extracted
value_of none = none
value_of (some o) = o.value

unfoldable pub query : Designation → Observer → Option Extracted
query d s = value_of (get (canonical_key d) s.observables)

unfoldable pub dispose : Observer → Observer
dispose s = record s { observables = []; subscribed = false }

-- `retains` is whether a callback returns nothing, or something true.
module _ (retains : ℕ → Extracted → Bool) where
  pub update : Extracted → Observable → Observable × List Call
  update v o =
      if is_new o.value v
      then (
        record o { value = some v; callbacks = keep (λ c. retains c v) o.callbacks },
        map (λ c. record { callback = c; value = v }) o.callbacks,
      )
      else (o, [])

  -- What `observable.update(sample.extract(handle))` does, or throws.
  abbrev pub to_update : Option Observable → Result Extracted → Result (Observable × List Call)
  to_update none v = throw type_error
  to_update (some o) (throw e) = throw e
  to_update (some o) (ok v) = ok (update v o)

  -- The loop over all handles: the observables and the calls behind it, also where it throws.
  pub deliver_all :
      Option Sample
      → List (Designation × Handle)
      → List (Text × Observable)
      → List Call
      → Result (Unit {0}) × List (Text × Observable) × List Call
  unfolding update
  deliver_all sample [] observables calls = (ok tt, observables, calls)
  deliver_all sample ((d, h) ∷ rest) observables calls =
      elim (to_update (get (canonical_key d) observables) (extract_from sample h)) [
        | throw e ↦ (throw e, observables, calls)
        | ok (o, new) ↦ deliver_all sample rest (put (canonical_key d) o observables) (calls ++ new)
      ]

  -- Behind the loop over the handles, the test of the outer loop.
  go_on : Result (Unit {0}) × List (Text × Observable) × List Call → Observer → Observer
  unfolding begin_round
  go_on (throw e, observables, calls) s = record s {
    observables = observables;
    calls = calls;
    refreshing = failed;
  }
  go_on (ok _, observables, calls) s =
      let t = record s { observables = observables; calls = calls } in
      if s.refresh_needed then begin_round t else record t { refreshing = idle }

  resumed : Refreshing → Result (List Sample) → Observer → Observer
  unfolding deliver_all go_on
  resumed (awaiting r t) (throw e) s = record s { refreshing = failed }
  resumed (awaiting r t) (ok samples) s =
      go_on (deliver_all (first_sample samples) (all_handles r.unbound) s.observables s.calls) s
  resumed idle reply s = s
  resumed failed reply s = s

  -- `refresh` behind its await.
  unfoldable pub resume : Result (List Sample) → Observer → Observer
  unfolding resumed
  resume reply s = resumed s.refreshing reply s
