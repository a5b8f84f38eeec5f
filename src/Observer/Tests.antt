-- ===== src/Observer/Tests.antt =====
-- An observer of one variable of eight bits, which holds 7 at any time.
use rtl_debugger.Common.{
  ℕ, ◌≡◌, refl, ap, inl, Bool, true, false, List, [], ◌∷◌, none, some, Result, ok, throw,
  type_error, arith,
}
use rtl_debugger.Common.Int.{pos}
use rtl_debugger.Common.Text.{Text, codes}
use rtl_debugger.Time.{TimeInterval, TimePoint, zero_time}
use rtl_debugger.Variable.{ScalarVariable, Designation, scalar_designation}
use rtl_debugger.Sample.{
  add, bind, data_range, all_handles, sample_extract, extract_from_raw, bigint_from_raw, Extracted,
  canonical_key, Reference, Sample, bigint,
}
use rtl_debugger.Sample.Layout.{add_all}
use rtl_debugger.Session.Database.{bind_reference}
use rtl_debugger.Sample.Reading.{single, extracted}
use rtl_debugger.Observer.{
  Refreshing, Call, deliver_all, first_sample, designations, Observer, Observable, idle, failed,
  awaiting, cursor_moved, observe, resume, query, new_observer,
}
use rtl_debugger.Observer.Values.{Truth, Has}
use rtl_debugger.Observer.Steps.{moves, observes, replies, Reach, here, later, IsTrue}
use rtl_debugger.Observer.Ends.{resume_ends}
use mathlib.Core.Path.{subst}
use rtl_debugger.Session.Database.{query_interval, read_samples}
use rtl_debugger.Observer.Bound.{Reach-query_interval}
use rtl_debugger.Observer.Idle.{query-idle, Reach-failed}

abbrev pub counter : ScalarVariable
counter = record {
  full_name = codes "top" ∷ codes "counter" ∷ [];
  location = none;
  lsb_at = 0;
  width = 8;
}

abbrev pub part : Designation
part = scalar_designation counter

abbrev pub truth : TimePoint → Truth
truth t k = single 7

abbrev pub retains : ℕ → Extracted → Bool
retains c v = false

abbrev sample : Sample
sample = record { time = zero_time; reference = 0; variable_data = 7 ∷ [] }

abbrev start : Observer
start = new_observer (codes "sidebar") [] 0 zero_time

abbrev asking : Observer
asking = observe part 1 start

abbrev pub answered : Observer
answered = resume retains (ok (sample ∷ [])) asking

-- The reference that the observer binds.
abbrev reference : Reference
reference = record {
  name = codes "sidebar";
  epoch = 1;
  unbound = record {
    id = 0;
    frozen = true;
    offset = pos 1;
    handles = record { designation = part; reference = 0; offset = pos 0 } ∷ [];
  };
}

asking_awaits : asking.refreshing ≡ awaiting reference zero_time
unfolding observe new_observer add_all add bind_reference bind canonical_key data_range
asking_awaits = refl

pub round :
    (answered.refreshing ≡ idle)
    × (query part answered ≡ some (bigint 7))
    × (answered.calls ≡ record { callback = 1; value = bigint 7 } ∷ [])
unfolding resume observe new_observer query add_all add bind_reference bind canonical_key data_range
    all_handles sample_extract extract_from_raw bigint_from_raw
round = (refl, refl, refl)

sample-IsTrue : IsTrue truth reference zero_time sample
sample-IsTrue = record { identity = refl; held = refl; fits = ((omega arith, omega arith), tt) }

pub answered-Reach : Reach retains truth start answered
answered-Reach =
    later (later here (observes part 1))
      (replies reference zero_time sample [] asking_awaits sample-IsTrue)

pub part_there : Has (canonical_key part) (designations answered.observables)
unfolding resume observe new_observer add_all add bind_reference bind canonical_key data_range
    all_handles sample_extract extract_from_raw bigint_from_raw
part_there = inl refl

query-idle_example :
    query part answered ≡ some (extracted (truth answered.time_cursor (canonical_key part)))
query-idle_example =
    query-idle retains truth (codes "sidebar") [] 0 zero_time part answered-Reach round.0 part_there

abbrev broken : Observer
broken = resume retains (throw type_error) asking

broken_failed : broken.refreshing ≡ failed
unfolding resume observe new_observer add_all add bind_reference bind canonical_key data_range
broken_failed = refl

Reach-failed_example :
    let after = observe part 2 (cursor_moved (record { raw = pos 3 }) broken) in
    (after.refreshing ≡ failed) × (after.effects ≡ broken.effects) × (after.calls ≡ broken.calls)
Reach-failed_example =
    Reach-failed retains {truth = truth}
      (later (later here (moves (record { raw = pos 3 }))) (observes part 2)) broken_failed

abbrev times : List TimePoint
times = record { raw = pos 4 } ∷ record { raw = pos 5 } ∷ []

abbrev delivery : Result (Unit {0}) × List (Text × Observable) × List Call
delivery =
    deliver_all retains (first_sample (sample ∷ [])) (all_handles reference.unbound)
      asking.observables asking.calls

delivery_done :
    (delivery.0 ≡ ok tt) × (asking.subscribed ≡ true) × (asking.reference ≡ some reference)
unfolding resume observe new_observer add_all add bind_reference bind canonical_key data_range
    all_handles sample_extract extract_from_raw bigint_from_raw deliver_all
delivery_done = (refl, refl, refl)

abbrev two_callbacks : Observable
two_callbacks = record { designation = part; callbacks = 1 ∷ 2 ∷ []; value = none }

-- The cursor moves while the reply is awaited.
abbrev one_later : TimePoint
one_later = record { raw = pos 1 }

abbrev moved : Observer
moved = cursor_moved one_later asking

moved_awaits : moved.refreshing ≡ awaiting reference zero_time
unfolding cursor_moved observe new_observer add_all add bind_reference bind canonical_key data_range
moved_awaits = refl

moved-Reach : Reach retains truth start moved
moved-Reach = later (later here (observes part 1)) (moves one_later)

abbrev second : Sample
second = record { time = one_later; reference = 0; variable_data = 7 ∷ [] }

asked_reference : Refreshing → Reference
asked_reference (awaiting r t) = r
asked_reference _ = reference

second-IsTrue :
    (q : Reference)
    → (resume retains (ok (sample ∷ [])) moved).refreshing ≡ awaiting q moved.time_cursor
    → IsTrue truth q moved.time_cursor second
unfolding asked_reference resume cursor_moved observe new_observer add_all add bind_reference bind
    canonical_key data_range all_handles sample_extract extract_from_raw bigint_from_raw
second-IsTrue q e =
    subst (λ q. IsTrue truth q one_later second) (ap asked_reference e)
      (record { identity = refl; held = refl; fits = ((omega arith, omega arith), tt) })

resume_ends_example :
    (resume retains (ok (second ∷ [])) (resume retains (ok (sample ∷ [])) moved)).refreshing ≡ idle
resume_ends_example =
    resume_ends retains truth (codes "sidebar") [] 0 zero_time reference zero_time sample second []
      [] moved-Reach moved_awaits sample-IsTrue second-IsTrue

abbrev sidebar_query : TimeInterval
sidebar_query = record { begin = zero_time; end = zero_time }

-- The server has no samples.
Reach-query_interval_example :
    query_interval (λ t. []) asking.epochs sidebar_query reference none (λ q. ok [])
    ≡ read_samples (λ t. []) reference.unbound []
Reach-query_interval_example =
    Reach-query_interval retains truth (codes "sidebar") [] 0 zero_time asking reference zero_time
      asking.epochs (λ t. []) (λ q. ok []) (later here (observes part 1)) asking_awaits refl
