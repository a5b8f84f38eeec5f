-- ===== src/Observer/Asking.antt =====
-- Observing a part of the design and asking for its value (src/debug/observer.ts).
use rtl_debugger.Common.{ℕ, ◌≡◌, ap, Option, none, some}
use rtl_debugger.Common.Map.{get, get-put}
use rtl_debugger.Variable.{Designation}
use rtl_debugger.Sample.{canonical_key}
use rtl_debugger.Observer.{
  Observer, Observable, observe, observe_at, query, value_of, register, new_observable,
  put_observable, invalidate,
}

value-observe_at :
    (d : Designation) (callback : ℕ) (o : Option Observable) (s : Observer)
    → value_of (get (canonical_key d) (observe_at (canonical_key d) d callback o s).observables)
      ≡ value_of o
unfolding observe_at register new_observable
value-observe_at d callback (some o) s =
    ap value_of (get-put (canonical_key d) (register callback o) s.observables)
value-observe_at d callback none s =
    let key = canonical_key d in
    let added = record (put_observable key (new_observable d) s) { reference = none } in
    ap value_of (get-put key (register callback (new_observable d)) (invalidate added).observables)

-- Observing a part does not change the value that is given for it: none, if it was not observed.
pub query-observe :
    (d : Designation) (callback : ℕ) (s : Observer) → query d (observe d callback s) ≡ query d s
unfolding observe query
query-observe d callback s = value-observe_at d callback (get (canonical_key d) s.observables) s
