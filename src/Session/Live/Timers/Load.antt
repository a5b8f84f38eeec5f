-- ===== src/Session/Live/Timers/Load.antt =====
-- The timers of a session, and the status queries that have begun or will (src/debug/session.ts).
use rtl_debugger.Common.{
  ℕ, suc, ◌+◌, ◌≤◌, ◌≡◌, refl, inl, inr, List, [], ◌∷◌, ◌++◌, Option, none, some, Result, ok, throw,
  ◌==◌, ==_iff, Bool-cases, length, length-append, arith,
}
use rtl_debugger.Session.{SimulationStatus, Outcome, is_running, state_eq}
use rtl_debugger.Session.Live.{
  Live, Await, Settled, settle, Then, call_ends, asks_again, reaches, status_reply, run_reply,
  pause_reply, ahead_reply, back_reply, ask, without, clear, begin_query, end_query, end_step,
}
use rtl_debugger.Session.Live.Steps.{Runs, first, next}

-- The status queries that a call is still to begin.
abbrev pub queries_then : Then → ℕ
queries_then call_ends = 0
queries_then (asks_again t) = 1
queries_then (reaches t) = 0

-- Those that have begun and those that will, for a command without a reply.
abbrev pub queries_at : Await → ℕ
queries_at (status_reply k) = suc (queries_then k)
queries_at (run_reply r k) = suc (queries_then k)
queries_at pause_reply = 1
queries_at (ahead_reply q) = 0
queries_at (back_reply q) = 0

unfoldable pub awaited : List Await → ℕ
awaited [] = 0
awaited (a ∷ ws) = queries_at a + awaited ws

unfoldable pub to_come : List Then → ℕ
to_come [] = 0
to_come (k ∷ ks) = queries_then k + to_come ks

pub awaited-append : (ws vs : List Await) → awaited (ws ++ vs) ≡ awaited ws + awaited vs
unfolding awaited
awaited-append [] vs = omega arith
awaited-append (w ∷ ws) vs = omega (arith, awaited-append ws vs)

pub to_come-append : (ks js : List Then) → to_come (ks ++ js) ≡ to_come ks + to_come js
unfolding to_come
to_come-append [] js = omega arith
to_come-append (k ∷ ks) js = omega (arith, to_come-append ks js)

-- The timers, and the status queries that have begun or will.
unfoldable pub load : Live → ℕ
load l = length l.timers + awaited l.awaiting + to_come l.ready

pub length-without : (i : ℕ) (is : List ℕ) → length (without i is) ≤ length is
unfolding without
length-without i [] = omega arith
length-without i (j ∷ is) = elim (Bool-cases (i == j)) [
  | inl e ↦ rw e (omega (arith, length-without i is))
  | inr e ↦ rw e (omega (arith, length-without i is))
]

pub length-without_running :
    (i : ℕ) (is : List ℕ) → Runs i is → suc (length (without i is)) ≤ length is
unfolding without
length-without_running i [] r = elim r [ ]
length-without_running i (j ∷ is) first =
    rw ((==_iff i i).1 refl) (omega (arith, length-without i is))
length-without_running i (j ∷ is) (next r) = elim (Bool-cases (i == j)) [
  | inl e ↦ rw e (omega (arith, length-without_running i is r))
  | inr e ↦ rw e (omega (arith, length-without_running i is r))
]

length-clear : (kept : Option ℕ) (is : List ℕ) → length (clear kept is) ≤ length is
unfolding clear
length-clear none is = omega arith
length-clear (some i) is = length-without i is

pub ask-load : (a : Await) (l : Live) → load (ask a l) ≡ load l + queries_at a
unfolding load awaited
ask-load a l = omega (arith, awaited-append l.awaiting (a ∷ []))

pub lighter : (r : Settled) (n : ℕ) (l : Live) → load (settle r l) ≤ load l + n
unfolding load
lighter r n l = omega arith

pub begin_query-load :
    (k : Then) (l : Live) → load (begin_query k l) ≤ load l + suc (queries_then k)
unfolding load awaited begin_query
begin_query-load k l =
    omega (arith, awaited-append l.awaiting (status_reply k ∷ []), length-clear l.kept l.timers)

pub end_step-load : (o : Outcome Unit) (l : Live) → load (end_step o l) ≡ load l
unfolding load
end_step-load (ok u, s) l = refl
end_step-load (throw e, s) l = refl

pub end_query-load :
    (k : Then) (x : Result SimulationStatus) (l : Live)
    → load (end_query k x l) ≤ load l + suc (queries_then k)
unfolding load end_query to_come
end_query-load k (throw e) l = omega arith
end_query-load k (ok new) l = elim (Bool-cases (state_eq new.status is_running)) [
  | inl on ↦
      rw on (omega (arith, to_come-append l.ready (k ∷ []), length-append l.timers (l.made ∷ [])))
  | inr off ↦ rw off (omega (arith, to_come-append l.ready (k ∷ [])))
]
