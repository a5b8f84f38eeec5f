-- ===== src/Session/Live/Timers/Apart.antt =====
-- Histories of a session in which no status query begins while another has no reply
-- (src/debug/session.ts), and what one query or timer at a time means.
use rtl_debugger.Common.{
  ℕ, suc, ◌+◌, ◌≡◌, refl, ◌∙◌, List, [], ◌∷◌, ◌++◌, none, some, ok, throw, ==_iff, arith,
}
use mathlib.Core.Path.{subst}
use rtl_debugger.Session.{is_running}
use rtl_debugger.Session.Live.{
  Live, Await, Answer, Then, call_ends, asks_again, reaches, status_reply, run_reply, pause_reply,
  ahead_reply, back_reply, ask, without, clear, begin_query, time_out,
}
use rtl_debugger.Session.Live.Steps.{
  Replies, Runs, first, next, Step, Reach, runs, pauses, steps_forward, steps_backward, sets, hears,
  times_out, replied, goes_on, here, later,
}

-- The status queries without a reply.
abbrev pub queries : List Await → ℕ
queries [] = 0
queries (status_reply k ∷ ws) = suc (queries ws)
queries (run_reply r k ∷ ws) = queries ws
queries (pause_reply ∷ ws) = queries ws
queries (ahead_reply q ∷ ws) = queries ws
queries (back_reply q ∷ ws) = queries ws

queries-append : (ws vs : List Await) → queries (ws ++ vs) ≡ queries ws + queries vs
queries-append [] vs = omega arith
queries-append (status_reply k ∷ ws) vs = omega (arith, queries-append ws vs)
queries-append (run_reply r k ∷ ws) vs = queries-append ws vs
queries-append (pause_reply ∷ ws) vs = queries-append ws vs
queries-append (ahead_reply q ∷ ws) vs = queries-append ws vs
queries-append (back_reply q ∷ ws) vs = queries-append ws vs

-- No status query waits, where a reply, or a call that goes on, begins one.
abbrev pub ReplyApart : (a : Await) → Answer a → List Await → Type 0
ReplyApart (status_reply k) r ws = Unit
ReplyApart (run_reply t k) (ok u) ws = queries ws ≡ 0
ReplyApart (run_reply t k) (throw e) ws = Unit
ReplyApart pause_reply (ok time) ws = queries ws ≡ 0
ReplyApart pause_reply (throw e) ws = Unit
ReplyApart (ahead_reply q) r ws = Unit
ReplyApart (back_reply q) r ws = Unit

abbrev pub ThenApart : Then → List Await → Type 0
ThenApart call_ends ws = Unit
ThenApart (asks_again t) ws = queries ws ≡ 0
ThenApart (reaches t) ws = Unit

abbrev pub StepApart : {P : Replies} {l m : Live} → Step P l m → Type 0
StepApart (runs t) = Unit
StepApart pauses = Unit
StepApart steps_forward = Unit
StepApart steps_backward = Unit
StepApart (sets t) = Unit
StepApart {l = l} (hears e) = queries l.awaiting ≡ 0
StepApart (times_out i r) = Unit
StepApart (replied a rest r e p) = ReplyApart a r rest
StepApart {l = l} (goes_on k rest e) = ThenApart k l.awaiting

-- No event, run, pause or step begins a status query while another has no reply.
abbrev pub AllApart : {P : Replies} {l : Live} → Reach P l → Type 0
AllApart here = Unit
AllApart (later reached step) = AllApart reached × StepApart step

-- Either one status query waits and no timer runs, or none waits, and the one timer that may run is
-- the one that is kept, of a simulation that runs.
pub data IsSingle (l : Live) : Type 0 where
  waits : queries l.awaiting ≡ 1 → l.timers ≡ [] → l.kept ≡ none → IsSingle l
  rests : queries l.awaiting ≡ 0 → l.timers ≡ [] → l.kept ≡ none → IsSingle l
  polls :
      (i : ℕ)
      → queries l.awaiting ≡ 0
      → l.timers ≡ i ∷ []
      → l.kept ≡ some i
      → l.session.simulation_status.status ≡ is_running
      → IsSingle l

-- What keeps the queries, the timers and the status.
pub same-IsSingle :
    (l m : Live)
    → queries m.awaiting ≡ queries l.awaiting
    → m.timers ≡ l.timers
    → m.kept ≡ l.kept
    → m.session.simulation_status.status ≡ l.session.simulation_status.status
    → IsSingle l
    → IsSingle m
same-IsSingle l m q t k s (waits a b c) = waits (q ∙ a) (t ∙ b) (k ∙ c)
same-IsSingle l m q t k s (rests a b c) = rests (q ∙ a) (t ∙ b) (k ∙ c)
same-IsSingle l m q t k s (polls i a b c d) = polls i (q ∙ a) (t ∙ b) (k ∙ c) (s ∙ d)

pub clear-none : (l : Live) → IsSingle l → queries l.awaiting ≡ 0 → clear l.kept l.timers ≡ []
unfolding clear without
clear-none l (waits a b c) h = absurd (omega (arith, a, h))
clear-none l (rests a b c) h = rw (b, c) refl
clear-none l (polls i a b c d) h = rw (b, c, (==_iff i i).1 refl) refl

pub begin_query-IsSingle :
    (k : Then) (l : Live)
    → queries l.awaiting ≡ 0
    → clear l.kept l.timers ≡ []
    → IsSingle (begin_query k l)
unfolding begin_query
begin_query-IsSingle k l h e =
    waits (omega (arith, queries-append l.awaiting (status_reply k ∷ []), h)) e refl

-- A query begins where none waits.
pub next-IsSingle :
    (k : Then) (l : Live) → IsSingle l → queries l.awaiting ≡ 0 → IsSingle (begin_query k l)
next-IsSingle k l p h = begin_query-IsSingle k l h (clear-none l p h)

only : (i j : ℕ) → Runs i (j ∷ []) → i ≡ j
only i j first = refl
only i j (next r) = elim r [ ]

pub time_out-IsSingle : (i : ℕ) (l : Live) → Runs i l.timers → IsSingle l → IsSingle (time_out i l)
unfolding time_out clear without
time_out-IsSingle i l r (waits a b c) = elim (subst (Runs i) b r) [ ]
time_out-IsSingle i l r (rests a b c) = elim (subst (Runs i) b r) [ ]
time_out-IsSingle i l r (polls j a b c d) =
    begin_query-IsSingle call_ends (record l { timers = without i l.timers }) a
      (rw (b, c, only i j (subst (Runs i) b r), (==_iff j j).1 refl) refl)

-- A command that is no status query.
pub ask-IsSingle : (a : Await) (l : Live) → queries (a ∷ []) ≡ 0 → IsSingle l → IsSingle (ask a l)
ask-IsSingle a l h p =
    same-IsSingle l (ask a l) (omega (arith, queries-append l.awaiting (a ∷ []), h)) refl refl refl
      p
