-- ===== src/Session/Live/Connected/Named.antt =====
-- The promises of the connection, by the names of the commands that the session awaits
-- (src/cxxrtl/client.ts, src/debug/session.ts).
use rtl_debugger.Common.{
  ℕ, suc, ◌+◌, ◌≡◌, refl, sym, ap, ◌∙◌, List, [], ◌∷◌, ◌++◌, length, length-append, drop,
  drop-length, some, ==_iff, ok, arith,
}
use mathlib.Core.Path.{subst}
use rtl_debugger.Proto.{
  Response, scopes_listed, items_listed, items_referenced, interval_queried, status_got,
  simulation_started, pause_requested,
}
use rtl_debugger.Client.{Effect, perform}
use rtl_debugger.Client.Calls.{HasType}
use rtl_debugger.Client.Turns.{Awaits, perform-Awaits}
use rtl_debugger.Session.Live.{
  Live, Await, Answer, status_reply, run_reply, pause_reply, ahead_reply, back_reply, command_of,
  resume,
}
use rtl_debugger.Session.Live.Steps
use rtl_debugger.Session.Live.Steps.{Any, Step, Reach, hears, replied}
use rtl_debugger.Session.Live.Connected.{
  Joint, perform_all, acted, take, answer_of, resumed, on_effect, on_effects,
}
use rtl_debugger.Session.Live.Connected.Extends.{Extends, resume-Extends}

-- As many promises wait as the session awaits, by their names.
pub record IsNamed (n : ℕ) (j : Joint) : Type 0 where
  pub waits : Awaits j.names j.connection
  pub count : length j.names ≡ n

pub record IsAligned (j : Joint) : Type 0 where
  pub reached : Reach Any j.live
  pub waits : Awaits j.names j.connection
  pub count : length j.names ≡ length j.live.awaiting

pub perform_all-IsNamed :
    (ws : List Await) (n : ℕ) (j : Joint)
    → IsNamed n j
    → IsNamed (n + length ws) (perform_all ws j) × ((perform_all ws j).live ≡ j.live)
unfolding perform_all
perform_all-IsNamed [] n j h = (record { waits = h.waits; count = omega (arith, h.count) }, refl)
perform_all-IsNamed (a ∷ ws) n j h =
    let k = record j {
      connection = (perform j.next (command_of a) 0 j.connection).connection;
      names = j.names ++ j.next ∷ [];
      next = suc j.next;
    } in
    let (named, same) = perform_all-IsNamed ws (suc n) k (record {
      waits = perform-Awaits j.names j.next (command_of a) j.connection h.waits;
      count = omega (arith, length-append j.names (j.next ∷ []), h.count);
    }) in
    (record { waits = named.waits; count = omega (arith, named.count) }, same)

pub acted-IsAligned :
    (m : Live) (j : Joint)
    → Extends j.live m
    → Reach Any m
    → IsNamed (length j.live.awaiting) j
    → IsAligned (acted m j)
unfolding acted
acted-IsAligned m j x r h =
    let new = drop (length j.live.awaiting) m.awaiting in
    let whole : new ≡ x.asked =
      ap (λ ws. drop (length j.live.awaiting) ws) x.same ∙ drop-length j.live.awaiting x.asked in
    let (named, same) =
      perform_all-IsNamed new (length j.live.awaiting) (record j { live = m })
        (record { waits = h.waits; count = h.count }) in
    record {
      reached = subst (Reach Any) (sym same) r;
      waits = named.waits;
      count =
          named.count
          ∙ ap (λ ws. length j.live.awaiting + length ws) whole
          ∙ sym (length-append j.live.awaiting x.asked)
          ∙ ap length (sym x.same)
          ∙ ap (λ l. length l.awaiting) (sym same);
    }

pub one_effect :
    (f : Effect) (es : List Effect) (j : Joint) → es ≡ f ∷ [] → on_effects es j ≡ on_effect f j
unfolding on_effects
one_effect f es j e = ap (λ x. on_effects x j) e

take_first :
    (i : ℕ) (names : List ℕ) (a : Await) (ws : List Await)
    → take i (i ∷ names) (a ∷ ws) ≡ some (a, names, ws)
unfolding take
take_first i names a ws = rw ((==_iff i i).1 refl) refl

-- A response of the command's type is what the code takes it to be.
pub answer_of-HasType :
    (a : Await) (r : Response)
    → HasType (command_of a) r
    → (x : Answer a) × (answer_of a r ≡ some x)
unfolding answer_of command_of
answer_of-HasType (status_reply k) (scopes_listed s) h = absurd h
answer_of-HasType (status_reply k) (items_listed s) h = absurd h
answer_of-HasType (status_reply k) items_referenced h = absurd h
answer_of-HasType (status_reply k) (interval_queried s) h = absurd h
answer_of-HasType (status_reply k) (status_got s) h = (ok s, refl)
answer_of-HasType (status_reply k) simulation_started h = absurd h
answer_of-HasType (status_reply k) (pause_requested s) h = absurd h
answer_of-HasType (run_reply q k) (scopes_listed s) h = absurd h
answer_of-HasType (run_reply q k) (items_listed s) h = absurd h
answer_of-HasType (run_reply q k) items_referenced h = absurd h
answer_of-HasType (run_reply q k) (interval_queried s) h = absurd h
answer_of-HasType (run_reply q k) (status_got s) h = absurd h
answer_of-HasType (run_reply q k) simulation_started h = (ok tt, refl)
answer_of-HasType (run_reply q k) (pause_requested s) h = absurd h
answer_of-HasType pause_reply (scopes_listed s) h = absurd h
answer_of-HasType pause_reply (items_listed s) h = absurd h
answer_of-HasType pause_reply items_referenced h = absurd h
answer_of-HasType pause_reply (interval_queried s) h = absurd h
answer_of-HasType pause_reply (status_got s) h = absurd h
answer_of-HasType pause_reply simulation_started h = absurd h
answer_of-HasType pause_reply (pause_requested s) h = (ok s, refl)
answer_of-HasType (ahead_reply q) (scopes_listed s) h = absurd h
answer_of-HasType (ahead_reply q) (items_listed s) h = absurd h
answer_of-HasType (ahead_reply q) items_referenced h = absurd h
answer_of-HasType (ahead_reply q) (interval_queried s) h = (ok s, refl)
answer_of-HasType (ahead_reply q) (status_got s) h = absurd h
answer_of-HasType (ahead_reply q) simulation_started h = absurd h
answer_of-HasType (ahead_reply q) (pause_requested s) h = absurd h
answer_of-HasType (back_reply q) (scopes_listed s) h = absurd h
answer_of-HasType (back_reply q) (items_listed s) h = absurd h
answer_of-HasType (back_reply q) items_referenced h = absurd h
answer_of-HasType (back_reply q) (interval_queried s) h = (ok s, refl)
answer_of-HasType (back_reply q) (status_got s) h = absurd h
answer_of-HasType (back_reply q) simulation_started h = absurd h
answer_of-HasType (back_reply q) (pause_requested s) h = absurd h

-- The code behind the first `await` runs on.
pub resumed-IsAligned :
    (a : Await) (x : Answer a) (names : List ℕ) (ws : List Await) (j : Joint)
    → Reach Any j.live
    → j.live.awaiting ≡ a ∷ ws
    → Awaits names j.connection
    → length names ≡ length ws
    → IsAligned (resumed a x names ws j)
unfolding resumed
resumed-IsAligned a x names ws j r e w n =
    let l = record j.live { awaiting = ws } in
    let step = Steps.later r (replied a ws x e tt) in
    acted-IsAligned (resume a x l) (record j { live = l; names = names }) (resume-Extends a x l)
      step (record { waits = w; count = n })

-- The first name and the first command of a joint that awaits a reply.
pub record Front (j : Joint) (a : Await) (ws : List Await) : Type 0 where
  pub name : ℕ
  pub others : List ℕ
  pub names : j.names ≡ name ∷ others
  pub count : length others ≡ length ws

pub first_name :
    (j : Joint) (a : Await) (ws : List Await)
    → IsAligned j
    → j.live.awaiting ≡ a ∷ ws
    → Front j a ws
first_name j a ws h e = found j.names refl (h.count ∙ ap length e)
  where
    found : (ns : List ℕ) → j.names ≡ ns → length ns ≡ length (a ∷ ws) → Front j a ws
    found [] same n = absurd (omega (arith, n))
    found (i ∷ ns) same n = record { name = i; others = ns; names = same; count = omega (arith, n) }

-- What awaits the first name is taken.
pub taken :
    (j : Joint) (a : Await) (ws : List Await) (front : Front j a ws)
    → j.live.awaiting ≡ a ∷ ws
    → take front.name j.names j.live.awaiting ≡ some (a, front.others, ws)
taken j a ws front e =
    ap (λ ns. take front.name ns j.live.awaiting) front.names
    ∙ ap (λ vs. take front.name (front.name ∷ front.others) vs) e
    ∙ take_first front.name front.others a ws
