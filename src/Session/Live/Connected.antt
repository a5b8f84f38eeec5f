-- ===== src/Session/Live/Connected.antt =====
-- A session whose calls overlap (src/debug/session.ts) on its connection (src/cxxrtl/client.ts): its
-- commands are performed there, with nothing in between at the `await` of `perform`, and what the
-- connection settles resumes the code behind an `await`.
pub mod Extends
pub mod Named
pub mod Aligned
mod Tests
use rtl_debugger.Common.{
  ℕ, suc, ◌≡◌, Bool, true, false, List, [], ◌∷◌, ◌++◌, Option, none, some, Result, ok, throw,
  plain_error, ◌==◌, if◌then◌else◌, length, drop,
}
use rtl_debugger.Proto
use rtl_debugger.Proto.{
  ServerPacket, greeting, response, event, error, Response, Event, items_referenced, scopes_listed,
  items_listed, interval_queried, status_got, simulation_started, pause_requested,
}
use rtl_debugger.Client
use rtl_debugger.Client.{
  Connection, initializing, connected, Effect, sent, resolved, rejected, on_connected,
  on_disconnected, Outcome, perform, on_link_recv, connect,
}
use rtl_debugger.Client.Calls.{HasType}
use rtl_debugger.Session.Live
use rtl_debugger.Session.Live.{
  Live, Await, Answer, status_reply, run_reply, pause_reply, ahead_reply, back_reply, command_of,
  resume, new_live,
}
use rtl_debugger.Session.Live.Steps.{
  Any, Step, runs, pauses, steps_forward, steps_backward, sets, hears, times_out, replied, goes_on,
}

-- `names` are the promises of the commands that the session awaits, in their order, and `next` is
-- the name of the next one. The times of the console's output are left out.
pub record Joint : Type 0 where
  pub live : Live
  pub connection : Connection
  pub names : List ℕ
  pub next : ℕ

-- The session's new commands go to the connection.
pub perform_all : List Await → Joint → Joint
perform_all [] j = j
perform_all (a ∷ ws) j = perform_all ws (record j {
  connection = (perform j.next (command_of a) 0 j.connection).connection;
  names = j.names ++ j.next ∷ [];
  next = suc j.next;
})

-- The session acts, and asks for what it awaits then and did not before.
pub acted : Live → Joint → Joint
unfolding perform_all
acted m j = perform_all (drop (length j.live.awaiting) m.awaiting) (record j { live = m })

-- The promise of a name, what awaits it, and the others.
pub take : ℕ → List ℕ → List Await → Option (Await × List ℕ × List Await)
take i (n ∷ names) (a ∷ ws) =
    let rest = take i names ws in
    if i == n
    then some (a, names, ws)
    else elim rest [ none ↦ none | some (b, ms, vs) ↦ some (b, n ∷ ms, a ∷ vs) ]
take i [] ws = none
take i (n ∷ names) [] = none

-- A response as the code takes it to be, by `as`.
pub answer_of : (a : Await) → Response → Option (Answer a)
answer_of (status_reply k) (status_got r) = some (ok r)
answer_of (run_reply r k) simulation_started = some (ok tt)
answer_of pause_reply (pause_requested time) = some (ok time)
answer_of (ahead_reply q) (interval_queried samples) = some (ok samples)
answer_of (back_reply q) (interval_queried samples) = some (ok samples)
answer_of _ _ = none

-- The promise is rejected.
pub refused : (a : Await) → Answer a
refused (status_reply k) = throw plain_error
refused (run_reply r k) = throw plain_error
refused pause_reply = throw plain_error
refused (ahead_reply q) = throw plain_error
refused (back_reply q) = throw plain_error

-- The code behind the `await` of a promise.
pub resumed : (a : Await) → Answer a → List ℕ → List Await → Joint → Joint
unfolding acted
resumed a x names ws j =
    let l = record j.live { awaiting = ws } in
    acted (resume a x l) (record j { live = l; names = names })

abbrev pub answered : (a : Await) → Option (Answer a) → List ℕ → List Await → Joint → Joint
answered a none names ws j = j
answered a (some x) names ws j = resumed a x names ws j

-- What awaits a promise that resolves, and one that is rejected.
abbrev pub resolve : Response → Option (Await × List ℕ × List Await) → Joint → Joint
resolve r none j = j
resolve r (some (a, names, ws)) j = answered a (answer_of a r) names ws j

abbrev pub reject : Option (Await × List ℕ × List Await) → Joint → Joint
reject none j = j
reject (some (a, names, ws)) j = resumed a (refused a) names ws j

pub on_effect : Effect → Joint → Joint
unfolding take acted
on_effect (sent packet) j = j
on_effect (resolved i r) j = resolve r (take i j.names j.live.awaiting) j
on_effect (rejected i f) j = reject (take i j.names j.live.awaiting) j
on_effect on_connected j = j
on_effect on_disconnected j = j
on_effect (Client.on_event e) j = acted (Live.on_event e j.live) j

pub on_effects : List Effect → Joint → Joint
unfolding on_effect
on_effects [] j = j
on_effects (e ∷ es) j = on_effects es (on_effect e j)

pub receive : ServerPacket → Joint → Joint
unfolding on_effects
receive p j =
    let o = on_link_recv p j.connection in
    on_effects o.effects (record j { connection = o.connection })

-- The packets of a server that keeps to the protocol: a greeting of the version, and then events, and
-- a response of its type or an error for each command in its order.
abbrev pub FitsFirst : List Await → Response → Type 0
FitsFirst [] r = ⊥
FitsFirst (a ∷ ws) r = HasType (command_of a) r

abbrev pub IsAny : List Await → Type 0
IsAny [] = ⊥
IsAny (a ∷ ws) = Unit

abbrev pub Fits : Joint → ServerPacket → Type 0
Fits j (greeting g) = (j.connection.state ≡ initializing) × (g.version ≡ 0)
Fits j (response r) = (j.connection.state ≡ connected) × FitsFirst j.live.awaiting r
Fits j (error e) = (j.connection.state ≡ connected) × IsAny j.live.awaiting
Fits j (event e) = j.connection.state ≡ connected

-- The steps that are not replies or events of the connection.
abbrev pub IsOwn : {l m : Live} → Step Any l m → Type 0
IsOwn (runs t) = Unit
IsOwn pauses = Unit
IsOwn steps_forward = Unit
IsOwn steps_backward = Unit
IsOwn (sets t) = Unit
IsOwn (hears e) = ⊥
IsOwn (times_out i r) = Unit
IsOwn (replied a rest r e p) = ⊥
IsOwn (goes_on k rest e) = Unit

pub data Turn (j : Joint) : Joint → Type 0 where
  acts : {m : Live} → (s : Step Any j.live m) → IsOwn s → Turn j (acted m j)
  receives : (p : ServerPacket) → Fits j p → Turn j (receive p j)

-- Behind the connection's constructor, which greets.
abbrev pub greeted : Joint
greeted = record { live = new_live; connection = (connect 0).connection; names = []; next = 0 }

-- And behind the session's, whose query is sent before there is a greeting of the server.
pub begun : Joint
unfolding perform_all
begun = perform_all new_live.awaiting greeted

pub data Joined : Joint → Type 0 where
  here : Joined begun
  later : {j k : Joint} → Joined j → Turn j k → Joined k
