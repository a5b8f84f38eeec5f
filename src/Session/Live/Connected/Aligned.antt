-- ===== src/Session/Live/Connected/Aligned.antt =====
-- The connection answers the session's commands in their order: what it settles is the reply to the
-- first command that the session awaits (src/cxxrtl/client.ts, src/debug/session.ts).
use rtl_debugger.Common.{◌≡◌, refl, sym, ap, ◌∙◌, List, [], ◌∷◌, length}
use mathlib.Core.Path.{subst}
use rtl_debugger.Proto.{
  ServerPacket, greeting, response, event, error, Response, ErrorPacket, Event, ServerGreeting,
}
use rtl_debugger.Client
use rtl_debugger.Client.{
  Connection, Effect, initializing, on_connected, connected, connect, perform, on_link_recv,
  resolved, rejected, command_error,
}
use rtl_debugger.Client.Calls.{HasType}
use rtl_debugger.Client.Replies.{answer, refusal}
use rtl_debugger.Client.Turns.{Awaits, connect-Awaits, greeting_lem, event_lem, reply_lem}
use rtl_debugger.Session.Live.{Await, command_of, on_event, new_live}
use rtl_debugger.Session.Live.Steps
use rtl_debugger.Session.Live.Steps.{Any, Step, Reach, hears, replied}
use rtl_debugger.Session.Live.Connected.{
  Joint, refused, answered, resolve, reject, IsAny, on_effect, receive, Fits, FitsFirst, acts,
  receives, greeted, begun, Joined, here, later,
}
use rtl_debugger.Session.Live.Connected.Extends.{Step-Extends, on_event-Extends}
use rtl_debugger.Session.Live.Connected.Named.{
  IsAligned, perform_all-IsNamed, acted-IsAligned, one_effect, answer_of-HasType, resumed-IsAligned,
  first_name, taken,
}

response_turn :
    (r : Response) (j : Joint) (a : Await) (ws : List Await)
    → IsAligned j
    → j.connection.state ≡ connected
    → j.live.awaiting ≡ a ∷ ws
    → HasType (command_of a) r
    → IsAligned (receive (response r) j)
unfolding receive on_effect
response_turn r j a ws h s e t =
    let o = on_link_recv (response r) j.connection in
    let k = record j { connection = o.connection } in
    let front = first_name j a ws h e in
    let (effects, waits) =
      reply_lem (answer r) front.name front.others j.connection s
        (subst (λ ns. Awaits ns j.connection) front.names h.waits) in
    let (x, same) = answer_of-HasType a r t in
    subst IsAligned
      (sym (
        one_effect (resolved front.name r) o.effects k effects
        ∙ ap (λ y. resolve r y k) (taken j a ws front e)
        ∙ ap (λ y. answered a y front.others ws k) same))
      (resumed-IsAligned a x front.others ws k h.reached e waits front.count)

error_turn :
    (x : ErrorPacket) (j : Joint) (a : Await) (ws : List Await)
    → IsAligned j
    → j.connection.state ≡ connected
    → j.live.awaiting ≡ a ∷ ws
    → IsAligned (receive (error x) j)
unfolding receive on_effect
error_turn x j a ws h s e =
    let o = on_link_recv (error x) j.connection in
    let k = record j { connection = o.connection } in
    let front = first_name j a ws h e in
    let (effects, waits) =
      reply_lem (refusal x) front.name front.others j.connection s
        (subst (λ ns. Awaits ns j.connection) front.names h.waits) in
    subst IsAligned
      (sym (
        one_effect (rejected front.name (command_error x)) o.effects k effects
        ∙ ap (λ y. reject y k) (taken j a ws front e)))
      (resumed-IsAligned a (refused a) front.others ws k h.reached e waits front.count)

greeting_turn :
    (g : ServerGreeting) (j : Joint)
    → IsAligned j
    → j.connection.state ≡ initializing
    → g.version ≡ 0
    → IsAligned (receive (greeting g) j)
unfolding receive on_effect
greeting_turn g j h s v =
    let o = on_link_recv (greeting g) j.connection in
    let k = record j { connection = o.connection } in
    let (effects, waits) = greeting_lem g j.names j.connection s v h.waits in
    subst IsAligned (sym (one_effect on_connected o.effects k effects))
      (record { reached = h.reached; waits = waits; count = h.count })

event_turn :
    (x : Event) (j : Joint)
    → IsAligned j
    → j.connection.state ≡ connected
    → IsAligned (receive (event x) j)
unfolding receive on_effect
event_turn x j h s =
    let o = on_link_recv (event x) j.connection in
    let k = record j { connection = o.connection } in
    let (effects, waits) = event_lem x j.names j.connection s h.waits in
    subst IsAligned (sym (one_effect (Client.on_event x) o.effects k effects)) (
      acted-IsAligned (on_event x j.live) k (on_event-Extends x j.live)
        (Steps.later h.reached (hears x)) (record { waits = waits; count = h.count }))

receive-IsAligned :
    (p : ServerPacket) (j : Joint) → Fits j p → IsAligned j → IsAligned (receive p j)
receive-IsAligned (greeting g) j (s, v) h = greeting_turn g j h s v
receive-IsAligned (event x) j s h = event_turn x j h s
receive-IsAligned (response r) j (s, t) h = first j.live.awaiting refl t
  where
    first :
        (ws : List Await)
        → j.live.awaiting ≡ ws
        → FitsFirst ws r
        → IsAligned (receive (response r) j)
    first [] e t = absurd t
    first (a ∷ ws) e t = response_turn r j a ws h s e t
receive-IsAligned (error x) j (s, t) h = first j.live.awaiting refl t
  where
    first : (ws : List Await) → j.live.awaiting ≡ ws → IsAny ws → IsAligned (receive (error x) j)
    first [] e t = absurd t
    first (a ∷ ws) e t = error_turn x j a ws h s e

begun-IsAligned : IsAligned begun
unfolding begun new_live
begun-IsAligned =
    let (named, same) =
      perform_all-IsNamed new_live.awaiting 0 greeted
        (record { waits = connect-Awaits 0; count = refl }) in
    record {
      reached = subst (Reach Any) (sym same) Steps.here;
      waits = named.waits;
      count = named.count ∙ ap (λ l. length l.awaiting) (sym same);
    }

-- In every state that a session and its connection come to from their constructors, by what the
-- session does and the packets of a server that keeps to the protocol, the session is one that its
-- own steps come to, with each reply at the first command that it awaits; and the connection keeps a
-- promise for each command that the session awaits, by their names in their order, and a time for
-- each, and is not shut.
pub Joined-IsAligned : (j : Joint) → Joined j → IsAligned j
Joined-IsAligned j here = begun-IsAligned
Joined-IsAligned k (later {j} joined (acts s own)) =
    let h = Joined-IsAligned j joined in
    acted-IsAligned _ j (Step-Extends s own) (Steps.later h.reached s)
      (record { waits = h.waits; count = h.count })
Joined-IsAligned k (later {j} joined (receives p fits)) =
    receive-IsAligned p j fits (Joined-IsAligned j joined)
