-- ===== src/Session/Live/Connected/Tests.antt =====
-- A session on its connection, with concrete packets (src/debug/session.ts, src/cxxrtl/client.ts).
use rtl_debugger.Common.{◌≡◌, refl, sym, ap, ◌∙◌, [], ◌∷◌}
use mathlib.Core.Path.{subst}
use rtl_debugger.Proto.{ServerGreeting, Response, greeting, response, status_got, finished}
use rtl_debugger.Client.{initializing, connected, on_connected, on_link_recv}
use rtl_debugger.Client.Turns.{
  connect-Awaits, connect-state, perform-state, greeting_lem, greeting-state,
}
use rtl_debugger.Common.Text.{codes}
use rtl_debugger.Session.Live.{
  command_of, new_live, begin_query, pause_simulation, status_reply, call_ends,
}
use rtl_debugger.Session.Live.Steps.{pauses}
use rtl_debugger.Session.Live.Connected.{
  Joint, FitsFirst, begun, greeted, perform_all, receive, on_effect, acted, here, later, acts,
  receives,
}
use rtl_debugger.Session.Live.Connected.Named.{IsAligned, one_effect}
use rtl_debugger.Session.Live.Connected.Aligned.{Joined-IsAligned}

abbrev hello : ServerGreeting
hello = record { version = 0; commands = []; events = []; item_values_encoding = [] }

abbrev opened : Joint
opened = receive (greeting hello) begun

begun-state : begun.connection.state ≡ initializing
unfolding begun perform_all new_live
begun-state =
    perform-state [] 0 (command_of (status_reply call_ends)) greeted.connection (connect-Awaits 0)
    ∙ connect-state 0

-- The greeting changes the connection only.
opened-eq :
    opened
    ≡ record begun { connection = (on_link_recv (greeting hello) begun.connection).connection }
unfolding receive on_effect
opened-eq =
    let o = on_link_recv (greeting hello) begun.connection in
    let waits = (Joined-IsAligned begun here).waits in
    one_effect on_connected o.effects (record begun { connection = o.connection })
      (greeting_lem hello begun.names begun.connection begun-state refl waits).0

opened-state : opened.connection.state ≡ connected
opened-state =
    ap (λ j. j.connection.state) opened-eq ∙ greeting-state hello begun.connection begun-state refl

asked : opened.live.awaiting ≡ status_reply call_ends ∷ []
unfolding begun perform_all new_live begin_query
asked = ap (λ j. j.live.awaiting) opened-eq

abbrev ended : Response
ended = status_got (finished (codes "5.0"))

ended-FitsFirst : FitsFirst (status_reply call_ends ∷ []) ended
unfolding command_of
ended-FitsFirst = tt

-- The server greets, replies to the first status query that the simulation has finished, and the
-- session asks for a pause.
abbrev paused_then : Joint
paused_then = let j = receive (response ended) opened in acted (pause_simulation j.live) j

Joined-IsAligned_example : IsAligned paused_then
Joined-IsAligned_example = Joined-IsAligned paused_then (
    later
      (later (later here (receives (greeting hello) (begun-state, refl))) (
        receives (response ended)
          (opened-state, subst (λ ws. FitsFirst ws ended) (sym asked) ended-FitsFirst)))
      (acts pauses tt))
