-- ===== src/Link/Tests.antt =====
-- The links on concrete conversations.
use rtl_debugger.Common.{
  ℕ, ◌+◌, ◌≡◌, refl, inl, Bool, true, false, not, List, [], ◌∷◌, ◌++◌, map, Option, none, some, ok,
  throw, plain_error, Result, arith, ltb,
}
use rtl_debugger.Common.Text.{Text, split, Lacks}
use rtl_debugger.Link.{receive, on_stream_data, send, pause, resume, deliver, malformed}
use rtl_debugger.Link.Framing.{feed, pending, feed-split, feed-send}
use rtl_debugger.Link.Flow.{
  flows, deliveries, marked, is_nil, on_stream_data-Handled, on_stream_data-Fails,
}
use rtl_debugger.Proto.{Event, event, response, simulation_finished, simulation_started}
use rtl_debugger.Link.Waiting
use rtl_debugger.Link.Waiting.{Wire, here, later, sends, on_stream_data-event}
use rtl_debugger.Link.Mock
use rtl_debugger.Link.Mock.{Reply, one, many, answers, received, dispose}

abbrev two_chunks : List Text
two_chunks = (1 ∷ 2 ∷ 0 ∷ 3 ∷ []) ∷ (4 ∷ 0 ∷ 5 ∷ []) ∷ []

feed-split_example :
    (feed [] two_chunks).1 ++ pending (feed [] two_chunks).0 ∷ []
    ≡ split 0 (1 ∷ 2 ∷ 0 ∷ 3 ∷ 4 ∷ 0 ∷ 5 ∷ [])
feed-split_example = feed-split [] two_chunks tt

-- A packet is a number; its text is one code unit that is not NUL.
abbrev text_of : ℕ → Text
text_of n = (n + 1) ∷ []

text_of-Lacks : (n : ℕ) → Lacks 0 (text_of n)
text_of-Lacks n = omega arith

abbrev sent_chunks : List Text
sent_chunks = (1 ∷ []) ∷ (0 ∷ 2 ∷ 0 ∷ []) ∷ []

feed-send_example :
    ((feed [] sent_chunks).1 ≡ map text_of (0 ∷ 1 ∷ [])) × (pending (feed [] sent_chunks).0 ≡ [])
unfolding send
feed-send_example = feed-send text_of (0 ∷ 1 ∷ []) sent_chunks text_of-Lacks refl

-- A text of one code unit is a packet; the owner keeps the packets and refuses 9.
abbrev parse_one : Text → Option ℕ
parse_one [] = none
parse_one (c ∷ []) = some c
parse_one (c ∷ d ∷ t) = none

abbrev keep : ℕ → List ℕ → List ℕ × Bool
keep p kept = (kept ++ p ∷ [], ltb p 9)

abbrev three : Text
three = 1 ∷ 0 ∷ 2 ∷ 0 ∷ 3 ∷ 0 ∷ []

three_trace : on_stream_data parse_one keep [] three [] ≡ (
  [] ∷ [],
  1 ∷ 2 ∷ 3 ∷ [],
  pause ∷ deliver 1 ∷ resume ∷ deliver 2 ∷ resume ∷ deliver 3 ∷ resume ∷ resume ∷ [],
)
unfolding on_stream_data receive
three_trace = refl

on_stream_data-Handled_example :
    let r = on_stream_data parse_one keep [] three [] in
    (r.0 ≡ [] ∷ [])
    × (r.1 ≡ 1 ∷ 2 ∷ 3 ∷ [])
    × (deliveries true r.2 ≡ marked (1 ∷ 2 ∷ 3 ∷ []))
    × (flows true r.2 ≡ true)
unfolding receive
on_stream_data-Handled_example =
    on_stream_data-Handled parse_one keep [] three [] (1 ∷ 2 ∷ 3 ∷ []) (1 ∷ 2 ∷ 3 ∷ []) (
      1,
      2 ∷ 3 ∷ [],
      refl,
      refl,
      refl,
      (2, 3 ∷ [], refl, refl, refl, (3, [], refl, refl, refl, (refl, refl))),
    )

abbrev bad_second : Text
bad_second = 1 ∷ 0 ∷ 7 ∷ 7 ∷ 0 ∷ 3 ∷ 0 ∷ []

on_stream_data-Fails_example :
    let r = on_stream_data parse_one keep [] bad_second [] in
    (r.1 ≡ 1 ∷ [])
    × (deliveries true r.2 ≡ marked (1 ∷ []))
    × (flows true r.2 ≡ not (is_nil {Packet = ℕ} (1 ∷ [])))
unfolding receive
on_stream_data-Fails_example =
    on_stream_data-Fails parse_one keep [] bad_second ((1 ∷ []) ∷ []) (7 ∷ 7 ∷ []) ((3 ∷ []) ∷ [])
      [] (1 ∷ []) (1 ∷ []) (1 ∷ []) [] (malformed (7 ∷ 7 ∷ []) ∷ []) refl
      (1, [], refl, refl, refl, (refl, refl)) (inl (refl, refl, refl, refl))

abbrev script : List (ℕ × Reply ℕ)
script = (0, one 10) ∷ (1, many (11 ∷ 12 ∷ [])) ∷ []

abbrev collect : ℕ → List ℕ → List ℕ × Result (Unit {0})
collect p kept = (kept ++ p ∷ [], ok tt)

abbrev close : List ℕ → List ℕ × Result (Unit {0})
close kept = (kept ++ 99 ∷ [], ok tt)

send_unexpected_example :
    Mock.send text_of collect close script 5 []
    ≡ record { owner = []; conversation = script; settled = throw plain_error }
send_unexpected_example =
    Mock.send_unexpected text_of collect close 0 5 (one 10) ((1, many (11 ∷ 12 ∷ [])) ∷ []) []
      (λ e. cc)

-- The simulation finishes, and the session asks for its status again and again.
abbrev steady : Wire
steady = record { flowing = true; handlers = []; sent = 4; settled = 3; times = 1 }

abbrev finished : Event
finished = simulation_finished (5 ∷ [])

abbrev asked_again : Wire
asked_again = let w = Waiting.on_stream_data (event finished ∷ []) steady in Waiting.send w

on_stream_data-event_example :
    (asked_again.flowing ≡ false) × (asked_again.settled ≡ steady.settled)
on_stream_data-event_example =
    on_stream_data-event finished [] steady asked_again refl (omega arith) (later here sends)

-- Behind a reply in its chunk an event leaves the stream flowing.
reply_first :
    (Waiting.on_stream_data (response simulation_started ∷ event finished ∷ []) steady).flowing
    ≡ true
unfolding Waiting.on_stream_data Waiting.process
reply_first = refl
