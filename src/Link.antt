-- ===== src/Link.antt =====
-- src/cxxrtl/link.ts: the stream link, which cuts a byte stream into packets and hands them on, and
-- the mock link of scripted conversations.
pub mod Framing
pub mod Flow
pub mod Waiting
pub mod Mock
mod Tests
use rtl_debugger.Common.{
  ℕ, ◌≡◌, Bool, true, false, List, [], ◌∷◌, ◌++◌, Option, none, some, if◌then◌else◌,
}
use rtl_debugger.Common.Text.{Text, join, split}

-- All but the last of the parts that follow the first.
abbrev pub all_but_last : List Text → List Text
all_but_last [] = []
all_but_last (p ∷ []) = []
all_but_last (p ∷ q ∷ ps) = p ∷ all_but_last (q ∷ ps)

abbrev pub last_of : Text → List Text → Text
last_of p [] = p
last_of p (q ∷ ps) = last_of q ps

-- The receive buffer after a chunk, and the complete packets: `parts` is the chunk split at NUL.
take_parts : List Text → List Text → List Text × List Text
take_parts buffer [] = (buffer, [])
take_parts buffer (first ∷ []) = (buffer ++ first ∷ [], [])
take_parts buffer (first ∷ r ∷ rest) =
    (last_of r rest ∷ [], join [] (buffer ++ first ∷ []) ∷ all_but_last (r ∷ rest))

-- The first half of `onStreamData`.
unfoldable pub receive : List Text → Text → List Text × List Text
unfolding take_parts
receive buffer chunk = take_parts buffer (split 0 chunk)

-- What the link does, in order: to the stream, to its owner, to the console.
pub data Act (Packet : Type 0) : Type 0 where
  pause resume : Act Packet
  deliver : Packet → Act Packet
  handler_failed : Act Packet
  malformed : Text → Act Packet

-- `parse` is `JSON.parse`, which may throw. `on_recv` is what the owner does with a packet: its new
-- state, and whether the promise resolves.
module _ {S Packet : Type 0} (parse : Text → Option Packet) (on_recv : Packet → S → S × Bool) where
  -- The loop over the packets, and the `resume` behind it.
  process : List Text → S → S × List (Act Packet)
  process [] owner = (owner, resume ∷ [])
  process (text ∷ texts) owner = elim (parse text) [
    | none ↦ (owner, malformed text ∷ [])
    | some packet ↦
        let (owner', resolved) = on_recv packet owner in
        let (last_owner, acts) = process texts owner' in
        if resolved
        then (last_owner, deliver packet ∷ resume ∷ acts)
        else (owner', deliver packet ∷ handler_failed ∷ [])
  ]

  unfoldable pub on_stream_data : List Text → Text → S → List Text × S × List (Act Packet)
  unfolding process
  on_stream_data buffer chunk owner =
      let (buffer', texts) = receive buffer chunk in
      let (owner', acts) = process texts owner in (buffer', owner', pause ∷ acts)

-- `stringify` is `JSON.stringify`; the result is what is written to the stream.
unfoldable pub send : {Packet : Type 0} → (Packet → Text) → Packet → Text
send stringify packet = stringify packet ++ 0 ∷ []

-- `onStreamEnd`; `on_done` is what the owner does then, and whether the promise resolves.
pub on_stream_end : {S Packet : Type 0} → (S → S × Bool) → S → S × List (Act Packet)
on_stream_end on_done owner =
    let (owner', resolved) = on_done owner in
    if resolved then (owner', []) else (owner', handler_failed ∷ [])
