-- ===== src/Link/Waiting.antt =====
-- The data handler of `NodeStreamLink` (src/cxxrtl/link.ts), cut at `await this.onRecv(packet)`, under
-- a connection (src/cxxrtl/client.ts) and a session (src/debug/session.ts): the promise of a reply is
-- fulfilled at once, that of an event when the session's status query has its reply.
use rtl_debugger.Common.{
  ℕ, suc, ◌-◌, ◌==◌, ltb, if◌then◌else◌, ◌≤◌, ◌<◌, ◌≡◌, refl, Bool, true, false, List, [], ◌∷◌,
  ◌++◌, arith,
}
use rtl_debugger.Proto.{ServerPacket, greeting, response, event, error, Event}

-- A data handler that waits, for the reply of a number, and the packets of its chunk behind.
pub record Handler : Type 0 where
  pub query : ℕ
  pub rest : List ServerPacket

-- Whether the stream flows, the handlers that wait, how many commands were sent on a connection that
-- is connected, how many of their promises are settled, and how many times the connection keeps of the
-- commands that it sent, for its trace.
pub record Wire : Type 0 where
  pub flowing : Bool
  pub handlers : List Handler
  pub sent : ℕ
  pub settled : ℕ
  pub times : ℕ

-- The first promise is settled; a reply to no command settles none.
abbrev pub take_reply : Wire → Wire
take_reply w = if ltb w.settled w.sent then record w { settled = suc w.settled } else w

abbrev pub reject_promises : Wire → Wire
reject_promises w = record w { settled = w.sent }

abbrev pub resume : Wire → Wire
resume w = record w { flowing = true }

-- A command is sent.
abbrev pub send : Wire → Wire
send w = record w { sent = suc w.sent; times = suc w.times }

-- The time of the first command is taken, if there is one.
abbrev pub take_time : Wire → Wire
take_time w = record w { times = w.times - 1 }

-- The session sends a status query, and the handler waits for the reply to it.
abbrev pub wait_for : List ServerPacket → Wire → Wire
wait_for ps w = record (send w) {
  handlers = w.handlers ++ record { query = w.sent; rest = ps } ∷ [];
}

-- The loop over the packets of a chunk, until it waits or ends; where no time is left, the trace of a
-- response throws a TypeError, and the handler returns.
unfoldable pub process : List ServerPacket → Wire → Wire
process [] w = resume w
process (greeting g ∷ ps) w = process ps (resume (reject_promises w))
process (response r ∷ ps) w =
    let rest = process ps (resume (take_reply (take_time w))) in if w.times == 0 then w else rest
process (error e ∷ ps) w = process ps (resume (take_reply (take_time w)))
process (event e ∷ ps) w = wait_for ps w

unfoldable pub on_stream_data : List ServerPacket → Wire → Wire
unfolding process
on_stream_data ps w = process ps (record w { flowing = false })

-- A handler among those that wait, and the others.
pub data Taken (h : Handler) : List Handler → List Handler → Type 0 where
  first : {hs : List Handler} → Taken h (h ∷ hs) hs
  next : {g : Handler} {hs ks : List Handler} → Taken h hs ks → Taken h (g ∷ hs) (g ∷ ks)

-- Chunks, and the end, come only while the stream flows. The session sends further commands. Behind
-- the promise that it waits for a handler goes on, or returns where the session's query failed.
pub data Step (w : Wire) : Wire → Type 0 where
  data_comes : (ps : List ServerPacket) → w.flowing ≡ true → Step w (on_stream_data ps w)
  data_ends : w.flowing ≡ true → Step w (reject_promises w)
  sends : Step w (send w)
  goes_on :
      (h : Handler) (hs : List Handler)
      → Taken h w.handlers hs
      → h.query < w.settled
      → Step w (process h.rest (resume (record w { handlers = hs })))
  gives_up :
      (h : Handler) (hs : List Handler)
      → Taken h w.handlers hs
      → h.query < w.settled
      → Step w (record w { handlers = hs })

pub data Reach (w : Wire) : Wire → Type 0 where
  here : Reach w w
  later : {v u : Wire} → Reach w v → Step v u → Reach w u

-- Every handler waits for a reply that has not come.
abbrev AllWait : ℕ → List Handler → Type 0
AllWait n [] = Unit
AllWait n (h ∷ hs) = (n ≤ h.query) × AllWait n hs

record IsStalled (n : ℕ) (w : Wire) : Type 0 where
  paused : w.flowing ≡ false
  promises : w.settled ≡ n
  waiting : AllWait n w.handlers

AllWait-Taken :
    (n : ℕ) (h : Handler) (hs ks : List Handler) → Taken h hs ks → AllWait n hs → n ≤ h.query
AllWait-Taken n h hs ks first (w, ws) = w
AllWait-Taken n h (g ∷ hs) (f ∷ ks) (next t) (w, ws) = AllWait-Taken n h hs ks t ws

Step-IsStalled : {n : ℕ} {v u : Wire} → Step v u → IsStalled n v → IsStalled n u
Step-IsStalled (data_comes ps f) s = let p = s.paused in cc
Step-IsStalled (data_ends f) s = let p = s.paused in cc
Step-IsStalled sends s = record { paused = s.paused; promises = s.promises; waiting = s.waiting }
Step-IsStalled {n} {v} (goes_on h hs t w) s =
    absurd (omega (arith, AllWait-Taken n h v.handlers hs t s.waiting, s.promises, w))
Step-IsStalled {n} {v} (gives_up h hs t w) s =
    absurd (omega (arith, AllWait-Taken n h v.handlers hs t s.waiting, s.promises, w))

Reach-IsStalled : {n : ℕ} {w v : Wire} → Reach w v → IsStalled n w → IsStalled n v
Reach-IsStalled here s = s
Reach-IsStalled (later r step) s = Step-IsStalled step (Reach-IsStalled r s)

-- Where no handler waits: behind a chunk whose first packet is an event the stream stays paused, and
-- no promise of a command is settled any more, whatever the session sends then.
pub on_stream_data-event :
    (e : Event) (ps : List ServerPacket) (w v : Wire)
    → w.handlers ≡ []
    → w.settled ≤ w.sent
    → Reach (on_stream_data (event e ∷ ps) w) v
    → (v.flowing ≡ false) × (v.settled ≡ w.settled)
unfolding on_stream_data process
on_stream_data-event e ps w v none_waits fewer r =
    let s =
      Reach-IsStalled {n = w.settled} r
        (record { paused = refl; promises = refl; waiting = rw none_waits (fewer, tt) }) in
    (s.paused, s.promises)
