-- ===== src/Client.antt =====
-- src/cxxrtl/client.ts: the connection, which matches replies to commands. A promise is named by a
-- number that the caller of a command chooses; what the connection does outside is a list of effects.
-- Console output is left out. A `Date` is the number of its milliseconds, given with each call.
pub mod Replies
pub mod History
pub mod Packets
pub mod Queue
pub mod Calls
pub mod Turns
mod Tests
use rtl_debugger.Common.{
  ℕ, ◌+◌, ◌≡◌, List, [], ◌∷◌, ◌++◌, map, Option, none, some, ◌==◌, if◌then◌else◌, Result, ok, throw,
  type_error, plain_error, Bool, true, false,
}
use rtl_debugger.Common.Text.{Text}
use rtl_debugger.Proto.{
  ClientPacket, client_greeting, command, Command, ServerPacket, greeting, response, event, error,
  ServerGreeting, Response, Event, ErrorPacket,
}

pub data ConnectionState : Type 0 where
  initializing connected disconnected : ConnectionState

pub ConnectionState-discrete : Discrete ConnectionState
ConnectionState-discrete = hlevel

-- Why a promise is rejected.
pub data Failure : Type 0 where
  command_error : ErrorPacket → Failure
  unexpected_version : ℕ → Failure
  unexpected_reply unexpected_packet no_reply_after_done : Failure
  send_after_shutdown : Failure

pub data Effect : Type 0 where
  sent : ClientPacket → Effect
  resolved : ℕ → Response → Effect
  rejected : ℕ → Failure → Effect
  on_connected on_disconnected : Effect
  on_event : Event → Effect

-- `starting` are the calls of `perform` that wait in `await this.send(…)`: their promises are not in
-- the queue yet.
pub record Connection : Type 0 where
  pub state : ConnectionState
  pub commands : List Text
  pub events : List Text
  pub item_values_encodings : List Text
  pub promises : List ℕ
  pub timestamps : List ℕ
  pub send_index : ℕ
  pub recv_index : ℕ
  pub starting : List ℕ

trace_send : ClientPacket → ℕ → Connection → Connection
trace_send client_greeting now c = c
trace_send (command k) now c = record c {
  timestamps = c.timestamps ++ now ∷ [];
  send_index = c.send_index + 1;
}

-- `this.timestamps.shift()!.getTime()` throws where there is no timestamp.
trace_response : List ℕ → Connection → Result Connection
trace_response [] c = throw type_error
trace_response (t ∷ ts) c = ok (record c { timestamps = ts; recv_index = c.recv_index + 1 })

abbrev shift : List ℕ → List ℕ
shift [] = []
shift (t ∷ ts) = ts

trace_recv : ServerPacket → Connection → Result Connection
unfolding trace_response
trace_recv (greeting g) c = ok c
trace_recv (response r) c = trace_response c.timestamps c
trace_recv (error e) c =
    ok (record c { timestamps = shift c.timestamps; recv_index = c.recv_index + 1 })
trace_recv (event e) c = ok c

-- The state behind a call, its effects, and whether its own promise resolves.
pub record Outcome : Type 0 where
  pub connection : Connection
  pub effects : List Effect
  pub settled : Result (Unit {0})

abbrev done : Connection → List Effect → Outcome
done c es = record { connection = c; effects = es; settled = ok tt }

send_in : ConnectionState → ClientPacket → Connection → Outcome
send_in disconnected packet c = record { connection = c; effects = []; settled = throw plain_error }
send_in initializing packet c = done c (sent packet ∷ [])
send_in connected packet c = done c (sent packet ∷ [])

pub send : ClientPacket → ℕ → Connection → Outcome
unfolding trace_send send_in
send packet now c = send_in c.state packet (trace_send packet now c)

abbrev rejections : Failure → List ℕ → List Effect
rejections f = map (λ id. rejected id f)

reject_promises : Failure → Connection → Outcome
reject_promises f c = done (record c { promises = [] }) (rejections f c.promises)

greet : ServerGreeting → Connection → Outcome
unfolding reject_promises
greet g c =
    if g.version == 0
    then done
        (record c {
          state = connected;
          commands = g.commands;
          events = g.events;
          item_values_encodings = g.item_values_encoding;
        })
        (on_connected ∷ [])
    else reject_promises (unexpected_version g.version) c

-- A reply goes to the first promise of the queue.
settle : (ℕ → Effect) → List ℕ → Connection → Outcome
unfolding reject_promises
settle reply [] c = reject_promises unexpected_reply c
settle reply (id ∷ ids) c = done (record c { promises = ids }) (reply id ∷ [])

-- `onLinkRecv` behind `traceRecv`.
dispatch : ConnectionState → ServerPacket → Connection → Outcome
unfolding greet settle reject_promises
dispatch initializing (greeting g) c = greet g c
dispatch connected (response r) c = settle (λ id. resolved id r) c.promises c
dispatch connected (error e) c = settle (λ id. rejected id (command_error e)) c.promises c
dispatch connected (event e) c = done c (on_event e ∷ [])
dispatch _ packet c = reject_promises unexpected_packet c

received : ServerPacket → Connection → Result Connection → Outcome
unfolding dispatch
received packet c (ok traced) = dispatch traced.state packet traced
received packet c (throw e) = record { connection = c; effects = []; settled = throw e }

pub on_link_recv : ServerPacket → Connection → Outcome
unfolding trace_recv received
on_link_recv packet c = received packet c (trace_recv packet c)

pub on_link_done : Connection → Outcome
unfolding reject_promises
on_link_done c =
    let r = reject_promises no_reply_after_done c in
    done (record r.connection { state = disconnected }) (r.effects ++ on_disconnected ∷ [])

-- `perform` up to its `await`: if the send fails, so does the call.
pub perform_begin : ℕ → Command → ℕ → Connection → Outcome
unfolding send
perform_begin id k now c =
    let r = send (command k) now c in
    elim r.settled [
      | ok u ↦ done (record r.connection { starting = c.starting ++ id ∷ [] }) r.effects
      | throw e ↦ done r.connection (r.effects ++ rejected id send_after_shutdown ∷ [])
    ]

-- `perform` behind its `await`: the promise joins the queue.
resume_first : List ℕ → Connection → Connection
resume_first [] c = c
resume_first (id ∷ ids) c = record c { promises = c.promises ++ id ∷ []; starting = ids }

pub perform_resume : Connection → Connection
unfolding resume_first
perform_resume c = resume_first c.starting c

-- The whole of `perform` where nothing else runs at its `await`.
pub perform : ℕ → Command → ℕ → Connection → Outcome
unfolding perform_begin perform_resume
perform id k now c =
    let r = perform_begin id k now c in record r { connection = perform_resume r.connection }

abbrev fresh : Connection
fresh = record {
  state = initializing;
  commands = [];
  events = [];
  item_values_encodings = [];
  promises = [];
  timestamps = [];
  send_index = 0;
  recv_index = 0;
  starting = [];
}

-- The constructor greets the server at once.
pub connect : ℕ → Outcome
unfolding send
connect now = send client_greeting now fresh
