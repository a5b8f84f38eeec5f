-- ===== src/Client/Replies.antt =====
-- Which reply settles which promise: replies in order, replies that nothing waits for, replies that
-- come while `perform` is at its `await`, and the end of the link.
use rtl_debugger.Common.{
  ℕ, ◌+◌, ◌≡◌, ◌⊎◌, refl, sym, ◌∙◌, List, [], ◌∷◌, ◌++◌, append-nil, map, arith, length, Result, ok,
  throw, type_error,
}
use rtl_debugger.Proto.{
  Command, ServerPacket, greeting, event, response, error, Response, ErrorPacket,
}
use rtl_debugger.Client.{
  Connection, connected, disconnected, Effect, resolved, rejected, command_error, on_link_recv,
  on_link_done, perform_begin, perform_resume, perform,
}
use rtl_debugger.Client.History.{
  Op, receives, ends, step, run, settled, performed, IsSteady, performs,
}
use rtl_debugger.Client.Queue.{run-settled, perform_shut}

pub data Reply : Type 0 where
  answer : Response → Reply
  refusal : ErrorPacket → Reply

abbrev pub packet : Reply → ServerPacket
packet (answer r) = response r
packet (refusal e) = error e

-- The effect of a reply on the promise that it is for.
abbrev pub settles : ℕ → Reply → Effect
settles id (answer r) = resolved id r
settles id (refusal e) = rejected id (command_error e)

-- One reply for each promise.
abbrev pub Pairs : List ℕ → List Reply → List Effect → Type 0
Pairs [] [] es = es ≡ []
Pairs (id ∷ ids) (r ∷ rs) es = (rest : List Effect) × (es ≡ settles id r ∷ rest) × Pairs ids rs rest
Pairs [] (r ∷ rs) es = ⊥
Pairs (id ∷ ids) [] es = ⊥

-- A reply to a connection that waits for one.
pub reply_first :
    (r : Reply) (id t : ℕ) (ids ts : List ℕ) (c : Connection)
    → c.state ≡ connected
    → c.promises ≡ id ∷ ids
    → c.timestamps ≡ t ∷ ts
    → on_link_recv (packet r) c ≡ record {
      connection = record c { promises = ids; timestamps = ts; recv_index = c.recv_index + 1 };
      effects = settles id r ∷ [];
      settled = ok tt;
    }
unfolding on_link_recv
reply_first (answer r) id t ids ts c s p q = ground arith
reply_first (refusal e) id t ids ts c s p q = ground arith

run-step :
    (op : Op) (ops : List Op) (c c' : Connection) (es : List Effect) (x : Result (Unit {0}))
    → step op c ≡ record { connection = c'; effects = es; settled = x }
    → run (op ∷ ops) c ≡ ((run ops c').0, es ++ (run ops c').1)
unfolding run
run-step op ops c c' es x e = rw e

-- Replies to a connected client settle the first promises of the queue, each the one of its command,
-- and leave the others waiting.
pub run-replies :
    (ids more : List ℕ) (rs : List Reply) (stamps rest : List ℕ) (c : Connection)
    → c.state ≡ connected
    → c.promises ≡ ids ++ more
    → c.timestamps ≡ stamps ++ rest
    → length ids ≡ length rs
    → length ids ≡ length stamps
    → let r = run (map (λ x. receives (packet x)) rs) c in
      Pairs ids rs r.1 × (r.0.promises ≡ more) × (r.0.state ≡ connected)
run-replies [] more [] stamps rest c s p q l m =
    (unfold run in refl, unfold run in p, unfold run in s)
run-replies [] more (r ∷ rs) stamps rest c s p q l m = absurd (omega arith)
run-replies (id ∷ ids) more [] stamps rest c s p q l m = absurd (omega arith)
run-replies (id ∷ ids) more (r ∷ rs) [] rest c s p q l m = absurd (omega arith)
run-replies (id ∷ ids) more (r ∷ rs) (t ∷ stamps) rest c s p q l m =
    let c' = record c {
      promises = ids ++ more;
      timestamps = stamps ++ rest;
      recv_index = c.recv_index + 1;
    } in
    let later = run-replies ids more rs stamps rest c' s refl refl (omega arith) (omega arith) in
    let first : step (receives (packet r)) c
        ≡ record { connection = c'; effects = settles id r ∷ []; settled = ok tt } =
      unfold step in reply_first r id t (ids ++ more) (stamps ++ rest) c s p q in
    rw
      (run-step (receives (packet r)) (map (λ x. receives (packet x)) rs) c c' (settles id r ∷ [])
        (ok tt) first)
      (((run (map (λ x. receives (packet x)) rs) c').1, refl, later.0), later.1, later.2)

abbrev IsShut : Connection → Type 0
IsShut c = (c.state ≡ disconnected) × (c.promises ≡ []) × (c.starting ≡ [])

received-IsShut :
    (packet : ServerPacket) (c : Connection) → IsShut c → IsShut (on_link_recv packet c).connection
unfolding on_link_recv
received-IsShut (greeting g) c h = ground arith
received-IsShut (response r) c h = ground arith
received-IsShut (error e) c h = ground arith
received-IsShut (event e) c h = ground arith

step-IsShut : (op : Op) (c : Connection) → IsShut c → IsShut (step op c).connection
unfolding step
step-IsShut (performs id k now) c (s, p, w) = rw (perform_shut id k now c w s) (s, p, w)
step-IsShut (receives packet) c h = received-IsShut packet c h
step-IsShut ends c h = unfold on_link_done in ground arith

run-IsShut : (ops : List Op) (c : Connection) → IsShut c → IsShut (run ops c).0
unfolding run
run-IsShut [] c h = h
run-IsShut (op ∷ ops) c h = run-IsShut ops (step op c).connection (step-IsShut op c h)

done-IsShut : (c : Connection) → IsSteady c → IsShut (on_link_done c).connection
unfolding on_link_done
done-IsShut c h = (refl, refl, h.none_starting)

-- When the link is done, all promises of the queue are settled, and from then on each command's promise
-- is settled at once: nothing waits for a reply that cannot come.
pub run-ends :
    (ops : List Op) (c : Connection)
    → IsSteady c
    → let r = run (ends ∷ ops) c in
      (settled r.1 ≡ c.promises ++ performed ops) × (r.0.promises ≡ []) × (r.0.state ≡ disconnected)
unfolding performed
run-ends ops c h =
    let shut : IsShut (run (ends ∷ ops) c).0 =
      unfold run step in run-IsShut ops (on_link_done c).connection (done-IsShut c h) in
    let counted = (run-settled (ends ∷ ops) c h).0 in
    (sym (append-nil (settled (run (ends ∷ ops) c).1)) ∙ rw (shut.1) at counted, shut.1, shut.0)

-- A reply that no promise waits for is not reported to anyone: the error that the code makes for it
-- goes to the empty queue. Where no time was kept, a response throws in the trace before that.
unsolicited_reply :
    (r : Reply) (c : Connection)
    → c.state ≡ connected
    → c.promises ≡ []
    → ((on_link_recv (packet r) c).effects ≡ [])
      × ((on_link_recv (packet r) c).connection.promises ≡ [])
      × (((on_link_recv (packet r) c).settled ≡ ok tt)
          ⊎ ((on_link_recv (packet r) c).settled ≡ throw type_error))
unfolding on_link_recv
unsolicited_reply (answer r) c s p = ground arith
unsolicited_reply (refusal e) c s p = ground arith

-- A reply that comes while `perform` is at its `await`, as from a link that answers within `send`,
-- settles nothing: the promise joins the queue behind it, and takes the reply to the next command.
reply_within_send :
    (id next : ℕ) (k l : Command) (r s : Reply) (now later : ℕ) (c : Connection)
    → c.state ≡ connected
    → c.promises ≡ []
    → c.timestamps ≡ []
    → c.starting ≡ []
    → let begun = (perform_begin id k now c).connection in
      let replied = on_link_recv (packet r) begun in
      let idle = perform_resume replied.connection in
      let again = on_link_recv (packet s) (perform next l later idle).connection in
      (settled replied.effects ≡ [])
      × (idle.promises ≡ id ∷ [])
      × (again.effects ≡ settles id s ∷ [])
      × (again.connection.promises ≡ next ∷ [])
unfolding on_link_recv perform settled
reply_within_send id next k l (answer r) (answer s) now later c h p t w = ground arith
reply_within_send id next k l (answer r) (refusal s) now later c h p t w = ground arith
reply_within_send id next k l (refusal r) (answer s) now later c h p t w = ground arith
reply_within_send id next k l (refusal r) (refusal s) now later c h p t w = ground arith
