-- ===== src/Client/Queue.antt =====
-- Every command's promise settles once, in the order of the commands: histories of a connection whose
-- `perform` is not interrupted at its `await`.
use rtl_debugger.Common.{
  ℕ, ◌+◌, ◌≡◌, refl, sym, ◌≢◌, List, [], ◌∷◌, ◌++◌, append_assoc, append-nil, arith, ok,
}
use rtl_debugger.Proto.{command, Command}
use rtl_debugger.Client.{
  Connection, disconnected, sent, rejected, send_after_shutdown, ConnectionState-discrete, perform,
}
use rtl_debugger.Client.History.{
  Op, performs, receives, ends, step, run, settled, performed, IsSteady,
}
use rtl_debugger.Client.Packets.{settled-append, Keeps, on_link_recv-Keeps, on_link_done-Keeps}

-- A command on a connection that is not shut is sent, and its promise joins the queue.
pub perform_open :
    (id : ℕ) (k : Command) (now : ℕ) (c : Connection)
    → c.starting ≡ []
    → c.state ≢ disconnected
    → perform id k now c ≡ record {
      connection = record c {
        promises = c.promises ++ id ∷ [];
        timestamps = c.timestamps ++ now ∷ [];
        send_index = c.send_index + 1;
        starting = [];
      };
      effects = sent (command k) ∷ [];
      settled = ok tt;
    }
unfolding perform
perform_open id k now c e n = ground arith

-- A command on a connection that is shut is refused at once; its trace is kept.
pub perform_shut :
    (id : ℕ) (k : Command) (now : ℕ) (c : Connection)
    → c.starting ≡ []
    → c.state ≡ disconnected
    → perform id k now c ≡ record {
      connection = record c {
        timestamps = c.timestamps ++ now ∷ [];
        send_index = c.send_index + 1;
      };
      effects = rejected id send_after_shutdown ∷ [];
      settled = ok tt;
    }
unfolding perform
perform_shut id k now c e n = ground arith

perform-Keeps :
    (id : ℕ) (k : Command) (now : ℕ) (c : Connection)
    → IsSteady c
    → Keeps (id ∷ []) c (perform id k now c)
perform-Keeps id k now c h = elim (ConnectionState-discrete c.state disconnected) [
  | yes shut ↦ rw (perform_shut id k now c h.none_starting shut) (
    unfold settled in cc (h.none_left shut),
    record { none_starting = h.none_starting; none_left = h.none_left },
  )
  | no open_ ↦
      rw (perform_open id k now c h.none_starting open_)
        (unfold settled in refl, record { none_starting = refl; none_left = λ d. absurd (open_ d) })
]

-- Each step settles a first part of the queue, behind which the new promise stands.
pub step-Keeps : (op : Op) (c : Connection) → IsSteady c → Keeps (performed (op ∷ [])) c (step op c)
unfolding step performed
step-Keeps (performs id k now) c h = perform-Keeps id k now c h
step-Keeps (receives packet) c h = on_link_recv-Keeps packet c h
step-Keeps ends c h = on_link_done-Keeps c h

performed-cons :
    (op : Op) (ops : List Op) → performed (op ∷ ops) ≡ performed (op ∷ []) ++ performed ops
unfolding performed
performed-cons (performs id k now) ops = refl
performed-cons (receives packet) ops = refl
performed-cons ends ops = refl

-- Whatever a connection sends and receives: the promises that were settled, in order, and those still
-- in the queue are the promises of all its commands, in order. So each settles once at most, none is
-- lost, and none overtakes another.
pub run-settled :
    (ops : List Op) (c : Connection)
    → IsSteady c
    → (settled (run ops c).1 ++ (run ops c).0.promises ≡ c.promises ++ performed ops)
      × IsSteady (run ops c).0
unfolding run
run-settled [] c h = (unfold settled performed in sym (append-nil c.promises), h)
run-settled (op ∷ ops) c h =
    let (now, steady) = step-Keeps op c h in
    let r = (step op c).connection in
    let (later, end) = run-settled ops r steady in
    (
      rw
          (
            settled-append (step op c).effects (run ops r).1,
            append_assoc (settled (step op c).effects) (settled (run ops r).1)
                (run ops r).0.promises,
            later,
            performed-cons op ops,
            ← append_assoc c.promises (performed (op ∷ [])) (performed ops),
            ← now,
          )
          (sym (append_assoc (settled (step op c).effects) r.promises (performed ops))),
      end,
    )
