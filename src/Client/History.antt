-- ===== src/Client/History.antt =====
-- Histories of a connection (src/cxxrtl/client.ts) whose `perform` is not interrupted at its `await`.
use rtl_debugger.Common.{ℕ, ◌≡◌, List, [], ◌∷◌, ◌++◌}
use rtl_debugger.Proto.{Command, ServerPacket}
use rtl_debugger.Client.{
  Connection, disconnected, Effect, sent, resolved, rejected, on_connected, on_disconnected,
  on_event, Outcome, on_link_recv, on_link_done, perform,
}

pub data Op : Type 0 where
  performs : ℕ → Command → ℕ → Op
  receives : ServerPacket → Op
  ends : Op

unfoldable pub step : Op → Connection → Outcome
step (performs id k now) c = perform id k now c
step (receives packet) c = on_link_recv packet c
step ends c = on_link_done c

-- The connection behind a history, and all its effects.
unfoldable pub run : List Op → Connection → Connection × List Effect
run [] c = (c, [])
run (op ∷ ops) c =
    let r = step op c in let (c', effects) = run ops r.connection in (c', r.effects ++ effects)

-- The promises that effects settle, in order.
unfoldable pub settled : List Effect → List ℕ
settled [] = []
settled (sent p ∷ es) = settled es
settled (resolved id r ∷ es) = id ∷ settled es
settled (rejected id f ∷ es) = id ∷ settled es
settled (on_connected ∷ es) = settled es
settled (on_disconnected ∷ es) = settled es
settled (on_event e ∷ es) = settled es

unfoldable pub performed : List Op → List ℕ
performed [] = []
performed (performs id k now ∷ ops) = id ∷ performed ops
performed (receives packet ∷ ops) = performed ops
performed (ends ∷ ops) = performed ops

-- No call waits at its `await`, and a connection that is shut holds no promise.
pub record IsSteady (c : Connection) : Type 0 where
  pub none_starting : c.starting ≡ []
  pub none_left : c.state ≡ disconnected → c.promises ≡ []
