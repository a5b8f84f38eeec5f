-- ===== src/Client/Calls.antt =====
-- The connection's methods (src/cxxrtl/client.ts), one for each command, and the types of what their
-- promises resolve to. A method's promise is named by the number that the caller chooses.
use rtl_debugger.Common.{
  ℕ, suc, ◌≡◌, ◌⊎◌, refl, sym, ap, ◌∙◌, inl, inr, List, [], ◌∷◌, ◌++◌, append_assoc, append-nil,
  map, Option, length, arith,
}
use rtl_debugger.Common.Text.{Text}
use rtl_debugger.Proto
use rtl_debugger.Proto.{
  Command, Response, ErrorPacket, ItemDesignation, QueryInterval, RunSimulation,
  ScopeDescriptionMap, ItemDescriptionMap, ProtoSample, StatusResponse, scopes_listed, items_listed,
  items_referenced, interval_queried, status_got, simulation_started, pause_requested,
}
use rtl_debugger.Client.{
  Connection, connected, Outcome, Effect, resolved, rejected, command_error, perform,
}
use rtl_debugger.Client.History.{Op, performs, receives, step, run}
use rtl_debugger.Client.Replies.{Reply, answer, refusal, packet, Pairs, run-replies}

pub list_scopes : ℕ → Option Text → ℕ → Connection → Outcome
list_scopes id scope now = perform id (Proto.list_scopes scope) now

pub list_items : ℕ → Option Text → ℕ → Connection → Outcome
list_items id scope now = perform id (Proto.list_items scope) now

pub reference_items : ℕ → Text → Option (List ItemDesignation) → ℕ → Connection → Outcome
reference_items id reference items now = perform id (Proto.reference_items reference items) now

pub query_interval : ℕ → QueryInterval → ℕ → Connection → Outcome
query_interval id query now = perform id (Proto.query_interval query) now

pub get_simulation_status : ℕ → ℕ → Connection → Outcome
get_simulation_status id now = perform id Proto.get_simulation_status now

pub run_simulation : ℕ → RunSimulation → ℕ → Connection → Outcome
run_simulation id options now = perform id (Proto.run_simulation options) now

pub pause_simulation : ℕ → ℕ → Connection → Outcome
pause_simulation id now = perform id Proto.pause_simulation now

-- The response that the methods take theirs to be, by `as`.
abbrev pub HasType : Command → Response → Type 0
HasType (Proto.list_scopes scope) (scopes_listed scopes) = Unit
HasType (Proto.list_items scope) (items_listed items) = Unit
HasType (Proto.reference_items reference items) items_referenced = Unit
HasType (Proto.query_interval query) (interval_queried samples) = Unit
HasType Proto.get_simulation_status (status_got status) = Unit
HasType (Proto.run_simulation options) simulation_started = Unit
HasType Proto.pause_simulation (pause_requested time) = Unit
HasType _ _ = ⊥

-- A call of one of the methods.
pub record Call : Type 0 where
  pub id : ℕ
  pub command : Command
  pub now : ℕ

abbrev pub called : Call → Op
called k = performs k.id k.command k.now

abbrev pub received_reply : Reply → Op
received_reply r = receives (packet r)

-- The server replies to each command with a response of the command, or an error.
abbrev pub Replied : List Call → List Reply → Type 0
Replied [] [] = Unit
Replied (k ∷ calls) (answer r ∷ rs) = HasType k.command r × Replied calls rs
Replied (k ∷ calls) (refusal e ∷ rs) = Replied calls rs
Replied _ _ = ⊥

-- Each promise, in order, resolves to a response of its command, or is rejected.
abbrev pub AllTyped : List Call → List Effect → Type 0
AllTyped [] es = es ≡ []
AllTyped (k ∷ calls) es =
    (rest : List Effect) × (((r : Response) × (es ≡ resolved k.id r ∷ rest) × HasType k.command r)
      ⊎ ((e : ErrorPacket) × (es ≡ rejected k.id (command_error e) ∷ rest)))
    × AllTyped calls rest

Pairs-AllTyped :
    (calls : List Call) (rs : List Reply) (es : List Effect)
    → Replied calls rs
    → Pairs (map (λ k. k.id) calls) rs es
    → AllTyped calls es
Pairs-AllTyped [] [] es h p = p
Pairs-AllTyped [] (r ∷ rs) es h p = absurd h
Pairs-AllTyped (k ∷ calls) [] es h p = absurd h
Pairs-AllTyped (k ∷ calls) (answer r ∷ rs) es (t, h) (rest, e, p) =
    (rest, inl (r, e, t), Pairs-AllTyped calls rs rest h p)
Pairs-AllTyped (k ∷ calls) (refusal x ∷ rs) es h (rest, e, p) =
    (rest, inr (x, e), Pairs-AllTyped calls rs rest h p)

-- The connection behind a call: its promise stands last.
called_lem :
    (k : Call) (c : Connection)
    → c.state ≡ connected
    → c.starting ≡ []
    → let d = (step (called k) c).connection in
      (d.state ≡ connected)
      × (d.starting ≡ [])
      × (d.promises ≡ c.promises ++ k.id ∷ [])
      × (d.timestamps ≡ c.timestamps ++ k.now ∷ [])
unfolding step perform
called_lem k c s w = ground arith

-- What waits behind calls.
record Waiting (calls : List Call) (c d : Connection) : Type 0 where
  pub state : d.state ≡ connected
  pub promises : d.promises ≡ c.promises ++ map (λ k. k.id) calls
  pub timestamps : d.timestamps ≡ c.timestamps ++ map (λ k. k.now) calls

calls-Waiting :
    (calls : List Call) (c : Connection)
    → c.state ≡ connected
    → c.starting ≡ []
    → Waiting calls c (run (map called calls) c).0
unfolding run
calls-Waiting [] c s w = record {
  state = s;
  promises = sym (append-nil c.promises);
  timestamps = sym (append-nil c.timestamps);
}
calls-Waiting (k ∷ calls) c s w =
    let d = (step (called k) c).connection in
    let (s', w', p, t) = called_lem k c s w in
    let later = calls-Waiting calls d s' w' in
    record {
      state = later.state;
      promises =
          later.promises
          ∙ ap (λ l. l ++ map (λ (k : Call). k.id) calls) p
          ∙ append_assoc c.promises (k.id ∷ []) (map (λ (k : Call). k.id) calls);
      timestamps =
          later.timestamps
          ∙ ap (λ l. l ++ map (λ (k : Call). k.now) calls) t
          ∙ append_assoc c.timestamps (k.now ∷ []) (map (λ (k : Call). k.now) calls);
    }

Replied-length :
    (calls : List Call) (rs : List Reply)
    → Replied calls rs
    → length (map (λ k. k.id) calls) ≡ length rs
Replied-length [] [] h = refl
Replied-length [] (r ∷ rs) h = absurd h
Replied-length (k ∷ calls) [] h = absurd h
Replied-length (k ∷ calls) (answer r ∷ rs) (t, h) = ap (λ n. suc n) (Replied-length calls rs h)
Replied-length (k ∷ calls) (refusal e ∷ rs) h = ap (λ n. suc n) (Replied-length calls rs h)

same_length : (calls : List Call) → length (map (λ k. k.id) calls) ≡ length (map (λ k. k.now) calls)
same_length [] = refl
same_length (k ∷ calls) = ap (λ n. suc n) (same_length calls)

-- Calls of the connection's methods on a connection that is connected and waits for nothing, and then
-- replies: if the server replies to each command with a response of the command's type, or an error,
-- each promise in the order of the calls resolves to a response of the type that its method takes it to
-- be, or is rejected with the error, and nothing is left waiting.
pub run-AllTyped :
    (calls : List Call) (rs : List Reply) (c : Connection)
    → c.state ≡ connected
    → c.starting ≡ []
    → c.promises ≡ []
    → c.timestamps ≡ []
    → Replied calls rs
    → let r = run (map received_reply rs) (run (map called calls) c).0 in
      AllTyped calls r.1 × (r.0.promises ≡ [])
run-AllTyped calls rs c s w p t h =
    let waiting = calls-Waiting calls c s w in
    let ids = map (λ (k : Call). k.id) calls in
    let stamps = map (λ (k : Call). k.now) calls in
    let (pairs, none_left, still) =
      run-replies ids [] rs stamps [] (run (map called calls) c).0 waiting.state
        (waiting.promises ∙ ap (λ l. l ++ ids) p ∙ sym (append-nil ids))
        (waiting.timestamps ∙ ap (λ l. l ++ stamps) t ∙ sym (append-nil stamps))
        (Replied-length calls rs h) (same_length calls) in
    (
      Pairs-AllTyped calls rs (run (map received_reply rs) (run (map called calls) c).0).1 h pairs,
      none_left,
    )
