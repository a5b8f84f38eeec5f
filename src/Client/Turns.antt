-- ===== src/Client/Turns.antt =====
-- What a command, a greeting, an event and a reply change of a connection (src/cxxrtl/client.ts).
use rtl_debugger.Common.{
  ℕ, ◌≡◌, ◌≢◌, refl, sym, ap, ◌∙◌, List, [], ◌∷◌, ◌++◌, length, length-append, arith,
}
use rtl_debugger.Proto.{Command, greeting, event, Event, ServerGreeting}
use rtl_debugger.Client.Replies.{Reply, packet, settles, reply_first}
use rtl_debugger.Client.{
  Connection, ConnectionState, initializing, connected, disconnected, on_connected, on_event,
  perform, on_link_recv, connect,
}

-- What waits for replies on a connection that is not shut: each promise, in order, has a time.
pub record Awaits (names : List ℕ) (c : Connection) : Type 0 where
  pub promises : c.promises ≡ names
  pub starting : c.starting ≡ []
  pub stamps : length c.timestamps ≡ length names
  pub not_shut : c.state ≢ disconnected

perform_lem :
    (x : ConnectionState) (id : ℕ) (k : Command) (c : Connection)
    → c.state ≡ x
    → c.starting ≡ []
    → x ≢ disconnected
    → let d = (perform id k 0 c).connection in
      (d.state ≡ x)
      × (d.starting ≡ [])
      × (d.promises ≡ c.promises ++ id ∷ [])
      × (d.timestamps ≡ c.timestamps ++ 0 ∷ [])
unfolding perform
perform_lem initializing id k c s w o = ground arith
perform_lem connected id k c s w o = ground arith
perform_lem disconnected id k c s w o = absurd (o refl)

pub perform-Awaits :
    (names : List ℕ) (id : ℕ) (k : Command) (c : Connection)
    → Awaits names c
    → Awaits (names ++ id ∷ []) (perform id k 0 c).connection
perform-Awaits names id k c a =
    let (s, w, p, t) = perform_lem c.state id k c refl a.starting a.not_shut in
    record {
      promises = p ∙ ap (λ x. x ++ id ∷ []) a.promises;
      starting = w;
      stamps =
          ap length t
          ∙ omega
              (arith, length-append c.timestamps (0 ∷ []), length-append names (id ∷ []), a.stamps);
      not_shut = λ e. a.not_shut (sym s ∙ e);
    }

pub perform-state :
    (names : List ℕ) (id : ℕ) (k : Command) (c : Connection)
    → Awaits names c
    → (perform id k 0 c).connection.state ≡ c.state
perform-state names id k c a = (perform_lem c.state id k c refl a.starting a.not_shut).0

-- A greeting of the version opens the connection.
pub greeting_lem :
    (g : ServerGreeting) (names : List ℕ) (c : Connection)
    → c.state ≡ initializing
    → g.version ≡ 0
    → Awaits names c
    → let o = on_link_recv (greeting g) c in
      (o.effects ≡ on_connected ∷ []) × Awaits names o.connection
unfolding on_link_recv
greeting_lem g names c s v a =
    rw (s, v)
      (
        refl,
        record {
          promises = a.promises;
          starting = a.starting;
          stamps = a.stamps;
          not_shut = λ e. cc;
        },
      )

pub event_lem :
    (e : Event) (names : List ℕ) (c : Connection)
    → c.state ≡ connected
    → Awaits names c
    → let o = on_link_recv (event e) c in (o.effects ≡ on_event e ∷ []) × Awaits names o.connection
unfolding on_link_recv
event_lem e names c s a = rw s (refl, opened)
  where
    opened : Awaits names (record c { state = connected })
    opened = record {
      promises = a.promises;
      starting = a.starting;
      stamps = a.stamps;
      not_shut = λ e. cc;
    }

-- A reply settles the first promise.
pub reply_lem :
    (r : Reply) (i : ℕ) (names : List ℕ) (c : Connection)
    → c.state ≡ connected
    → Awaits (i ∷ names) c
    → let o = on_link_recv (packet r) c in
      (o.effects ≡ settles i r ∷ []) × Awaits names o.connection
reply_lem r i names c s a = stamped c.timestamps refl a.stamps
  where
    stamped :
        (ts : List ℕ)
        → c.timestamps ≡ ts
        → length ts ≡ length (i ∷ names)
        → let o = on_link_recv (packet r) c in
          (o.effects ≡ settles i r ∷ []) × Awaits names o.connection
    stamped [] e l = absurd (omega (arith, l))
    stamped (t ∷ ts) e l = rw (reply_first r i t names ts c s a.promises e) (
      refl,
      record {
        promises = refl;
        starting = a.starting;
        stamps = omega (arith, l);
        not_shut = a.not_shut;
      },
    )

-- Behind the constructor nothing waits.
pub connect-Awaits : (now : ℕ) → Awaits [] (connect now).connection
unfolding connect
connect-Awaits now = record { promises = refl; starting = refl; stamps = refl; not_shut = λ e. cc }

pub connect-state : (now : ℕ) → (connect now).connection.state ≡ initializing
unfolding connect
connect-state now = refl

pub greeting-state :
    (g : ServerGreeting) (c : Connection)
    → c.state ≡ initializing
    → g.version ≡ 0
    → (on_link_recv (greeting g) c).connection.state ≡ connected
unfolding on_link_recv
greeting-state g c s v = rw (s, v) refl
