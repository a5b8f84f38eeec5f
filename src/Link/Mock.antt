-- ===== src/Link/Mock.antt =====
-- `MockLink` of src/cxxrtl/link.ts: a scripted conversation.
use rtl_debugger.Common.{
  ◌≡◌, refl, ap, ◌∙◌, List, [], ◌∷◌, ◌++◌, append-nil, arith, ◌≢◌, if◌then◌else◌, Result, ok, throw,
  plain_error, map,
}
use rtl_debugger.Common.Text.{Text, text_eq, text_eq_refl, text_eq_iff}

pub data Reply (Server : Type 0) : Type 0 where
  one : Server → Reply Server
  many : List Server → Reply Server

abbrev pub packets : {Server : Type 0} → Reply Server → List Server
packets (one p) = p ∷ []
packets (many ps) = ps

-- The owner's state, the conversation that is left, and how the promise of the call settles.
pub record Outcome (S Client Server : Type 0) : Type 0 where
  pub owner : S
  pub conversation : List (Client × Reply Server)
  pub settled : Result (Unit {0})

pub dispose : {Client Server : Type 0} → List (Client × Reply Server) → Result (Unit {0})
dispose [] = ok tt
dispose (entry ∷ conversation) = throw plain_error

-- `stringify` is `JSON.stringify`; `on_recv` and `on_done` are the owner's handlers, each with how its
-- promise settles.
module _ {S Client Server : Type 0} (stringify : Client → Text)
    (on_recv : Server → S → S × Result (Unit {0})) (on_done : S → S × Result (Unit {0})) where
  -- The loop over the replies, ended by the first that the owner refuses.
  reply : List Server → S → S × Result (Unit {0})
  reply [] s = (s, ok tt)
  reply (p ∷ ps) s =
      let (s', settled) = on_recv p s in
      elim settled [ ok u ↦ reply ps s' | throw e ↦ (s', throw e) ]

  -- The end of a conversation is told before the conversation is moved on.
  finish : List (Client × Reply Server) → List (Client × Reply Server) → S → Outcome S Client Server
  finish all (entry ∷ rest) s = record { owner = s; conversation = entry ∷ rest; settled = ok tt }
  finish all [] s =
      let (s', settled) = on_done s in
      elim settled [
        | ok u ↦ record { owner = s'; conversation = []; settled = ok tt }
        | throw e ↦ record { owner = s'; conversation = all; settled = throw e }
      ]

  answered :
      List (Client × Reply Server)
      → List (Client × Reply Server)
      → S × Result (Unit {0})
      → Outcome S Client Server
  unfolding finish
  answered all rest (s, ok u) = finish all rest s
  answered all rest (s, throw e) = record { owner = s; conversation = all; settled = throw e }

  pub send : List (Client × Reply Server) → Client → S → Outcome S Client Server
  unfolding reply answered
  send [] packet s = record { owner = s; conversation = []; settled = throw plain_error }
  send ((expected, answer) ∷ rest) packet s =
      let all = (expected, answer) ∷ rest in
      if text_eq (stringify packet) (stringify expected)
      then answered all rest (reply (packets answer) s)
      else record { owner = s; conversation = all; settled = throw plain_error }

  -- Sends, one awaited behind the other, up to the first that throws.
  pub play : List (Client × Reply Server) → List Client → S → Outcome S Client Server
  play conversation [] s = record { owner = s; conversation = conversation; settled = ok tt }
  play conversation (p ∷ ps) s =
      let r = send conversation p s in
      elim r.settled [ ok u ↦ play r.conversation ps r.owner | throw e ↦ r ]

  -- The owner behind the packets.
  pub received : List Server → S → S
  received [] s = s
  received (p ∷ ps) s = received ps (on_recv p s).0

  pub answers : List (Client × Reply Server) → List Server
  answers [] = []
  answers ((p, answer) ∷ rest) = packets answer ++ answers rest

  abbrev pub Resolves : Type 0
  Resolves = ((p : Server) (s : S) → (on_recv p s).1 ≡ ok tt) × ((s : S) → (on_done s).1 ≡ ok tt)

  reply-Resolves : Resolves → (ps : List Server) (s : S) → reply ps s ≡ (received ps s, ok tt)
  unfolding reply received
  reply-Resolves h [] s = refl
  reply-Resolves h (p ∷ ps) s = ground (arith, h.0 p s, reply-Resolves h ps (on_recv p s).0)

  received-append :
      (ps qs : List Server) (s : S) → received (ps ++ qs) s ≡ received qs (received ps s)
  unfolding received
  received-append [] qs s = refl
  received-append (p ∷ ps) qs s = received-append ps qs (on_recv p s).0

  send_expected :
      Resolves
      → (p : Client) (answer : Reply Server) (rest : List (Client × Reply Server)) (s : S)
      → send ((p, answer) ∷ rest) p s
        ≡ finish ((p, answer) ∷ rest) rest (received (packets answer) s)
  unfolding send
  send_expected h p answer rest s =
      ground (arith, text_eq_refl (stringify p), reply-Resolves h (packets answer) s)

  after : List (Client × Reply Server) → S → Outcome S Client Server
  after all s = record {
    owner = (on_done (received (answers all) s)).0;
    conversation = [];
    settled = ok tt;
  }

  play_step :
      (all rest : List (Client × Reply Server)) (p : Client) (ps : List Client) (s s' : S)
      → send all p s ≡ record { owner = s'; conversation = rest; settled = ok tt }
      → play all (p ∷ ps) s ≡ play rest ps s'
  unfolding play
  play_step all rest p ps s s' e = ground arith

  play_expected :
      Resolves
      → (p : Client) (answer : Reply Server) (rest : List (Client × Reply Server)) (s : S)
      → let all = (p, answer) ∷ rest in play all (map (λ e. e.0) all) s ≡ after all s
  play_expected h p answer [] s =
      let told = received (packets answer) s in
      play_step ((p, answer) ∷ []) [] p [] s (on_done told).0
        (send_expected h p answer [] s ∙ unfold finish in ground (arith, h.1 told))
      ∙ unfold play after answers in rw (append-nil (packets answer))
  play_expected h p answer ((q, next) ∷ rest) s =
      let told = received (packets answer) s in
      play_step ((p, answer) ∷ (q, next) ∷ rest) ((q, next) ∷ rest) p (q ∷ map (λ e. e.0) rest) s
        told (send_expected h p answer ((q, next) ∷ rest) s ∙ unfold finish in refl)
      ∙ play_expected h q next rest told
      ∙ unfold after answers in
        rw (received-append (packets answer) (packets next ++ answers rest) s)

  -- Sending what the conversation expects, packet by packet, gives the owner all answers in order and
  -- tells it the end once, and the link can be disposed of.
  play_lem :
      (entry : Client × Reply Server) (rest : List (Client × Reply Server)) (s : S)
      → Resolves
      → let all = entry ∷ rest in
        let r = play all (map (λ e. e.0) all) s in
        (r.owner ≡ (on_done (received (answers all) s)).0)
        × (r.settled ≡ ok tt)
        × (dispose r.conversation ≡ ok tt)
  unfolding after dispose
  play_lem (p, answer) rest s h =
      let e = play_expected h p answer rest s in
      (ap (λ r. r.owner) e, ap (λ r. r.settled) e, ap (λ r. dispose r.conversation) e)

  -- Any other packet is refused, and neither the conversation nor the owner moves.
  pub send_unexpected :
      (expected p : Client) (answer : Reply Server) (rest : List (Client × Reply Server)) (s : S)
      → stringify p ≢ stringify expected
      → let all = (expected, answer) ∷ rest in
        send all p s ≡ record { owner = s; conversation = all; settled = throw plain_error }
  unfolding send
  send_unexpected expected p answer rest s h =
      ground (arith, text_eq_iff (stringify p) (stringify expected))
