-- ===== src/Link/Flow.antt =====
-- What the data handler of `NodeStreamLink` does with the packets of a chunk, and whether the stream
-- is paused meanwhile.
use rtl_debugger.Common.{
  ◌≡◌, refl, sym, ap, ◌∙◌, Bool, true, false, not, ◌||◌, List, [], ◌∷◌, ◌++◌, append-nil, Option,
  none, some, arith, ◌⊎◌,
}
use rtl_debugger.Common.Text.{Text}
use rtl_debugger.Link.{
  Act, pause, resume, deliver, handler_failed, malformed, receive, process, on_stream_data,
}

module _ {Packet : Type 0} where
  -- Whether data events come after the acts, from whether they came before.
  pub flows : Bool → List (Act Packet) → Bool
  flows on [] = on
  flows on (pause ∷ acts) = flows false acts
  flows on (resume ∷ acts) = flows true acts
  flows on (deliver p ∷ acts) = flows on acts
  flows on (handler_failed ∷ acts) = flows on acts
  flows on (malformed t ∷ acts) = flows on acts

  -- The packets handed to the owner, each with whether data events came meanwhile.
  pub deliveries : Bool → List (Act Packet) → List (Packet × Bool)
  deliveries on [] = []
  deliveries on (pause ∷ acts) = deliveries false acts
  deliveries on (resume ∷ acts) = deliveries true acts
  deliveries on (deliver p ∷ acts) = (p, on) ∷ deliveries on acts
  deliveries on (handler_failed ∷ acts) = deliveries on acts
  deliveries on (malformed t ∷ acts) = deliveries on acts

  -- Each packet is handed over, and the stream resumed behind it.
  script : List Packet → List (Act Packet)
  script [] = []
  script (p ∷ ps) = deliver p ∷ resume ∷ script ps

  pub is_nil : List Packet → Bool
  is_nil [] = true
  is_nil (p ∷ ps) = false

  opened : List Packet → List (Packet × Bool)
  opened [] = []
  opened (p ∷ ps) = (p, true) ∷ opened ps

  -- The first packet is handed over in the pause, the others in the open stream.
  pub marked : List Packet → List (Packet × Bool)
  unfolding opened
  marked [] = []
  marked (p ∷ ps) = (p, false) ∷ opened ps

  flows-script :
      (on : Bool) (ps : List Packet) (acts : List (Act Packet))
      → flows on (script ps ++ acts) ≡ flows (on || not (is_nil ps)) acts
  unfolding flows script is_nil
  flows-script on [] acts = ground arith
  flows-script on (p ∷ []) acts = ground arith
  flows-script on (p ∷ q ∷ ps) acts = ground (arith, flows-script true (q ∷ ps) acts)

  deliveries-opened :
      (ps : List Packet) (acts : List (Act Packet))
      → deliveries true (script ps ++ acts) ≡ opened ps ++ deliveries true acts
  unfolding deliveries script opened
  deliveries-opened [] acts = refl
  deliveries-opened (p ∷ ps) acts = ap (λ r. (p, true) ∷ r) (deliveries-opened ps acts)

  opened-append : (ps qs : List Packet) → opened (ps ++ qs) ≡ opened ps ++ opened qs
  unfolding opened
  opened-append [] qs = refl
  opened-append (p ∷ ps) qs = ap (λ r. (p, true) ∷ r) (opened-append ps qs)

module _ {S Packet : Type 0} (parse : Text → Option Packet) (on_recv : Packet → S → S × Bool) where
  -- The texts are those of the packets, and the owner, in state `s`, takes them all and ends in `s'`.
  abbrev pub Handled : List Text → S → List Packet → S → Type 0
  Handled [] s ps s' = (ps ≡ []) × (s' ≡ s)
  Handled (t ∷ ts) s ps s' =
      (p : Packet) × (rest : List Packet) × (parse t ≡ some p)
      × ((on_recv p s).1 ≡ true)
      × (ps ≡ p ∷ rest)
      × Handled ts (on_recv p s).0 rest s'

  -- The text is no packet, or the owner refuses it: the owner's state behind it, and the acts.
  abbrev pub Fails : Text → S → S → List Packet → List (Act Packet) → Type 0
  Fails t s s' offered acts =
      ((parse t ≡ none) × (s' ≡ s) × (offered ≡ []) × (acts ≡ malformed t ∷ []))
      ⊎ ((p : Packet) × (parse t ≡ some p)
          × ((on_recv p s).1 ≡ false)
          × (s' ≡ (on_recv p s).0)
          × (offered ≡ p ∷ [])
          × (acts ≡ deliver p ∷ handler_failed ∷ []))

  process_took :
      (t : Text) (ts : List Text) (s : S) (p : Packet)
      → parse t ≡ some p
      → (on_recv p s).1 ≡ true
      → process parse on_recv (t ∷ ts) s
        ≡ (let r = process parse on_recv ts (on_recv p s).0 in (r.0, deliver p ∷ resume ∷ r.1))
  unfolding process
  process_took t ts s p read took = ground arith

  process_failed :
      (t : Text) (more : List Text) (s s' : S) (offered : List Packet) (acts : List (Act Packet))
      → Fails t s s' offered acts
      → process parse on_recv (t ∷ more) s ≡ (s', acts)
  unfolding process
  process_failed t more s s' offered acts f = ground arith

  process-Handled :
      (ts : List Text) (s : S) (ps : List Packet) (s' : S)
      → Handled ts s ps s'
      → process parse on_recv ts s ≡ (s', script ps ++ resume ∷ [])
  unfolding process script
  process-Handled [] s ps s' (e, same) = rw (e, same)
  process-Handled (t ∷ ts) s ps s' (p, rest, read, took, e, h) =
      rw (process_took t ts s p read took, process-Handled ts (on_recv p s).0 rest s' h, e)

  process-Fails :
      (ts : List Text) (s : S) (ps : List Packet) (mid s' : S) (t : Text) (offered : List Packet)
      (acts : List (Act Packet)) (more : List Text)
      → Handled ts s ps mid
      → Fails t mid s' offered acts
      → process parse on_recv (ts ++ t ∷ more) s ≡ (s', script ps ++ acts)
  unfolding script
  process-Fails [] s ps mid s' t offered acts more (e, same) f =
      rw (e, ← same) (process_failed t more mid s' offered acts f)
  process-Fails (u ∷ ts) s ps mid s' t offered acts more (p, rest, read, took, e, h) f = rw (
    process_took u (ts ++ t ∷ more) s p read took,
    process-Fails ts (on_recv p s).0 rest mid s' t offered acts more h f,
    e,
  )

-- The two ways in which a chunk ends, seen from the stream and from the owner.
deliveries_end :
    {Packet : Type 0} (ps : List Packet)
    → deliveries true (pause ∷ (script ps ++ resume ∷ [])) ≡ marked ps
unfolding deliveries marked script
deliveries_end [] = refl
deliveries_end (p ∷ ps) =
    ap (λ r. (p, false) ∷ r) (deliveries-opened ps (resume ∷ []) ∙ append-nil (opened ps))

module _ {S Packet : Type 0} (parse : Text → Option Packet) (on_recv : Packet → S → S × Bool) where
  flows-Fails :
      (on : Bool) (t : Text) (s s' : S) (offered : List Packet) (acts : List (Act Packet))
      → Fails parse on_recv t s s' offered acts
      → flows on acts ≡ on
  unfolding flows
  flows-Fails on t s s' offered acts f = ground arith

  deliveries_only :
      (on : Bool) (t : Text) (s s' : S) (offered : List Packet) (acts : List (Act Packet))
      → Fails parse on_recv t s s' offered acts
      → (deliveries false acts ≡ marked offered) × (deliveries true acts ≡ opened offered)
  unfolding deliveries marked opened
  deliveries_only on t s s' offered acts f = ground arith

  deliveries-Fails :
      (ps : List Packet) (t : Text) (s s' : S) (offered : List Packet) (acts : List (Act Packet))
      → Fails parse on_recv t s s' offered acts
      → deliveries true (pause ∷ (script ps ++ acts)) ≡ marked (ps ++ offered)
  unfolding deliveries marked script
  deliveries-Fails [] t s s' offered acts f = (deliveries_only true t s s' offered acts f).0
  deliveries-Fails (p ∷ ps) t s s' offered acts f =
      ap (λ r. (p, false) ∷ r)
        (deliveries-opened ps acts
          ∙ ap (λ r. opened ps ++ r) (deliveries_only true t s s' offered acts f).1
          ∙ sym (opened-append ps offered))

-- An owner that takes every packet of a chunk gets them all, in order, and the stream flows on.
pub on_stream_data-Handled :
    {S Packet : Type 0} (parse : Text → Option Packet) (on_recv : Packet → S → S × Bool)
    (buffer : List Text) (chunk : Text) (s : S) (ps : List Packet) (s' : S)
    → Handled parse on_recv (receive buffer chunk).1 s ps s'
    → let r = on_stream_data parse on_recv buffer chunk s in
      (r.0 ≡ (receive buffer chunk).0)
      × (r.1 ≡ s')
      × (deliveries true r.2 ≡ marked ps)
      × (flows true r.2 ≡ true)
unfolding on_stream_data script flows
on_stream_data-Handled parse on_recv buffer chunk s ps s' h =
    rw (process-Handled parse on_recv (receive buffer chunk).1 s ps s' h)
      (refl, refl, deliveries_end ps, flows-script false ps (resume ∷ []))

-- A text that is no packet, or a packet that the owner refuses, ends the chunk: the owner gets none
-- of the later packets. The stream stays paused only if it was the first of the chunk: behind any
-- other packet it has been resumed.
pub on_stream_data-Fails :
    {S Packet : Type 0} (parse : Text → Option Packet) (on_recv : Packet → S → S × Bool)
    (buffer : List Text) (chunk : Text) (ts : List Text) (t : Text) (more : List Text) (s : S)
    (ps : List Packet) (mid s' : S) (offered : List Packet) (acts : List (Act Packet))
    → (receive buffer chunk).1 ≡ ts ++ t ∷ more
    → Handled parse on_recv ts s ps mid
    → Fails parse on_recv t mid s' offered acts
    → let r = on_stream_data parse on_recv buffer chunk s in
      (r.1 ≡ s')
      × (deliveries true r.2 ≡ marked (ps ++ offered))
      × (flows true r.2 ≡ not (is_nil ps))
unfolding on_stream_data script flows
on_stream_data-Fails parse on_recv buffer chunk ts t more s ps mid s' offered acts e h f =
    rw (e, process-Fails parse on_recv ts s ps mid s' t offered acts more h f)
      (
        refl,
        deliveries-Fails parse on_recv ps t mid s' offered acts f,
        flows-script false ps acts
            ∙ flows-Fails parse on_recv (not (is_nil ps)) t mid s' offered acts f,
      )
