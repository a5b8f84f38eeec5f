-- ===== src/Link/Framing.antt =====
-- How `NodeStreamLink` cuts the stream into packets, against the split of all that was received.
use rtl_debugger.Common.{
  ◌≡◌, refl, sym, ap, ◌∙◌, List, [], ◌∷◌, ◌++◌, append_assoc, append-nil, All, map,
}
use rtl_debugger.Common.Text.{
  Text, join, split, Lacks, join-split, split-ne-nil, split-Lacks, split-prefix, split-append,
  split-join-append,
}
use rtl_debugger.Link.{all_but_last, last_of, take_parts, receive, send}

-- What the buffer holds of the packet that is not complete yet.
abbrev pub pending : List Text → Text
pending buffer = join [] buffer

-- Chunk by chunk: the last buffer and all complete packets.
pub feed : List Text → List Text → List Text × List Text
feed buffer [] = (buffer, [])
feed buffer (chunk ∷ chunks) =
    let (buffer', texts) = receive buffer chunk in
    let (last_buffer, more) = feed buffer' chunks in (last_buffer, texts ++ more)

abbrev pub concat : List Text → Text
concat [] = []
concat (c ∷ cs) = c ++ concat cs

pending-append : (b : List Text) (t : Text) → pending (b ++ t ∷ []) ≡ pending b ++ t
pending-append [] t = refl
pending-append (p ∷ []) t = refl
pending-append (p ∷ q ∷ b) t =
    ap (λ r. p ++ r) (pending-append (q ∷ b) t) ∙ sym (append_assoc p (pending (q ∷ b)) t)

all_but_last-last_of :
    (r : Text) (rest : List Text) → all_but_last (r ∷ rest) ++ last_of r rest ∷ [] ≡ r ∷ rest
all_but_last-last_of r [] = refl
all_but_last-last_of r (q ∷ rest) = ap (λ m. r ∷ m) (all_but_last-last_of q rest)

take_parts-split :
    (b : List Text) (chunk : Text) (parts : List Text)
    → Lacks 0 (pending b)
    → split 0 chunk ≡ parts
    → (take_parts b parts).1 ++ pending (take_parts b parts).0 ∷ [] ≡ split 0 (pending b ++ chunk)
unfolding take_parts
take_parts-split b chunk [] h e = absurd (split-ne-nil 0 chunk e)
take_parts-split b chunk (first ∷ []) h e =
    rw (pending-append b first) (sym (split-prefix 0 (pending b) chunk first [] h e))
take_parts-split b chunk (first ∷ r ∷ rest) h e =
    rw (pending-append b first, all_but_last-last_of r rest)
      (sym (split-prefix 0 (pending b) chunk first (r ∷ rest) h e))

-- One chunk: the packets and the new buffer are the parts of the old buffer and the chunk.
pub receive-split :
    (b : List Text) (chunk : Text)
    → Lacks 0 (pending b)
    → (receive b chunk).1 ++ pending (receive b chunk).0 ∷ [] ≡ split 0 (pending b ++ chunk)
unfolding receive
receive-split b chunk h = take_parts-split b chunk (split 0 chunk) h refl

All-front {ℓ} :
    {A : Type ℓ} (P : A → Type 0) (xs : List A) (y : A) → All P (xs ++ y ∷ []) → All P xs × P y
All-front P [] y h = (tt, h.0)
All-front P (x ∷ xs) y h = ((h.0, (All-front P xs y h.1).0), (All-front P xs y h.1).1)

receive-Lacks :
    (b : List Text) (chunk : Text)
    → Lacks 0 (pending b)
    → All (Lacks 0) (receive b chunk).1 × Lacks 0 (pending (receive b chunk).0)
receive-Lacks b chunk h =
    All-front (Lacks 0) (receive b chunk).1 (pending (receive b chunk).0)
      (rw (receive-split b chunk h) (split-Lacks 0 (pending b ++ chunk)))

-- However the stream is cut into chunks, the packets and what is left in the buffer are the parts
-- between the NULs of the whole stream.
pub feed-split :
    (b : List Text) (chunks : List Text)
    → Lacks 0 (pending b)
    → (feed b chunks).1 ++ pending (feed b chunks).0 ∷ [] ≡ split 0 (pending b ++ concat chunks)
unfolding feed
feed-split b [] h = rw (split-prefix 0 (pending b) [] [] [] h refl, append-nil (pending b))
feed-split b (chunk ∷ chunks) h =
    let b1 = (receive b chunk).0 in
    let t1 = (receive b chunk).1 in
    let apart = receive-Lacks b chunk h in
    rw
      (
        append_assoc t1 (feed b1 chunks).1 (pending (feed b1 chunks).0 ∷ []),
        feed-split b1 chunks apart.1,
        ← append_assoc (pending b) chunk (concat chunks),
        ← join-split 0 (pending b ++ chunk),
        ← receive-split b chunk h,
      )
      (sym (split-join-append 0 t1 (pending b1) (concat chunks) apart.0))

split-sent :
    {Packet : Type 0} (stringify : Packet → Text) (ps : List Packet)
    → ((p : Packet) → Lacks 0 (stringify p))
    → split 0 (concat (map (send stringify) ps)) ≡ map stringify ps ++ [] ∷ []
unfolding send
split-sent stringify [] h = refl
split-sent stringify (p ∷ ps) h =
    rw (append_assoc (stringify p) (0 ∷ []) (concat (map (send stringify) ps))) (
      split-append 0 (stringify p) (concat (map (send stringify) ps)) (h p)
      ∙ ap (λ m. stringify p ∷ m) (split-sent stringify ps h))

snoc-injective {ℓ} :
    {A : Type ℓ} (xs ys : List A) (x y : A) → xs ++ x ∷ [] ≡ ys ++ y ∷ [] → (xs ≡ ys) × (x ≡ y)
snoc-injective [] [] x y e = (refl, cc)
snoc-injective [] (b ∷ []) x y e = absurd (cc)
snoc-injective [] (b ∷ c ∷ ys) x y e = absurd (cc)
snoc-injective (a ∷ []) [] x y e = absurd (cc)
snoc-injective (a ∷ c ∷ xs) [] x y e = absurd (cc)
snoc-injective (a ∷ xs) (b ∷ ys) x y e = let ih = snoc-injective xs ys x y (cc) in (cc (ih.0), ih.1)

-- What one end sends the other receives, packet by packet and with nothing left over, if no packet's
-- text holds a NUL: however the stream is cut into chunks.
pub feed-send :
    {Packet : Type 0} (stringify : Packet → Text) (ps : List Packet) (chunks : List Text)
    → ((p : Packet) → Lacks 0 (stringify p))
    → concat chunks ≡ concat (map (send stringify) ps)
    → ((feed [] chunks).1 ≡ map stringify ps) × (pending (feed [] chunks).0 ≡ [])
feed-send stringify ps chunks h e =
    snoc-injective (feed [] chunks).1 (map stringify ps) (pending (feed [] chunks).0) []
      (feed-split [] chunks tt ∙ ap (split 0) e ∙ split-sent stringify ps h)
