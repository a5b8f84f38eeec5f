-- ===== src/Client/Packets.antt =====
-- What each packet does to the queue of promises (src/cxxrtl/client.ts).
use rtl_debugger.Common.{
  ℕ, ◌≡◌, refl, sym, ap, ◌∙◌, List, [], ◌∷◌, ◌++◌, append-nil, arith, ◌==◌, Bool-cases, inl, inr,
  ok, throw, Result,
}
use rtl_debugger.Proto.{ServerPacket, greeting, response, event, error, ServerGreeting}
use rtl_debugger.Client.{
  Connection, ConnectionState, initializing, connected, Effect, sent, resolved, rejected,
  on_connected, on_disconnected, on_event, Failure, command_error, no_reply_after_done, Outcome,
  rejections, reject_promises, greet, settle, dispatch, trace_recv, trace_response, received,
  on_link_recv, on_link_done,
}
use rtl_debugger.Client.History.{settled, IsSteady}

pub settled-append : (es fs : List Effect) → settled (es ++ fs) ≡ settled es ++ settled fs
unfolding settled
settled-append [] fs = refl
settled-append (sent p ∷ es) fs = settled-append es fs
settled-append (resolved id r ∷ es) fs = ap (λ l. id ∷ l) (settled-append es fs)
settled-append (rejected id f ∷ es) fs = ap (λ l. id ∷ l) (settled-append es fs)
settled-append (on_connected ∷ es) fs = settled-append es fs
settled-append (on_disconnected ∷ es) fs = settled-append es fs
settled-append (on_event e ∷ es) fs = settled-append es fs

settled-rejections : (f : Failure) (ids : List ℕ) → settled (rejections f ids) ≡ ids
unfolding settled
settled-rejections f [] = refl
settled-rejections f (id ∷ ids) = ap (λ l. id ∷ l) (settled-rejections f ids)

-- What a packet does to the queue.
abbrev pub Keeps : List ℕ → Connection → Outcome → Type 0
Keeps new c r =
    (settled r.effects ++ r.connection.promises ≡ c.promises ++ new) × IsSteady r.connection

reject_promises-Keeps :
    (f : Failure) (c : Connection) → IsSteady c → Keeps [] c (reject_promises f c)
unfolding reject_promises
reject_promises-Keeps f c h = (
  rw (settled-rejections f c.promises),
  record { none_starting = h.none_starting; none_left = λ e. refl },
)

greet-Keeps : (g : ServerGreeting) (c : Connection) → IsSteady c → Keeps [] c (greet g c)
unfolding greet settled
greet-Keeps g c h = elim (Bool-cases (g.version == 0)) [
  | inl e ↦ rw e (
    sym (append-nil c.promises),
    record { none_starting = h.none_starting; none_left = λ e. absurd (cc) },
  )
  | inr e ↦ rw e (reject_promises-Keeps _ c h)
]

settle-Keeps :
    (reply : ℕ → Effect) (ids : List ℕ) (c : Connection)
    → ((id : ℕ) → settled (reply id ∷ []) ≡ id ∷ [])
    → c.promises ≡ ids
    → IsSteady c
    → Keeps [] c (settle reply ids c)
unfolding settle settled
settle-Keeps reply [] c h e k = reject_promises-Keeps _ c k
settle-Keeps reply (id ∷ ids) c h e k = (
  rw (h id, e, append-nil ids),
  record { none_starting = k.none_starting; none_left = λ d. cc (k.none_left d) },
)

dispatch-Keeps :
    (state : ConnectionState) (packet : ServerPacket) (c : Connection)
    → IsSteady c
    → Keeps [] c (dispatch state packet c)
unfolding dispatch
dispatch-Keeps initializing (greeting g) c h = greet-Keeps g c h
dispatch-Keeps connected (response r) c h =
    settle-Keeps (λ id. resolved id r) c.promises c (λ id. unfold settled in refl) refl h
dispatch-Keeps connected (error e) c h =
    settle-Keeps (λ id. rejected id (command_error e)) c.promises c (λ id. unfold settled in refl)
      refl h
dispatch-Keeps connected (event e) c h = (unfold settled in sym (append-nil c.promises), h)
dispatch-Keeps _ packet c h = reject_promises-Keeps _ c h

-- The trace touches none of what the queue rests on.
trace_response-same :
    (ts : List ℕ) (c c' : Connection)
    → trace_response ts c ≡ ok c'
    → (c'.promises ≡ c.promises) × (c'.state ≡ c.state) × (c'.starting ≡ c.starting)
unfolding trace_response
trace_response-same [] c c' e = absurd (cc)
trace_response-same (t ∷ ts) c c' e = ground arith

trace_recv-same :
    (packet : ServerPacket) (c c' : Connection)
    → trace_recv packet c ≡ ok c'
    → (c'.promises ≡ c.promises) × (c'.state ≡ c.state) × (c'.starting ≡ c.starting)
unfolding trace_recv
trace_recv-same (greeting g) c c' e = ground arith
trace_recv-same (response r) c c' e = trace_response-same c.timestamps c c' e
trace_recv-same (error e) c c' e' = ground arith
trace_recv-same (event e) c c' e' = ground arith

-- What is received behind its trace.
received-Keeps :
    (packet : ServerPacket) (c : Connection) (traced : Result Connection)
    → trace_recv packet c ≡ traced
    → IsSteady c
    → Keeps [] c (received packet c traced)
unfolding received
received-Keeps packet c (throw x) e h = (unfold settled in sym (append-nil c.promises), h)
received-Keeps packet c (ok c') e h =
    let (same, state, starting) = trace_recv-same packet c c' e in
    let r = dispatch-Keeps c'.state packet c' (record {
      none_starting = cc (h.none_starting);
      none_left = λ d. same ∙ h.none_left (sym state ∙ d);
    }) in
    (r.0 ∙ ap (λ l. l ++ []) same, r.1)

pub on_link_recv-Keeps :
    (packet : ServerPacket) (c : Connection) → IsSteady c → Keeps [] c (on_link_recv packet c)
unfolding on_link_recv
on_link_recv-Keeps packet c h = received-Keeps packet c (trace_recv packet c) refl h

pub on_link_done-Keeps : (c : Connection) → IsSteady c → Keeps [] c (on_link_done c)
unfolding on_link_done reject_promises
on_link_done-Keeps c h = (
  rw
      (
        settled-append (rejections no_reply_after_done c.promises) (on_disconnected ∷ []),
        settled-rejections no_reply_after_done c.promises,
      )
      (unfold settled in append-nil (c.promises ++ [])),
  record { none_starting = h.none_starting; none_left = λ e. refl },
)
