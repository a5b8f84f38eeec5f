-- ===== src/Session/Live/Alone/Queries.antt =====
-- The status queries of a call that no other overlaps (src/debug/session.ts).
use rtl_debugger.Common.{
  ℕ, zero, suc, ◌≡◌, refl, ap, ◌∙◌, inl, inr, false, [], ◌∷◌, ◌++◌, none, Result, ok, throw,
  Bool-cases,
}
use rtl_debugger.Proto.{StatusResponse}
use rtl_debugger.Session.{
  Session, Server, SimulationStatus, Outcome, is_running, state_eq, differs, continue, status_of,
  changed_status, status_known, query_simulation_status,
}
use rtl_debugger.Session.Live.{
  Live, Then, call_ends, status_reply, Settled, ended, failed, settle, learn, begin_query,
  end_query, clear, keep, set_timeout, resume, go_on,
}
use rtl_debugger.Session.Live.Alone.{as_ended, idle, Done, serve}

pub Done-from :
    {r : Settled × Session} {l m x : Live} → m.settled ≡ l.settled → Done r m x → Done r l x
Done-from {r} e d = record {
  session = d.session;
  settled = d.settled ∙ ap (λ w. w ++ r.0 ∷ []) e;
  awaiting = d.awaiting;
  ready = d.ready;
}

-- Behind a status query.
abbrev pub after : Result (Unit {0}) → Then → Live → Live
after (ok u) th m = record (idle m) { ready = th ∷ [] }
after (throw e) th m = settle (failed e) (idle m)

-- Where a status query waits, and nothing else.
abbrev pub waiting : Live → Live
waiting l = idle (keep none (record l { timers = clear l.kept l.timers }))

-- Where a reply to a status query leads, as the whole query does.
pub record Queried (l m : Live) (th : Then) (o : Outcome Unit) : Type 0 where
  pub behind : Live
  pub session : behind.session ≡ o.1
  pub settled : behind.settled ≡ l.settled
  pub same : m ≡ after (o.0) th behind

known :
    (new : SimulationStatus) (s : Session)
    → state_eq new.status is_running ≡ false
    → changed_status new (record s { timeout = false })
      ≡ status_known new (record s { timeout = false })
unfolding changed_status status_known
known new s e = elim (Bool-cases (differs s.simulation_status new)) [
  | inl d ↦ rw (d, e) refl
  | inr d ↦ rw (d, e) refl
]

abbrev read : Result SimulationStatus → Session → Outcome Unit
read y s = continue (y, record s { timeout = false }) λ new u. (ok tt, status_known new u)

end_query-Queried :
    (y : Result SimulationStatus) (th : Then) (l : Live)
    → Queried l (end_query th y (waiting l)) th (read y l.session)
unfolding end_query status_known
end_query-Queried (throw e) th l = record {
  behind = waiting l;
  session = refl;
  settled = refl;
  same = refl;
}
end_query-Queried (ok new) th l = elim (Bool-cases (state_eq new.status is_running)) [
  | inl on ↦ record {
    behind = idle (set_timeout (learn new th (waiting l)));
    session = rw on refl;
    settled = refl;
    same = rw on refl;
  }
  | inr off ↦ record {
    behind = idle (learn new th (waiting l));
    session = known new l.session off;
    settled = refl;
    same = rw off refl;
  }
]

pub reply-Queried :
    (x : Result StatusResponse) (th : Then) (l : Live)
    → Queried l (resume (status_reply th) x (waiting l)) th (query_simulation_status x l.session)
unfolding resume query_simulation_status
reply-Queried (throw e) th l = record {
  behind = waiting l;
  session = refl;
  settled = refl;
  same = refl;
}
reply-Queried (ok r) th l = end_query-Queried (status_of r) th l

pub settled-Done :
    (r : Settled) (s : Session) (l m : Live)
    → m.session ≡ s
    → m.settled ≡ l.settled
    → Done (r, s) l (settle r (idle m))
settled-Done r s l m e f = record {
  session = e;
  settled = ap (λ x. x ++ r ∷ []) f;
  awaiting = refl;
  ready = refl;
}

module _ (server : Server) where
  pub serve-idle : (n k : ℕ) (l : Live) → serve server n k (idle l) ≡ idle l
  unfolding serve
  serve-idle zero k l = refl
  serve-idle (suc n) k l = refl

  pub begin_query-turn :
      (n k : ℕ) (th : Then) (l : Live)
      → serve server (suc n) k (begin_query th (idle l))
        ≡ serve server n
            (suc k)
            (resume (status_reply th) (server.get_simulation_status k) (waiting l))
  unfolding serve begin_query
  begin_query-turn n k th l = refl

  -- A status query, and what comes behind it.
  pub query-Done :
      (n k : ℕ) (th : Then) (l : Live) (r : Settled × Session)
      → ((m : Live)
          → m.settled ≡ l.settled
          → m.session ≡ (query_simulation_status (server.get_simulation_status k) l.session).1
          → Done r l (
              serve server n (suc k) (
                after
                  ((query_simulation_status (server.get_simulation_status k) l.session).0)
                  th
                  m)))
      → Done r l (serve server (suc n) k (begin_query th (idle l)))
  query-Done n k th l r f =
      let q = reply-Queried (server.get_simulation_status k) th l in
      rw (begin_query-turn n k th l, q.same) (f q.behind q.settled q.session)

  pub settle-Done :
      (n k : ℕ) (r : Settled) (s : Session) (l m : Live)
      → m.session ≡ s
      → m.settled ≡ l.settled
      → Done (r, s) l (serve server n k (settle r (idle m)))
  settle-Done n k r s l m e f = rw (serve-idle n k (settle r m)) (settled-Done r s l m e f)

  pub go_on-turn :
      (n k : ℕ) (th : Then) (m : Live)
      → serve server (suc n) k (after (ok tt) th m) ≡ serve server n k (go_on th (idle m))
  unfolding serve
  go_on-turn n k th m = refl

  pub ended_lem :
      (n k : ℕ) (o : Outcome Unit) (l m : Live)
      → m.settled ≡ l.settled
      → m.session ≡ o.1
      → Done (as_ended o) l (serve server (suc n) k (after (o.0) call_ends m))
  unfolding go_on
  ended_lem n k (ok u, s) l m f e =
      rw (go_on-turn n k call_ends m) (settle-Done n k ended s l m e f)
  ended_lem n k (throw x, s) l m f e = settle-Done (suc n) k (failed x) s l m e f

  pub status_lem :
      (n k : ℕ) (l : Live)
      → Done
          (as_ended (query_simulation_status (server.get_simulation_status k) l.session))
          l
          (serve server (suc (suc n)) k (begin_query call_ends (idle l)))
  status_lem n k l = query-Done (suc n) k call_ends l _ (λ m f e. ended_lem n (suc k) _ l m f e)
