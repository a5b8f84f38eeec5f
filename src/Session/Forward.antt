-- ===== src/Session/Forward.antt =====
-- Where the steps of the cursor go: `stepForward` and `stepBackward` of src/debug/session.ts.
use rtl_debugger.Common.{
  ℕ, zero, suc, ◌+◌, ◌*◌, ◌/◌, ◌≤◌, ◌<◌, ◌≡◌, refl, sym, ap, ◌∙◌, ◌⊎◌, inl, inr, false, List, [],
  ◌∷◌, ◌++◌, some, Result, ok, arith, Bool-cases, ltb, append_assoc,
}
use rtl_debugger.Common.Int.{pos, negsuc}
use rtl_debugger.Proto.{ProtoSample}
use rtl_debugger.Time.{TimePoint, zero_time, equals, offset_by_femtos, from_cxxrtl}
use rtl_debugger.Time.Arithmetic.{offset_by_femtos-raw}
use rtl_debugger.Session.{
  Session, Server, cursor_changed, timeline, move_to, set_time_cursor, look_ahead, step_forward,
  step_backward,
}

abbrev pub at : ℕ → TimePoint
at n = record { raw = pos n }

-- A reply of the one sample at the beginning of the interval.
abbrev pub IsAlone : Result (List ProtoSample) → Type 0
IsAlone r = (x : ProtoSample) × (r ≡ ok (x ∷ []))

-- A reply whose first sample is at a time.
abbrev pub Begins : ℕ → Result (List ProtoSample) → Type 0
Begins n r =
    (x : ProtoSample) × (xs : List ProtoSample) × (r ≡ ok (x ∷ xs))
    × (from_cxxrtl x.time ≡ ok (at n))

-- A reply whose second sample is at a time.
abbrev pub Continues : ℕ → Result (List ProtoSample) → Type 0
Continues n r =
    (x : ProtoSample) × (y : ProtoSample) × (ys : List ProtoSample) × (r ≡ ok (x ∷ y ∷ ys))
    × (from_cxxrtl y.time ≡ ok (at n))

-- The server has samples at the times c and n, and none between.
pub record Adjacent (server : Server) (c n : ℕ) : Type 0 where
  pub order : c < n
  pub alone : (e : ℕ) → c ≤ e → e < n → IsAlone (server.query_interval (timeline (at c) (at e)))
  pub next : (e : ℕ) → n ≤ e → Continues n (server.query_interval (timeline (at c) (at e)))
  pub last : (e : ℕ) → c ≤ e → e < n → Begins c (server.query_interval (timeline (at e) (at e)))

-- The session's cursor is there, and its step guess is positive.
pub record Stands (s : Session) (c l : ℕ) : Type 0 where
  pub cursor : s.time_cursor ≡ at c
  pub latest : s.simulation_status.latest_time ≡ at l
  pub positive : 1 ≤ s.forward_time_step

-- The cursor moved, its listeners were told, and the guess only doubled until it reached far enough.
pub record Moved (s t : Session) (c n : ℕ) : Type 0 where
  pub cursor : t.time_cursor ≡ at n
  pub told : t.fired ≡ s.fired ++ cursor_changed (at n) ∷ []
  pub status : t.simulation_status ≡ s.simulation_status
  pub enough : n ≤ c + t.forward_time_step
  pub tight : (t.forward_time_step ≡ s.forward_time_step) ⊎ (c + t.forward_time_step / 2 < n)

offset_at : (c f : ℕ) → offset_by_femtos (at c) (pos f) ≡ at (c + f)
offset_at c f = ap (λ r. record { raw = r }) (offset_by_femtos-raw (at c) (pos f) ∙ ground arith)

move_to_lem :
    (s : Session) (y : ProtoSample) (l n : ℕ)
    → from_cxxrtl y.time ≡ ok (at n)
    → s.simulation_status.latest_time ≡ at l
    → n ≤ l
    → move_to y s
      ≡ (ok tt, record s { time_cursor = at n; fired = s.fired ++ cursor_changed (at n) ∷ [] })
unfolding move_to set_time_cursor
move_to_lem s y l n e latest h = rw (e, latest) (ground arith)

arrive :
    (server : Server) (c n l : ℕ) (s : Session)
    → Stands s c l
    → n ≤ l
    → n ≤ c + s.forward_time_step
    → Continues n (server.query_interval (timeline (at c) (at (c + s.forward_time_step))))
    → (fuel : ℕ)
    → (t : Session) × (look_ahead server (suc fuel) s ≡ some (ok tt, t)) × Moved s t c n
unfolding look_ahead
arrive server c n l s h w reach (x, y, ys, e, time) fuel =
    let following = offset_by_femtos s.time_cursor (pos s.forward_time_step) in
    let asked : server.query_interval (timeline s.time_cursor following) ≡ ok (x ∷ y ∷ ys) =
      rw (h.cursor, offset_at c s.forward_time_step) e in
    (
      record s { time_cursor = at n; fired = s.fired ++ cursor_changed (at n) ∷ [] },
      rw asked (ap some (move_to_lem s y l n time h.latest w)),
      record { cursor = refl; told = refl; status = refl; enough = reach; tight = inl refl },
    )

doubled : Session → Session
doubled s = record s { forward_time_step = s.forward_time_step * 2 }

further :
    (server : Server) (c : ℕ) (s : Session)
    → s.time_cursor ≡ at c
    → IsAlone (server.query_interval (timeline (at c) (at (c + s.forward_time_step))))
    → (fuel : ℕ) → look_ahead server (suc fuel) s ≡ look_ahead server fuel (doubled s)
unfolding look_ahead doubled
further server c s h (x, e) fuel = rw (h, offset_at c s.forward_time_step, e)

look_ahead-next :
    (server : Server) (c n l : ℕ) (k : ℕ) (s : Session)
    → Adjacent server c n
    → Stands s c l
    → n ≤ l
    → n ≤ c + s.forward_time_step + k
    → (t : Session) × (look_ahead server (suc k) s ≡ some (ok tt, t)) × Moved s t c n
unfolding doubled
look_ahead-next server c n l zero s a h w enough =
    arrive server c n l s h w (omega arith) (a.next (c + s.forward_time_step) (omega arith)) 0
look_ahead-next server c n l (suc k) s a h w enough =
    elim (Bool-cases (ltb (c + s.forward_time_step) n)) [
      | inr far ↦
          arrive server c n l s h w (ground arith) (a.next (c + s.forward_time_step) (ground arith))
            (suc k)
      | inl close ↦
          let near : c + s.forward_time_step < n = ground arith in
          let (t, e, m) =
            look_ahead-next server c n l k (doubled s) a
              (record {
                cursor = h.cursor;
                latest = h.latest;
                positive = double_positive h.positive;
              })
              w (double_enough h.positive enough) in
          (
            t,
            further server c s h.cursor (a.alone (c + s.forward_time_step) (omega arith) near)
                  (suc k)
                ∙ e,
            record {
              cursor = m.cursor;
              told = m.told;
              status = m.status;
              enough = m.enough;
              tight = inr (half_short near m.tight);
            },
          )
    ]
  where
    double_positive : 1 ≤ s.forward_time_step → 1 ≤ s.forward_time_step * 2
    double_positive p = omega arith

    double_enough :
        1 ≤ s.forward_time_step
        → n ≤ c + s.forward_time_step + suc k
        → n ≤ c + s.forward_time_step * 2 + k
    double_enough p q = omega arith

    half_short :
        {t : ℕ}
        → c + s.forward_time_step < n
        → (t ≡ s.forward_time_step * 2) ⊎ (c + t / 2 < n)
        → c + t / 2 < n
    half_short p q = ground arith

-- From a cursor at one sample a step forward goes to the next sample of the recorded part, tells the
-- listeners once, and leaves a guess of the step that reaches this sample and is the old guess, or
-- twice one that was too short; the loop ends, with one more round than the guess falls short.
pub step_forward-next :
    (server : Server) (s : Session) (c n l k : ℕ)
    → Adjacent server c n
    → Stands s c l
    → n ≤ l
    → n ≤ c + s.forward_time_step + k
    → (t : Session) × (step_forward server (suc k) s ≡ some (ok (at n), t)) × Moved s t c n
unfolding step_forward
step_forward-next server s c n l k a h w enough =
    let (t, e, m) = look_ahead-next server c n l k s a h w enough in
    let behind : equals s.time_cursor s.simulation_status.latest_time ≡ false =
      rw (h.cursor, h.latest) (let o = a.order in ground arith) in
    (t, rw (behind, e, m.cursor), m)

offset_back : (n : ℕ) → offset_by_femtos (at (suc n)) (negsuc 0) ≡ at n
offset_back n =
    ap (λ r. record { raw = r }) (offset_by_femtos-raw (at (suc n)) (negsuc 0) ∙ ground arith)

pub step_backward-last :
    (server : Server) (s : Session) (c n l : ℕ)
    → Adjacent server c n
    → s.time_cursor ≡ at n
    → s.simulation_status.latest_time ≡ at l
    → n ≤ l
    → step_backward server s
      ≡ (ok (at c), record s { time_cursor = at c; fired = s.fired ++ cursor_changed (at c) ∷ [] })
unfolding step_backward
step_backward-last server s c zero l a h latest w = absurd (let o = a.order in omega arith)
step_backward-last server s c (suc n) l a h latest w =
    let o = a.order in
    let (x, xs, e, time) = a.last n (omega arith) (omega arith) in
    let later : equals (at (suc n)) zero_time ≡ false = ground arith in
    let preceding = offset_by_femtos s.time_cursor (negsuc 0) in
    let asked : server.query_interval (timeline preceding preceding) ≡ ok (x ∷ xs) =
      rw (h, offset_back n) e in
    let moved : equals s.time_cursor zero_time ≡ false = rw h later in
    rw (moved, asked, move_to_lem s x l c time latest (omega arith))

-- A step back from there returns to the sample that the cursor was at.
pub step_backward-step_forward :
    (server : Server) (s : Session) (c n l k : ℕ)
    → Adjacent server c n
    → Stands s c l
    → n ≤ l
    → n ≤ c + s.forward_time_step + k
    → (t : Session) × (step_forward server (suc k) s ≡ some (ok (at n), t))
      × ((u : Session) × (step_backward server t ≡ (ok (at c), u))
          × (u.time_cursor ≡ s.time_cursor)
          × (u.fired ≡ s.fired ++ cursor_changed (at n) ∷ cursor_changed (at c) ∷ []))
step_backward-step_forward server s c n l k a h w enough =
    let (t, e, m) = step_forward-next server s c n l k a h w enough in
    (
      t,
      e,
      (
        record t { time_cursor = at c; fired = t.fired ++ cursor_changed (at c) ∷ [] },
        step_backward-last server t c n l a m.cursor (ap (λ v. v.latest_time) m.status ∙ h.latest)
            w,
        sym h.cursor,
        ap (λ f. f ++ cursor_changed (at c) ∷ []) m.told ∙ append_assoc s.fired _ _,
      ),
    )
