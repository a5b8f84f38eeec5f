-- ===== src/Observer/Current.antt =====
-- Whatever happens to an observer (src/debug/observer.ts), it is up to date when it is idle.
use rtl_debugger.Common.{
  ℕ, ◌≡◌, refl, sym, ap, ◌∙◌, inl, inr, Bool, true, false, List, [], ◌∷◌, map, some, All,
  if◌then◌else◌, ok, throw, Exception,
}
use mathlib.Core.Path.{subst}
use rtl_debugger.Common.Text.{Text}
use rtl_debugger.Time.{TimePoint}
use rtl_debugger.Variable.{Designation}
use rtl_debugger.Sample.{
  Extracted, all_handles, canonical_key, UnboundReference, freeze, Handle, Reference, Sample,
}
use rtl_debugger.Sample.Layout.{AllFit, encode_all, sample_layout}
use rtl_debugger.Observer.{
  Observer, Observable, Refreshing, idle, failed, awaiting, designations, resume, begin_round,
}
use rtl_debugger.Observer.Values.{
  Truth, contents, Has, Shows, Present, Delivered, deliver_all-Delivered,
}
use rtl_debugger.Observer.{Call, deliver_all, resumed, go_on}
use rtl_debugger.Observer.Ready.{
  Bound, Waits, IsReady, UpToDate, IsCurrent, Keyed-Present, begin_round-IsCurrent,
}
use rtl_debugger.Observer.Steps.{
  asked, IsTrue, Step, moves, observes, disposes, fails, replies, Reach, here, later,
}
use rtl_debugger.Observer.Changes.{
  cursor_moved-IsCurrent, observe-IsCurrent, dispose_callback-IsCurrent,
}

shown-Present :
    (truth : Truth) (observables : List (Text × Observable)) (ds : List Designation)
    → ((k : Text) → Has k ds → Shows truth observables k)
    → All (Present observables) ds
shown-Present truth observables [] h = tt
shown-Present truth observables (d ∷ ds) h =
    let (o, found, _) = h (canonical_key d) (inl refl) in
    ((o, found), shown-Present truth observables ds λ k has. h k (inr has))

module _ (truth : TimePoint → Truth) where
  module _ (retains : ℕ → Extracted → Bool) where
    fail-IsCurrent :
        (e : Exception) (s : Observer)
        → IsCurrent truth s
        → IsCurrent truth (resume retains (throw e) s)
    unfolding resume resumed
    fail-IsCurrent e s h = by_state s.refreshing refl
      where
        by_state :
            (x : Refreshing) → s.refreshing ≡ x → IsCurrent truth (resumed retains x (throw e) s)
        by_state idle _ = h
        by_state failed _ = h
        by_state (awaiting r t) _ = record {
          ready = record {
            subscribed = h.ready.subscribed;
            keyed = h.ready.keyed;
            bound = h.ready.bound;
            waits = tt;
          };
          fresh = tt;
        }

    -- A true sample is delivered whole.
    pub delivery :
        (r : Reference) (t : TimePoint) (sample : Sample) (s : Observer) (ds : List Designation)
        → Bound r ds
        → All (Present s.observables) ds
        → IsTrue truth r t sample
        → (after : List (Text × Observable)) × (calls : List Call) × (deliver_all retains
              (some sample)
              (all_handles r.unbound)
              s.observables
              s.calls
            ≡ (ok tt, after, calls))
          × Delivered (truth t) ds s.observables after
    unfolding all_handles freeze
    delivery r t sample s ds b present true_sample =
        let made : asked r ≡ ds =
          ap (λ (u : UnboundReference). map (λ h. h.designation) u.handles) b.frozen ∙ b.listed in
        let fits : AllFit ds (contents (truth t) ds) =
          subst (λ ds. AllFit ds (contents (truth t) ds)) made true_sample.fits in
        let held : sample.variable_data ≡ encode_all ds (contents (truth t) ds) =
          true_sample.held ∙ ap (λ ds. encode_all ds (contents (truth t) ds)) made in
        let identity : sample.reference ≡ b.id =
          true_sample.identity ∙ ap (λ u. u.id) b.frozen ∙ b.same_id in
        let lay = sample_layout b.id ds (contents (truth t) ds) sample fits identity held in
        let same : ok lay.result ≡ ok b.unbound = sym lay.added ∙ b.added in
        let one : lay.result ≡ b.unbound = cc in
        let handles : r.unbound.handles ≡ lay.handles =
          ap (λ u. u.handles) b.frozen ∙ ap (λ u. u.handles) (sym one) ∙ lay.behind in
        let (after, calls, ran, delivered) =
          deliver_all-Delivered retains (truth t) sample lay.handles ds s.observables s.calls
            lay.extracts present in
        (
          after,
          calls,
          ap
                (λ (hs : List Handle).
                  deliver_all retains (some sample) (map (λ h. (h.designation, h)) hs) s.observables
                    s.calls)
                handles
              ∙ ran,
          delivered,
        )

    -- Behind a delivery, the observer asks again or is idle.
    again-IsCurrent :
        (r : Reference) (t : TimePoint) (s : Observer) (ds : List Designation)
        (after : List (Text × Observable)) (calls : List Call)
        → s.refreshing ≡ awaiting r t
        → IsReady s
        → Bound r ds
        → Delivered (truth t) ds s.observables after
        → (s.refresh_needed ≡ false → (ds ≡ designations s.observables) × (t ≡ s.time_cursor))
        → IsCurrent truth (go_on retains (ok tt, after, calls) s)
    unfolding go_on
    again-IsCurrent r t s ds after calls e h b d done = by_flag s.refresh_needed refl
      where
        next : Observer
        next = record s { observables = after; calls = calls }

        bound : (q : Reference) → s.reference ≡ some q → Bound q (designations after)
        bound q f = subst (Bound q) (sym d.same) (h.bound q f)

        by_flag :
            (x : Bool)
            → s.refresh_needed ≡ x
            → IsCurrent truth (if x then begin_round next else record next { refreshing = idle })
        by_flag true n = begin_round-IsCurrent truth next (record {
          subscribed = h.subscribed;
          keyed = d.keyed h.keyed;
          bound = bound;
          waits = subst (Waits after) (sym e) (ds, b, shown-Present (truth t) after ds d.shows);
        })
        by_flag false n =
            let (all, now) = done n in
            record {
              ready = record {
                subscribed = h.subscribed;
                keyed = d.keyed h.keyed;
                bound = bound;
                waits = tt;
              };
              fresh = (
                n,
                λ k has.
                    subst (λ t. Shows (truth t) after k) now
                      (d.shows k (subst (Has k) (d.same ∙ sym all) has)),
              );
            }

    reply-IsCurrent :
        (r : Reference) (t : TimePoint) (sample : Sample) (more : List Sample) (s : Observer)
        → s.refreshing ≡ awaiting r t
        → IsTrue truth r t sample
        → IsCurrent truth s
        → IsCurrent truth (resume retains (ok (sample ∷ more)) s)
    unfolding resume resumed
    reply-IsCurrent r t sample more s e true_sample h =
        subst (λ x. IsCurrent truth (resumed retains x (ok (sample ∷ more)) s)) (sym e)
          (by_flag s.refresh_needed refl)
      where
        waits : Waits s.observables (awaiting r t)
        waits = subst (Waits s.observables) e h.ready.waits

        fresh : UpToDate truth s (awaiting r t)
        fresh = subst (UpToDate truth s) e h.fresh

        with :
            (ds : List Designation)
            → Bound r ds
            → All (Present s.observables) ds
            → (s.refresh_needed ≡ false → (ds ≡ designations s.observables) × (t ≡ s.time_cursor))
            → IsCurrent truth (resumed retains (awaiting r t) (ok (sample ∷ more)) s)
        with ds b present done =
            let (after, calls, ran, d) = delivery r t sample s ds b present true_sample in
            subst (λ o. IsCurrent truth (go_on retains o s)) (sym ran)
              (again-IsCurrent r t s ds after calls e h.ready b d done)

        by_flag :
            (x : Bool)
            → s.refresh_needed ≡ x
            → IsCurrent truth (resumed retains (awaiting r t) (ok (sample ∷ more)) s)
        by_flag true n = let (ds, b, present) = waits in with ds b present (λ no. cc)
        by_flag false n =
            let (b, now) = fresh n in
            with (designations s.observables) b (Keyed-Present s.observables h.ready.keyed)
              (λ _. (refl, now))

    Step-IsCurrent :
        {s t : Observer} → Step retains truth s t → IsCurrent truth s → IsCurrent truth t
    Step-IsCurrent {s} (moves t) h = cursor_moved-IsCurrent truth t s h
    Step-IsCurrent {s} (observes d callback) h = observe-IsCurrent truth d callback s h
    Step-IsCurrent {s} (disposes key callback) h = dispose_callback-IsCurrent truth key callback s h
    Step-IsCurrent {s} (fails e) h = fail-IsCurrent e s h
    Step-IsCurrent {s} (replies r t sample more e true_sample) h =
        reply-IsCurrent r t sample more s e true_sample h

    pub Reach-IsCurrent :
        {s t : Observer} → IsCurrent truth s → Reach retains truth s t → IsCurrent truth t
    Reach-IsCurrent h here = h
    Reach-IsCurrent h (later r step) = Step-IsCurrent step (Reach-IsCurrent h r)
