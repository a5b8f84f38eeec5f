-- ===== src/Observer/Steps.antt =====
-- What can happen to an observer (src/debug/observer.ts), with a server that answers truly or not at all.
use rtl_debugger.Common.{ℕ, ◌≡◌, Bool, List, ◌∷◌, map, ok, throw, Exception}
use rtl_debugger.Common.Text.{Text}
use rtl_debugger.Time.{TimePoint}
use rtl_debugger.Variable.{Designation}
use rtl_debugger.Sample.{Extracted, Reference, Sample}
use rtl_debugger.Sample.Layout.{AllFit, encode_all}
use rtl_debugger.Observer.{Observer, awaiting, cursor_moved, observe, dispose_callback, resume}
use rtl_debugger.Observer.Values.{Truth, contents}

-- The designations that a reference was made of.
abbrev pub asked : Reference → List Designation
asked r = map (λ h. h.designation) r.unbound.handles

-- A sample holds what the design holds at a time, of all that a reference is made of.
pub record IsTrue (truth : TimePoint → Truth) (r : Reference) (t : TimePoint) (sample : Sample)
    : Type 0 where
  pub identity : sample.reference ≡ r.unbound.id
  pub held : sample.variable_data ≡ encode_all (asked r) (contents (truth t) (asked r))
  pub fits : AllFit (asked r) (contents (truth t) (asked r))

module _ (retains : ℕ → Extracted → Bool) (truth : TimePoint → Truth) where
  -- What can happen to an observer before it is disposed of: a reply is an error, or its first sample
  -- is of the time and the reference that were asked for.
  pub data Step (s : Observer) : Observer → Type 0 where
    moves : (t : TimePoint) → Step s (cursor_moved t s)
    observes : (d : Designation) (callback : ℕ) → Step s (observe d callback s)
    disposes : (key : Text) (callback : ℕ) → Step s (dispose_callback key callback s)
    fails : (e : Exception) → Step s (resume retains (throw e) s)
    replies :
        (r : Reference) (t : TimePoint) (sample : Sample) (more : List Sample)
        → s.refreshing ≡ awaiting r t
        → IsTrue truth r t sample
        → Step s (resume retains (ok (sample ∷ more)) s)

  pub data Reach (s : Observer) : Observer → Type 0 where
    here : Reach s s
    later : {t u : Observer} → Reach s t → Step t u → Reach s u
