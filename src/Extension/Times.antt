-- ===== src/Extension/Times.antt =====
-- Going to a time that was entered: src/extension.ts with src/ui/input.ts and the session's cursor.
use rtl_debugger.Common.{
  ◌*◌, ◌^◌, ◌≡◌, refl, ap, ◌∙◌, ◌⊎◌, inl, inr, true, false, Bool-cases, [], ◌∷◌, ◌++◌, none, some,
  Result, ok, throw, syntax_error, range_error, type_error, reference_error, plain_error, arith,
}
use rtl_debugger.Common.Int.{pos, ltb_ℤ}
use rtl_debugger.Common.Text.{Text}
use rtl_debugger.Common.Numeral.{value}
use rtl_debugger.Time.{TimePoint, less_than, zero_time, from_text}
use rtl_debugger.Time.Display.{exponent, from_text_iff}
use rtl_debugger.Session.{Session, set_time_cursor, cursor_changed}
use rtl_debugger.Status.{validate_input, validated, input_time}
use rtl_debugger.Extension.{Done, go_to, go_to_time}

-- Where a session goes that is sent to a time: nowhere, and the user is shown that the time is not
-- reached yet, or there.
abbrev pub Goes : Session → TimePoint → Done → Type 0
Goes s p d =
    (d.outcome ≡ ok tt)
    × (((less_than s.simulation_status.latest_time p ≡ true)
          × (d.session ≡ s)
          × (d.not_yet ≡ some p))
        ⊎ ((less_than s.simulation_status.latest_time p ≡ false)
            × (d.session ≡ record s { time_cursor = p; fired = s.fired ++ cursor_changed p ∷ [] })
            × (d.not_yet ≡ none)))

read_is_not_negative :
    (t : Text) (p : TimePoint) → from_text t ≡ ok p → less_than p zero_time ≡ false
read_is_not_negative t p h =
    let (digits, u, spelled, e) = (from_text_iff t p).0 h in
    let raw : p.raw ≡ pos (value 10 0 digits * 10 ^ exponent u) = ap (λ q. q.raw) e in
    ap (λ n. ltb_ℤ n (pos 0)) raw ∙ ground arith

go_to-Goes :
    (s : Session) (p : TimePoint) → less_than p zero_time ≡ false → Goes s p (go_to (ok (some p)) s)
unfolding set_time_cursor
go_to-Goes s p h = elim (Bool-cases (less_than s.simulation_status.latest_time p)) [
  | inl later ↦ rw later (refl, inl (refl, refl, refl))
  | inr reached ↦ rw (reached, h) (refl, inr (refl, refl, refl))
]

-- A text that the input's validation lets through is a time, and goes to it: the command does not
-- throw, also not the RangeError of the cursor; it shows that the time is not reached yet and leaves
-- the session, or sets the cursor to it and tells the listeners.
pub go_to_time-Goes :
    (t : Text) (s : Session)
    → validate_input t ≡ ok true
    → (p : TimePoint) × (from_text t ≡ ok p) × Goes s p (go_to_time (some t) s)
unfolding validate_input go_to_time input_time
go_to_time-Goes t s h = read (from_text t) refl h
  where
    read :
        (r : Result TimePoint)
        → from_text t ≡ r
        → validated r ≡ ok true
        → (p : TimePoint) × (from_text t ≡ ok p) × Goes s p (go_to_time (some t) s)
    read (ok p) e v = (p, e, rw e (go_to-Goes s p (read_is_not_negative t p e)))
    read (throw syntax_error) e v = cc
    read (throw range_error) e v = cc
    read (throw type_error) e v = cc
    read (throw reference_error) e v = cc
    read (throw plain_error) e v = cc
