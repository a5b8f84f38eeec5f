-- ===== src/Time/Display.antt =====
-- Times as the user writes and sees them: `fromString` and `toString` of src/model/time.ts.
use rtl_debugger.Common.{
  ℕ, zero, suc, ◌*◌, ◌/◌, ◌%◌, ◌≤◌, ◌<◌, ◌≡◌, ◌≢◌, ◌↔◌, ◌⊎◌, refl, ap, sym, ◌∙◌, ◌^◌, inr, [], ◌∷◌,
  ◌++◌, append_assoc, none, arith, ok, throw, syntax_error, All,
}
use rtl_debugger.Common.Int.{pos, tdiv-pos, tmod-pos}
use rtl_debugger.Common.Text.{Text}
use rtl_debugger.Common.Numeral.{
  print, print_radix, IsDigit, is_digit, value, print-All_IsDigit, value-print_radix,
  print_radix-ne-nil,
}
use rtl_debugger.Common.Scan.{Passes-digits, take_while-append, drop_while-append}
use rtl_debugger.Time.Groups.{grouped, grouped_small, grouped_large, group_decimals-grouped}
use rtl_debugger.Time.{
  TimePoint, zero_time, TimeUnit, s, ms, us, ns, ps, fs, scale, unit_text, shown_unit, unit_point,
  to_text, from_text, read_unit, match_units, both_groups,
}
use rtl_debugger.Time.Spelling.{Spells, from_text-Spells, Spells-from_text}

pub unit_point_raw : (u : TimeUnit) (k : ℕ) → (unit_point u k).raw ≡ pos (k * scale u)
unit_point_raw s k = ground arith
unit_point_raw ms k = ground arith
unit_point_raw us k = ground arith
unit_point_raw ns k = ground arith
unit_point_raw ps k = ground arith
unit_point_raw fs k = ground arith

-- The femtoseconds of a unit, as a power of ten.
abbrev pub exponent : TimeUnit → ℕ
exponent s = 15
exponent ms = 12
exponent us = 9
exponent ns = 6
exponent ps = 3
exponent fs = 0

scale-exponent : (u : TimeUnit) → scale u ≡ 10 ^ exponent u
scale-exponent s = refl
scale-exponent ms = refl
scale-exponent us = refl
scale-exponent ns = refl
scale-exponent ps = refl
scale-exponent fs = refl

unit_point-exponent :
    (u : TimeUnit) (k : ℕ) → unit_point u k ≡ record { raw = pos (k * 10 ^ exponent u) }
unit_point-exponent u k =
    ap (λ r. record { raw = r }) (unit_point_raw u k ∙ ap (λ n. pos (k * n)) (scale-exponent u))

-- `fromString` reads exactly digits, white space and a unit, as the femtoseconds of that many seconds,
-- milliseconds, microseconds, nanoseconds, picoseconds or femtoseconds: the number that the digits
-- spell, times ten to the power of 15, 12, 9, 6, 3 or 0.
pub from_text_iff :
    (t : Text) (p : TimePoint)
    → (from_text t ≡ ok p) ↔ (
        (digits : Text) × (u : TimeUnit) × Spells t digits u
        × (p ≡ record { raw = pos (value 10 0 digits * 10 ^ exponent u) }))
from_text_iff t p = (
  λ e.
      let (digits, u, h, q) = from_text-Spells t p e in
      (digits, u, h, q ∙ unit_point-exponent u (value 10 0 digits)),
  λ h.
      let (digits, u, w, q) = h in
      Spells-from_text t p (digits, u, w, q ∙ sym (unit_point-exponent u (value 10 0 digits))),
)

-- The count of a unit is shown in that unit: no larger unit divides it.
abbrev pub IsShown : TimeUnit → ℕ → Type 0
IsShown u k = (u ≡ s) ⊎ (k % 1000 ≢ 0)

shown_unit_lem : (u : TimeUnit) (k : ℕ) → IsShown u k → shown_unit (pos (k * scale u)) ≡ u
shown_unit_lem s k h = ground (arith, tmod-pos (k * scale s) (scale s))
shown_unit_lem ms k h =
    ground (arith, tmod-pos (k * scale ms) (scale s), tmod-pos (k * scale ms) (scale ms))
shown_unit_lem us k h = ground (
  arith,
  tmod-pos (k * scale us) (scale s),
  tmod-pos (k * scale us) (scale ms),
  tmod-pos (k * scale us) (scale us),
)
shown_unit_lem ns k h = ground (
  arith,
  tmod-pos (k * scale ns) (scale s),
  tmod-pos (k * scale ns) (scale ms),
  tmod-pos (k * scale ns) (scale us),
  tmod-pos (k * scale ns) (scale ns),
)
shown_unit_lem ps k h = ground (
  arith,
  tmod-pos (k * scale ps) (scale s),
  tmod-pos (k * scale ps) (scale ms),
  tmod-pos (k * scale ps) (scale us),
  tmod-pos (k * scale ps) (scale ns),
  tmod-pos (k * scale ps) (scale ps),
)
shown_unit_lem fs k h = ground (
  arith,
  tmod-pos (k * scale fs) (scale s),
  tmod-pos (k * scale fs) (scale ms),
  tmod-pos (k * scale fs) (scale us),
  tmod-pos (k * scale fs) (scale ns),
  tmod-pos (k * scale fs) (scale ps),
)

-- What is shown of a count of a unit.
to_text-unit_point :
    (u : TimeUnit) (k : ℕ) → IsShown u k → to_text (unit_point u k) ≡ grouped k k ++ unit_text u
unfolding to_text
to_text-unit_point u k h =
    rw (unit_point_raw u k, shown_unit_lem u k h, tdiv-pos (k * scale u) (scale u), unscale u k)
      (ap (λ g. g ++ unit_text u) (group_decimals-grouped k))
  where
    unscale : (u : TimeUnit) (k : ℕ) → k * scale u / scale u ≡ k
    unscale s k = omega arith
    unscale ms k = omega arith
    unscale us k = omega arith
    unscale ns k = omega arith
    unscale ps k = omega arith
    unscale fs k = omega arith

-- A count below a thousand that is shown in its unit is read back.
from_text-to_text_shown :
    (u : TimeUnit) (k : ℕ)
    → IsShown u k
    → k < 1000
    → from_text (to_text (unit_point u k)) ≡ ok (unit_point u k)
from_text-to_text_shown u k shown small =
    rw (to_text-unit_point u k shown, grouped_small k k small)
      (Spells-from_text (print k ++ unit_text u) (unit_point u k)
        (print k, u, written, rw (value-print_radix 10 k (omega arith))))
  where
    written : Spells (print k ++ unit_text u) (print k) u
    written = record {
      space = [];
      some_digits = print_radix-ne-nil 10 k;
      all_digits = print-All_IsDigit k;
      all_space = tt;
      spelled = refl;
    }

from_text-to_text_zero : from_text (to_text zero_time) ≡ ok zero_time
unfolding from_text to_text print_radix
from_text-to_text_zero = refl

unit_point_none : (u : TimeUnit) → unit_point u 0 ≡ zero_time
unit_point_none s = refl
unit_point_none ms = refl
unit_point_none us = refl
unit_point_none ns = refl
unit_point_none ps = refl
unit_point_none fs = refl

-- Every count of a unit below a thousand is read back from the text that is shown for it.
pub from_text-to_text :
    (u : TimeUnit) (k : ℕ) → k < 1000 → from_text (to_text (unit_point u k)) ≡ ok (unit_point u k)
from_text-to_text u zero small = rw (unit_point_none u) from_text-to_text_zero
from_text-to_text u (suc k) small =
    from_text-to_text_shown u (suc k) (inr (λ e. absurd (omega arith))) small

match_units_comma : (ds rest : Text) → All IsDigit ds → match_units (ds ++ (b',' ∷ rest)) ≡ none
unfolding match_units read_unit
match_units_comma ds rest h =
    rw
      (
        take_while-append is_digit ds (b',' ∷ rest) (Passes-digits ds h) refl,
        drop_while-append is_digit ds (b',' ∷ rest) (Passes-digits ds h) refl,
      )
      (both_groups_none ds)
  where
    both_groups_none : (ds : Text) → both_groups ds none ≡ none
    both_groups_none [] = unfold both_groups in refl
    both_groups_none (d ∷ ds) = unfold both_groups in refl

-- The text that is shown for a thousand or more of the unit it is shown in is refused: the
-- expression has no place for the commas.
from_text-to_text_large :
    (u : TimeUnit) (k : ℕ)
    → IsShown u k
    → 1000 ≤ k
    → from_text (to_text (unit_point u k)) ≡ throw syntax_error
unfolding from_text
from_text-to_text_large u k shown large =
    let (ds, rest, digits, e) = grouped_large k k (omega arith) large in
    rw (
      to_text-unit_point u k shown,
      e,
      append_assoc ds (b',' ∷ rest) (unit_text u),
      match_units_comma ds (rest ++ unit_text u) digits,
    )
