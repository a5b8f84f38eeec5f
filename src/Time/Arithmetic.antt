-- ===== src/Time/Arithmetic.antt =====
-- `offsetByFemtos`, `differenceInFemtos` and the comparisons of src/model/time.ts.
use rtl_debugger.Common.{◌≡◌, sym, ap, ◌∙◌, true, false, arith, ◌⊎◌}
use rtl_debugger.Common.Int.{ℤ, pos, negsuc, ◌+ℤ◌, ◌*ℤ◌, tdiv, tmod, +ℤ_assoc, eq_of_parts}
use rtl_debugger.Time.{
  TimePoint, resolution, secs, femtos, offset_by_femtos, difference_in_femtos, equals, less_than,
  greater_than,
}

-- Seconds and femtoseconds make up the time, before zero too.
split_time : (r : ℤ) → tdiv r resolution *ℤ pos resolution +ℤ tmod r resolution ≡ r
split_time (pos n) = ground arith
split_time (negsuc n) = ground arith

-- Moving a time by femtoseconds adds them, though the code goes through seconds and a rest.
pub offset_by_femtos-raw : (t : TimePoint) (n : ℤ) → (offset_by_femtos t n).raw ≡ t.raw +ℤ n
unfolding offset_by_femtos
offset_by_femtos-raw t n =
    sym (+ℤ_assoc (secs t *ℤ pos resolution) (femtos t) n) ∙ ap (λ r. r +ℤ n) (split_time t.raw)

-- The difference to the time before it is what a time was moved by.
pub difference_in_femtos-offset_by_femtos :
    (t : TimePoint) (n : ℤ) → difference_in_femtos (offset_by_femtos t n) t ≡ n
unfolding difference_in_femtos
difference_in_femtos-offset_by_femtos t n = rw (offset_by_femtos-raw t n) (ground arith)

-- Of two times exactly one comparison holds, and two that are equal are one.
pub comparisons :
    (t u : TimePoint)
    → ((equals t u ≡ true) × (less_than t u ≡ false) × (greater_than t u ≡ false) × (t ≡ u))
      ⊎ ((equals t u ≡ false) × (less_than t u ≡ true) × (greater_than t u ≡ false))
      ⊎ ((equals t u ≡ false) × (less_than t u ≡ false) × (greater_than t u ≡ true))
comparisons t u = ground (arith, eq_of_parts t.raw u.raw)
