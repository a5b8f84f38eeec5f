-- ===== src/Time/Tests.antt =====
-- Times on concrete inputs.
use rtl_debugger.Common.{◌*◌, ◌^◌, ◌≡◌, refl, ◌↔◌, ◌⊎◌, ok, throw, syntax_error, arith, true, false}
use rtl_debugger.Common.Int.{ℤ, pos, negsuc}
use rtl_debugger.Common.Text.{codes}
use rtl_debugger.Common.Numeral.{print_radix, value}
use rtl_debugger.Time.{
  TimePoint, TimeUnit, ms, unit_point, from_cxxrtl, to_cxxrtl, from_text, to_text, offset_by_femtos,
  difference_in_femtos, interval_from_cxxrtl, interval_to_cxxrtl, equals, less_than, greater_than,
}
use rtl_debugger.Time.Protocol.{from_cxxrtl-to_cxxrtl, interval_from_cxxrtl-interval_to_cxxrtl}
use rtl_debugger.Time.Spelling.{Spells}
use rtl_debugger.Time.Display.{exponent, from_text_iff, from_text-to_text}
use rtl_debugger.Time.Arithmetic.{difference_in_femtos-offset_by_femtos, comparisons}

abbrev at : ℤ → TimePoint
at r = record { raw = r }

protocol_texts :
    (to_cxxrtl (at (pos 1_000_000_000_000_002)) ≡ codes "1.000000000000002")
    × (from_cxxrtl (codes "2.5") ≡ ok (at (pos 2_000_000_000_000_005)))
    × (from_cxxrtl (codes "2.") ≡ throw syntax_error)
    × (from_cxxrtl (codes "-2.5") ≡ throw syntax_error)
    × (to_cxxrtl (at (negsuc 0)) ≡ codes "0.0000000000000-1")
unfolding to_cxxrtl from_cxxrtl print_radix
protocol_texts = (refl, refl, refl, refl, refl)

user_texts :
    (to_text (at (pos 1_234_000_000_000)) ≡ codes "1,234us")
    × (to_text (at (negsuc 1_233_999)) ≡ codes "-1,-234ps")
    × (from_text (codes "10 ms") ≡ ok (at (pos 10_000_000_000_000)))
    × (from_text (codes "1,234us") ≡ throw syntax_error)
unfolding to_text from_text print_radix
user_texts = (refl, refl, refl, refl)

from_cxxrtl-to_cxxrtl_example : from_cxxrtl (to_cxxrtl (at (pos 42))) ≡ ok (at (pos 42))
from_cxxrtl-to_cxxrtl_example = from_cxxrtl-to_cxxrtl 42

interval_example :
    interval_from_cxxrtl (interval_to_cxxrtl (record { begin = at (pos 1); end = at (pos 7) }))
    ≡ ok (record { begin = at (pos 1); end = at (pos 7) })
interval_example = interval_from_cxxrtl-interval_to_cxxrtl 1 7

from_text_iff_example : (from_text (codes "7 ns") ≡ ok (at (pos 7_000_000))) ↔ (
    (digits : _) × (u : TimeUnit) × Spells (codes "7 ns") digits u
    × (at (pos 7_000_000) ≡ record { raw = pos (value 10 0 digits * 10 ^ exponent u) }))
from_text_iff_example = from_text_iff (codes "7 ns") (at (pos 7_000_000))

from_text-to_text_example : from_text (to_text (unit_point ms 250)) ≡ ok (unit_point ms 250)
from_text-to_text_example = from_text-to_text ms 250 (omega arith)

difference_example :
    difference_in_femtos (offset_by_femtos (at (pos 5)) (negsuc 8)) (at (pos 5)) ≡ negsuc 8
difference_example = difference_in_femtos-offset_by_femtos (at (pos 5)) (negsuc 8)

comparisons_example :
    ((equals (at (pos 1)) (at (pos 2)) ≡ true)
      × (less_than (at (pos 1)) (at (pos 2)) ≡ false)
      × (greater_than (at (pos 1)) (at (pos 2)) ≡ false)
      × (at (pos 1) ≡ at (pos 2)))
    ⊎ ((equals (at (pos 1)) (at (pos 2)) ≡ false)
        × (less_than (at (pos 1)) (at (pos 2)) ≡ true)
        × (greater_than (at (pos 1)) (at (pos 2)) ≡ false))
    ⊎ ((equals (at (pos 1)) (at (pos 2)) ≡ false)
        × (less_than (at (pos 1)) (at (pos 2)) ≡ false)
        × (greater_than (at (pos 1)) (at (pos 2)) ≡ true))
comparisons_example = comparisons (at (pos 1)) (at (pos 2))
