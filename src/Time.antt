-- ===== src/Time.antt =====
-- src/model/time.ts: points in time as femtoseconds, their texts for the user and for the protocol.
pub mod Protocol
pub mod Spelling
pub mod Display
pub mod Groups
pub mod Arithmetic
mod Tests
use rtl_debugger.Common.{
  ℕ, zero, suc, ◌*◌, ◌^◌, Bool, true, ◌&&◌, ◌||◌, List, [], ◌∷◌, ◌++◌, Option, none, some, leb,
  ◌==◌, if◌then◌else◌, Result, ok, ◌>>=◌, or_throw, syntax_error,
}
use rtl_debugger.Common.Int.{ℤ, pos, negsuc, ◌+ℤ◌, ◌-ℤ◌, ◌*ℤ◌, tdiv, tmod, ltb_ℤ, eq_ℤ}
use rtl_debugger.Common.Text.{Text, codes, text_eq, pad_start, join}
use rtl_debugger.Common.Numeral.{print_ℤ, is_digit, value}
use rtl_debugger.Common.Scan.{take_while, drop_while}
use mathlib.Core.List.{reverse}

abbrev pub resolution : ℕ
resolution = 10 ^ 15

-- Femtoseconds since the beginning of time.
pub record TimePoint : Type 0 where
  pub raw : ℤ

abbrev pub time_point : ℤ → ℤ → TimePoint
time_point secs femtos = record { raw = secs *ℤ pos resolution +ℤ femtos }

abbrev pub zero_time : TimePoint
zero_time = time_point (pos 0) (pos 0)

abbrev pub secs : TimePoint → ℤ
secs t = tdiv t.raw resolution

abbrev pub femtos : TimePoint → ℤ
femtos t = tmod t.raw resolution

abbrev pub equals : TimePoint → TimePoint → Bool
equals t u = eq_ℤ t.raw u.raw

abbrev pub greater_than : TimePoint → TimePoint → Bool
greater_than t u = ltb_ℤ u.raw t.raw

abbrev pub less_than : TimePoint → TimePoint → Bool
less_than t u = ltb_ℤ t.raw u.raw

unfoldable pub offset_by_femtos : TimePoint → ℤ → TimePoint
offset_by_femtos t n = time_point (secs t) (femtos t +ℤ n)

unfoldable pub difference_in_femtos : TimePoint → TimePoint → ℤ
difference_in_femtos t u = t.raw -ℤ u.raw

abbrev is_zero : ℤ → Bool
is_zero n = eq_ℤ n (pos 0)

-- The loop of `groupDecimals`: the last group first.
group_loop : ℕ → ℤ → List Text → List Text
group_loop zero num groups = groups
group_loop (suc fuel) num groups =
    let rest = group_loop fuel (tdiv num 1000) (groups ++ print_ℤ (tmod num 1000) ∷ []) in
    if is_zero num then groups else rest

abbrev magnitude : ℤ → ℕ
magnitude (pos n) = n
magnitude (negsuc n) = suc n

-- Every group but the last pushed is padded to three digits.
pad_groups : List Text → List Text
pad_groups [] = []
pad_groups (g ∷ []) = g ∷ []
pad_groups (g ∷ h ∷ gs) = pad_start 3 b'0' g ∷ pad_groups (h ∷ gs)

pub group_decimals : ℤ → Text
unfolding group_loop pad_groups
group_decimals num =
    let groups = if is_zero num then codes "0" ∷ [] else group_loop (magnitude num) num [] in
    join (codes ",") (reverse (pad_groups groups))

pub data TimeUnit : Type 0 where
  s ms us ns ps fs : TimeUnit

-- Femtoseconds in a unit.
abbrev pub scale : TimeUnit → ℕ
scale s = 1_000_000_000_000_000
scale ms = 1_000_000_000_000
scale us = 1_000_000_000
scale ns = 1_000_000
scale ps = 1_000
scale fs = 1

abbrev pub unit_text : TimeUnit → Text
unit_text s = codes "s"
unit_text ms = codes "ms"
unit_text us = codes "us"
unit_text ns = codes "ns"
unit_text ps = codes "ps"
unit_text fs = codes "fs"

-- The largest unit that divides the time.
abbrev pub shown_unit : ℤ → TimeUnit
shown_unit raw =
    if is_zero (tmod raw (scale s))
    then s
    else if is_zero (tmod raw (scale ms))
    then ms
    else if is_zero (tmod raw (scale us))
    then us
    else if is_zero (tmod raw (scale ns))
    then ns
    else if is_zero (tmod raw (scale ps))
    then ps
    else fs

unfoldable pub to_text : TimePoint → Text
unfolding group_decimals
to_text t = let u = shown_unit t.raw in group_decimals (tdiv t.raw (scale u)) ++ unit_text u

-- `\s` of JavaScript's regular expressions.
abbrev pub is_space : ℕ → Bool
is_space c =
    (leb 9 c && leb c 13)
    || (c == 0x20
        || (c == 0xa0
            || (c == 0x1680
                || ((leb 0x2000 c && leb c 0x200a)
                    || (c == 0x2028
                        || (c == 0x2029
                            || (c == 0x202f || (c == 0x205f || (c == 0x3000 || c == 0xfeff)))))))))

read_unit : Text → Option TimeUnit
read_unit t =
    if text_eq t (codes "s")
    then some s
    else if text_eq t (codes "ms")
    then some ms
    else if text_eq t (codes "us")
    then some us
    else if text_eq t (codes "ns")
    then some ns
    else if text_eq t (codes "ps")
    then some ps
    else if text_eq t (codes "fs")
    then some fs
    else none

-- `replaceAll(',', '')`.
abbrev pub remove_commas : Text → Text
remove_commas [] = []
remove_commas (c ∷ t) = if c == b',' then remove_commas t else c ∷ remove_commas t

abbrev pub unit_point : TimeUnit → ℕ → TimePoint
unit_point s mantissa = time_point (pos mantissa) (pos 0)
unit_point u mantissa = time_point (pos 0) (pos (mantissa * scale u))

-- The first group is not empty and the second is there.
both_groups : Text → Option TimeUnit → Option (Text × TimeUnit)
both_groups [] u = none
both_groups (d ∷ ds) none = none
both_groups (d ∷ ds) (some u) = some (d ∷ ds, u)

-- `/^(\d+)\s*(s|ms|us|ns|ps|fs)$/`: no class can take what the next part starts with, so that the
-- greedy match is the only one.
match_units : Text → Option (Text × TimeUnit)
unfolding read_unit both_groups
match_units t =
    both_groups (take_while is_digit t) (read_unit (drop_while is_space (drop_while is_digit t)))

unfoldable pub from_text : Text → Result TimePoint
unfolding match_units
from_text t = do
  (mantissa, u) ← or_throw syntax_error (match_units t)
  ok (unit_point u (value 10 0 (remove_commas mantissa)))

abbrev all_digits : Text → Bool
all_digits [] = true
all_digits (c ∷ t) = is_digit c && all_digits t

-- `/^(\d+)\.(\d+)$/` behind its first group.
match_fraction : Text → Text → Option (Text × Text)
match_fraction whole [] = none
match_fraction whole (c ∷ []) = none
match_fraction [] (c ∷ d ∷ t) = none
match_fraction (w ∷ ws) (c ∷ d ∷ t) =
    if c == b'.' && all_digits (d ∷ t) then some (w ∷ ws, d ∷ t) else none

unfoldable pub from_cxxrtl : Text → Result TimePoint
unfolding match_fraction
from_cxxrtl t = do
  (whole, fraction) ←
      or_throw syntax_error (match_fraction (take_while is_digit t) (drop_while is_digit t))
  ok (time_point (pos (value 10 0 whole)) (pos (value 10 0 fraction)))

unfoldable pub to_cxxrtl : TimePoint → Text
to_cxxrtl t = print_ℤ (secs t) ++ (codes "." ++ pad_start 15 b'0' (print_ℤ (femtos t)))

pub record TimeInterval : Type 0 where
  pub begin : TimePoint
  pub end : TimePoint

unfoldable pub interval_from_cxxrtl : Text × Text → Result TimeInterval
interval_from_cxxrtl (b, e) = do
  first ← from_cxxrtl b
  last ← from_cxxrtl e
  ok (record { begin = first; end = last })

unfoldable pub interval_to_cxxrtl : TimeInterval → Text × Text
interval_to_cxxrtl i = (to_cxxrtl i.begin, to_cxxrtl i.end)
