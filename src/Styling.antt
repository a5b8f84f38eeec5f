-- ===== src/Styling.antt =====
-- src/model/styling.ts: how variables, their bits and rows, and their values are shown. The radix that
-- is stored for a variable is a parameter.
pub mod Values
pub mod Indices
mod Tests
use rtl_debugger.Common.{
  ℕ, zero, suc, ◌+◌, ◌-◌, ◌%◌, ◌^◌, Bool, true, false, not, ◌&&◌, List, [], ◌∷◌, ◌++◌, Option, none,
  some, ◌==◌, if◌then◌else◌,
}
use rtl_debugger.Common.Int.{ℤ, sub_ℕ}
use rtl_debugger.Common.Text.{Text, codes}
use rtl_debugger.Common.Numeral.{print, print_radix, print_ℤ}
use rtl_debugger.Variable.{
  ScalarVariable, MemoryVariable, Variable, scalar_variable, memory_variable, base,
}

pub data DisplayStyle : Type 0 where
  python verilog vhdl : DisplayStyle

pub data Radix : Type 0 where
  binary octal decimal hexadecimal : Radix

abbrev pub number_of : Radix → ℕ
number_of binary = 2
number_of octal = 8
number_of decimal = 10
number_of hexadecimal = 16

-- `[from:to]`.
abbrev range_text : Text → Text → Text
range_text from to = codes "[" ++ (from ++ (codes ":" ++ (to ++ codes "]")))

-- The rows of a memory; `scalar` leaves them out.
abbrev python_rows : Variable → Bool → Text
python_rows (memory_variable v) false =
    if v.zero_at == 0
    then codes "[" ++ (print v.depth ++ codes "] ")
    else range_text (print v.zero_at) (print (v.zero_at + v.depth)) ++ codes " "
python_rows _ _ = []

abbrev python_bits : ScalarVariable → Text
python_bits v =
    if v.lsb_at == 0
    then codes "[" ++ (print v.width ++ codes "]")
    else range_text (print v.lsb_at) (print (v.lsb_at + v.width)) ++ codes " "

abbrev other_rows : Variable → Bool → Text
other_rows (memory_variable v) false =
    codes " "
    ++ (range_text (print v.zero_at) (print_ℤ (sub_ℕ (v.zero_at + v.depth) 1)) ++ codes " ")
other_rows _ _ = []

abbrev other_bits : ScalarVariable → Text
other_bits v = range_text (print_ℤ (sub_ℕ (v.lsb_at + v.width) 1)) (print v.lsb_at)

abbrev is_one_bit : Variable → Bool
is_one_bit (scalar_variable v) = v.lsb_at == 0 && v.width == 1
is_one_bit (memory_variable v) = false

abbrev described : DisplayStyle → Variable → Bool → Text
described python v scalar = python_rows v scalar ++ python_bits (base v)
described _ v scalar = other_bits (base v) ++ other_rows v scalar

pub variable_description : DisplayStyle → Variable → Bool → Text
variable_description style v scalar = if is_one_bit v then [] else described style v scalar

-- The loops that yield indices from a first one: `rounds` upward from `index`, and downward.
abbrev pub upward : ℕ → ℕ → ℕ → List ℕ
upward first index zero = []
upward first index (suc rounds) = (first + index) ∷ upward first (index + 1) rounds

abbrev pub downward : ℕ → ℕ → List ℕ
downward first zero = []
downward first (suc index) = (first + index) ∷ downward first index

unfoldable pub variable_bit_indices : DisplayStyle → Variable → List ℕ
variable_bit_indices python v = upward (base v).lsb_at 0 (base v).width
variable_bit_indices _ v = downward (base v).lsb_at (base v).width

pub memory_row_indices : MemoryVariable → List ℕ
memory_row_indices v = upward v.zero_at 0 v.depth

-- What stands before and behind the digits.
abbrev pub before_digits : DisplayStyle → ℕ → Radix → Text
before_digits python width binary = codes "0b"
before_digits python width octal = codes "0o"
before_digits python width decimal = []
before_digits python width hexadecimal = codes "0x"
before_digits verilog width binary = print width ++ codes "'b"
before_digits verilog width octal = print width ++ codes "'o"
before_digits verilog width decimal = print width ++ codes "'d"
before_digits verilog width hexadecimal = print width ++ codes "'h"
before_digits vhdl width binary = codes "B\""
before_digits vhdl width octal = codes "O\""
before_digits vhdl width decimal = []
before_digits vhdl width hexadecimal = codes "X\""

abbrev pub behind_digits : DisplayStyle → Radix → Text
behind_digits vhdl decimal = []
behind_digits vhdl _ = codes "\""
behind_digits _ _ = []

-- `radix ?? stored ?? 10`.
abbrev pub chosen_radix : Option Radix → Option Radix → Radix
chosen_radix (some radix) stored = radix
chosen_radix none (some radix) = radix
chosen_radix none none = decimal

abbrev pub with_digits : DisplayStyle → ℕ → Radix → ℕ → Text
with_digits style width radix value =
    before_digits style width radix
    ++ (print_radix (number_of radix) value ++ behind_digits style radix)

-- `value & ((1n << width) - 1n)` of a value from zero on is its rest.
unfoldable pub variable_value :
    DisplayStyle → Variable → Option ℕ → Option Radix → Option Radix → Text
variable_value style v none radix stored = codes "..."
variable_value style v (some value) radix stored =
    let masked = value % 2 ^ (base v).width in
    if (base v).width == 1
    then print masked
    else with_digits style (base v).width (chosen_radix radix stored) masked
