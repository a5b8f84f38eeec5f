-- ===== src/Styling/Values.antt =====
-- What the shown text of a value tells of it.
use rtl_debugger.Common.{
  ℕ, ◌%◌, ◌^◌, ◌≡◌, ◌↔◌, sym, ap, ◌∙◌, inl, inr, Option, some, ◌==◌, if◌then◌else◌, Bool-cases,
  arith,
}
use mathlib.Core.List.{append_cancel_left, append_cancel_right}
use rtl_debugger.Common.Numeral.{print_radix, value, value-print_radix, IsRadix}
use rtl_debugger.Variable.{Variable, base}
use rtl_debugger.Styling.{
  DisplayStyle, Radix, binary, octal, decimal, hexadecimal, number_of, variable_value, with_digits,
  before_digits, behind_digits, chosen_radix,
}

number_of-IsRadix : (r : Radix) → IsRadix (number_of r)
number_of-IsRadix binary = (omega arith, omega arith)
number_of-IsRadix octal = (omega arith, omega arith)
number_of-IsRadix decimal = (omega arith, omega arith)
number_of-IsRadix hexadecimal = (omega arith, omega arith)

print_radix-cancel : (r m n : ℕ) → IsRadix r → print_radix r m ≡ print_radix r n → m ≡ n
print_radix-cancel r m n h e =
    sym (value-print_radix r m h) ∙ ap (value r 0) e ∙ value-print_radix r n h

with_digits-cancel :
    (style : DisplayStyle) (width : ℕ) (radix : Radix) (m n : ℕ)
    → with_digits style width radix m ≡ with_digits style width radix n
    → m ≡ n
with_digits-cancel style width radix m n e =
    print_radix-cancel (number_of radix) m n (number_of-IsRadix radix) (
      append_cancel_right (print_radix (number_of radix) m) (print_radix (number_of radix) n)
        (behind_digits style radix) (append_cancel_left (before_digits style width radix) _ _ e))

-- In any style and radix two values of a variable are shown by the same text exactly if they agree in
-- the bits that the variable has.
pub variable_value_iff :
    (style : DisplayStyle) (v : Variable) (x y : ℕ) (radix stored : Option Radix)
    → (variable_value style v (some x) radix stored ≡ variable_value style v (some y) radix stored)
      ↔ (x % 2 ^ (base v).width ≡ y % 2 ^ (base v).width)
unfolding variable_value
variable_value_iff style v x y radix stored =
    let width = (base v).width in
    (
      λ e. elim (Bool-cases (width == 1)) [
        | inl one ↦
            print_radix-cancel 10 (x % 2 ^ width) (y % 2 ^ width) (omega arith, omega arith)
              (rw one at e)
        | inr more ↦
            with_digits-cancel style width (chosen_radix radix stored) (x % 2 ^ width)
              (y % 2 ^ width) (rw more at e)
      ],
      λ e.
          ap
            (λ n.
              if width == 1
              then print_radix 10 n
              else with_digits style width (chosen_radix radix stored) n)
            e,
    )
