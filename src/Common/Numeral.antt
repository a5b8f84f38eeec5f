-- ===== src/Common/Numeral.antt =====
-- Numerals: `toString(radix)` of a number and of a bigint, and reading digits back.
use Prim.Native.Nat.{ℕ, zero, suc, ◌+◌, ◌-◌, ◌*◌, ◌/◌, ◌%◌, ◌^◌, ◌≤◌, ◌<◌}
use mathlib.Core.Path.{◌≡◌, ap, ◌∙◌}
use mathlib.Core.Logic.{◌≢◌, inl, inr}
use mathlib.Core.Bool.{Bool, ◌&&◌}
use mathlib.Core.List.{[], ◌∷◌}
use native.Mathlib.Omega.{arith}
use native.Mathlib.Nat.{mod-lt, div-add-mod', div-lt_self, pow-suc}
use rtl_debugger.Common.Tests.{ltb, leb, ◌==◌, ==_iff, Bool-cases, if◌then◌else◌}
use rtl_debugger.Common.Lists.{length, All}
use rtl_debugger.Common.Int.{ℤ, pos, negsuc}
use rtl_debugger.Common.Text.{Text}

-- The code unit of a digit below 16, in lower case.
abbrev pub digit : ℕ → ℕ
digit d = if ltb d 10 then b'0' + d else b'a' + d - 10

-- The digits of a number before `out`; `fuel` of the number itself is enough.
emit : ℕ → ℕ → ℕ → Text → Text
emit zero radix n out = out
emit (suc fuel) radix n out =
    let rest = emit fuel radix (n / radix) (digit (n % radix) ∷ out) in if n == 0 then out else rest

unfoldable pub print_radix : ℕ → ℕ → Text
unfolding emit
print_radix radix n = if n == 0 then b'0' ∷ [] else emit n radix n []

abbrev pub print : ℕ → Text
print = print_radix 10

abbrev pub print_ℤ : ℤ → Text
print_ℤ (pos n) = print n
print_ℤ (negsuc n) = b'-' ∷ print (suc n)

abbrev pub is_digit : ℕ → Bool
is_digit c = leb b'0' c && leb c b'9'

abbrev pub IsDigit : ℕ → Type 0
IsDigit c = (b'0' ≤ c) × (c ≤ b'9')

-- What a digit below 16 stands for.
abbrev pub digit_value : ℕ → ℕ
digit_value c = if is_digit c then c - b'0' else c - b'a' + 10

-- The number that digits spell behind `n`.
abbrev pub value : ℕ → ℕ → Text → ℕ
value radix n [] = n
value radix n (c ∷ s) = value radix (n * radix + digit_value c) s

abbrev pub IsRadix : ℕ → Type 0
IsRadix r = (2 ≤ r) × (r ≤ 16)

digit_value-digit : (d : ℕ) → d < 16 → digit_value (digit d) ≡ d
digit_value-digit d h = ground arith

last_digit : (r n : ℕ) → IsRadix r → n / r * r + digit_value (digit (n % r)) ≡ n
last_digit r n h =
    let low : n % r < r = mod-lt n (omega arith) in
    omega (arith, digit_value-digit (n % r) (omega arith), div-add-mod' n r)

value-emit :
    (fuel r n : ℕ) (out : Text)
    → IsRadix r
    → n ≤ fuel
    → value r 0 (emit fuel r n out) ≡ value r n out
unfolding emit
value-emit zero r n out h le = let none_left : n ≡ 0 = omega arith in rw none_left
value-emit (suc fuel) r n out h le = elim (Bool-cases (n == 0)) [
  | inl done ↦ rw (done, (==_iff n 0).0 done)
  | inr more ↦ rw more (
      value-emit fuel r (n / r) (digit (n % r) ∷ out) h (shrink (ground arith))
      ∙ ap (λ m. value r m out) (last_digit r n h))
]
  where
    shrink : 0 < n → n / r ≤ fuel
    shrink p = let falls : n / r < n = div-lt_self p (omega arith) in omega arith

-- Reading a printed number back gives the number.
pub value-print_radix : (r n : ℕ) → IsRadix r → value r 0 (print_radix r n) ≡ n
unfolding print_radix
value-print_radix r n h = ground (arith, value-emit n r n [] h)

IsDigit-digit : (n : ℕ) → IsDigit (digit (n % 10))
IsDigit-digit n = ground arith

emit-All_IsDigit : (fuel n : ℕ) (out : Text) → All IsDigit out → All IsDigit (emit fuel 10 n out)
unfolding emit
emit-All_IsDigit zero n out h = h
emit-All_IsDigit (suc fuel) n out h =
    ground (arith, emit-All_IsDigit fuel (n / 10) (digit (n % 10) ∷ out) (IsDigit-digit n, h))

-- A number is printed in decimal by digits only,
pub print-All_IsDigit : (n : ℕ) → All IsDigit (print n)
unfolding print_radix
print-All_IsDigit n = ground (arith, emit-All_IsDigit n n [] tt)

emit-ne-nil : (fuel r n : ℕ) (c : ℕ) (out : Text) → emit fuel r n (c ∷ out) ≢ []
unfolding emit
emit-ne-nil zero r n c out = cc
emit-ne-nil (suc fuel) r n c out =
    ground (arith, emit-ne-nil fuel r (n / r) (digit (n % r)) (c ∷ out))

-- by one at least,
pub print_radix-ne-nil : (r n : ℕ) → print_radix r n ≢ []
unfolding print_radix emit
print_radix-ne-nil r zero = cc
print_radix-ne-nil r (suc n) = ground (arith, emit-ne-nil n r (suc n / r) (digit (suc n % r)) [])

tenth : (k n : ℕ) → n < 10 ^ suc k → n / 10 < 10 ^ k
tenth k n h = omega (arith, pow-suc 10 k)

length-emit :
    (fuel k n : ℕ) (out : Text) → n < 10 ^ k → length (emit fuel 10 n out) ≤ k + length out
unfolding emit
length-emit zero k n out h = omega arith
length-emit (suc fuel) zero n out h =
    let none_left : n ≡ 0 = omega arith in rw none_left (omega arith)
length-emit (suc fuel) (suc k) n out h =
    ground (arith, length-emit fuel k (n / 10) (digit (n % 10) ∷ out) (tenth k n h))

-- and by at most `k` where it is below ten to the `k`.
pub length-print : (k n : ℕ) → 0 < k → n < 10 ^ k → length (print n) ≤ k
unfolding print_radix
length-print k n p h = ground (arith, length-emit n k n [] h)
