-- ===== src/Common/Scan.antt =====
-- Greedy character classes of regular expressions: the longest run that passes a test, and the rest.
use rtl_debugger.Common.Lists.{All}
use rtl_debugger.Common.Text.{Text}
use rtl_debugger.Common.Numeral.{IsDigit, is_digit}
use Prim.Native.Nat.{ℕ}
use mathlib.Core.Path.{◌≡◌, refl}
use mathlib.Core.Bool.{Bool, true, false}
use mathlib.Core.List.{[], ◌∷◌, ◌++◌}
use native.Mathlib.Omega.{arith}

module _ (p : ℕ → Bool) where
  abbrev pub take_while : Text → Text
  take_while [] = []
  take_while (c ∷ s) = elim (p c) [ true ↦ c ∷ take_while s | false ↦ [] ]

  abbrev pub drop_while : Text → Text
  drop_while [] = []
  drop_while (c ∷ s) = elim (p c) [ true ↦ drop_while s | false ↦ c ∷ s ]

  abbrev pub Passes : Text → Type 0
  Passes s = All (λ c. p c ≡ true) s

  -- The text is empty or its first character fails the test.
  abbrev pub Stops : Text → Type 0
  Stops [] = Unit
  Stops (c ∷ s) = p c ≡ false

  pub take_while-Passes : (s : Text) → Passes (take_while s)
  take_while-Passes [] = tt
  take_while-Passes (c ∷ s) = ground (arith, take_while-Passes s)

  pub take_while-append-drop_while : (s : Text) → take_while s ++ drop_while s ≡ s
  take_while-append-drop_while [] = refl
  take_while-append-drop_while (c ∷ s) = ground (arith, take_while-append-drop_while s)

  pub take_while-append : (s t : Text) → Passes s → Stops t → take_while (s ++ t) ≡ s
  take_while-append [] [] h k = refl
  take_while-append [] (d ∷ t) h k = rw k
  take_while-append (c ∷ s) t (pc, h) k = rw (pc, take_while-append s t h k)

  pub drop_while-append : (s t : Text) → Passes s → Stops t → drop_while (s ++ t) ≡ t
  drop_while-append [] [] h k = refl
  drop_while-append [] (d ∷ t) h k = rw k
  drop_while-append (c ∷ s) t (pc, h) k = rw pc (drop_while-append s t h k)

pub Passes-digits : (s : Text) → All IsDigit s → Passes is_digit s
Passes-digits [] h = tt
Passes-digits (c ∷ s) h = (ground arith, Passes-digits s h.1)

pub IsDigit-Passes : (s : Text) → Passes is_digit s → All IsDigit s
IsDigit-Passes [] h = tt
IsDigit-Passes (c ∷ s) (pc, h) = (ground arith, IsDigit-Passes s h)
