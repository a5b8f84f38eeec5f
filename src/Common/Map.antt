-- ===== src/Common/Map.antt =====
-- Maps with texts as keys, as lists of entries in the order of insertion.
use mathlib.Core.Path.{◌≡◌}
use mathlib.Core.Logic.{inl, inr}
use mathlib.Core.Bool.{false}
use mathlib.Core.Option.{Option, none, some}
use mathlib.Core.List.{List, [], ◌∷◌}
use native.Mathlib.Omega.{arith}
use rtl_debugger.Common.Tests.{if◌then◌else◌, Bool-cases}
use rtl_debugger.Common.Text.{Text, text_eq, text_eq_refl, text_eq-eq}

module _ {A : Type 0} where
  abbrev pub get : Text → List (Text × A) → Option A
  get k [] = none
  get k ((l, a) ∷ m) = if text_eq l k then some a else get k m

  abbrev pub put : Text → A → List (Text × A) → List (Text × A)
  put k a [] = (k, a) ∷ []
  put k a ((l, b) ∷ m) = let rest = put k a m in if text_eq l k then (l, a) ∷ m else (l, b) ∷ rest

  pub get-put : (k : Text) (a : A) (m : List (Text × A)) → get k (put k a m) ≡ some a
  get-put k a [] = ground (arith, text_eq_refl k)
  get-put k a ((l, b) ∷ m) = ground (arith, get-put k a m)

  pub get-put_other :
      (k l : Text) (a : A) (m : List (Text × A)) → text_eq l k ≡ false → get k (put l a m) ≡ get k m
  get-put_other k l a [] h = ground (arith)
  get-put_other k l a ((j, b) ∷ m) h =
      ground (arith, get-put_other k l a m h, text_eq-eq j l, text_eq-eq j k, text_eq_refl l)

  pub get-put_if :
      (k l : Text) (a : A) (m : List (Text × A))
      → get k (put l a m) ≡ (if text_eq l k then some a else get k m)
  get-put_if k l a m = elim (Bool-cases (text_eq l k)) [
    | inl same ↦ rw (same, ← text_eq-eq l k same) (get-put l a m)
    | inr off ↦ rw off (get-put_other k l a m off)
  ]
