-- ===== src/Common/Text.antt =====
-- Texts as lists of UTF-16 code units: equality, `split`, `join`, `padStart`.
use Prim.Native.Nat.{ℕ, ◌-◌, ◌≤◌}
use Prim.Native.Char.{code}
use Prim.Native.String.{String}
use mathlib.Core.Path.{◌≡◌, refl, ap, ◌∙◌}
use mathlib.Core.Logic.{◌↔◌, ◌≢◌, inl, inr}
use mathlib.Core.Bool.{Bool, true, false, ◌&&◌}
use mathlib.Core.List.{List, [], ◌∷◌, ◌++◌, append_assoc}
use native.Mathlib.Omega.{arith}
use rtl_debugger.Common.Tests.{Bool-cases, ◌==◌, if◌then◌else◌}
use rtl_debugger.Common.Lists.{All, length, replicate, length-append, length-replicate}

abbrev pub Text : Type 0
Text = List ℕ

-- The code units of an ASCII literal.
abbrev pub codes : String → Text
codes String.[] = []
codes (String.◌∷◌ c s) = code c ∷ codes s

abbrev pub text_eq : Text → Text → Bool
text_eq [] [] = true
text_eq [] (d ∷ t) = false
text_eq (c ∷ s) [] = false
text_eq (c ∷ s) (d ∷ t) = (c == d) && text_eq s t

pub text_eq-eq : (s t : Text) → text_eq s t ≡ true → s ≡ t
text_eq-eq [] [] h = refl
text_eq-eq [] (d ∷ t) h = cc
text_eq-eq (c ∷ s) [] h = cc
text_eq-eq (c ∷ s) (d ∷ t) h = ground (arith, text_eq-eq s t)

pub text_eq_refl : (s : Text) → text_eq s s ≡ true
text_eq_refl [] = refl
text_eq_refl (c ∷ s) = ground (arith, text_eq_refl s)

pub text_eq_iff : (s t : Text) → (text_eq s t ≡ true) ↔ (s ≡ t)
text_eq_iff s t = (text_eq-eq s t, λ e. rw e (text_eq_refl t))

-- `s.padStart(width, fill)` with a fill of one code unit.
abbrev pub pad_start : ℕ → ℕ → Text → Text
pad_start width fill s = replicate (width - length s) fill ++ s

pub length-pad_start :
    (width fill : ℕ) (s : Text) → length s ≤ width → length (pad_start width fill s) ≡ width
length-pad_start width fill s h = omega (
  arith,
  length-append {0} (replicate (width - length s) fill) s,
  length-replicate {0} (width - length s) fill,
)

abbrev pub join : Text → List Text → Text
join sep [] = []
join sep (p ∷ []) = p
join sep (p ∷ q ∷ ps) = p ++ (sep ++ join sep (q ∷ ps))

abbrev cons_head : ℕ → List Text → List Text
cons_head c [] = (c ∷ []) ∷ []
cons_head c (p ∷ ps) = (c ∷ p) ∷ ps

-- `t.split(sep)` for a separator of one code unit: one part at least.
abbrev pub split : ℕ → Text → List Text
split sep [] = [] ∷ []
split sep (c ∷ t) = let parts = split sep t in if c == sep then [] ∷ parts else cons_head c parts

abbrev pub Lacks : ℕ → Text → Type 0
Lacks sep = All (λ c. c ≢ sep)

pub split-ne-nil : (sep : ℕ) (t : Text) → split sep t ≢ []
split-ne-nil sep [] = cc
split-ne-nil sep (c ∷ t) = ground (arith, split-ne-nil sep t)

join-empty_head : (sep : Text) (ps : List Text) → ps ≢ [] → join sep ([] ∷ ps) ≡ sep ++ join sep ps
join-empty_head sep [] h = absurd (h refl)
join-empty_head sep (p ∷ ps) h = refl

join-cons_head :
    (sep : Text) (c : ℕ) (ps : List Text) → ps ≢ [] → join sep (cons_head c ps) ≡ c ∷ join sep ps
join-cons_head sep c [] h = absurd (h refl)
join-cons_head sep c (p ∷ []) h = refl
join-cons_head sep c (p ∷ q ∷ ps) h = refl

-- Every text is the join of its parts,
pub join-split : (sep : ℕ) (t : Text) → join (sep ∷ []) (split sep t) ≡ t
join-split sep [] = refl
join-split sep (c ∷ t) = ground (
  arith,
  join-empty_head (sep ∷ []) (split sep t) (split-ne-nil sep t),
  join-cons_head (sep ∷ []) c (split sep t) (split-ne-nil sep t),
  join-split sep t,
)

pub split_one : (sep : ℕ) (p : Text) → Lacks sep p → split sep p ≡ p ∷ []
split_one sep [] h = refl
split_one sep (c ∷ p) h = ground (arith, split_one sep p h.1)

pub split-append : (sep : ℕ) (p t : Text) → Lacks sep p → split sep (p ++ sep ∷ t) ≡ p ∷ split sep t
split-append sep [] t h = ground arith
split-append sep (c ∷ p) t h = ground (arith, split-append sep p t h.1)

cons_head-append :
    (c : ℕ) (ps qs : List Text) → ps ≢ [] → cons_head c (ps ++ qs) ≡ cons_head c ps ++ qs
cons_head-append c [] qs h = absurd (h refl)
cons_head-append c (p ∷ ps) qs h = refl

-- A separator parts the parts of what is before it from those of what is behind it,
pub split-append_any :
    (sep : ℕ) (s t : Text) → split sep (s ++ sep ∷ t) ≡ split sep s ++ split sep t
split-append_any sep [] t = ground arith
split-append_any sep (c ∷ s) t =
    let rest = split-append_any sep s t in
    elim (Bool-cases (c == sep)) [
      | inl at ↦ rw at (ap (λ l. [] ∷ l) rest)
      | inr off ↦ rw off (
          ap (cons_head c) rest
          ∙ cons_head-append c (split sep s) (split sep t) (split-ne-nil sep s))
    ]

-- and parts without the separator are the parts of their join.
pub split-join :
    (sep : ℕ) (ps : List Text) → ps ≢ [] → All (Lacks sep) ps → split sep (join (sep ∷ []) ps) ≡ ps
split-join sep [] n h = absurd (n refl)
split-join sep (p ∷ []) n h = split_one sep p h.0
split-join sep (p ∷ q ∷ ps) n h =
    split-append sep p (join (sep ∷ []) (q ∷ ps)) h.0
    ∙ ap (λ r. p ∷ r) (split-join sep (q ∷ ps) (cc) h.1)

cons_head-Lacks :
    (sep c : ℕ) (ps : List Text) → c ≢ sep → All (Lacks sep) ps → All (Lacks sep) (cons_head c ps)
cons_head-Lacks sep c [] n h = ((n, tt), tt)
cons_head-Lacks sep c (p ∷ ps) n h = ((n, h.0), h.1)

-- No part of a split holds the separator.
pub split-Lacks : (sep : ℕ) (t : Text) → All (Lacks sep) (split sep t)
split-Lacks sep [] = (tt, tt)
split-Lacks sep (c ∷ t) = elim (Bool-cases (c == sep)) [
  | inl at ↦ rw at (tt, split-Lacks sep t)
  | inr off ↦ rw off (cons_head-Lacks sep c (split sep t) (ground arith) (split-Lacks sep t))
]

-- Text before the first separator is put before the first part.
pub split-prefix :
    (sep : ℕ) (s t p : Text) (ps : List Text)
    → Lacks sep s
    → split sep t ≡ p ∷ ps
    → split sep (s ++ t) ≡ (s ++ p) ∷ ps
split-prefix sep [] t p ps h e = e
split-prefix sep (c ∷ s) t p ps h e = ground (arith, split-prefix sep s t p ps h.1 e)

-- Text behind a join goes to its last part.
pub split-join-append :
    (sep : ℕ) (ps : List Text) (q t : Text)
    → All (Lacks sep) ps
    → split sep (join (sep ∷ []) (ps ++ q ∷ []) ++ t) ≡ ps ++ split sep (q ++ t)
split-join-append sep [] q t h = refl
split-join-append sep (p ∷ []) q t h =
    rw (append_assoc p (sep ∷ q) t) (split-append sep p (q ++ t) h.0)
split-join-append sep (p ∷ r ∷ ps) q t h =
    rw (append_assoc p (sep ∷ join (sep ∷ []) (r ∷ ps ++ q ∷ [])) t) (
      split-append sep p (join (sep ∷ []) (r ∷ ps ++ q ∷ []) ++ t) h.0
      ∙ ap (λ m. p ∷ m) (split-join-append sep (r ∷ ps) q t h.1))
