-- ===== src/Time/Spelling.antt =====
-- Texts that `fromString` of src/model/time.ts reads: digits, white space and a unit.
use rtl_debugger.Common.{
  ℕ, ◌≡◌, ◌≢◌, refl, ap, inl, inr, true, false, [], ◌∷◌, ◌++◌, Option-cases, none, some, Option,
  arith, ok, All,
}
use rtl_debugger.Common.Text.{Text, codes, text_eq-eq}
use rtl_debugger.Common.Numeral.{IsDigit, is_digit, value}
use rtl_debugger.Common.Scan.{
  Passes-digits, IsDigit-Passes, Passes, Stops, take_while, drop_while, take_while-append,
  drop_while-append, take_while-Passes, take_while-append-drop_while,
}
use rtl_debugger.Time.Groups.{remove_commas-digits}
use rtl_debugger.Time.{
  TimePoint, TimeUnit, s, ms, us, ns, ps, fs, unit_text, unit_point, from_text, read_unit,
  match_units, both_groups, is_space,
}

-- A text that the expression matches: digits, white space, a unit.
pub record Spells (t : Text) (digits : Text) (u : TimeUnit) : Type 0 where
  pub space : Text
  pub some_digits : digits ≢ []
  pub all_digits : All IsDigit digits
  pub all_space : Passes is_space space
  pub spelled : t ≡ digits ++ (space ++ unit_text u)

read_unit-unit_text : (u : TimeUnit) → read_unit (unit_text u) ≡ some u
unfolding read_unit
read_unit-unit_text s = refl
read_unit-unit_text ms = refl
read_unit-unit_text us = refl
read_unit-unit_text ns = refl
read_unit-unit_text ps = refl
read_unit-unit_text fs = refl

unit_text-read_unit : (t : Text) (u : TimeUnit) → read_unit t ≡ some u → t ≡ unit_text u
unfolding read_unit
unit_text-read_unit t u h = ground (
  arith,
  text_eq-eq t (codes "s"),
  text_eq-eq t (codes "ms"),
  text_eq-eq t (codes "us"),
  text_eq-eq t (codes "ns"),
  text_eq-eq t (codes "ps"),
  text_eq-eq t (codes "fs"),
)

unit_text-Stops : (u : TimeUnit) → Stops is_space (unit_text u)
unit_text-Stops s = refl
unit_text-Stops ms = refl
unit_text-Stops us = refl
unit_text-Stops ns = refl
unit_text-Stops ps = refl
unit_text-Stops fs = refl

space_not_digit : (c : ℕ) → is_space c ≡ true → is_digit c ≡ false
space_not_digit c h = ground arith

space-unit-Stops :
    (sp : Text) (u : TimeUnit) → Passes is_space sp → Stops is_digit (sp ++ unit_text u)
space-unit-Stops [] s h = refl
space-unit-Stops [] ms h = refl
space-unit-Stops [] us h = refl
space-unit-Stops [] ns h = refl
space-unit-Stops [] ps h = refl
space-unit-Stops [] fs h = refl
space-unit-Stops (c ∷ sp) u h = space_not_digit c h.0

both_groups_lem : (ds : Text) (u : TimeUnit) → ds ≢ [] → both_groups ds (some u) ≡ some (ds, u)
unfolding both_groups
both_groups_lem [] u h = absurd (h refl)
both_groups_lem (d ∷ ds) u h = refl

match_units-spelled :
    (ds sp : Text) (u : TimeUnit)
    → ds ≢ []
    → All IsDigit ds
    → Passes is_space sp
    → match_units (ds ++ (sp ++ unit_text u)) ≡ some (ds, u)
unfolding match_units
match_units-spelled ds sp u n h k =
    let stop = space-unit-Stops sp u k in
    rw
      (
        take_while-append is_digit ds (sp ++ unit_text u) (Passes-digits ds h) stop,
        drop_while-append is_digit ds (sp ++ unit_text u) (Passes-digits ds h) stop,
        drop_while-append is_space sp (unit_text u) k (unit_text-Stops u),
        read_unit-unit_text u,
      )
      (both_groups_lem ds u n)

both_groups_inv :
    (a ds : Text) (r : Option TimeUnit) {u : TimeUnit}
    → both_groups a r ≡ some (ds, u)
    → (ds ≡ a) × (a ≢ []) × (r ≡ some u)
unfolding both_groups
both_groups_inv [] ds r h = absurd (cc)
both_groups_inv (d ∷ a) ds none h = absurd (cc)
both_groups_inv (d ∷ a) ds (some v) h = ground arith

-- Each text that is matched is digits, white space and a unit.
match_units-Spells :
    (t digits : Text) (u : TimeUnit) → match_units t ≡ some (digits, u) → Spells t digits u
unfolding match_units
match_units-Spells t digits u h =
    let rest = drop_while is_digit t in
    let (same, some_digits, unit) =
      both_groups_inv (take_while is_digit t) digits (read_unit (drop_while is_space rest)) h in
    record {
      space = take_while is_space rest;
      some_digits = rw same some_digits;
      all_digits = rw same (IsDigit-Passes (take_while is_digit t) (take_while-Passes is_digit t));
      all_space = take_while-Passes is_space rest;
      spelled = cc (
        take_while-append-drop_while is_digit t,
        take_while-append-drop_while is_space rest,
        unit_text-read_unit (drop_while is_space rest) u unit,
      );
    }

pub from_text-Spells :
    (t : Text) (p : TimePoint)
    → from_text t ≡ ok p
    → (digits : Text) × (u : TimeUnit) × Spells t digits u × (p ≡ unit_point u (value 10 0 digits))
unfolding from_text
from_text-Spells t p h = elim (Option-cases (match_units t)) [
  | inl e ↦ absurd (let x = rw e at h in cc)
  | inr ((ds, u), e) ↦
      let w = match_units-Spells t ds u e in
      (ds, u, w, cc (rw e at h, remove_commas-digits ds w.all_digits))
]

pub Spells-from_text :
    (t : Text) (p : TimePoint)
    → ((digits : Text) × (u : TimeUnit) × Spells t digits u
        × (p ≡ unit_point u (value 10 0 digits)))
    → from_text t ≡ ok p
unfolding from_text
Spells-from_text t p (ds, u, w, e) =
    rw (w.spelled, match_units-spelled ds w.space u w.some_digits w.all_digits w.all_space, e)
      (ap (λ d. ok (unit_point u (value 10 0 d))) (remove_commas-digits ds w.all_digits))
