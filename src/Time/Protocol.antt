-- ===== src/Time/Protocol.antt =====
-- What the protocol's times mean: `toCXXRTL` and `fromCXXRTL` of src/model/time.ts.
use rtl_debugger.Common.{
  ℕ, zero, suc, ◌+◌, ◌-◌, ◌*◌, ◌/◌, ◌%◌, ◌≡◌, refl, sym, ap, ◌∙◌, true, Option-cases, inl, inr, [],
  ◌∷◌, ◌++◌, replicate, length, All, All-append, ok, arith, ◌≢◌, some,
}
use rtl_debugger.Common.Int.{pos}
use rtl_debugger.Common.Text.{Text, pad_start}
use rtl_debugger.Common.Numeral.{
  print, IsDigit, is_digit, value, print-All_IsDigit, print_radix-ne-nil, value-print_radix,
}
use rtl_debugger.Common.Scan.{
  Passes-digits, IsDigit-Passes, take_while, drop_while, take_while-append, take_while-Passes,
  take_while-append-drop_while, drop_while-append,
}
use rtl_debugger.Time.{
  TimePoint, TimeInterval, time_point, from_cxxrtl, to_cxxrtl, interval_from_cxxrtl,
  interval_to_cxxrtl, resolution, secs, femtos, all_digits, match_fraction,
}

all_digits-digits : (s : Text) → All IsDigit s → all_digits s ≡ true
all_digits-digits [] h = refl
all_digits-digits (c ∷ s) h = ground (arith, all_digits-digits s h.1)

pub zeros-All_IsDigit : (k : ℕ) → All IsDigit (replicate k b'0')
zeros-All_IsDigit zero = tt
zeros-All_IsDigit (suc k) = (omega arith, zeros-All_IsDigit k)

pub value-zeros : (k : ℕ) (s : Text) → value 10 0 (replicate k b'0' ++ s) ≡ value 10 0 s
value-zeros zero s = refl
value-zeros (suc k) s = value-zeros k s

-- A match of `\d+\.\d+`, read back.
match_fraction_lem :
    (a b : Text) → a ≢ [] → b ≢ [] → All IsDigit b → match_fraction a (b'.' ∷ b) ≡ some (a, b)
unfolding match_fraction
match_fraction_lem [] b p q h = absurd (p refl)
match_fraction_lem (c ∷ a) [] p q h = absurd (q refl)
match_fraction_lem (c ∷ a) (d ∷ b) p q h = ground (arith, all_digits-digits (d ∷ b) h)

-- Digits, a dot and digits are read as seconds and femtoseconds.
pub from_cxxrtl_digits :
    (a b : Text)
    → a ≢ []
    → b ≢ []
    → All IsDigit a
    → All IsDigit b
    → from_cxxrtl (a ++ (b'.' ∷ b))
      ≡ ok (record { raw = pos (value 10 0 a * resolution + value 10 0 b) })
unfolding from_cxxrtl
from_cxxrtl_digits a b p q ha hb =
    rw
      (
        take_while-append is_digit a (b'.' ∷ b) (Passes-digits a ha) refl,
        drop_while-append is_digit a (b'.' ∷ b) (Passes-digits a ha) refl,
        match_fraction_lem a b p q hb,
      )
      (ground arith)

secs-pos : (n : ℕ) → secs (record { raw = pos n }) ≡ pos (n / resolution)
secs-pos n = ground arith

femtos-pos : (n : ℕ) → femtos (record { raw = pos n }) ≡ pos (n % resolution)
femtos-pos n = ground arith

fraction_text : (n : ℕ) → Text
fraction_text n = pad_start 15 b'0' (print (n % resolution))

fraction_text-All_IsDigit : (n : ℕ) → All IsDigit (fraction_text n)
unfolding fraction_text
fraction_text-All_IsDigit n =
    All-append IsDigit (replicate (15 - length (print (n % resolution))) b'0')
      (print (n % resolution)) (zeros-All_IsDigit (15 - length (print (n % resolution))))
      (print-All_IsDigit (n % resolution))

append-ne-nil : (s t : Text) → t ≢ [] → s ++ t ≢ []
append-ne-nil [] t h = h
append-ne-nil (c ∷ s) t h = cc

value-fraction_text : (n : ℕ) → value 10 0 (fraction_text n) ≡ n % resolution
unfolding fraction_text
value-fraction_text n =
    value-zeros (15 - length (print (n % resolution))) (print (n % resolution))
    ∙ value-print_radix 10 (n % resolution) (omega arith)

to_cxxrtl_pos :
    (n : ℕ)
    → to_cxxrtl (record { raw = pos n }) ≡ print (n / resolution) ++ (b'.' ∷ fraction_text n)
unfolding to_cxxrtl fraction_text
to_cxxrtl_pos n = rw (secs-pos n, femtos-pos n)

-- A time from zero on is read back from its protocol text.
pub from_cxxrtl-to_cxxrtl :
    (n : ℕ) → from_cxxrtl (to_cxxrtl (record { raw = pos n })) ≡ ok (record { raw = pos n })
from_cxxrtl-to_cxxrtl n =
    rw
      (
        to_cxxrtl_pos n,
        from_cxxrtl_digits (print (n / resolution)) (fraction_text n)
            (print_radix-ne-nil 10 (n / resolution))
            (unfold fraction_text in append-ne-nil _ _ (print_radix-ne-nil 10 (n % resolution)))
            (print-All_IsDigit (n / resolution)) (fraction_text-All_IsDigit n),
        value-print_radix 10 (n / resolution) (omega arith),
        value-fraction_text n,
      )
      (ap (λ m. ok (record { raw = pos m })) (omega arith))

-- So is an interval.
pub interval_from_cxxrtl-interval_to_cxxrtl :
    (m n : ℕ)
    → let i : TimeInterval = record {
      begin = record { raw = pos m };
      end = record { raw = pos n };
    } in
      interval_from_cxxrtl (interval_to_cxxrtl i) ≡ ok i
unfolding interval_from_cxxrtl interval_to_cxxrtl
interval_from_cxxrtl-interval_to_cxxrtl m n = rw (from_cxxrtl-to_cxxrtl m, from_cxxrtl-to_cxxrtl n)

-- What the texts that are read look like, and what they stand for.
pub record Reads (t : Text) (u : TimePoint) : Type 0 where
  pub whole : Text
  pub fraction : Text
  pub whole_some : whole ≢ []
  pub fraction_some : fraction ≢ []
  pub whole_digits : All IsDigit whole
  pub fraction_digits : All IsDigit fraction
  pub spelled : t ≡ whole ++ (b'.' ∷ fraction)
  pub meant : u.raw ≡ pos (value 10 0 whole * resolution + value 10 0 fraction)

IsDigit-all_digits : (s : Text) → all_digits s ≡ true → All IsDigit s
IsDigit-all_digits [] h = tt
IsDigit-all_digits (c ∷ s) h = (ground arith, IsDigit-all_digits s (ground arith))

-- What a match of the second group found.
match_fraction_inv :
    (a r : Text) {w f : Text}
    → match_fraction a r ≡ some (w, f)
    → (w ≡ a) × (a ≢ []) × (r ≡ b'.' ∷ f) × (f ≢ []) × (all_digits f ≡ true)
unfolding match_fraction
match_fraction_inv a [] h = absurd (cc)
match_fraction_inv a (c ∷ []) h = absurd (cc)
match_fraction_inv [] (c ∷ d ∷ t) h = absurd (cc)
match_fraction_inv (x ∷ a) (c ∷ d ∷ t) h = ground arith

-- Each text that is read is digits, a dot and digits.
from_cxxrtl-Reads : (t : Text) (u : TimePoint) → from_cxxrtl t ≡ ok u → Reads t u
unfolding from_cxxrtl
from_cxxrtl-Reads t u h =
    elim (Option-cases (match_fraction (take_while is_digit t) (drop_while is_digit t))) [
      | inl e ↦ absurd (let x = rw e at h in cc)
      | inr ((w, f), e) ↦ found w f e (rw e at h)
    ]
  where
    found :
        (w f : Text)
        → match_fraction (take_while is_digit t) (drop_while is_digit t) ≡ some (w, f)
        → ok (time_point (pos (value 10 0 w)) (pos (value 10 0 f))) ≡ ok u
        → Reads t u
    found w f e h =
        let (same, some_w, rest, some_f, digits) =
          match_fraction_inv (take_while is_digit t) (drop_while is_digit t) e in
        record {
          whole = w;
          fraction = f;
          whole_some = rw same some_w;
          fraction_some = some_f;
          whole_digits = rw same (IsDigit-Passes _ (take_while-Passes is_digit t));
          fraction_digits = IsDigit-all_digits f digits;
          spelled = sym (take_while-append-drop_while is_digit t) ∙ cc;
          meant = ground arith;
        }
