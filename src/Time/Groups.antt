-- ===== src/Time/Groups.antt =====
-- `groupDecimals` of src/model/time.ts against a plain description: a number below a thousand is
-- printed as it is, any other as its thousands, a comma and three digits.
use rtl_debugger.Common.{
  ℕ, zero, suc, ◌+◌, ◌-◌, ◌*◌, ◌/◌, ◌%◌, ◌^◌, ◌≤◌, ◌<◌, ◌≡◌, refl, sym, ap, ◌∙◌, inl, inr, List, [],
  ◌∷◌, ◌++◌, map, append_assoc, append-nil, replicate, length, All, All-append, ltb, Bool-cases,
  if◌then◌else◌, arith, ltb→lt,
}
use rtl_debugger.Common.Int.{pos, tdiv-pos, tmod-pos}
use rtl_debugger.Common.Text.{Text, codes, pad_start, length-pad_start, join}
use rtl_debugger.Common.Numeral.{
  print, print_radix, IsDigit, digit_value, value, print-All_IsDigit, value-print_radix,
  length-print,
}
use rtl_debugger.Time.Protocol.{zeros-All_IsDigit, value-zeros}
use native.Mathlib.Nat.{pow-suc}
use rtl_debugger.Time.{group_loop, pad_groups, group_decimals, remove_commas}
use mathlib.Core.List.{reverse, reverse-append, map-append}

abbrev pub pad : Text → Text
pad = pad_start 3 b'0'

-- A number with a comma before each three digits; `fuel` of the number itself is enough.
pub grouped : ℕ → ℕ → Text
grouped zero n = print n
grouped (suc fuel) n =
    let front = grouped fuel (n / 1000) in
    if ltb n 1000 then print n else front ++ (b',' ∷ pad (print (n % 1000)))

-- Every text behind a comma.
flat : List Text → Text
flat [] = []
flat (p ∷ ps) = b',' ∷ (p ++ flat ps)

join-flat : (p : Text) (ps : List Text) → join (codes ",") (p ∷ ps) ≡ p ++ flat ps
unfolding flat
join-flat p [] = sym (append-nil p)
join-flat p (q ∷ ps) = ap (λ r. p ++ (b',' ∷ r)) (join-flat q ps)

pad_groups-append : (gs : List Text) (g : Text) → pad_groups (gs ++ g ∷ []) ≡ map pad gs ++ g ∷ []
unfolding pad_groups
pad_groups-append [] g = refl
pad_groups-append (h ∷ []) g = refl
pad_groups-append (h ∷ k ∷ gs) g = ap (λ r. pad h ∷ r) (pad_groups-append (k ∷ gs) g)

-- What the groups so far add behind the next one.
suffix : List Text → Text
suffix gs = flat (reverse (map pad gs))

laid_out : List Text → Text
laid_out gs = join (codes ",") (reverse (pad_groups gs))

laid_out-append : (gs : List Text) (g : Text) → laid_out (gs ++ g ∷ []) ≡ g ++ suffix gs
unfolding laid_out suffix
laid_out-append gs g =
    rw (pad_groups-append gs g, reverse-append (map pad gs) (g ∷ []))
      (join-flat g (reverse (map pad gs)))

suffix-append : (gs : List Text) (g : Text) → suffix (gs ++ g ∷ []) ≡ b',' ∷ (pad g ++ suffix gs)
unfolding suffix flat
suffix-append gs g = rw (map-append, reverse-append (map pad gs) (pad g ∷ []))

group_loop_zero : (fuel : ℕ) (gs : List Text) → group_loop fuel (pos 0) gs ≡ gs
unfolding group_loop
group_loop_zero zero gs = refl
group_loop_zero (suc fuel) gs = refl

group_loop_pos :
    (fuel n : ℕ) (gs : List Text)
    → 0 < n
    → group_loop (suc fuel) (pos n) gs
      ≡ group_loop fuel (pos (n / 1000)) (gs ++ print (n % 1000) ∷ [])
unfolding group_loop
group_loop_pos fuel n gs h = ground (arith, tdiv-pos n 1000, tmod-pos n 1000)

laid_out-loop :
    (fuel n : ℕ) (gs : List Text)
    → 0 < n
    → n ≤ fuel
    → laid_out (group_loop fuel (pos n) gs) ≡ grouped fuel n ++ suffix gs
unfolding grouped
laid_out-loop zero n gs p h = absurd (omega arith)
laid_out-loop (suc fuel) n gs p h = elim (Bool-cases (ltb n 1000)) [
  | inl small ↦
      let last : n / 1000 ≡ 0 = (let lt = ltb→lt n 1000 small in omega arith) in
      let whole : n % 1000 ≡ n = (let lt = ltb→lt n 1000 small in omega arith) in
      rw (
        group_loop_pos fuel n gs p,
        last,
        group_loop_zero fuel (gs ++ print (n % 1000) ∷ []),
        laid_out-append gs (print (n % 1000)),
        small,
        whole,
      )
  | inr large ↦
      rw
        (
          group_loop_pos fuel n gs p,
          laid_out-loop fuel (n / 1000) (gs ++ print (n % 1000) ∷ []) (ground arith) (ground arith),
          suffix-append gs (print (n % 1000)),
          large,
        )
        (sym (append_assoc (grouped fuel (n / 1000)) (b',' ∷ pad (print (n % 1000))) (suffix gs)))
]

-- `groupDecimals` puts a comma before each three digits.
pub group_decimals-grouped : (n : ℕ) → group_decimals (pos n) ≡ grouped n n
unfolding group_decimals laid_out suffix flat
group_decimals-grouped zero = unfold grouped print_radix in refl
group_decimals-grouped (suc n) = ground (
  arith,
  laid_out-loop (suc n) (suc n) [] (omega arith) (omega arith),
  append-nil (grouped (suc n) (suc n)),
)

value-append : (s t : Text) (n : ℕ) → value 10 n (s ++ t) ≡ value 10 (value 10 n s) t
value-append [] t n = refl
value-append (c ∷ s) t n = value-append s t (n * 10 + digit_value c)

value-shift : (s : Text) (n : ℕ) → value 10 n s ≡ n * 10 ^ length s + value 10 0 s
value-shift [] n = omega arith
value-shift (c ∷ s) n =
    let d = digit_value c in
    value-shift s (n * 10 + d)
    ∙ rw (value-shift s (0 * 10 + d), pow-suc 10 (length s)) (omega arith)

remove_commas-append : (s t : Text) → remove_commas (s ++ t) ≡ remove_commas s ++ remove_commas t
remove_commas-append [] t = refl
remove_commas-append (c ∷ s) t = ground (arith, remove_commas-append s t)

pub remove_commas-digits : (s : Text) → All IsDigit s → remove_commas s ≡ s
remove_commas-digits [] h = refl
remove_commas-digits (c ∷ s) h = ground (arith, remove_commas-digits s h.1)

pad-All_IsDigit : (n : ℕ) → All IsDigit (pad (print n))
pad-All_IsDigit n =
    All-append IsDigit (replicate (3 - length (print n)) b'0') (print n)
      (zeros-All_IsDigit (3 - length (print n))) (print-All_IsDigit n)

value-pad : (m n : ℕ) → n < 1000 → value 10 m (pad (print n)) ≡ m * 1000 + n
value-pad m n h = omega (
  arith,
  value-shift (pad (print n)) m,
  ap (λ k. m * 10 ^ k) (length-pad_start 3 b'0' (print n) (length-print 3 n (omega arith) h)),
  value-zeros (3 - length (print n)) (print n),
  value-print_radix 10 n (omega arith),
)

value-grouped : (fuel n : ℕ) → value 10 0 (remove_commas (grouped fuel n)) ≡ n
unfolding grouped
value-grouped zero n =
    rw (remove_commas-digits (print n) (print-All_IsDigit n)) (value-print_radix 10 n (omega arith))
value-grouped (suc fuel) n = elim (Bool-cases (ltb n 1000)) [
  | inl small ↦
      rw (small, remove_commas-digits (print n) (print-All_IsDigit n))
        (value-print_radix 10 n (omega arith))
  | inr large ↦
      rw
        (
          large,
          remove_commas-append (grouped fuel (n / 1000)) (b',' ∷ pad (print (n % 1000))),
          remove_commas-digits (pad (print (n % 1000))) (pad-All_IsDigit (n % 1000)),
          value-append (remove_commas (grouped fuel (n / 1000))) (pad (print (n % 1000))) 0,
          value-grouped fuel (n / 1000),
          value-pad (n / 1000) (n % 1000) (omega arith),
        )
        (omega arith)
]

-- Without its commas the text of `groupDecimals` spells the number.
value-group_decimals : (n : ℕ) → value 10 0 (remove_commas (group_decimals (pos n))) ≡ n
value-group_decimals n = rw group_decimals-grouped (value-grouped n n)

pub grouped_small : (fuel k : ℕ) → k < 1000 → grouped fuel k ≡ print k
unfolding grouped
grouped_small zero k h = refl
grouped_small (suc fuel) k h = ground arith

-- A number of four digits on begins with digits and a comma.
pub grouped_large :
    (fuel k : ℕ)
    → k ≤ fuel
    → 1000 ≤ k
    → (ds : Text) × (rest : Text) × All IsDigit ds × (grouped fuel k ≡ ds ++ (b',' ∷ rest))
unfolding grouped
grouped_large zero k le h = absurd (omega arith)
grouped_large (suc fuel) k le h = elim (Bool-cases (ltb (k / 1000) 1000)) [
  | inl small ↦ (
    print (k / 1000),
    pad (print (k % 1000)),
    print-All_IsDigit (k / 1000),
    ground (arith, grouped_small fuel (k / 1000)),
  )
  | inr large ↦
      let (ds, rest, digits, e) = grouped_large fuel (k / 1000) (omega arith) (ground arith) in
      (
        ds,
        rest ++ (b',' ∷ pad (print (k % 1000))),
        digits,
        ground (arith, e, append_assoc ds (b',' ∷ rest) (b',' ∷ pad (print (k % 1000)))),
      )
]
