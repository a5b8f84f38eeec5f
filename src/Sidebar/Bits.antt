-- ===== src/Sidebar/Bits.antt =====
-- What the bits of a scalar in the sidebar (src/ui/sidebar.ts) show.
use rtl_debugger.Common.{
  ℕ, zero, suc, ◌+◌, ◌*◌, ◌/◌, ◌%◌, ◌^◌, ◌<◌, ◌≡◌, ◌≢◌, refl, sym, ap, ◌∙◌, false, Bool-cases, inl,
  inr, List, [], ◌∷◌, map, some, ◌==◌, ==_iff, if◌then◌else◌, arith,
}
use native.Mathlib.Nat.{
  mod-lt, div-add-mod', pow-suc, add-mul-mod_self_right, mod-eq_of_lt, div-div-eq-div-mul,
}
use rtl_debugger.Common.Text.{Text, codes, text_eq}
use rtl_debugger.Source.{Location}
use rtl_debugger.Variable.{base}
use rtl_debugger.Styling.{DisplayStyle, python, verilog, vhdl, downward, variable_bit_indices}
use rtl_debugger.Sidebar.{TreeItem, bit_item, scalar_children, Part, variable_of, can_watch}
use rtl_debugger.Sidebar.Display.{has_bit, bit_description, bit_tree_item}

-- A number read from the descriptions of its bits, the highest first.
abbrev pub read_bit : Text → ℕ
read_bit t = if text_eq t (codes "= 1") then 1 else 0

abbrev pub read_bits : ℕ → List Text → ℕ
read_bits n [] = n
read_bits n (t ∷ ts) = read_bits (2 * n + read_bit t) ts

zero_of : (n : ℕ) → n < 2 → (n == 1) ≡ false → 0 ≡ n
zero_of n h e = ground arith

pub read_bit-bit_description :
    (value index : ℕ) → read_bit (bit_description (some value) index) ≡ value / 2 ^ index % 2
unfolding has_bit
read_bit-bit_description value index =
    let d = value / 2 ^ index in
    let small : d % 2 < 2 = mod-lt d (omega arith) in
    elim (Bool-cases (d % 2 == 1)) [
      | inl one ↦ rw one (sym ((==_iff (d % 2) 1).0 one))
      | inr off ↦ rw off (zero_of (d % 2) small off)
    ]

pow-pos : (k : ℕ) → 0 < 2 ^ k
pow-pos zero = omega arith
pow-pos (suc k) = omega (arith, pow-pos k, pow-suc 2 k)

regroup : (p h r low : ℕ) → (h * 2 + r) * p + low ≡ r * p + low + h * (p * 2)
regroup p h r low = omega arith

carry : (p a b low : ℕ) → (2 * a + b) * p + low ≡ a * (p * 2) + (b * p + low)
carry p a b low = omega arith

twice : (a b : ℕ) → a * b * 2 ≡ a * (b * 2)
twice a b = omega arith

mod-one : (n : ℕ) → n % 1 ≡ 0
mod-one n = let small : n % 1 < 1 = mod-lt n (omega arith) in omega arith

pow_add : (m k : ℕ) → 2 ^ (m + k) ≡ 2 ^ m * 2 ^ k
pow_add m zero = ap (λ n. 2 ^ n) {y = m} (omega arith) ∙ omega arith
pow_add m (suc k) =
    ap (λ n. 2 ^ n) {y = suc (m + k)} (omega arith)
    ∙ pow-suc 2 (m + k)
    ∙ ap (λ n. n * 2) (pow_add m k)
    ∙ twice (2 ^ m) (2 ^ k)
    ∙ ap (λ n. 2 ^ m * n) (sym (pow-suc 2 k))

-- The bit above the lowest `k`.
mod-pow : (d k : ℕ) → d % 2 ^ suc k ≡ d / 2 ^ k % 2 * 2 ^ k + d % 2 ^ k
mod-pow d k =
    let q = d / 2 ^ k in
    let rest = q % 2 * 2 ^ k + d % 2 ^ k in
    let low : d % 2 ^ k < 2 ^ k = mod-lt d (pow-pos k) in
    let small : rest < 2 ^ suc k = (grind (arith, pow-suc 2 k, mod-lt q {m = 2} (omega arith))) in
    let parts : d ≡ rest + q / 2 * 2 ^ suc k =
      sym (div-add-mod' d (2 ^ k))
      ∙ ap (λ n. n * 2 ^ k + d % 2 ^ k) (sym (div-add-mod' q 2))
      ∙ regroup (2 ^ k) (q / 2) (q % 2) (d % 2 ^ k)
      ∙ ap (λ n. rest + q / 2 * n) (sym (pow-suc 2 k)) in
    ap (λ n. n % 2 ^ suc k) parts
    ∙ add-mul-mod_self_right rest (q / 2) (2 ^ suc k)
    ∙ mod-eq_of_lt small

-- The lowest `k` bits of what stands from the lowest index on, behind those read before.
read_downward :
    (value first k acc : ℕ)
    → read_bits acc (map (λ index. bit_description (some value) index) (downward first k))
      ≡ acc * 2 ^ k + value / 2 ^ first % 2 ^ k
read_downward value first zero acc = omega (arith, mod-one (value / 2 ^ first))
read_downward value first (suc k) acc =
    let d = value / 2 ^ first in
    let high : read_bit (bit_description (some value) (first + k)) ≡ d / 2 ^ k % 2 =
      read_bit-bit_description value (first + k)
      ∙ ap (λ n. n % 2)
          (ap (λ n. value / n) (pow_add first k)
            ∙ sym (div-div-eq-div-mul value (2 ^ first) (2 ^ k))) in
    read_downward value first k (2 * acc + read_bit (bit_description (some value) (first + k)))
    ∙ ap (λ b. (2 * acc + b) * 2 ^ k + d % 2 ^ k) high
    ∙ carry (2 ^ k) acc (d / 2 ^ k % 2) (d % 2 ^ k)
    ∙ ap (λ n. acc * n + (d / 2 ^ k % 2 * 2 ^ k + d % 2 ^ k)) (sym (pow-suc 2 k))
    ∙ ap (λ n. acc * 2 ^ suc k + n) (sym (mod-pow d k))

-- The description of a bit of a value.
abbrev pub described_bit : {S : Type 0} → (Text → Text) → (Location → Text) → ℕ → TreeItem S → Text
described_bit relative_path open_uri value (bit_item p index context) =
    (bit_tree_item relative_path open_uri p index context (some value)).description
described_bit relative_path open_uri value item = []

module _ (S : Type 0) (relative_path : Text → Text) (open_uri : Location → Text) where
  described_bits :
      (value : ℕ) (p : Part) (indices : List ℕ)
      → map
          (described_bit {S = S} relative_path open_uri value)
          (map (λ index. bit_item p index can_watch) indices)
        ≡ map (λ index. bit_description (some value) index) indices
  unfolding bit_tree_item
  described_bits value p [] = refl
  described_bits value p (index ∷ indices) =
      ap (λ l. bit_description (some value) index ∷ l) (described_bits value p indices)

  downward_children :
      (value : ℕ) (p : Part)
      → let v = base (variable_of p) in
        read_bits 0 (
          map
            (described_bit {S = S} relative_path open_uri value)
            (map (λ index. bit_item p index can_watch) (downward v.lsb_at v.width)))
        ≡ value / 2 ^ v.lsb_at % 2 ^ v.width
  downward_children value p =
      let v = base (variable_of p) in
      ap (read_bits 0) (described_bits value p (downward v.lsb_at v.width))
      ∙ read_downward value v.lsb_at v.width 0
      ∙ omega arith

  -- In the styles of Verilog and VHDL the children of a scalar, read as a number from the first one on,
  -- show the value divided by two to the power of the lowest index, in the bits of the variable: the
  -- variable's value if its lowest index is 0.
  pub scalar_children-value :
      (style : DisplayStyle) (value : ℕ) (p : Part)
      → style ≢ python
      → let v = base (variable_of p) in
        read_bits 0 (
          map
            (described_bit {S = S} relative_path open_uri value)
            (scalar_children {Scope = S} style p))
        ≡ value / 2 ^ v.lsb_at % 2 ^ v.width
  unfolding scalar_children variable_bit_indices
  scalar_children-value python value p h = absurd (h refl)
  scalar_children-value verilog value p h = downward_children value p
  scalar_children-value vhdl value p h = downward_children value p
