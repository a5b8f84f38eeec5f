-- ===== src/Styling/Indices.antt =====
-- Which bits and rows are listed, and in which order.
use rtl_debugger.Common.{
  ℕ, zero, suc, ◌+◌, ◌≡◌, refl, sym, ap, ◌∙◌, [], ◌∷◌, ◌++◌, none, some, get_elem?, ltb,
  if◌then◌else◌, arith,
}
use mathlib.Core.List.{reverse, reverse-append}
use rtl_debugger.Variable.{Variable, MemoryVariable, base}
use rtl_debugger.Styling.{
  python, verilog, vhdl, upward, downward, variable_bit_indices, memory_row_indices,
}

get_elem?-upward :
    (first index n k : ℕ)
    → get_elem? (upward first index n) k ≡ (if ltb k n then some (first + index + k) else none)
get_elem?-upward first index zero k = ground arith
get_elem?-upward first index (suc n) zero = ground arith
get_elem?-upward first index (suc n) (suc k) =
    ground (arith, get_elem?-upward first (index + 1) n k)

upward-last :
    (first index n : ℕ)
    → upward first index (suc n) ≡ upward first index n ++ (first + (index + n)) ∷ []
upward-last first index zero = ap (λ i. (first + i) ∷ []) (omega arith)
upward-last first index (suc n) =
    ap (λ l. (first + index) ∷ l)
      (upward-last first (index + 1) n
        ∙ ap (λ i. upward first (index + 1) n ++ (first + i) ∷ []) (omega arith))

downward-reverse : (first n : ℕ) → downward first n ≡ reverse (upward first 0 n)
downward-reverse first zero = refl
downward-reverse first (suc n) =
    ap (λ l. (first + n) ∷ l) (downward-reverse first n)
    ∙ sym (
        ap reverse (upward-last first 0 n)
        ∙ reverse-append (upward first 0 n) ((first + (0 + n)) ∷ [])
        ∙ ap (λ i. (first + i) ∷ reverse (upward first 0 n)) (omega arith))

-- In Python's style the bits of a variable are listed from its lowest index on, as many as it is wide,
-- and in the other two styles the same ones in reverse.
variable_bit_indices_lem :
    (v : Variable) (k : ℕ)
    → let bits = variable_bit_indices python v in
      (get_elem? bits k ≡ (if ltb k (base v).width then some ((base v).lsb_at + k) else none))
      × (variable_bit_indices verilog v ≡ reverse bits)
      × (variable_bit_indices vhdl v ≡ reverse bits)
unfolding variable_bit_indices
variable_bit_indices_lem v k = (
  get_elem?-upward (base v).lsb_at 0 (base v).width k
      ∙ ap (λ i. if ltb k (base v).width then some i else none) (omega arith),
  downward-reverse (base v).lsb_at (base v).width,
  downward-reverse (base v).lsb_at (base v).width,
)

-- The rows of a memory are listed from its first index on, as many as its depth.
memory_row_indices_lem :
    (v : MemoryVariable) (k : ℕ)
    → get_elem? (memory_row_indices v) k ≡ (if ltb k v.depth then some (v.zero_at + k) else none)
unfolding memory_row_indices
memory_row_indices_lem v k =
    get_elem?-upward v.zero_at 0 v.depth k
    ∙ ap (λ i. if ltb k v.depth then some i else none) (omega arith)
