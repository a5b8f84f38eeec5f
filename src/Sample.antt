-- ===== src/Sample.antt =====
-- src/model/sample.ts: references to parts of variables, and how their values are read from the words
-- of a sample. A reference is an object that is shared: its identity is a number.
pub mod Words
pub mod Layout
pub mod Reading
mod Tests
use rtl_debugger.Common.{
  ℕ, zero, suc, ◌+◌, ◌-◌, ◌*◌, ◌/◌, ◌%◌, ◌^◌, ◌≡◌, Bool, true, false, List, [], ◌∷◌, ◌++◌, map,
  Option, none, some, length, get_elem?, drop, ltb, leb, ◌==◌, if◌then◌else◌, Result, ok, throw,
  ◌>>=◌, range_error, type_error, reference_error, plain_error,
}
use rtl_debugger.Common.Int.{ℤ, pos, negsuc, pos_part, ◌+ℤ◌, ◌-ℤ◌, ◌*ℤ◌, ltb_ℤ}
use rtl_debugger.Common.Text.{Text, codes}
use rtl_debugger.Common.Numeral.{print_ℤ}
use rtl_debugger.Proto.{ItemDesignation, whole, rows}
use rtl_debugger.Time.{TimePoint}
use rtl_debugger.Variable.{
  ScalarVariable, MemoryVariable, Designation, scalar_designation, memory_row, memory_range,
  identifier_of,
}

abbrev pub word : ℕ
word = 2 ^ 32

-- `0 | x` of a whole number from zero on.
to_int32 : ℕ → ℤ
to_int32 n = let m = n % word in if ltb m (2 ^ 31) then pos m else negsuc (word - m - 1)

pub record DataRange : Type 0 where
  pub stride : ℤ
  pub count : ℤ

-- The fraction of `(width + 31) / 32` is cut off with the rest.
pub data_range_of : ScalarVariable → ℤ → DataRange
unfolding to_int32
data_range_of v count = record { stride = to_int32 ((v.width + 31) / 32); count = count }

abbrev pub size : DataRange → ℤ
size r = r.stride *ℤ r.count

-- The loop of `bigintFromRaw`: a word out of bounds is undefined, which `BigInt` refuses.
pub read_words : ℕ → List ℕ → ℕ → ℕ → Result ℕ
read_words zero raw index value = ok value
read_words (suc rounds) raw index value = elim (get_elem? raw index) [
  | none ↦ throw type_error
  | some w ↦ read_words rounds raw (index + 1) (value * word + w)
]

unfoldable pub bigint_from_raw : DataRange → List ℕ → ℕ → Result ℕ
unfolding read_words
bigint_from_raw r raw offset =
    if ltb_ℤ r.count (pos offset)
    then throw range_error
    else read_words (pos_part r.stride) raw (pos_part r.stride * offset) 0

-- The number of rows between two, in either order.
pub row_count : ℤ → ℤ → ℤ
row_count first last = if ltb_ℤ last first then first -ℤ last +ℤ pos 1 else last -ℤ first +ℤ pos 1

unfoldable pub data_range : Designation → DataRange
unfolding data_range_of row_count
data_range (scalar_designation v) = data_range_of v (pos 1)
data_range (memory_row v index) = data_range_of v.scalar (pos 1)
data_range (memory_range v first last) = data_range_of v.scalar (row_count first last)

unfoldable pub canonical_key : Designation → Text
canonical_key (scalar_designation v) = identifier_of v.full_name
canonical_key (memory_row v index) = identifier_of v.full_name ++ (0 ∷ print_ℤ index)
canonical_key (memory_range v first last) =
    identifier_of v.full_name ++ (0 ∷ (print_ℤ first ++ (0 ∷ print_ℤ last)))

pub cxxrtl_item_designation : Designation → ItemDesignation
cxxrtl_item_designation (scalar_designation v) = whole (identifier_of v.full_name)
cxxrtl_item_designation (memory_row v index) = rows (identifier_of v.full_name) index index
cxxrtl_item_designation (memory_range v first last) = rows (identifier_of v.full_name) first last

-- A number, or what an iteration over the rows gives; the source's generator can be run once only.
pub data Extracted : Type 0 where
  bigint : ℕ → Extracted
  iterable : Result (List ℕ) → Extracted

-- The generator of a range, run to its end.
read_rows : DataRange → List ℕ → ℕ → ℕ → Result (List ℕ)
unfolding bigint_from_raw
read_rows r raw zero offset = ok []
read_rows r raw (suc rounds) offset = do
  value ← bigint_from_raw r raw offset
  values ← read_rows r raw rounds (offset + 1)
  ok (value ∷ values)

unfoldable pub extract_from_raw : Designation → List ℕ → Result Extracted
unfolding bigint_from_raw read_rows data_range
extract_from_raw (scalar_designation v) raw = do
  value ← bigint_from_raw (data_range (scalar_designation v)) raw 0
  ok (bigint value)
extract_from_raw (memory_row v index) raw = do
  value ← bigint_from_raw (data_range (memory_row v index)) raw 0
  ok (bigint value)
extract_from_raw (memory_range v first last) raw =
    let r = data_range (memory_range v first last) in
    ok (iterable (read_rows r raw (pos_part r.count) 0))

pub record Handle : Type 0 where
  pub designation : Designation
  pub reference : ℕ
  pub offset : ℤ

-- `raw.subarray(begin)`: a negative start counts from the end.
subarray : List ℕ → ℤ → List ℕ
subarray raw (pos n) = drop n raw
subarray raw (negsuc n) = drop (length raw - suc n) raw

pub handle_extract : Handle → List ℕ → Result Extracted
unfolding subarray
handle_extract h raw = extract_from_raw h.designation (subarray raw h.offset)

pub record UnboundReference : Type 0 where
  pub id : ℕ
  pub frozen : Bool
  pub offset : ℤ
  pub handles : List Handle

abbrev pub new_reference : ℕ → UnboundReference
new_reference id = record { id = id; frozen = false; offset = pos 0; handles = [] }

new_handle : UnboundReference → Designation → Handle
new_handle r d = record { designation = d; reference = r.id; offset = r.offset }

with_handle : UnboundReference → Designation → UnboundReference
unfolding data_range
with_handle r d = record r {
  handles = r.handles ++ new_handle r d ∷ [];
  offset = r.offset +ℤ size (data_range d);
}

unfoldable pub add : UnboundReference → Designation → Result (Handle × UnboundReference)
unfolding new_handle with_handle data_range
add r d = if r.frozen then throw plain_error else ok (new_handle r d, with_handle r d)

unfoldable pub freeze : UnboundReference → UnboundReference
freeze r = record r { frozen = true }

unfoldable pub all_handles : UnboundReference → List (Designation × Handle)
all_handles r = map (λ h. (h.designation, h)) r.handles

pub cxxrtl_item_designations : UnboundReference → List ItemDesignation
unfolding cxxrtl_item_designation
cxxrtl_item_designations r = map (λ h. cxxrtl_item_designation h.designation) r.handles

pub record Reference : Type 0 where
  pub name : Text
  pub epoch : ℕ
  pub unbound : UnboundReference

-- The constructor freezes the reference that it is given.
unfoldable pub bind : Text → ℕ → UnboundReference → Reference
unfolding freeze
bind name epoch unbound = record { name = name; epoch = epoch; unbound = freeze unbound }

pub record Sample : Type 0 where
  pub time : TimePoint
  pub reference : ℕ
  pub variable_data : List ℕ

unfoldable pub sample_extract : Sample → Handle → Result Extracted
unfolding handle_extract
sample_extract s h =
    if h.reference == s.reference then handle_extract h s.variable_data else throw reference_error
