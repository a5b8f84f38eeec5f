-- ===== src/Variable.antt =====
-- src/model/variable.ts: the variables of a design, and which part of one is asked for.
pub mod Names
use rtl_debugger.Common.{ℕ, List, [], ◌∷◌, Option, none, some}
use rtl_debugger.Common.Int.{ℤ, pos, ◌-ℤ◌}
use rtl_debugger.Common.Text.{Text, codes, split, join}
use rtl_debugger.Source.{Location, location_from_cxxrtl}
use rtl_debugger.Proto.{ItemDescription, node, memory}

-- The fields of `Variable`; a scalar variable has no others.
pub record ScalarVariable : Type 0 where
  pub full_name : List Text
  pub location : Option Location
  pub lsb_at : ℕ
  pub width : ℕ

pub record MemoryVariable : Type 0 where
  pub scalar : ScalarVariable
  pub open scalar use *
  pub zero_at : ℕ
  pub depth : ℕ

pub data Variable : Type 0 where
  scalar_variable : ScalarVariable → Variable
  memory_variable : MemoryVariable → Variable

-- What the two classes share.
abbrev pub base : Variable → ScalarVariable
base (scalar_variable v) = v
base (memory_variable v) = v.scalar

pub variable_from_cxxrtl : Text → ItemDescription → Variable
variable_from_cxxrtl cxxrtl_name (node d) = scalar_variable (record {
  full_name = split b' ' cxxrtl_name;
  location = location_from_cxxrtl d.src;
  lsb_at = d.lsb_at;
  width = d.width;
})
variable_from_cxxrtl cxxrtl_name (memory d) = memory_variable (record {
  scalar = record {
    full_name = split b' ' cxxrtl_name;
    location = location_from_cxxrtl d.src;
    lsb_at = d.lsb_at;
    width = d.width;
  };
  zero_at = d.zero_at;
  depth = d.depth;
})

abbrev pub last_name : List Text → Option Text
last_name [] = none
last_name (p ∷ []) = some p
last_name (p ∷ q ∷ ps) = last_name (q ∷ ps)

-- `slice(0, -1)`.
abbrev pub all_but_last : List Text → List Text
all_but_last [] = []
all_but_last (p ∷ []) = []
all_but_last (p ∷ q ∷ ps) = p ∷ all_but_last (q ∷ ps)

pub variable_name : Variable → Option Text
variable_name v = last_name (base v).full_name

pub scope_full_name : Variable → List Text
scope_full_name v = all_but_last (base v).full_name

abbrev pub identifier_of : List Text → Text
identifier_of names = join (codes " ") names

unfoldable pub cxxrtl_identifier : Variable → Text
cxxrtl_identifier v = identifier_of (base v).full_name

pub data Designation : Type 0 where
  scalar_designation : ScalarVariable → Designation
  memory_row : MemoryVariable → ℤ → Designation
  memory_range : MemoryVariable → ℤ → ℤ → Designation

-- The overloads of `designation` of a memory.
unfoldable pub memory_designation : MemoryVariable → Option ℤ → Option ℤ → Designation
memory_designation v (some index) none = memory_row v index
memory_designation v (some first) (some last) = memory_range v first last
memory_designation v none last = memory_range v (pos 0) (pos v.depth -ℤ pos 1)
