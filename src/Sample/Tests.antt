-- ===== src/Sample/Tests.antt =====
-- Samples with concrete data.
use rtl_debugger.Common.{
  ℕ, ◌+◌, ◌≡◌, refl, List, [], ◌∷◌, none, ok, throw, range_error, type_error, plain_error, arith,
}
use rtl_debugger.Common.Int.{pos}
use rtl_debugger.Common.Text.{codes}
use rtl_debugger.Variable.{
  ScalarVariable, MemoryVariable, Designation, scalar_designation, memory_row, memory_range,
}
use rtl_debugger.Sample.{
  row_count, word, Sample, new_reference, add, freeze, extract_from_raw, bigint, iterable,
  bigint_from_raw, data_range, data_range_of,
}
use rtl_debugger.Sample.Reading.{Content, single, several}
use rtl_debugger.Sample.Layout.{Laid, sample_layout}

abbrev counter : ScalarVariable
counter = record {
  full_name = codes "top" ∷ codes "counter" ∷ [];
  location = none;
  lsb_at = 0;
  width = 40;
}

abbrev bytes : MemoryVariable
bytes = record {
  scalar = record {
    full_name = codes "top" ∷ codes "ram" ∷ [];
    location = none;
    lsb_at = 0;
    width = 8;
  };
  zero_at = 0;
  depth = 0;
}

abbrev parts : List Designation
parts =
    scalar_designation counter ∷ memory_range bytes (pos 2) (pos 1) ∷ memory_row bytes (pos 7) ∷ []

abbrev contents : List Content
contents = single (word + 5) ∷ several (17 ∷ 18 ∷ []) ∷ single 9 ∷ []

abbrev cells : List ℕ
cells = 4 ∷ 5 ∷ []

abbrev sample : Sample
sample = record {
  time = record { raw = pos 0 };
  reference = 3;
  variable_data = 1 ∷ 5 ∷ 17 ∷ 18 ∷ 9 ∷ [];
}

readings :
    (extract_from_raw (scalar_designation counter) (1 ∷ 5 ∷ []) ≡ ok (bigint (word + 5)))
    × (extract_from_raw (scalar_designation counter) (1 ∷ []) ≡ throw type_error)
    × (extract_from_raw (memory_range bytes (pos 2) (pos 1)) (1 ∷ 5 ∷ [])
        ≡ ok (iterable (ok (1 ∷ 5 ∷ []))))
    × (bigint_from_raw (data_range_of counter (pos 1)) (1 ∷ 5 ∷ []) 2 ≡ throw range_error)
    × (add (freeze (new_reference 1)) (scalar_designation counter) ≡ throw plain_error)
unfolding extract_from_raw bigint_from_raw data_range_of data_range add freeze
readings = (refl, refl, refl, refl, refl)

sample_layout_example : Laid (new_reference 3) sample parts contents
sample_layout_example =
    sample_layout 3 parts contents sample
      (
        ((omega arith), (omega arith)),
        (
          ((omega arith), unfold row_count in refl, (omega arith, (omega arith, tt))),
          (((omega arith), (omega arith)), tt),
        ),
      )
      refl refl
