-- ===== src/Styling/Tests.antt =====
-- Texts of concrete variables.
use rtl_debugger.Common.{
  ◌%◌, ◌^◌, ◌≡◌, ◌↔◌, refl, [], ◌∷◌, none, some, true, false, get_elem?, ltb, if◌then◌else◌, ◌+◌,
}
use rtl_debugger.Common.Text.{codes}
use rtl_debugger.Variable.{ScalarVariable, MemoryVariable, scalar_variable, memory_variable, base}
use rtl_debugger.Styling.{
  python, verilog, vhdl, hexadecimal, binary, variable_description, variable_value,
}
use rtl_debugger.Styling.Values.{variable_value_iff}

abbrev byte : ScalarVariable
byte = record { full_name = codes "ram" ∷ []; location = none; lsb_at = 4; width = 8 }

abbrev ram : MemoryVariable
ram = record { scalar = byte; zero_at = 16; depth = 2 }

texts :
    (variable_value python (scalar_variable byte) (some 300) (some hexadecimal) none ≡ codes "0x2c")
    × (variable_value verilog (scalar_variable byte) (some 5) (some binary) none ≡ codes "8'b101")
    × (variable_value vhdl (scalar_variable byte) (some 5) none (some binary) ≡ codes "B\"101\"")
    × (variable_value vhdl (scalar_variable byte) none none none ≡ codes "...")
    × (variable_description python (memory_variable ram) false ≡ codes "[16:18] [4:12] ")
    × (variable_description verilog (memory_variable ram) false ≡ codes "[11:4] [16:17] ")
    × (variable_description verilog (memory_variable ram) true ≡ codes "[11:4]")
unfolding variable_value variable_description rtl_debugger.Common.Numeral.print_radix
texts = (refl, refl, refl, refl, refl, refl, refl)

variable_value_iff_example :
    (variable_value python (scalar_variable byte) (some 300) none none
      ≡ variable_value python (scalar_variable byte) (some 44) none none)
    ↔ (300 % 2 ^ (base (scalar_variable byte)).width ≡ 44 % 2 ^ (base (scalar_variable byte)).width)
variable_value_iff_example = variable_value_iff python (scalar_variable byte) 300 44 none none
