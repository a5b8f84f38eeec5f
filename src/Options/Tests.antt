-- ===== src/Options/Tests.antt =====
-- Options of concrete variables.
use rtl_debugger.Common.{none, some}
use rtl_debugger.Common.Text.{codes}
use rtl_debugger.Styling.{hexadecimal}
use rtl_debugger.Options.{Configuration, set_options}

abbrev configuration : Configuration
configuration = set_options (codes "top pc") (record { radix = some hexadecimal }) none
