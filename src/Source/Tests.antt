-- ===== src/Source/Tests.antt =====
-- Locations on concrete texts.
use rtl_debugger.Common.{◌≡◌, refl, some, none}
use rtl_debugger.Common.Int.{pos}
use rtl_debugger.Common.Text.{codes}
use rtl_debugger.Source.{number, location_from_cxxrtl}

locations :
    (location_from_cxxrtl (some (codes "c:/a.v:3.5-4.6"))
      ≡ some (record {
        file = codes "c:/a.v";
        start_line = number (pos 2);
        start_column = some (number (pos 4));
        end_line = some (number (pos 3));
        end_column = some (number (pos 5));
      }))
    × (location_from_cxxrtl (some (codes "a.v:3.5")) ≡ none)
    × (location_from_cxxrtl none ≡ none)
unfolding location_from_cxxrtl
locations = (refl, refl, refl)
