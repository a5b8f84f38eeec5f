-- ===== src/Watch/Tests.antt =====
-- Watch lists of concrete items.
use rtl_debugger.Common.{◌≡◌, refl, [], ◌∷◌, none, some}
use rtl_debugger.Common.Int.{pos, negsuc}
use rtl_debugger.Common.Text.{codes}
use rtl_debugger.Watch.{WatchItem, append_item, remove_item}

abbrev pc : WatchItem
pc = record { id = codes "top pc"; row = none; bit = none }

abbrev ram : WatchItem
ram = record { id = codes "top ram"; row = some (pos 3); bit = none }

removals :
    (remove_item (negsuc 0) (some (pc ∷ ram ∷ [])) ≡ some (pc ∷ []))
    × (remove_item (pos 5) (some (pc ∷ ram ∷ [])) ≡ some (pc ∷ ram ∷ []))
    × (append_item ram none ≡ some (ram ∷ []))
unfolding remove_item append_item
removals = (refl, refl, refl)
