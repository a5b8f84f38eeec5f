-- ===== src/Watch.antt =====
-- src/debug/watch.ts: the watch list. The editor's configuration is the stored value, or none; its
-- events are not modelled.
mod Tests
use rtl_debugger.Common.{
  ℕ, zero, suc, ◌+◌, ◌-◌, ◌≡◌, refl, ap, ltb, if◌then◌else◌, List, [], ◌∷◌, ◌++◌, Option, none,
  some, length, get_elem?, take, drop, arith,
}
use rtl_debugger.Common.Int.{ℤ, pos, negsuc}
use rtl_debugger.Common.Text.{Text}

pub record WatchItem : Type 0 where
  pub id : Text
  pub row : Option ℤ
  pub bit : Option ℕ

abbrev pub Configuration : Type 0
Configuration = Option (List WatchItem)

abbrev pub get_items : Configuration → List WatchItem
get_items none = []
get_items (some items) = items

abbrev pub set_items : List WatchItem → Configuration → Configuration
set_items items configuration = some items

unfoldable pub append_item : WatchItem → Configuration → Configuration
append_item item configuration = set_items (get_items configuration ++ item ∷ []) configuration

-- `items.splice(index, 1)`: a negative index counts from the end, and no further than the beginning.
abbrev pub splice_one : ℤ → List WatchItem → List WatchItem
splice_one (pos n) items = take n items ++ drop (suc n) items
splice_one (negsuc n) items =
    let start = length items - suc n in take start items ++ drop (suc start) items

unfoldable pub remove_item : ℤ → Configuration → Configuration
remove_item index configuration =
    set_items (splice_one index (get_items configuration)) configuration

spliced :
    (n k : ℕ) (items : List WatchItem)
    → get_elem? (take n items ++ drop (suc n) items) k
      ≡ (if ltb k n then get_elem? items k else get_elem? items (suc k))
spliced zero k [] = ground arith
spliced (suc n) k [] = ground arith
spliced zero k (x ∷ items) = ground arith
spliced (suc n) zero (x ∷ items) = ground arith
spliced (suc n) (suc k) (x ∷ items) = ground (arith, spliced n k items)

last_spliced :
    (items : List WatchItem) (item : WatchItem)
    → take (length items) (items ++ item ∷ []) ++ drop (suc (length items)) (items ++ item ∷ [])
      ≡ items
last_spliced [] item = refl
last_spliced (x ∷ items) item = ap (λ l. x ∷ l) (last_spliced items item)

-- Removing an item of an index leaves the items before it where they are, and moves those behind it up
-- by one; a new item is last, and removing it gives the items before.
pub remove_item-append_item :
    (n k : ℕ) (item : WatchItem) (c : Configuration)
    → (get_elem? (get_items (remove_item (pos n) c)) k
        ≡ (if ltb k n then get_elem? (get_items c) k else get_elem? (get_items c) (suc k)))
      × (get_items (remove_item (pos (length (get_items c))) (append_item item c)) ≡ get_items c)
unfolding remove_item append_item
remove_item-append_item n k item c = (spliced n k (get_items c), last_spliced (get_items c) item)
