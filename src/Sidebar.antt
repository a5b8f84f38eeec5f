-- ===== src/Sidebar.antt =====
-- src/ui/sidebar.ts: the items of the sidebar's tree and what they are in the
-- watch list. `Scope` is what stands for
-- a scope of the design.
pub mod Display
pub mod Provider
pub mod Values
pub mod Watching
pub mod Bits
mod Tests
use rtl_debugger.Common.{
  ℕ, zero, suc, ◌+◌, ◌-◌, ◌/◌, ◌%◌, ◌^◌, Bool, true, false, not, List, [], ◌∷◌, ◌++◌, map, Option,
  none, some, ◌==◌, ltb, if◌then◌else◌,
}
use rtl_debugger.Common.Int.{ℤ, pos, ◌+ℤ◌}
use rtl_debugger.Common.Text.{Text, codes, join}
use rtl_debugger.Common.Numeral.{print, print_ℤ}
use rtl_debugger.Source.{Location, Number, nan, number}
use rtl_debugger.Scope.{ModuleScope, scope_name}
use rtl_debugger.Styling.{
  DisplayStyle, Radix, variable_description, variable_value, variable_bit_indices,
  memory_row_indices,
}
use rtl_debugger.Options.{get_options}
use rtl_debugger.Variable.{
  ScalarVariable, MemoryVariable, Variable, scalar_variable, memory_variable, base, variable_name,
  cxxrtl_identifier, Designation, scalar_designation, memory_row, memory_range, memory_designation,
}
use rtl_debugger.Watch.{WatchItem}

-- `ScalarDesignation | MemoryRowDesignation`.
pub data Part : Type 0 where
  whole : ScalarVariable → Part
  row_of : MemoryVariable → ℤ → Part

abbrev pub designation_of : Part → Designation
designation_of (whole v) = scalar_designation v
designation_of (row_of v index) = memory_row v index

abbrev pub variable_of : Part → Variable
variable_of (whole v) = scalar_variable v
variable_of (row_of v index) = memory_variable v

abbrev pub row_index : Part → Option ℤ
row_index (whole v) = none
row_index (row_of v index) = some index

-- The classes of items; a text is the context value, by which the editor offers commands.
pub data TreeItem (Scope : Type 0) : Type 0 where
  bit_item : Part → ℕ → Text → TreeItem Scope
  scalar_item : Part → Text → TreeItem Scope
  array_item : MemoryVariable → ℤ → ℤ → Text → TreeItem Scope
  scope_item : Scope → TreeItem Scope
  watch_item : TreeItem Scope

-- The context values of the source.
abbrev pub can_watch : Text
can_watch = codes "canWatch"

abbrev pub can_watch_and_set_radix : Text
can_watch_and_set_radix = codes "canWatch|canSetRadix"

abbrev pub in_watch_list : Text
in_watch_list = codes "inWatchList"

abbrev pub in_watch_list_and_set_radix : Text
in_watch_list_and_set_radix = codes "inWatchList|canSetRadix"

-- `getWatchItem` of a bit, a scalar and an array; the other items have none.
abbrev bit_watch_item : Part → ℕ → WatchItem
bit_watch_item p index = record {
  id = cxxrtl_identifier (variable_of p);
  row = row_index p;
  bit = some index;
}

abbrev scalar_watch_item : Part → WatchItem
scalar_watch_item p = record {
  id = cxxrtl_identifier (variable_of p);
  row = row_index p;
  bit = none;
}

abbrev array_watch_item : MemoryVariable → WatchItem
array_watch_item v = record { id = cxxrtl_identifier (memory_variable v); row = none; bit = none }

pub get_watch_item : {Scope : Type 0} → TreeItem Scope → Option WatchItem
get_watch_item (bit_item p index context) = some (bit_watch_item p index)
get_watch_item (scalar_item p context) = some (scalar_watch_item p)
get_watch_item (array_item v first last context) = some (array_watch_item v)
get_watch_item (scope_item s) = none
get_watch_item watch_item = none

-- `getChildren` of a scalar and of an array.
unfoldable pub scalar_children : {Scope : Type 0} → DisplayStyle → Part → List (TreeItem Scope)
scalar_children style p =
    map (λ index. bit_item p index can_watch) (variable_bit_indices style (variable_of p))

unfoldable pub array_children : {Scope : Type 0} → MemoryVariable → List (TreeItem Scope)
array_children v =
    map (λ index. scalar_item (row_of v (pos index)) can_watch) (memory_row_indices v)

abbrev variable_context : ℕ → Text
variable_context width = if ltb 1 width then can_watch_and_set_radix else can_watch

-- A variable's item in its scope; `designation()` of a memory is the whole of it.
abbrev array_of : {Scope : Type 0} → MemoryVariable → Text → Designation → Option (TreeItem Scope)
array_of v context (memory_range m first last) = some (array_item m first last context)
array_of v context _ = none

pub variable_items : {Scope : Type 0} → Variable → List (TreeItem Scope)
variable_items (scalar_variable v) = scalar_item (whole v) (variable_context v.width) ∷ []
variable_items (memory_variable v) =
    elim (array_of v can_watch_and_set_radix (memory_designation v none none)) [
      | none ↦ []
      | some item ↦ item ∷ []
    ]

abbrev concat : {A : Type 0} → List (List A) → List A
concat [] = []
concat (l ∷ ls) = l ++ concat ls

-- `getChildren` of a scope whose scopes and variables were fetched.
pub scope_children : {Scope : Type 0} → List Scope → List Variable → List (TreeItem Scope)
unfolding variable_items
scope_children scopes variables = map scope_item scopes ++ concat (map variable_items variables)

-- The item of a watched variable, which was looked up by its identifier: the row is read of a memory
-- only. `or_no_item` leaves out a variable that is not there.
abbrev watched_scalar : {Scope : Type 0} → Part → Option ℕ → TreeItem Scope
watched_scalar p (some index) = bit_item p index in_watch_list
watched_scalar p none =
    scalar_item p
      (if ltb 1 (base (variable_of p)).width then in_watch_list_and_set_radix else in_watch_list)

abbrev watched_designation : {Scope : Type 0} → Option ℕ → Designation → TreeItem Scope
watched_designation bit (scalar_designation v) = watched_scalar (whole v) bit
watched_designation bit (memory_row v index) = watched_scalar (row_of v index) bit
watched_designation bit (memory_range v first last) =
    array_item v first last in_watch_list_and_set_radix

pub watched : {Scope : Type 0} → WatchItem → Option Variable → Option (TreeItem Scope)
watched w none = none
watched w (some (scalar_variable v)) = some (watched_designation w.bit (scalar_designation v))
watched w (some (memory_variable v)) =
    some (watched_designation w.bit (memory_designation v w.row none))

-- An item with its `metadata`, the index in the watch list.
pub record Listed (Scope : Type 0) : Type 0 where
  pub item : TreeItem Scope
  pub index : ℕ

abbrev list_at :
    {Scope : Type 0} → ℕ → Option (TreeItem Scope) → List (Listed Scope) → List (Listed Scope)
list_at index none rest = rest
list_at index (some item) rest = record { item = item; index = index } ∷ rest

-- `getChildren` of the watch item, from an index on; `get_variable` is the session's, of replies that
-- are no errors.
pub watch_children_from :
    {Scope : Type 0} → (Text → Option Variable) → ℕ → List WatchItem → List (Listed Scope)
unfolding watched
watch_children_from get_variable index [] = []
watch_children_from get_variable index (w ∷ items) =
    list_at index (watched w (get_variable w.id))
      (watch_children_from get_variable (suc index) items)

unfoldable pub watch_children :
    {Scope : Type 0} → (Text → Option Variable) → List WatchItem → List (Listed Scope)
unfolding watch_children_from
watch_children get_variable items = watch_children_from get_variable 0 items
