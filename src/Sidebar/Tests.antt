-- ===== src/Sidebar/Tests.antt =====
-- A sidebar of two variables: a counter of eight bits, and a memory of two rows.
use rtl_debugger.Common.{
  ◌≡◌, ◌↔◌, refl, All, ◌/◌, ◌%◌, ◌^◌, true, List, [], ◌∷◌, ◌++◌, map, Option, none, some,
  if◌then◌else◌,
}
use rtl_debugger.Common.Int.{pos}
use rtl_debugger.Common.Text.{Text, codes, text_eq}
use rtl_debugger.Source.{Location}
use rtl_debugger.Time.{zero_time}
use rtl_debugger.Variable.{
  MemoryVariable, Variable, scalar_variable, memory_variable, cxxrtl_identifier, memory_designation,
  memory_range,
}
use rtl_debugger.Scope.{ModuleScope}
use rtl_debugger.Styling.{variable_description, variable_value, verilog}
use rtl_debugger.Options.{get_options}
use rtl_debugger.Watch.{WatchItem, get_items, append_item, remove_item}
use rtl_debugger.Observer.Tests.{
  counter, retains, truth, answered, part, round, answered-Reach, part_there,
}
use rtl_debugger.Sidebar.{
  TreeItem, bit_item, scalar_item, array_item, whole, Listed, can_watch, get_watch_item,
  scalar_children, watch_children,
}
use rtl_debugger.Sidebar.Display.{equals_sign}
use rtl_debugger.Sidebar.Provider.{Provider, get_tree_item}
use rtl_debugger.Sidebar.Values.{Watches, get_tree_item-idle}
use rtl_debugger.Sidebar.Bits.{read_bit, read_bits, described_bit, scalar_children-value}
use rtl_debugger.Sidebar.Watching.{bare, Stands, watch_children-append_item}

-- The scope that holds both stands for itself.
abbrev Root : Type 0
Root = Unit {0}

abbrev ram : MemoryVariable
ram = record {
  scalar = record {
    full_name = codes "top" ∷ codes "ram" ∷ [];
    location = none;
    lsb_at = 0;
    width = 4;
  };
  zero_at = 0;
  depth = 2;
}

abbrev look : Root → ModuleScope (List Root) (List Variable)
look s = record {
  full_name = codes "top" ∷ [];
  location = none;
  module_full_name = [];
  module_location = none;
  scopes = [];
  variables = scalar_variable counter ∷ memory_variable ram ∷ [];
}

abbrev same_path : Text → Text
same_path t = t

abbrev link : Location → Text
link l = l.file

abbrev find : Text → Option Variable
find id =
    if text_eq id (codes "top counter")
    then some (scalar_variable counter)
    else if text_eq id (codes "top ram")
    then some (memory_variable ram)
    else none

abbrev provider : Provider Root
provider = record {
  session = some 0;
  observer = some answered;
  watch_root = true;
  scope_root = some tt;
  changes = [];
}

counter_watched : Watches retains truth answered part
counter_watched = record {
  name = codes "sidebar";
  epochs = [];
  id = 0;
  cursor = zero_time;
  reached = answered-Reach;
  is_idle = round.0;
  observed = part_there;
}

get_tree_item-idle_example :
    let v = scalar_variable counter in
    let described = variable_description verilog v true in
    let stored = (get_options (cxxrtl_identifier v) none).radix in
    let shown : TreeItem Root → Text =
      λ item. (get_tree_item look same_path link verilog none none 2 item provider).0.description in
    ((shown (scalar_item (whole counter) can_watch)
        ≡ described ++ (equals_sign described ++ variable_value verilog v (some 263) none stored))
      ↔ (7 % 2 ^ 8 ≡ 263 % 2 ^ 8))
    × (read_bit (shown (bit_item (whole counter) 1 can_watch)) ≡ 7 / 2 ^ 1 % 2)
get_tree_item-idle_example =
    get_tree_item-idle retains truth look same_path link verilog none none 2 (whole counter) 1 7 263
      can_watch answered provider refl counter_watched refl

scalar_children-value_example :
    read_bits 0 (
      map (described_bit same_path link 7) (scalar_children {Scope = Root} verilog (whole counter)))
    ≡ 7 / 2 ^ 0 % 2 ^ 8
scalar_children-value_example =
    scalar_children-value Root same_path link verilog 7 (whole counter) (λ e. cc)

-- A memory watched behind a bit of the counter.
abbrev bit_entry : WatchItem
bit_entry = record { id = codes "top counter"; row = none; bit = some 3 }

abbrev ram_entry : WatchItem
ram_entry = record { id = codes "top ram"; row = none; bit = none }

abbrev array : TreeItem Root
array = array_item ram (pos 0) (pos 1) can_watch

array_entry : get_watch_item array ≡ some ram_entry
unfolding get_watch_item cxxrtl_identifier
array_entry = refl

array_whole : memory_designation ram none none ≡ memory_range ram (pos 0) (pos 1)
unfolding memory_designation
array_whole = refl

watch_children-append_item_example :
    let c = some (bit_entry ∷ []) in
    let before : List (Listed Root) = watch_children find (get_items c) in
    let c' = append_item ram_entry c in
    ((l : Listed Root) × (watch_children find (get_items c') ≡ before ++ l ∷ [])
      × (bare l.item ≡ bare array)
      × (get_items (remove_item (pos l.index) c') ≡ get_items c))
    × All (Stands Root find (get_items c) 0) before
watch_children-append_item_example =
    watch_children-append_item Root find array ram_entry (memory_variable ram)
      (some (bit_entry ∷ [])) array_entry refl array_whole refl
