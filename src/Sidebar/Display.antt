-- ===== src/Sidebar/Display.antt =====
-- How each item of the sidebar is shown: `getTreeItem` of src/ui/sidebar.ts, and the tooltip of
-- src/model/styling.ts. A file's path relative to the workspace and the link that opens a location are
-- of the editor, and parameters. The item's value was asked for before.
use rtl_debugger.Common.{
  ℕ, ◌/◌, ◌%◌, ◌^◌, Bool, true, false, List, [], ◌∷◌, ◌++◌, Option, none, some, ◌==◌, ltb,
  if◌then◌else◌,
}
use rtl_debugger.Common.Int.{ℤ, pos, ◌+ℤ◌}
use rtl_debugger.Common.Text.{Text, codes, join}
use rtl_debugger.Common.Numeral.{print, print_ℤ}
use rtl_debugger.Source.{Location, Number, nan, number}
use rtl_debugger.Scope.{ModuleScope, scope_name}
use rtl_debugger.Styling.{DisplayStyle, variable_description, variable_value}
use rtl_debugger.Options.{Configuration, get_options}
use rtl_debugger.Variable.{
  MemoryVariable, Variable, memory_variable, base, variable_name, cxxrtl_identifier,
}
use rtl_debugger.Sidebar.{Part, variable_of, row_index}

pub data Collapsible : Type 0 where
  leaf collapsed expanded : Collapsible

pub data Icon : Type 0 where
  no_icon symbol_boolean symbol_variable symbol_array symbol_module : Icon

-- What the editor shows of an item; `command` opens a location.
pub record Shown : Type 0 where
  pub label : Option Text
  pub description : Text
  pub tooltip : Text
  pub collapsible : Collapsible
  pub icon : Icon
  pub command : Option Location
  pub context : Text

-- `+=` on a label.
abbrev pub append_label : Option Text → Text → Option Text
append_label (some label) t = some (label ++ t)
append_label none t = some (codes "undefined" ++ t)

abbrev pub row_label : Option Text → Option ℤ → Option Text
row_label label none = label
row_label label (some index) = append_label label (codes "[" ++ (print_ℤ index ++ codes "]"))

-- `value & (1n << BigInt(index))`, tested against zero.
unfoldable pub has_bit : ℕ → ℕ → Bool
has_bit index value = value / 2 ^ index % 2 == 1

abbrev pub bit_description : Option ℕ → ℕ → Text
bit_description none index = codes "= ..."
bit_description (some value) index = if has_bit index value then codes "= 1" else codes "= 0"

abbrev pub equals_sign : Text → Text
equals_sign [] = codes "= "
equals_sign (c ∷ t) = codes " = "

abbrev pub collapsible_of : ℕ → Collapsible
collapsible_of width = if ltb 1 width then collapsed else leaf

abbrev pub icon_of : ℕ → Icon
icon_of width = if width == 1 then symbol_boolean else symbol_variable

abbrev line_number : Number → Text
line_number nan = codes "NaN"
line_number (number n) = print_ℤ (n +ℤ pos 1)

module _ (relative_path : Text → Text) (open_uri : Location → Text) where
  abbrev pub markdown_link : Location → Text
  markdown_link l =
      codes "["
      ++ (relative_path l.file
          ++ (codes ":" ++ (line_number l.start_line ++ (codes "](" ++ (open_uri l ++ codes ")")))))

  abbrev located : Text → Option Location → Text
  located before none = []
  located before (some l) = before ++ markdown_link l

  abbrev pub variable_tooltip : Variable → Text
  variable_tooltip v =
      join (codes ".") (base v).full_name ++ located (codes "\n\n- ") (base v).location

  unfoldable pub bit_tree_item : Part → ℕ → Text → Option ℕ → Shown
  bit_tree_item p index context value =
      let v = variable_of p in
      record {
        label =
            append_label (row_label (variable_name v) (row_index p))
              (codes "[" ++ (print index ++ codes "]"));
        description = bit_description value index;
        tooltip = variable_tooltip v;
        collapsible = leaf;
        icon = symbol_boolean;
        command = none;
        context = context;
      }

  unfoldable pub scalar_tree_item : DisplayStyle → Configuration → Part → Text → Option ℕ → Shown
  scalar_tree_item style options p context value =
      let v = variable_of p in
      let described = variable_description style v true in
      let stored = (get_options (cxxrtl_identifier v) options).radix in
      record {
        label = row_label (variable_name v) (row_index p);
        description =
            described ++ (equals_sign described ++ variable_value style v value none stored);
        tooltip = variable_tooltip v;
        collapsible = collapsible_of (base v).width;
        icon = icon_of (base v).width;
        command = (base v).location;
        context = context;
      }

  pub array_tree_item : DisplayStyle → MemoryVariable → Text → Shown
  array_tree_item style m context =
      let v = memory_variable m in
      record {
        label = variable_name v;
        description = variable_description style v false;
        tooltip = variable_tooltip v;
        collapsible = collapsed;
        icon = symbol_array;
        command = (base v).location;
        context = context;
      }

  abbrev root_tree_item : Shown
  root_tree_item = record {
    label = some (codes "ʜɪᴇʀᴀʀᴄʜʏ");
    description = [];
    tooltip = [];
    collapsible = expanded;
    icon = no_icon;
    command = none;
    context = [];
  }

  abbrev scope_links : Option Location → Option Location → Text
  scope_links none definition = []
  scope_links (some l) definition =
      codes "\n\n- " ++ (markdown_link l ++ located (codes "\n- ") definition)

  abbrev with_children : {A B : Type 0} → List A → List B → Collapsible
  with_children [] [] = leaf
  with_children _ _ = collapsed

  abbrev named_scope : {A B : Type 0} → Text → ModuleScope (List A) (List B) → Shown
  named_scope [] s = root_tree_item
  named_scope (c ∷ name) s = record {
    label = some (c ∷ name);
    description = join (codes ".") s.module_full_name;
    tooltip = join (codes ".") s.full_name ++ scope_links s.location s.module_location;
    collapsible = with_children s.scopes s.variables;
    icon = symbol_module;
    command = s.location;
    context = [];
  }

  -- Of a scope whose scopes and variables were fetched.
  pub scope_tree_item : {A B : Type 0} → ModuleScope (List A) (List B) → Shown
  scope_tree_item s = named_scope (scope_name s) s

abbrev pub watch_tree_item : {A : Type 0} → List A → Shown
watch_tree_item items = record {
  label = some (watch_label items);
  description = [];
  tooltip = [];
  collapsible = watch_collapsible items;
  icon = no_icon;
  command = none;
  context = [];
}
  where
    watch_label : {A : Type 0} → List A → Text
    watch_label [] = codes "ᴡᴀᴛᴄʜ (empty)"
    watch_label (w ∷ items) = codes "ᴡᴀᴛᴄʜ"

    watch_collapsible : {A : Type 0} → List A → Collapsible
    watch_collapsible [] = leaf
    watch_collapsible (w ∷ items) = expanded
