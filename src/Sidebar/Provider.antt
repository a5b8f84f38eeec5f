-- ===== src/Sidebar/Provider.antt =====
-- `TreeDataProvider` of src/ui/sidebar.ts: the roots of the tree, the children and the look of an item,
-- and its value through the observer. `S` is what stands for a scope, and `look` what was fetched of
-- it; `get_variable` is the session's. A tree item's one-shot callback is a number.
use rtl_debugger.Common.{
  ℕ, Bool, true, false, List, [], ◌∷◌, ◌++◌, map, Option, none, some, if◌then◌else◌,
}
use rtl_debugger.Common.Text.{Text, codes}
use rtl_debugger.Source.{Location}
use rtl_debugger.Time.{TimePoint}
use rtl_debugger.Variable.{Variable, Designation}
use rtl_debugger.Scope.{ModuleScope}
use rtl_debugger.Styling.{DisplayStyle}
use rtl_debugger.Options.{Configuration}
use rtl_debugger.Watch.{WatchItem}
use rtl_debugger.Watch
use rtl_debugger.Session.Database.{Epochs}
use rtl_debugger.Sample.{Extracted, bigint, iterable}
use rtl_debugger.Observer.{Observer, new_observer, observe, query}
use rtl_debugger.Sidebar.{
  TreeItem, bit_item, scalar_item, array_item, scope_item, watch_item, designation_of,
  scalar_children, array_children, scope_children, watch_children,
}
use rtl_debugger.Sidebar.Display.{
  Shown, bit_tree_item, scalar_tree_item, array_tree_item, scope_tree_item, watch_tree_item,
}

-- The fields of the provider, and the elements that the editor was told to redraw: none is the tree. A session
-- is a number.
pub record Provider (S : Type 0) : Type 0 where
  pub session : Option ℕ
  pub observer : Option Observer
  pub watch_root : Bool
  pub scope_root : Option S
  pub changes : List (Option (TreeItem S))

abbrev pub bits_of : Option Extracted → Option ℕ
bits_of none = none
bits_of (some (bigint n)) = some n
bits_of (some (iterable rows)) = none

module _ {S : Type 0} where
  unfoldable pub new_provider : Provider S
  new_provider = record {
    session = none;
    observer = none;
    watch_root = false;
    scope_root = none;
    changes = [];
  }

  abbrev pub redraw : Option (TreeItem S) → Provider S → Provider S
  redraw element p = record p { changes = p.changes ++ element ∷ [] }

  -- The handler of a new session, up to its await of the root scope, and behind it.
  unfoldable pub session_begun : ℕ → Epochs → ℕ → TimePoint → Provider S → Provider S
  session_begun session epochs next_id cursor p = record p {
    session = some session;
    observer = some (new_observer (codes "sidebar") epochs next_id cursor);
    watch_root = true;
  }

  pub root_fetched : S → Provider S → Provider S
  root_fetched scope p = redraw none (record p { scope_root = some scope })

  -- The handler of no session; the old observer is disposed.
  unfoldable pub session_ended : Provider S → Provider S
  session_ended p =
      redraw none
        (record p { session = none; observer = none; watch_root = false; scope_root = none })

  pub configuration_changed : Bool → Bool → Provider S → Provider S
  configuration_changed display_style options p =
      if display_style then redraw none p else if options then redraw none p else p

  pub watch_list_changed : Provider S → Provider S
  watch_list_changed p = if p.watch_root then redraw (some watch_item) p else p

  unfoldable pub get_value : Designation → ℕ → Provider S → Option Extracted × Provider S
  get_value d callback p = elim p.observer [
    | none ↦ (none, p)
    | some o ↦
        let observed = observe d callback o in
        (query d observed, record p { observer = some observed })
  ]

  abbrev or_scope : Option S → List (TreeItem S)
  or_scope none = []
  or_scope (some s) = scope_item s ∷ []

  pub roots : Provider S → List (TreeItem S)
  roots p = (if p.watch_root then watch_item ∷ [] else []) ++ or_scope p.scope_root

  module _ (look : S → ModuleScope (List S) (List Variable)) where
    -- The children of an item; those of the watch item have their index besides.
    pub get_children :
        DisplayStyle
        → (Text → Option Variable)
        → Watch.Configuration
        → TreeItem S
        → List (TreeItem S)
    get_children style get_variable watch_list (bit_item part index context) = []
    get_children style get_variable watch_list (scalar_item part context) =
        scalar_children style part
    get_children style get_variable watch_list (array_item v first last context) = array_children v
    get_children style get_variable watch_list (scope_item s) =
        scope_children (look s).scopes (look s).variables
    get_children style get_variable watch_list watch_item =
        map (λ l. l.item) (watch_children get_variable (Watch.get_items watch_list))

    module _ (relative_path : Text → Text) (open_uri : Location → Text) where
      unfoldable pub get_tree_item :
          DisplayStyle
          → Configuration
          → Watch.Configuration
          → ℕ
          → TreeItem S
          → Provider S
          → Shown × Provider S
      unfolding get_value
      get_tree_item style options watch_list callback (bit_item part index context) p =
          let (value, p') = get_value (designation_of part) callback p in
          (bit_tree_item relative_path open_uri part index context (bits_of value), p')
      get_tree_item style options watch_list callback (scalar_item part context) p =
          let (value, p') = get_value (designation_of part) callback p in
          (scalar_tree_item relative_path open_uri style options part context (bits_of value), p')
      get_tree_item style options watch_list callback (array_item v first last context) p =
          (array_tree_item relative_path open_uri style v context, p)
      get_tree_item style options watch_list callback (scope_item s) p =
          (scope_tree_item relative_path open_uri (look s), p)
      get_tree_item style options watch_list callback watch_item p =
          (watch_tree_item (Watch.get_items watch_list), p)
