-- ===== src/Options.antt =====
-- src/debug/options.ts: the options that are stored for a variable. The editor's configuration is the
-- stored value, or none.
mod Tests
use rtl_debugger.Common.{◌≡◌, refl, ap, ◌∙◌, false, List, [], Option, none, some}
use rtl_debugger.Common.Map.{get, put, get-put, get-put_other}
use rtl_debugger.Common.Text.{Text, text_eq}
use rtl_debugger.Styling.{Radix}

pub record VariableOptions : Type 0 where
  pub radix : Option Radix

abbrev pub Configuration : Type 0
Configuration = Option (List (Text × VariableOptions))

-- `… || {}`.
abbrev option_store : Configuration → List (Text × VariableOptions)
option_store none = []
option_store (some store) = store

abbrev or_no_options : Option VariableOptions → VariableOptions
or_no_options none = record { radix = none }
or_no_options (some options) = options

unfoldable pub get_options : Text → Configuration → VariableOptions
get_options id configuration = or_no_options (get id (option_store configuration))

unfoldable pub set_options : Text → VariableOptions → Configuration → Configuration
set_options id options configuration = some (put id options (option_store configuration))

-- `Object.assign(options, addedOptions)`.
abbrev pub assign : VariableOptions → VariableOptions → VariableOptions
assign options added = record {
  radix = elim added.radix [ none ↦ options.radix | some radix ↦ some radix ];
}

unfoldable pub update_options : Text → VariableOptions → Configuration → Configuration
unfolding get_options set_options
update_options id added configuration =
    set_options id (assign (get_options id configuration) added) configuration

pub get_options-update_same :
    (id : Text) (added : VariableOptions) (c : Configuration)
    → get_options id (update_options id added c) ≡ assign (get_options id c) added
unfolding get_options set_options update_options
get_options-update_same id added c =
    let store = option_store c in
    ap or_no_options (get-put id (assign (get_options id c) added) store)

-- Behind an update of a variable its options are the old ones with the added ones put over them, and
-- those of any other variable are as before.
pub get_options-update_options :
    (id other : Text) (added : VariableOptions) (c : Configuration)
    → text_eq id other ≡ false
    → (get_options id (update_options id added c) ≡ assign (get_options id c) added)
      × (get_options other (update_options id added c) ≡ get_options other c)
unfolding get_options set_options update_options
get_options-update_options id other added c h =
    let store = option_store c in
    let options = assign (get_options id c) added in
    (get_options-update_same id added c, ap or_no_options (get-put_other other id options store h))
