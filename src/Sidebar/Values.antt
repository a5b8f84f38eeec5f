-- ===== src/Sidebar/Values.antt =====
-- The value of a scalar or a bit in the sidebar (src/ui/sidebar.ts), which is asked of the observer.
use rtl_debugger.Common.{
  ℕ, ◌%◌, ◌/◌, ◌^◌, ◌↔◌, Option, ◌≡◌, ap, ◌∙◌, Bool, true, List, ◌++◌, none, some,
}
use rtl_debugger.Common.Text.{Text}
use rtl_debugger.Source.{Location}
use rtl_debugger.Time.{TimePoint}
use rtl_debugger.Variable.{Variable, Designation, base, cxxrtl_identifier}
use rtl_debugger.Scope.{ModuleScope}
use rtl_debugger.Styling.{DisplayStyle, Radix, variable_description, variable_value}
use rtl_debugger.Options.{Configuration, get_options}
use rtl_debugger.Watch
use rtl_debugger.Session.Database.{Epochs}
use rtl_debugger.Sample.{Extracted, canonical_key}
use rtl_debugger.Sample.Reading.{single, extracted}
use rtl_debugger.Observer.{Observer, idle, designations, new_observer}
use rtl_debugger.Observer.Values.{Truth, Has}
use rtl_debugger.Observer.Steps.{Reach}
use rtl_debugger.Observer.Idle.{query-idle}
use rtl_debugger.Observer.Asking.{query-observe}
use rtl_debugger.Sidebar.{TreeItem, bit_item, scalar_item, Part, designation_of, variable_of}
use rtl_debugger.Sidebar.Display.{bit_tree_item, scalar_tree_item, equals_sign}
use rtl_debugger.Styling.Values.{variable_value_iff}
use rtl_debugger.Sidebar.Bits.{read_bit, read_bit-bit_description}
use mathlib.Core.List.{append_cancel_left}
use rtl_debugger.Sidebar.Provider.{Provider, get_value, get_tree_item}

-- What the editor holds of the design: the observer at work, idle, with the part observed.
pub record Watches (retains : ℕ → Extracted → Bool) (truth : TimePoint → Truth) (o : Observer)
    (d : Designation) : Type 0 where
  pub name : Text
  pub epochs : Epochs
  pub id : ℕ
  pub cursor : TimePoint
  pub reached : Reach retains truth (new_observer name epochs id cursor) o
  pub is_idle : o.refreshing ≡ idle
  pub observed : Has (canonical_key d) (designations o.observables)

-- Two values of a variable are shown by the same text exactly if they agree in its bits.
same_text :
    (style : DisplayStyle) (v : Variable) (n m : ℕ) (stored : Option Radix)
    → let described = variable_description style v true in
      (described ++ (equals_sign described ++ variable_value style v (some n) none stored)
        ≡ described ++ (equals_sign described ++ variable_value style v (some m) none stored))
      ↔ (n % 2 ^ (base v).width ≡ m % 2 ^ (base v).width)
same_text style v n m stored =
    let described = variable_description style v true in
    let (shown, agree) = variable_value_iff style v n m none stored in
    (
      λ e.
          shown
            (append_cancel_left (equals_sign described) _ _ (append_cancel_left described _ _ e)),
      λ e. ap (λ t. described ++ (equals_sign described ++ t)) (agree e),
    )

module _ {S : Type 0} (retains : ℕ → Extracted → Bool) (truth : TimePoint → Truth) where
  get_value-idle :
      (d : Designation) (callback : ℕ) (o : Observer) (p : Provider S)
      → p.observer ≡ some o
      → Watches retains truth o d
      → (get_value d callback p).0 ≡ some (extracted (truth o.time_cursor (canonical_key d)))
  unfolding get_value
  get_value-idle d callback o p h w =
      let held =
        query-idle retains truth w.name w.epochs w.id w.cursor d w.reached w.is_idle w.observed in
      rw h (query-observe d callback o ∙ held)

  module _ (look : S → ModuleScope (List S) (List Variable)) (relative_path : Text → Text)
      (open_uri : Location → Text) where
    -- An item of a scalar whose part is observed by an observer that is idle shows the text of a value,
    -- in the style and the stored radix, exactly if that value agrees in the bits of the variable with
    -- what the design holds at the time cursor; and an item of a bit of the part shows the bit that
    -- the latter has at the item's index, counted from zero at the lowest one.
    pub get_tree_item-idle :
        (style : DisplayStyle) (options : Configuration) (watch_list : Watch.Configuration)
        (callback : ℕ) (part : Part) (index n m : ℕ) (context : Text) (o : Observer)
        (p : Provider S)
        → p.observer ≡ some o
        → Watches retains truth o (designation_of part)
        → truth o.time_cursor (canonical_key (designation_of part)) ≡ single n
        → let v = variable_of part in
          let described = variable_description style v true in
          let stored = (get_options (cxxrtl_identifier v) options).radix in
          let shown : TreeItem S → Text = λ item.
            (get_tree_item look relative_path open_uri style options watch_list callback item
              p).0.description in
          ((shown (scalar_item part context)
              ≡ described ++ (equals_sign described ++ variable_value style v (some m) none stored))
            ↔ (n % 2 ^ (base v).width ≡ m % 2 ^ (base v).width))
          × (read_bit (shown (bit_item part index context)) ≡ n / 2 ^ index % 2)
    unfolding get_tree_item bit_tree_item scalar_tree_item
    get_tree_item-idle style options watch_list callback part index n m context o p h w e =
        let value : (get_value (designation_of part) callback p).0 ≡ some (extracted (single n)) =
          get_value-idle (designation_of part) callback o p h w ∙ ap (λ c. some (extracted c)) e in
        (
          rw value (
              same_text style (variable_of part) n m
                (get_options (cxxrtl_identifier (variable_of part)) options).radix),
          rw value (read_bit-bit_description n index),
        )
