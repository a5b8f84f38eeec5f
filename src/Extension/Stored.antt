-- ===== src/Extension/Stored.antt =====
-- The radix that is stored for each variable: src/extension.ts with src/debug/options.ts.
use rtl_debugger.Common.{
  ◌≡◌, refl, ap, ◌∙◌, inl, inr, Bool-cases, List, [], ◌∷◌, Option, some, if◌then◌else◌,
}
use rtl_debugger.Common.Text.{Text, text_eq, text_eq-eq}
use rtl_debugger.Variable.{Variable, cxxrtl_identifier}
use rtl_debugger.Styling.{Radix}
use rtl_debugger.Options.{
  VariableOptions, get_options-update_same, Configuration, get_options, get_options-update_options,
}
use rtl_debugger.Extension.{set_radix}

-- What is stored, as a function of the identifier.
abbrev pub radix_of : Configuration → Text → Option Radix
radix_of c id = (get_options id c).radix

-- A function changed at one identifier.
abbrev pub with_radix : Text → Radix → (Text → Option Radix) → Text → Option Radix
with_radix id radix f other = if text_eq id other then some radix else f other

-- Commands, each of a radix for a variable, run one behind the other: on the configuration, and on
-- the function.
abbrev pub set_radices : List (Radix × Variable) → Configuration → Configuration
set_radices [] c = c
set_radices ((radix, v) ∷ commands) c = set_radices commands (set_radix radix v c)

abbrev pub chosen : List (Radix × Variable) → (Text → Option Radix) → Text → Option Radix
chosen [] f = f
chosen ((radix, v) ∷ commands) f = chosen commands (with_radix (cxxrtl_identifier v) radix f)

set_radix-with_radix :
    (radix : Radix) (v : Variable) (c : Configuration) (id : Text)
    → radix_of (set_radix radix v c) id ≡ with_radix (cxxrtl_identifier v) radix (radix_of c) id
unfolding set_radix
set_radix-with_radix radix v c id =
    let added : VariableOptions = record { radix = some radix } in
    elim (Bool-cases (text_eq (cxxrtl_identifier v) id)) [
      | inl same ↦
          rw (same, ← text_eq-eq (cxxrtl_identifier v) id same)
            (ap (λ o. o.radix) (get_options-update_same (cxxrtl_identifier v) added c))
      | inr off ↦
          rw off
            (ap (λ o. o.radix) (get_options-update_options (cxxrtl_identifier v) id added c off).1)
    ]

chosen-same :
    (commands : List (Radix × Variable)) (f g : Text → Option Radix)
    → ((id : Text) → f id ≡ g id)
    → (id : Text) → chosen commands f id ≡ chosen commands g id
chosen-same [] f g h id = h id
chosen-same ((radix, v) ∷ commands) f g h id =
    chosen-same commands (with_radix (cxxrtl_identifier v) radix f)
      (with_radix (cxxrtl_identifier v) radix g)
      (λ other. ap (λ r. if text_eq (cxxrtl_identifier v) other then some radix else r) (h other))
      id

-- The stored options implement a function from identifiers to radices that the commands change at one
-- identifier each: after any of them, run one behind the other on any configuration, the radix that is
-- stored for an identifier is the function's.
pub set_radices-chosen :
    (commands : List (Radix × Variable)) (c : Configuration) (id : Text)
    → radix_of (set_radices commands c) id ≡ chosen commands (radix_of c) id
set_radices-chosen [] c id = refl
set_radices-chosen ((radix, v) ∷ commands) c id =
    set_radices-chosen commands (set_radix radix v c) id
    ∙ chosen-same commands (radix_of (set_radix radix v c))
        (with_radix (cxxrtl_identifier v) radix (radix_of c)) (set_radix-with_radix radix v c) id
