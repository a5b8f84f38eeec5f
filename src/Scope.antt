-- ===== src/Scope.antt =====
-- src/model/scope.ts: the scopes of a design. `Nested` and `Variables` are what stands for the scopes
-- and variables inside, which are fetched when they are asked for.
pub mod Names
mod Tests
use rtl_debugger.Common.{List, [], ◌∷◌, Option, none, some}
use rtl_debugger.Common.Text.{Text, codes, split, join}
use rtl_debugger.Source.{Location, location_from_cxxrtl}
use rtl_debugger.Variable.{last_name, all_but_last, identifier_of}
use rtl_debugger.Proto.{ScopeDescription, module_scope}

pub record ModuleScope (Nested Variables : Type 0) : Type 0 where
  pub full_name : List Text
  pub location : Option Location
  pub module_full_name : List Text
  pub module_location : Option Location
  pub scopes : Nested
  pub variables : Variables

-- The root scope has the empty name.
abbrev pub scope_full_name : Text → List Text
scope_full_name [] = []
scope_full_name (c ∷ t) = split b' ' (c ∷ t)

-- `name?.split(' ') || []`.
abbrev split_name : Option Text → List Text
split_name none = []
split_name (some t) = split b' ' t

-- The last of the names, or the empty text.
abbrev or_empty : Option Text → Text
or_empty none = []
or_empty (some t) = t

parent_of : List Text → Option (List Text)
parent_of [] = none
parent_of (p ∷ ps) = some (all_but_last (p ∷ ps))

module _ {Nested Variables : Type 0} where
  unfoldable pub scope_from_cxxrtl :
      Text → ScopeDescription → Nested → Variables → ModuleScope Nested Variables
  scope_from_cxxrtl cxxrtl_name (module_scope definition instantiation) scopes variables = record {
    full_name = scope_full_name cxxrtl_name;
    location = location_from_cxxrtl instantiation.src;
    module_full_name = split_name definition.name;
    module_location = location_from_cxxrtl definition.src;
    scopes = scopes;
    variables = variables;
  }

  pub scope_name : ModuleScope Nested Variables → Text
  scope_name s = or_empty (last_name s.full_name)

  pub module_name : ModuleScope Nested Variables → Text
  module_name s = or_empty (last_name s.module_full_name)

  pub parent_full_name : ModuleScope Nested Variables → Option (List Text)
  unfolding parent_of
  parent_full_name s = parent_of s.full_name

  pub scope_identifier : ModuleScope Nested Variables → Text
  scope_identifier s = identifier_of s.full_name
