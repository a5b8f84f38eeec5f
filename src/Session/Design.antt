-- ===== src/Session/Design.antt =====
-- The design as a session lists it: `listItemsInScope`, `listScopesInScope`, `getVariablesIn`,
-- `getRootScope` and `getVariable` of src/debug/session.ts, with their caches. The server's replies
-- are a parameter.
pub mod Children
pub mod Scopes
use rtl_debugger.Common.{
  ℕ, zero, suc, ◌+◌, ◌≡◌, refl, sym, ap, ◌∙◌, Bool, true, false, not, ◌&&◌, List, [], ◌∷◌, ◌++◌,
  map, Option, none, some, length, drop, ◌==◌, if◌then◌else◌, Result, ok, throw, type_error,
}
use rtl_debugger.Common.Map.{get, put, get-put}
use rtl_debugger.Common.Text.{Text, codes, split, join}
use rtl_debugger.Proto.{ScopeDescription, ScopeDescriptionMap, ItemDescription, ItemDescriptionMap}
use rtl_debugger.Variable.{Variable, variable_from_cxxrtl, all_but_last, identifier_of}

-- `t.indexOf(' ') !== -1`.
abbrev pub has_space : Text → Bool
has_space [] = false
has_space (c ∷ t) = let rest = has_space t in if c == b' ' then true else rest

abbrev pub starts_with : Text → Text → Bool
starts_with [] t = true
starts_with (p ∷ ps) [] = false
starts_with (p ∷ ps) (c ∷ t) = let rest = starts_with ps t in if p == c then rest else false

abbrev is_empty : Text → Bool
is_empty [] = true
is_empty (c ∷ t) = false

-- The test by which the scopes of a reply are filtered.
unfoldable pub is_child : Text → Text → Bool
is_child [] name = not (is_empty name) && not (has_space name)
is_child (s ∷ scope) name =
    starts_with ((s ∷ scope) ++ codes " ") name
    && not (has_space (drop (suc (length (s ∷ scope))) name))

unfoldable pub filter_scopes : Text → ScopeDescriptionMap → ScopeDescriptionMap
unfolding is_child
filter_scopes scope [] = []
filter_scopes scope ((name, description) ∷ scopes) =
    let rest = filter_scopes scope scopes in
    if is_child scope name then (name, description) ∷ rest else rest

pub record Caches : Type 0 where
  pub item_cache : List (Text × ItemDescriptionMap)
  pub scope_cache : List (Text × ScopeDescriptionMap)
  pub root_scope : Option ScopeDescription

-- Replies to `list_items` and `list_scopes`.
pub record Listing : Type 0 where
  pub list_items : Text → Result ItemDescriptionMap
  pub list_scopes : Text → Result ScopeDescriptionMap

module _ (server : Listing) where
  abbrev items_listed :
      Text → Caches → Result ItemDescriptionMap → Result ItemDescriptionMap × Caches
  items_listed scope caches (throw e) = (throw e, caches)
  items_listed scope caches (ok items) =
      (ok items, record caches { item_cache = put scope items caches.item_cache })

  pub list_items_in_scope : Text → Caches → Result ItemDescriptionMap × Caches
  list_items_in_scope scope caches = elim (get scope caches.item_cache) [
    | some items ↦ (ok items, caches)
    | none ↦ items_listed scope caches (server.list_items scope)
  ]

  abbrev scopes_listed :
      Text → Caches → Result ScopeDescriptionMap → Result ScopeDescriptionMap × Caches
  scopes_listed scope caches (throw e) = (throw e, caches)
  scopes_listed scope caches (ok reply) =
      let scopes = filter_scopes scope reply in
      (ok scopes, record caches { scope_cache = put scope scopes caches.scope_cache })

  abbrev scopes_for :
      Text → Caches → Option ScopeDescriptionMap → Result ScopeDescriptionMap × Caches
  scopes_for scope caches (some scopes) = (ok scopes, caches)
  scopes_for scope caches none = scopes_listed scope caches (server.list_scopes scope)

  unfoldable pub list_scopes_in_scope : Text → Caches → Result ScopeDescriptionMap × Caches
  unfolding filter_scopes
  list_scopes_in_scope scope caches = scopes_for scope caches (get scope caches.scope_cache)

  abbrev root_scope_listed : Caches → Result ScopeDescriptionMap → Result ScopeDescription × Caches
  root_scope_listed caches (throw e) = (throw e, caches)
  root_scope_listed caches (ok reply) = elim (get [] reply) [
    | none ↦ (throw type_error, caches)
    | some scope ↦ (ok scope, record caches { root_scope = some scope })
  ]

  -- The description of the root scope: without one in the reply the next lines throw.
  pub get_root_scope : Caches → Result ScopeDescription × Caches
  get_root_scope caches = elim caches.root_scope [
    | some scope ↦ (ok scope, caches)
    | none ↦ root_scope_listed caches (server.list_scopes [])
  ]

  abbrev map_variables : Result ItemDescriptionMap × Caches → Result (List Variable) × Caches
  map_variables (throw e, caches) = (throw e, caches)
  map_variables (ok items, caches) =
      (ok (map (λ i. variable_from_cxxrtl (i.0) (i.1)) items), caches)

  pub get_variables_in : Text → Caches → Result (List Variable) × Caches
  unfolding list_items_in_scope
  get_variables_in scope caches = map_variables (list_items_in_scope scope caches)

  abbrev find_variable :
      Text → Result ItemDescriptionMap × Caches → Result (Option Variable) × Caches
  find_variable identifier (throw e, caches) = (throw e, caches)
  find_variable identifier (ok items, caches) = elim (get identifier items) [
    | none ↦ (ok none, caches)
    | some item ↦ (ok (some (variable_from_cxxrtl identifier item)), caches)
  ]

  pub get_variable : Text → Caches → Result (Option Variable) × Caches
  unfolding list_items_in_scope
  get_variable identifier caches =
      let scope = identifier_of (all_but_last (split b' ' identifier)) in
      find_variable identifier (list_items_in_scope scope caches)

-- What is listed once is listed again, whatever the server would answer then: both are the entries of
-- the first reply, filtered.
list_scopes_in_scope_again :
    (first second : Listing) (scope : Text) (caches : Caches) (reply : ScopeDescriptionMap)
    → get scope caches.scope_cache ≡ none
    → first.list_scopes scope ≡ ok reply
    → let (listed, caches') = list_scopes_in_scope first scope caches in
      (listed ≡ ok (filter_scopes scope reply))
      × (list_scopes_in_scope second scope caches' ≡ (listed, caches'))
unfolding list_scopes_in_scope
list_scopes_in_scope_again first second scope caches reply h e =
    let scopes = filter_scopes scope reply in
    let kept = record caches { scope_cache = put scope scopes caches.scope_cache } in
    let first_time : list_scopes_in_scope first scope caches ≡ (ok scopes, kept) =
      ap (scopes_for first scope caches) h ∙ ap (scopes_listed first scope caches) e in
    (
      ap (λ o. o.0) first_time,
      ap (λ o. list_scopes_in_scope second scope (o.1)) first_time
          ∙ ap (scopes_for second scope kept) (get-put scope scopes caches.scope_cache)
          ∙ sym first_time,
    )
