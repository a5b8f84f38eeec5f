-- ===== src/Session/Design/Scopes.antt =====
-- `getScopesIn` and `getRootScope` of src/debug/session.ts: the scopes that they make. What is inside a
-- scope is fetched when it is asked for, by the name that stands for it.
use rtl_debugger.Common.{
  ◌≡◌, refl, sym, inl, inr, true, Bool-cases, List, [], ◌∷◌, map, All, Option, none, some, Result,
  ok, throw,
}
use mathlib.Core.Path.{subst}
use rtl_debugger.Common.Map.{get, put}
use rtl_debugger.Common.Text.{Text, text_eq, text_eq-eq}
use rtl_debugger.Proto.{module_scope, ScopeDescription, ScopeDescriptionMap}
use rtl_debugger.Scope.{
  ModuleScope, scope_from_cxxrtl, scope_full_name, scope_identifier, parent_full_name,
}
use rtl_debugger.Scope.Names.{scope_names, parent_full_name-append}
use rtl_debugger.Session.Design.{
  Caches, Listing, is_child, filter_scopes, list_scopes_in_scope, scopes_for, scopes_listed,
  get_root_scope,
}
use rtl_debugger.Session.Design.Children.{is_child_iff}

abbrev pub scope_of : Text × ScopeDescription → ModuleScope Text Text
scope_of (name, description) = scope_from_cxxrtl name description name name

abbrev map_scopes :
    Result ScopeDescriptionMap × Caches → Result (List (ModuleScope Text Text)) × Caches
map_scopes (throw e, caches) = (throw e, caches)
map_scopes (ok scopes, caches) = (ok (map scope_of scopes), caches)

abbrev as_root : Result ScopeDescription × Caches → Result (ModuleScope Text Text) × Caches
as_root (throw e, caches) = (throw e, caches)
as_root (ok description, caches) = (ok (scope_of ([], description)), caches)

module _ (server : Listing) where
  pub get_scopes_in : Text → Caches → Result (List (ModuleScope Text Text)) × Caches
  get_scopes_in scope caches = map_scopes (list_scopes_in_scope server scope caches)

  pub root_scope : Caches → Result (ModuleScope Text Text) × Caches
  root_scope caches = as_root (get_root_scope server caches)

-- The names are those of children of a scope; and all that is cached are.
abbrev Children : Text → ScopeDescriptionMap → Type 0
Children scope = All λ d. is_child scope d.0 ≡ true

abbrev pub AreChildren : Caches → Type 0
AreChildren caches = All (λ e. Children e.0 e.1) caches.scope_cache

filter_scopes-Children :
    (scope : Text) (reply : ScopeDescriptionMap) → Children scope (filter_scopes scope reply)
unfolding filter_scopes
filter_scopes-Children scope [] = tt
filter_scopes-Children scope ((name, d) ∷ reply) = elim (Bool-cases (is_child scope name)) [
  | inl child ↦ rw child (child, filter_scopes-Children scope reply)
  | inr other ↦ rw other (filter_scopes-Children scope reply)
]

get-Children :
    (scope : Text) (cache : List (Text × ScopeDescriptionMap)) (scopes : ScopeDescriptionMap)
    → All (λ e. Children e.0 e.1) cache
    → get scope cache ≡ some scopes
    → Children scope scopes
get-Children scope [] scopes h e = cc
get-Children scope ((l, s) ∷ cache) scopes (c, h) e = elim (Bool-cases (text_eq l scope)) [
  | inl same ↦
      let found : some s ≡ some scopes = rw same at e in
      let there : s ≡ scopes = cc in
      subst (λ k. Children k scopes) (text_eq-eq l scope same) (subst (Children l) there c)
  | inr off ↦ get-Children scope cache scopes h (rw off at e)
]

put-Children :
    (scope : Text) (scopes : ScopeDescriptionMap) (cache : List (Text × ScopeDescriptionMap))
    → Children scope scopes
    → All (λ e. Children e.0 e.1) cache
    → All (λ e. Children e.0 e.1) (put scope scopes cache)
put-Children scope scopes [] c h = (c, tt)
put-Children scope scopes ((l, s) ∷ cache) c (d, h) = elim (Bool-cases (text_eq l scope)) [
  | inl same ↦ rw same (subst (λ k. Children k scopes) (sym (text_eq-eq l scope same)) c, h)
  | inr off ↦ rw off (d, put-Children scope scopes cache c h)
]

-- A list of scopes that was listed in one, or an exception.
abbrev pub InScope : Text → ModuleScope Text Text → Type 0
InScope scope s =
    (parent_full_name s ≡ some (scope_full_name scope))
    × (scope_identifier s ≡ s.scopes)
    × (scope_identifier s ≡ s.variables)

abbrev pub AllInScope : Text → Result (List (ModuleScope Text Text)) → Type 0
AllInScope scope (throw e) = Unit
AllInScope scope (ok scopes) = All (InScope scope) scopes

scope_of-InScope :
    (scope name : Text) (d : ScopeDescription)
    → is_child scope name ≡ true
    → InScope scope (scope_of (name, d))
unfolding scope_from_cxxrtl
scope_of-InScope scope name (module_scope definition instantiation) h =
    let d = module_scope definition instantiation in
    let (p, e) = (is_child_iff scope name).0 h in
    let (named, rest) = scope_names name d name name in
    (parent_full_name-append name d name name (scope_full_name scope) p e, named, named)

scopes-InScope :
    (scope : Text) (scopes : ScopeDescriptionMap)
    → Children scope scopes
    → All (InScope scope) (map scope_of scopes)
scopes-InScope scope [] h = tt
scopes-InScope scope ((name, d) ∷ scopes) (c, h) =
    (scope_of-InScope scope name d c, scopes-InScope scope scopes h)

-- What is kept: children in the caches, and children listed.
abbrev Kept : Text → Result (List (ModuleScope Text Text)) × Caches → Type 0
Kept scope (r, caches) = AllInScope scope r × AreChildren caches

module _ (server : Listing) where
  listed-Kept :
      (scope : Text) (caches : Caches) (r : Result ScopeDescriptionMap)
      → AreChildren caches
      → Kept scope (map_scopes (scopes_listed server scope caches r))
  listed-Kept scope caches (throw e) h = (tt, h)
  listed-Kept scope caches (ok reply) h =
      let scopes = filter_scopes scope reply in
      let children = filter_scopes-Children scope reply in
      (
        scopes-InScope scope scopes children,
        put-Children scope scopes caches.scope_cache children h,
      )

  entry-Kept :
      (scope : Text) (caches : Caches) (o : Option ScopeDescriptionMap)
      → AreChildren caches
      → get scope caches.scope_cache ≡ o
      → Kept scope (map_scopes (scopes_for server scope caches o))
  entry-Kept scope caches (some scopes) h e =
      (scopes-InScope scope scopes (get-Children scope caches.scope_cache scopes h e), h)
  entry-Kept scope caches none h e = listed-Kept scope caches (server.list_scopes scope) h

  -- If the caches hold children only, as new ones do, whatever the server answers each scope that is
  -- listed in a scope has it as its parent, and what is inside is fetched by its own identifier; and the
  -- caches again hold children only.
  pub get_scopes_in-InScope :
      (scope : Text) (caches : Caches)
      → AreChildren caches
      → let (scopes, caches') = get_scopes_in server scope caches in
        AllInScope scope scopes × AreChildren caches'
  unfolding get_scopes_in list_scopes_in_scope
  get_scopes_in-InScope scope caches h =
      entry-Kept scope caches (get scope caches.scope_cache) h refl
