-- ===== src/Scope/Names.antt =====
-- Names of scopes.
use rtl_debugger.Common.{◌≡◌, ◌≢◌, refl, ap, ◌∙◌, ◌⊎◌, inl, inr, List, [], ◌∷◌, ◌++◌, none, some}
use rtl_debugger.Common.Text.{Text, split, join-split, split-ne-nil}
use rtl_debugger.Proto.{ScopeDescription, module_scope}
use rtl_debugger.Variable.{identifier_of, all_but_last, last_name}
use rtl_debugger.Variable.Names.{front-last}
use rtl_debugger.Scope.{
  scope_full_name, parent_of, or_empty, scope_from_cxxrtl, scope_name, parent_full_name,
  scope_identifier,
}

parent_of-some : (ps : List Text) → ps ≢ [] → parent_of ps ≡ some (all_but_last ps)
unfolding parent_of
parent_of-some [] h = absurd (h refl)
parent_of-some (p ∷ ps) h = refl

append-ne-nil : (ps : List Text) (p : Text) → ps ++ p ∷ [] ≢ []
append-ne-nil [] p h = cc
append-ne-nil (q ∷ ps) p h = cc

front-name : (ps : List Text) → ps ≢ [] → all_but_last ps ++ or_empty (last_name ps) ∷ [] ≡ ps
front-name ps h = let (name, found, e) = front-last ps h in rw found e

-- The identifier of a scope is the name that it was described under. Only the root scope has no parent;
-- another scope's name joined to its parent's is its identifier.
pub scope_names :
    {Nested Variables : Type 0} (t : Text) (d : ScopeDescription) (n : Nested) (v : Variables)
    → let s = scope_from_cxxrtl t d n v in
      (scope_identifier s ≡ t)
      × (((t ≡ []) × (scope_name s ≡ []) × (parent_full_name s ≡ none))
          ⊎ ((parent : List Text) × (parent_full_name s ≡ some parent)
              × (identifier_of (parent ++ scope_name s ∷ []) ≡ t)))
unfolding scope_from_cxxrtl scope_name parent_full_name scope_identifier
scope_names [] (module_scope d i) n v = (refl, inl (refl, refl, refl))
scope_names (c ∷ t) (module_scope d i) n v =
    let ps = split b' ' (c ∷ t) in
    let some_names = split-ne-nil b' ' (c ∷ t) in
    (
      join-split b' ' (c ∷ t),
      inr (
        all_but_last ps,
        parent_of-some ps some_names,
        ap identifier_of (front-name ps some_names) ∙ join-split b' ' (c ∷ t),
      ),
    )

all_but_last-append : (ps : List Text) (p : Text) → all_but_last (ps ++ p ∷ []) ≡ ps
all_but_last-append [] p = refl
all_but_last-append (q ∷ []) p = refl
all_but_last-append (q ∷ r ∷ ps) p = ap (λ l. q ∷ l) (all_but_last-append (r ∷ ps) p)

parent_of-append : (ps : List Text) (p : Text) → parent_of (ps ++ p ∷ []) ≡ some ps
parent_of-append ps p =
    parent_of-some (ps ++ p ∷ []) (append-ne-nil ps p) ∙ ap some (all_but_last-append ps p)

pub parent_full_name-append :
    {Nested Variables : Type 0} (t : Text) (d : ScopeDescription) (n : Nested) (v : Variables)
    (ps : List Text) (p : Text)
    → scope_full_name t ≡ ps ++ p ∷ []
    → parent_full_name (scope_from_cxxrtl t d n v) ≡ some ps
unfolding scope_from_cxxrtl parent_full_name
parent_full_name-append t (module_scope d i) n v ps p e = ap parent_of e ∙ parent_of-append ps p
