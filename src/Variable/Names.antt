-- ===== src/Variable/Names.antt =====
-- Names of variables.
use rtl_debugger.Common.{◌≡◌, refl, ap, ◌≢◌, List, [], ◌∷◌, ◌++◌, some}
use rtl_debugger.Common.Text.{Text, split, join-split, split-ne-nil}
use rtl_debugger.Proto.{ItemDescription, node, memory}
use rtl_debugger.Variable.{
  base, variable_from_cxxrtl, last_name, all_but_last, variable_name, scope_full_name,
  identifier_of, cxxrtl_identifier,
}

-- A list of names is its front and its last name.
pub front-last :
    (ps : List Text)
    → ps ≢ []
    → (p : Text) × (last_name ps ≡ some p) × (all_but_last ps ++ p ∷ [] ≡ ps)
front-last [] h = absurd (h refl)
front-last (p ∷ []) h = (p, refl, refl)
front-last (p ∷ q ∷ ps) h =
    let (l, found, e) = front-last (q ∷ ps) (cc) in (l, found, ap (λ r. p ∷ r) e)

full_name-split :
    (t : Text) (d : ItemDescription) → (base (variable_from_cxxrtl t d)).full_name ≡ split b' ' t
unfolding variable_from_cxxrtl
full_name-split t (node d) = refl
full_name-split t (memory d) = refl

-- The identifier of a variable is the name that it was described under, and the names of its scope and
-- its own name, joined by spaces, are that name too.
variable_names :
    (t : Text) (d : ItemDescription)
    → let v = variable_from_cxxrtl t d in
      (cxxrtl_identifier v ≡ t)
      × ((name : Text) × (variable_name v ≡ some name)
          × (identifier_of (scope_full_name v ++ name ∷ []) ≡ t))
unfolding cxxrtl_identifier variable_name scope_full_name
variable_names t d =
    let (name, found, e) = front-last (split b' ' t) (split-ne-nil b' ' t) in
    (
      rw (full_name-split t d) (join-split b' ' t),
      (name, rw (full_name-split t d) found, rw (full_name-split t d, e) (join-split b' ' t)),
    )
