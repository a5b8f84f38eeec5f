-- ===== src/Session/Listings.antt =====
-- References and scopes of concrete names.
use rtl_debugger.Common.{
  ℕ, ◌≡◌, ◌↔◌, refl, List, [], ◌∷◌, ◌++◌, none, some, ◌==◌, if◌then◌else◌, Result, ok, throw, ◌>>=◌,
  reference_error, true,
}
use rtl_debugger.Common.Text.{Text, codes}
use rtl_debugger.Proto.{
  ScopeDescription, module_scope, no_attributes, ScopeDescriptionMap, ProtoSample, QueryInterval,
}
use rtl_debugger.Time.{zero_time, TimeInterval}
use rtl_debugger.Scope.{scope_full_name}
use rtl_debugger.Sample.{UnboundReference, new_reference}
use rtl_debugger.Session.Database.{
  bound, count, bind_reference, query_interval, interval_query, read_samples,
  query_interval-bind_reference,
}
use rtl_debugger.Session.Design.{Listing, Caches, is_child, filter_scopes}
use rtl_debugger.Session.Design.Scopes.{
  get_scopes_in, AllInScope, AreChildren, get_scopes_in-InScope,
}
use rtl_debugger.Session.Design.Children.{is_child_iff}

abbrev block : ScopeDescription
block =
    module_scope (record { src = none; name = none; attributes = no_attributes })
      (record { src = none; attributes = no_attributes })

abbrev reply : ScopeDescriptionMap
reply =
    ([], block)
    ∷ (codes "top", block)
    ∷ (codes "top cpu", block)
    ∷ (codes "top cpu alu", block)
    ∷ []

abbrev listing : Listing
listing = record { list_items = λ s. ok []; list_scopes = λ s. ok reply }

abbrev no_caches : Caches
no_caches = record { item_cache = []; scope_cache = []; root_scope = none }

children :
    (filter_scopes [] reply ≡ (codes "top", block) ∷ [])
    × (filter_scopes (codes "top") reply ≡ (codes "top cpu", block) ∷ [])
unfolding filter_scopes is_child
children = (refl, refl)

is_child_iff_example :
    (is_child (codes "top") (codes "top cpu") ≡ true)
    ↔ ((p : Text) × (scope_full_name (codes "top cpu") ≡ scope_full_name (codes "top") ++ p ∷ []))
is_child_iff_example = is_child_iff (codes "top") (codes "top cpu")

abbrev decode : Text → List ℕ
decode t = t

abbrev samples : QueryInterval → Result (List ProtoSample)
samples q =
    ok (record { time = codes "0.5"; item_values = some (codes "a"); diagnostics = none } ∷ [])

abbrev whole : TimeInterval
whole = record { begin = zero_time; end = zero_time }

abbrev later : List (Text × UnboundReference)
later = (codes "other", new_reference 2) ∷ (codes "watch", new_reference 3) ∷ []

query_interval-bind_reference_example :
    let (reference, command, epochs) = bind_reference (codes "watch") (new_reference 1) [] in
    query_interval decode (bound later epochs) whole reference none samples ≡ (
      if count (codes "watch") later == 0
      then (samples (interval_query whole reference none) >>= λ l.
          read_samples decode reference.unbound l)
      else throw reference_error)
query_interval-bind_reference_example =
    query_interval-bind_reference decode samples (codes "watch") (new_reference 1) [] later whole
      none

get_scopes_in-InScope_example :
    let (scopes, caches) = get_scopes_in listing (codes "top") no_caches in
    AllInScope (codes "top") scopes × AreChildren caches
get_scopes_in-InScope_example = get_scopes_in-InScope listing (codes "top") no_caches tt
