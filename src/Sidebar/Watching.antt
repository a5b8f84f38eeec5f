-- ===== src/Sidebar/Watching.antt =====
-- Watching an item of the sidebar and unwatching it: src/ui/sidebar.ts with src/debug/watch.ts.
use rtl_debugger.Common.{
  ℕ, suc, ◌+◌, ◌≡◌, refl, ap, ◌∙◌, List, [], ◌∷◌, ◌++◌, Option, none, some, All, Option-cases, inl,
  inr, length, get_elem?, arith,
}
use mathlib.Core.Path.{subst}
use rtl_debugger.Common.Int.{pos}
use rtl_debugger.Common.Text.{Text}
use rtl_debugger.Variable.{Variable, memory_variable, Designation, memory_range, memory_designation}
use rtl_debugger.Watch.{
  WatchItem, Configuration, get_items, append_item, remove_item, remove_item-append_item,
}
use rtl_debugger.Sidebar.{
  TreeItem, whole, row_of, variable_of, bit_item, scalar_item, array_item, scope_item, watch_item,
  Listed, get_watch_item, watched, list_at, watch_children, watch_children_from,
}

-- An item without its context value, and its variable.
abbrev pub bare : {S : Type 0} → TreeItem S → TreeItem S
bare (bit_item p index context) = bit_item p index []
bare (scalar_item p context) = scalar_item p []
bare (array_item v first last context) = array_item v first last []
bare (scope_item s) = scope_item s
bare watch_item = watch_item

abbrev pub item_variable : {S : Type 0} → TreeItem S → Option Variable
item_variable (bit_item p index context) = some (variable_of p)
item_variable (scalar_item p context) = some (variable_of p)
item_variable (array_item v first last context) = some (memory_variable v)
item_variable (scope_item s) = none
item_variable watch_item = none

-- An array is the whole memory.
abbrev pub IsWhole : {S : Type 0} → TreeItem S → Type 0
IsWhole (array_item v first last context) =
    memory_designation v none none ≡ memory_range v first last
IsWhole _ = Unit

-- Watching it and looking its variable up again gives the item, but for its context value.
abbrev Again : {S : Type 0} → TreeItem S → Option WatchItem → Option Variable → Type 0
Again {S} t (some w) (some v) =
    (item : TreeItem S) × (watched w (some v) ≡ some item) × (bare item ≡ bare t)
Again t _ _ = Unit

range_item : {S : Type 0} → Designation → TreeItem S
range_item (memory_range m first last) = array_item m first last []
range_item _ = watch_item

watched_lem :
    {S : Type 0} (t : TreeItem S) → IsWhole t → Again t (get_watch_item t) (item_variable t)
unfolding get_watch_item watched memory_designation range_item
watched_lem (bit_item (whole u) index context) n = (_, refl, refl)
watched_lem (bit_item (row_of u r) index context) n = (_, refl, refl)
watched_lem (scalar_item (whole u) context) n = (_, refl, refl)
watched_lem (scalar_item (row_of u r) context) n = (_, refl, refl)
watched_lem (array_item u first last context) n = (_, refl, ap range_item n)
watched_lem (scope_item s) n = tt
watched_lem watch_item n = tt

-- Items that the list shows are those of their indices.
module _ (S : Type 0) (get_variable : Text → Option Variable) where
  again :
      (t : TreeItem S) (w : WatchItem) (v : Variable)
      → get_watch_item t ≡ some w
      → item_variable t ≡ some v
      → IsWhole t
      → (item : TreeItem S) × (watched w (some v) ≡ some item) × (bare item ≡ bare t)
  again t w v h g n =
      subst (λ o. Again t (some w) o) g
        (subst (λ o. Again t o (item_variable t)) h (watched_lem t n))

  abbrev pub Stands : List WatchItem → ℕ → Listed S → Type 0
  Stands items from l =
      (w : WatchItem) × (k : ℕ) × (l.index ≡ from + k)
      × (get_elem? items k ≡ some w)
      × (watched w (get_variable w.id) ≡ some l.item)

  Stands-later :
      (w : WatchItem) (items : List WatchItem) (from : ℕ) (ls : List (Listed S))
      → All (Stands items (suc from)) ls
      → All (Stands (w ∷ items) from) ls
  Stands-later w items from [] h = tt
  Stands-later w items from (l ∷ ls) ((u, k, i, e, g), h) =
      ((u, suc k, omega arith, e, g), Stands-later w items from ls h)

  watch_children_from-Stands :
      (from : ℕ) (items : List WatchItem)
      → All (Stands items from) (watch_children_from get_variable from items)
  unfolding watch_children_from
  watch_children_from-Stands from [] = tt
  watch_children_from-Stands from (w ∷ items) =
      let rest =
        Stands-later w items from (watch_children_from get_variable (suc from) items)
          (watch_children_from-Stands (suc from) items) in
      elim (Option-cases (watched {Scope = S} w (get_variable w.id))) [
        | inl e ↦ rw e rest
        | inr (item, e) ↦ rw e ((w, 0, omega arith, refl, e), rest)
      ]

  list_at-append :
      (n : ℕ) (o : Option (TreeItem S)) (ls ms : List (Listed S))
      → list_at n o (ls ++ ms) ≡ list_at n o ls ++ ms
  list_at-append n none ls ms = refl
  list_at-append n (some item) ls ms = refl

  watch_children_from-append :
      (from : ℕ) (w : WatchItem) (item : TreeItem S) (items : List WatchItem)
      → watched w (get_variable w.id) ≡ some item
      → watch_children_from get_variable from (items ++ w ∷ [])
        ≡ watch_children_from get_variable from items
          ++ record { item = item; index = from + length items } ∷ []
  unfolding watch_children_from
  watch_children_from-append from w item [] h =
      rw h (ap (λ n. record { item = item; index = n } ∷ []) (omega arith))
  watch_children_from-append from w item (u ∷ items) h =
      let o = watched u (get_variable u.id) in
      let e = watch_children_from-append (suc from) w item items h in
      ap (list_at from o) (
        e
        ∙ ap
            (λ n.
              watch_children_from get_variable (suc from) items
              ++ record { item = item; index = n } ∷ [])
            (omega arith))
      ∙ list_at-append from o (watch_children_from get_variable (suc from) items)
          (record { item = item; index = from + suc (length items) } ∷ [])

  -- Watching an item of the tree whose variable the session finds by its identifier, where an array is
  -- the whole memory, adds one item behind those that the list shows: the same item, but for its
  -- context value; and unwatching it by its index gives the items before. Each item that the list shows
  -- is that of the entry at its index.
  pub watch_children-append_item :
      (t : TreeItem S) (w : WatchItem) (v : Variable) (c : Configuration)
      → get_watch_item t ≡ some w
      → item_variable t ≡ some v
      → IsWhole t
      → get_variable w.id ≡ some v
      → let before : List (Listed S) = watch_children get_variable (get_items c) in
        let c' = append_item w c in
        ((l : Listed S) × (watch_children get_variable (get_items c') ≡ before ++ l ∷ [])
          × (bare l.item ≡ bare t)
          × (get_items (remove_item (pos l.index) c') ≡ get_items c))
        × All (Stands (get_items c) 0) before
  unfolding watch_children append_item
  watch_children-append_item t w v c h g n found =
      let (item, e, same) = again t w v h g n in
      let there : watched w (get_variable w.id) ≡ some item = ap (watched w) found ∙ e in
      (
        (
          record { item = item; index = length (get_items c) },
          watch_children_from-append 0 w item (get_items c) there
              ∙ ap
                  (λ k.
                    watch_children_from get_variable 0 (get_items c)
                    ++ record { item = item; index = k } ∷ [])
                  (omega arith),
          same,
          (remove_item-append_item 0 0 w c).1,
        ),
        watch_children_from-Stands 0 (get_items c),
      )
