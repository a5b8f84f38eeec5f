-- ===== src/Observer/Values.antt =====
-- What the delivery of a sample leaves in the observables.
use rtl_debugger.Common.{
  ℕ, ◌≡◌, refl, sym, ap, ◌∙◌, ◌⊎◌, inl, inr, Bool, false, Bool-cases, List, [], ◌∷◌, ◌++◌, map,
  Option, none, some, All, ok, arith,
}
use rtl_debugger.Common.Map.{get, put, get-put, get-put_if}
use rtl_debugger.Common.Text.{Text, text_eq, text_eq-eq}
use rtl_debugger.Variable.{Designation}
use rtl_debugger.Sample.{Extracted, bigint, iterable, canonical_key, Handle, Sample}
use rtl_debugger.Sample.Reading.{Content, extracted}
use rtl_debugger.Sample.Layout.{Extracts}
use rtl_debugger.Observer.{Observable, Call, update, is_new, deliver_all, designations}

-- Contents of the parts of a design, by canonical key.
abbrev pub Truth : Type 0
Truth = Text → Content

abbrev pub contents : Truth → List Designation → List Content
contents truth = map λ d. truth (canonical_key d)

abbrev pub Has : Text → List Designation → Type 0
Has k [] = ⊥
Has k (d ∷ ds) = (canonical_key d ≡ k) ⊎ Has k ds

-- An entry at a key, and what it shows.
abbrev pub Shows : Truth → List (Text × Observable) → Text → Type 0
Shows truth observables k =
    (o : Observable) × (get k observables ≡ some o) × (o.value ≡ some (extracted (truth k)))

abbrev pub Present : List (Text × Observable) → Designation → Type 0
Present observables d = (o : Observable) × (get (canonical_key d) observables ≡ some o)

not_new : (old : Option Extracted) (v : Extracted) → is_new old v ≡ false → old ≡ some v
not_new none v h = cc
not_new (some (iterable l)) v h = cc
not_new (some (bigint m)) (iterable l) h = cc
not_new (some (bigint m)) (bigint n) h = ap (λ k. some (bigint k)) (ground arith)

-- Giving an entry another value, under the same designation, leaves the designations.
pub designations-put :
    (k : Text) (o o' : Observable) (observables : List (Text × Observable))
    → get k observables ≡ some o
    → o'.designation ≡ o.designation
    → designations (put k o' observables) ≡ designations observables
designations-put k o o' [] h e = cc
designations-put k o o' ((l, p) ∷ rest) h e = elim (Bool-cases (text_eq l k)) [
  | inl same ↦
      let found : some p ≡ some o = rw same at h in
      let there : p ≡ o = cc in
      rw same (ap (λ d. d ∷ designations rest) (e ∙ ap (λ o. o.designation) (sym there)))
  | inr off ↦ rw off (ap (λ ds. p.designation ∷ ds) (designations-put k o o' rest (rw off at h) e))
]

module _ (truth : Truth) (observables : List (Text × Observable)) (l : Text) (o : Observable) where
  pub Shows-put :
      (k : Text)
      → o.value ≡ some (extracted (truth l))
      → Shows truth observables k
      → Shows truth (put l o observables) k
  Shows-put k e (p, found, shown) = elim (Bool-cases (text_eq l k)) [
    | inl same ↦ (
      o,
      get-put_if k l o observables ∙ rw same,
      e ∙ ap (λ k. some (extracted (truth k))) (text_eq-eq l k same),
    )
    | inr off ↦ (p, get-put_if k l o observables ∙ rw off found, shown)
  ]

Present-put :
    (observables : List (Text × Observable)) (l : Text) (o : Observable) (d : Designation)
    → Present observables d
    → Present (put l o observables) d
Present-put observables l o d (p, found) = elim (Bool-cases (text_eq l (canonical_key d))) [
  | inl same ↦ (o, get-put_if (canonical_key d) l o observables ∙ rw same)
  | inr off ↦ (p, get-put_if (canonical_key d) l o observables ∙ rw off found)
]

pub All_Present-put :
    (observables : List (Text × Observable)) (l : Text) (o : Observable) (ds : List Designation)
    → All (Present observables) ds
    → All (Present (put l o observables)) ds
All_Present-put observables l o [] h = tt
All_Present-put observables l o (d ∷ ds) h =
    (Present-put observables l o d h.0, All_Present-put observables l o ds h.1)

-- Each entry stands at its key.
unfoldable pub Keyed : List (Text × Observable) → Type 0
Keyed = All λ e. e.0 ≡ canonical_key e.1.designation

pub Keyed-put :
    (key : Text) (o : Observable) (observables : List (Text × Observable))
    → key ≡ canonical_key o.designation
    → Keyed observables
    → Keyed (put key o observables)
unfolding Keyed
Keyed-put key o [] e h = (e, tt)
Keyed-put key o ((l, p) ∷ rest) e (f, h) = elim (Bool-cases (text_eq l key)) [
  | inl same ↦ rw same (text_eq-eq l key same ∙ e, h)
  | inr off ↦ rw off (f, Keyed-put key o rest e h)
]

pub Keyed-get :
    (key : Text) (o : Observable) (observables : List (Text × Observable))
    → Keyed observables
    → get key observables ≡ some o
    → key ≡ canonical_key o.designation
unfolding Keyed
Keyed-get key o [] h e = cc
Keyed-get key o ((l, p) ∷ rest) (f, h) e = elim (Bool-cases (text_eq l key)) [
  | inl same ↦
      let found : some p ≡ some o = rw same at e in
      let there : p ≡ o = cc in
      sym (text_eq-eq l key same) ∙ f ∙ ap (λ o. canonical_key o.designation) there
  | inr off ↦ Keyed-get key o rest h (rw off at e)
]

-- The observables behind a delivery.
pub record Delivered (truth : Truth) (ds : List Designation)
    (before after : List (Text × Observable)) : Type 0 where
  pub same : designations after ≡ designations before
  pub shows : (k : Text) → Has k ds → Shows truth after k
  pub keyed : Keyed before → Keyed after
  pub kept : (k : Text) → Shows truth before k → Shows truth after k

module _ (retains : ℕ → Extracted → Bool) where
  update-value : (v : Extracted) (o : Observable) → (update retains v o).0.value ≡ some v
  unfolding update
  update-value v o = elim (Bool-cases (is_new o.value v)) [
    | inl new ↦ rw new
    | inr old ↦ rw old (not_new o.value v old)
  ]

  update-designation :
      (v : Extracted) (o : Observable) → (update retains v o).0.designation ≡ o.designation
  unfolding update
  update-designation v o = elim (Bool-cases (is_new o.value v)) [
    | inl new ↦ rw new
    | inr old ↦ rw old
  ]

  pub deliver_all-Delivered :
      (truth : Truth) (sample : Sample) (hs : List Handle) (ds : List Designation)
      (observables : List (Text × Observable)) (calls : List Call)
      → Extracts sample hs ds (contents truth ds)
      → All (Present observables) ds
      → (after : List (Text × Observable)) × (new : List Call) × (deliver_all retains
            (some sample)
            (map (λ h. (h.designation, h)) hs)
            observables
            calls
          ≡ (ok tt, after, new))
        × Delivered truth ds observables after
  unfolding deliver_all
  deliver_all-Delivered truth sample [] [] observables calls e p = (
    observables,
    calls,
    refl,
    record { same = refl; keyed = λ k. k; shows = λ k h. absurd h; kept = λ k h. h },
  )
  deliver_all-Delivered truth sample [] (d ∷ ds) observables calls e p = absurd e
  deliver_all-Delivered truth sample (h ∷ hs) [] observables calls e p = absurd e
  deliver_all-Delivered truth sample (h ∷ hs) (d ∷ ds) observables calls (named, value, e)
        ((o, found), p) =
      let v = extracted (truth (canonical_key d)) in
      let (o', new) = update retains v o in
      let next = put (canonical_key d) o' observables in
      let (after, all, ran, rest) =
        deliver_all-Delivered truth sample hs ds next (calls ++ new) e
          (All_Present-put observables (canonical_key d) o' ds p) in
      let there : get (canonical_key h.designation) observables ≡ some o = rw named found in
      (
        after,
        all,
        rw (there, value, ap canonical_key named, deliver_all) ran,
        record {
          same =
              rest.same
              ∙ designations-put (canonical_key d) o o' observables found (update-designation v o);
          shows = λ k has. elim has [
            | inl at ↦
                rest.kept k
                  (rw (← at) (o', get-put (canonical_key d) o' observables, update-value v o))
            | inr later ↦ rest.shows k later
          ];
          keyed = λ k. rest.keyed (
              Keyed-put (canonical_key d) o' observables
                (Keyed-get (canonical_key d) o observables k found
                  ∙ ap canonical_key (sym (update-designation v o)))
                k);
          kept = λ k s.
              rest.kept k (Shows-put truth observables (canonical_key d) o' k (update-value v o) s);
        },
      )
