-- ===== src/Session/Design/Children.antt =====
-- Which scopes the filter of `listScopesInScope` of src/debug/session.ts lets through.
use rtl_debugger.Common.{
  ℕ, suc, ◌≡◌, ◌≢◌, ◌↔◌, refl, sym, ap, ◌∙◌, inl, inr, Bool, true, false, not, ◌&&◌, Bool-cases,
  ==_iff, List, [], ◌∷◌, ◌++◌, append_assoc, All, length, drop, ◌==◌, arith,
}
use mathlib.Core.Path.{subst}
use rtl_debugger.Common.Text.{
  Text, codes, split, join, Lacks, split-ne-nil, join-split, split-Lacks, split-append_any,
  split_one,
}
use rtl_debugger.Scope.{scope_full_name}
use rtl_debugger.Session.Design.{has_space, starts_with, is_child}

has_space-Lacks : (t : Text) → has_space t ≡ false → Lacks b' ' t
has_space-Lacks [] h = tt
has_space-Lacks (c ∷ t) h = ground (arith, has_space-Lacks t)

Lacks-has_space : (t : Text) → Lacks b' ' t → has_space t ≡ false
Lacks-has_space [] h = refl
Lacks-has_space (c ∷ t) h = ground (arith, Lacks-has_space t (h.1))

starts_with-split : (p t : Text) → starts_with p t ≡ true → (rest : Text) × (t ≡ p ++ rest)
starts_with-split [] t h = (t, refl)
starts_with-split (p ∷ ps) [] h = cc
starts_with-split (p ∷ ps) (c ∷ t) h = elim (Bool-cases (p == c)) [
  | inl same ↦
      let (rest, e) = starts_with-split ps t (rw same at h) in
      (rest, ap (λ d. d ∷ t) (sym ((==_iff p c).0 same)) ∙ ap (λ l. p ∷ l) e)
  | inr off ↦ absurd (let x : false ≡ true = rw off at h in cc)
]

starts_with-append : (p t : Text) → starts_with p (p ++ t) ≡ true
starts_with-append [] t = refl
starts_with-append (p ∷ ps) t = ground (arith, starts_with-append ps t)

join-snoc :
    (sep : Text) (ps : List Text) (p : Text)
    → ps ≢ []
    → join sep (ps ++ p ∷ []) ≡ join sep ps ++ (sep ++ p)
join-snoc sep [] p h = absurd (h refl)
join-snoc sep (q ∷ []) p h = refl
join-snoc sep (q ∷ r ∷ ps) p h =
    let J = join sep (r ∷ ps) in
    ap (λ l. q ++ (sep ++ l)) (join-snoc sep (r ∷ ps) p (cc))
    ∙ ap (λ l. q ++ l) (sym (append_assoc sep J (sep ++ p)))
    ∙ sym (append_assoc q (sep ++ J) (sep ++ p))

rest-name : (scope rest : Text) → drop (suc (length scope)) (scope ++ b' ' ∷ rest) ≡ rest
rest-name [] rest = refl
rest-name (c ∷ scope) rest = rest-name scope rest

and_true : (a b : Bool) → (a && b) ≡ true → (a ≡ true) × (b ≡ true)
and_true true b h = (refl, h)
and_true false b h = cc

negated : (b : Bool) → not b ≡ true → b ≡ false
negated true h = cc
negated false h = refl

child_of :
    (c : ℕ) (scope name : Text)
    → is_child (c ∷ scope) name ≡ true
    → (p : Text) × (name ≡ (c ∷ scope) ++ b' ' ∷ p) × Lacks b' ' p
unfolding is_child
child_of c scope name h =
    let (starts, lacks) =
      and_true (starts_with ((c ∷ scope) ++ codes " ") name)
        (not (has_space (drop (suc (length (c ∷ scope))) name))) h in
    let (p, e) = starts_with-split ((c ∷ scope) ++ codes " ") name starts in
    let named : name ≡ (c ∷ scope) ++ b' ' ∷ p = e ∙ append_assoc (c ∷ scope) (codes " ") p in
    let none_behind : has_space (drop (suc (length (c ∷ scope))) name) ≡ false = negated _ lacks in
    (
      p,
      named,
      has_space-Lacks p (
          ap has_space (sym (ap (drop (suc (length (c ∷ scope)))) named ∙ rest-name (c ∷ scope) p))
          ∙ none_behind),
    )

of_child :
    (c : ℕ) (scope p : Text) → Lacks b' ' p → is_child (c ∷ scope) ((c ∷ scope) ++ b' ' ∷ p) ≡ true
unfolding is_child
of_child c scope p l =
    let starts : starts_with ((c ∷ scope) ++ codes " ") ((c ∷ scope) ++ b' ' ∷ p) ≡ true =
      ap (starts_with ((c ∷ scope) ++ codes " ")) (sym (append_assoc (c ∷ scope) (codes " ") p))
      ∙ starts_with-append ((c ∷ scope) ++ codes " ") p in
    let none_behind : has_space (drop (suc (length (c ∷ scope))) ((c ∷ scope) ++ b' ' ∷ p))
        ≡ false =
      ap has_space (rest-name (c ∷ scope) p) ∙ Lacks-has_space p l in
    rw (starts, none_behind)

All-last : (ps : List Text) (p : Text) → All (Lacks b' ') (ps ++ p ∷ []) → Lacks b' ' p
All-last [] p h = h.0
All-last (q ∷ ps) p h = All-last ps p (h.1)

append-ne-nil : (ps : List Text) (p : Text) → ps ++ p ∷ [] ≢ []
append-ne-nil [] p = cc
append-ne-nil (q ∷ ps) p = cc

-- The filter lets exactly the names through that are the listed scope's name with one part more.
pub is_child_iff :
    (scope name : Text)
    → (is_child scope name ≡ true)
      ↔ ((p : Text) × (scope_full_name name ≡ scope_full_name scope ++ p ∷ []))
unfolding is_child
is_child_iff [] [] = (λ h. absurd (let x : false ≡ true = h in cc), λ (p, e). absurd (cc))
is_child_iff [] (d ∷ t) = (
  λ h. (d ∷ t, split_one b' ' (d ∷ t) (has_space-Lacks (d ∷ t) (negated (has_space (d ∷ t)) h))),
  λ (p, e).
      let lone : Lacks b' ' p = (subst (All (Lacks b' ')) e (split-Lacks b' ' (d ∷ t))).0 in
      let named : d ∷ t ≡ p = sym (join-split b' ' (d ∷ t)) ∙ ap (join (codes " ")) e in
      ap not (Lacks-has_space (d ∷ t) (subst (Lacks b' ') (sym named) lone)),
)
is_child_iff (c ∷ scope) [] = (
  λ h.
      let (p, e, l) = child_of c scope [] h in
      absurd (let x : [] ≡ c ∷ (scope ++ b' ' ∷ p) = e in cc),
  λ (p, e). absurd (append-ne-nil (split b' ' (c ∷ scope)) p (sym e)),
)
is_child_iff (c ∷ scope) (d ∷ t) = (
  λ h.
      let (p, e, l) = child_of c scope (d ∷ t) h in
      (
        p,
        ap (split b' ') e
            ∙ split-append_any b' ' (c ∷ scope) p
            ∙ ap (λ l. split b' ' (c ∷ scope) ++ l) (split_one b' ' p l),
      ),
  λ (p, e).
      let lone : Lacks b' ' p =
        All-last (split b' ' (c ∷ scope)) p
          (subst (All (Lacks b' ')) e (split-Lacks b' ' (d ∷ t))) in
      let named : d ∷ t ≡ (c ∷ scope) ++ b' ' ∷ p =
        sym (join-split b' ' (d ∷ t))
        ∙ ap (join (codes " ")) e
        ∙ join-snoc (codes " ") (split b' ' (c ∷ scope)) p (split-ne-nil b' ' (c ∷ scope))
        ∙ ap (λ s. s ++ b' ' ∷ p) (join-split b' ' (c ∷ scope)) in
      ap (is_child (c ∷ scope)) named ∙ of_child c scope p lone,
)
