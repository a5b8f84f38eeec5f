-- ===== src/Sample/Words.antt =====
-- A number as words, the most significant first, and the loop that reads it.
use rtl_debugger.Common.{
  ℕ, zero, suc, ◌+◌, ◌*◌, ◌/◌, ◌%◌, ◌^◌, ◌<◌, ◌≡◌, refl, sym, ap, ◌∙◌, List, [], ◌∷◌, ◌++◌,
  append_assoc, length, length-append, get_elem?, some, ok, arith,
}
use native.Mathlib.Nat.{pow-suc}
use rtl_debugger.Sample.{word, read_words}

-- The lowest `n` words of a number.
abbrev pub words : ℕ → ℕ → List ℕ
words zero v = []
words (suc n) v = words n (v / word) ++ v % word ∷ []

pub length-words : (n v : ℕ) → length (words n v) ≡ n
length-words zero v = refl
length-words (suc n) v =
    omega (arith, length-append {0} (words n (v / word)) (v % word ∷ []), length-words n (v / word))

-- The number that words spell behind `v`.
fold : ℕ → List ℕ → ℕ
fold v [] = v
fold v (w ∷ ws) = fold (v * word + w) ws

fold-append : (v w : ℕ) (ws : List ℕ) → fold v (ws ++ w ∷ []) ≡ fold v ws * word + w
unfolding fold
fold-append v w [] = refl
fold-append v w (x ∷ ws) = fold-append (v * word + x) w ws

below : (n v : ℕ) → v < word ^ suc n → v / word < word ^ n
below n v h = omega (arith, pow-suc word n)

fold-words : (n v : ℕ) → v < word ^ n → fold 0 (words n v) ≡ v
unfolding fold
fold-words zero v h = omega arith
fold-words (suc n) v h =
    rw (fold-append 0 (v % word) (words n (v / word)), fold-words n (v / word) (below n v h))
      (omega arith)

get_elem?-middle :
    (before : List ℕ) (w : ℕ) (after : List ℕ)
    → get_elem? (before ++ (w ∷ after)) (length before) ≡ some w
get_elem?-middle [] w after = refl
get_elem?-middle (x ∷ before) w after = get_elem?-middle before w after

read_words-fold :
    (before ws after : List ℕ) (v : ℕ)
    → read_words (length ws) (before ++ (ws ++ after)) (length before) v ≡ ok (fold v ws)
unfolding read_words fold
read_words-fold before [] after v = refl
read_words-fold before (w ∷ ws) after v =
    step (get_elem?-middle before w (ws ++ after))
    ∙ rw (← append_assoc before (w ∷ []) (ws ++ after), ← one_more)
        (read_words-fold (before ++ w ∷ []) ws after (v * word + w))
  where
    one_more : length (before ++ w ∷ []) ≡ length before + 1
    one_more = omega (arith, length-append {0} before (w ∷ []))

    step :
        get_elem? (before ++ (w ∷ (ws ++ after))) (length before) ≡ some w
        → read_words (suc (length ws)) (before ++ (w ∷ (ws ++ after))) (length before) v
          ≡ read_words
              (length ws)
              (before ++ (w ∷ (ws ++ after)))
              (length before + 1)
              (v * word + w)
    step e = ground (arith, e)

-- The loop reads back the number of which it finds the words.
pub read_words-words :
    (n v : ℕ) (before after : List ℕ)
    → v < word ^ n
    → read_words n (before ++ (words n v ++ after)) (length before) 0 ≡ ok v
read_words-words n v before after h =
    ap (λ m. read_words m (before ++ (words n v ++ after)) (length before) 0)
      (sym (length-words n v))
    ∙ read_words-fold before (words n v) after 0
    ∙ ap ok (fold-words n v h)
