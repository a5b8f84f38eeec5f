-- ===== src/Sample/Reading.antt =====
-- What is read of the words of one designation, against the values that the words stand for.
use rtl_debugger.Common.{
  ℕ, false, suc, ◌+◌, ◌*◌, ◌/◌, ◌^◌, ◌<◌, ◌≡◌, refl, ap, ◌∙◌, List, [], ◌∷◌, ◌++◌, append_assoc,
  length, length-append, All, ok, arith,
}
use rtl_debugger.Common.Int.{ℤ, pos, pos_part, ltb_ℤ}
use rtl_debugger.Variable.{
  ScalarVariable, Designation, scalar_designation, memory_row, memory_range,
}
use rtl_debugger.Sample.{
  word, DataRange, data_range_of, data_range, size, row_count, bigint_from_raw, read_rows,
  extract_from_raw, Extracted, bigint, iterable,
}
use rtl_debugger.Sample.Words.{words, length-words, read_words-words}

-- Words for each value of a variable.
abbrev pub words_of : ScalarVariable → ℕ
words_of v = (v.width + 31) / 32

-- So narrow that the word count is an int32.
abbrev pub IsNarrow : ScalarVariable → Type 0
IsNarrow v = v.width + 31 < 2 ^ 36

pub stride-narrow :
    (v : ScalarVariable) (c : ℤ) → IsNarrow v → (data_range_of v c).stride ≡ pos (words_of v)
unfolding data_range_of
stride-narrow v c h = ground arith

pub data Content : Type 0 where
  single : ℕ → Content
  several : List ℕ → Content

abbrev pub FitsIn : ScalarVariable → ℕ → Type 0
FitsIn v x = x < word ^ words_of v

-- The values are those of the designation: one for each row, and each in its words.
abbrev pub Fits : Designation → Content → Type 0
Fits (scalar_designation v) (single x) = IsNarrow v × FitsIn v x
Fits (memory_row v index) (single x) = IsNarrow v.scalar × FitsIn v.scalar x
Fits (memory_range v first last) (several xs) =
    IsNarrow v.scalar × (row_count first last ≡ pos (length xs)) × All (FitsIn v.scalar) xs
Fits _ _ = ⊥

abbrev pub row_words : ℕ → List ℕ → List ℕ
row_words n [] = []
row_words n (x ∷ xs) = words n x ++ row_words n xs

-- The words that the server sends for a designation: of each value the most significant first.
abbrev pub encode : Designation → Content → List ℕ
encode (scalar_designation v) (single x) = words (words_of v) x
encode (memory_row v index) (single x) = words (words_of v.scalar) x
encode (memory_range v first last) (several xs) = row_words (words_of v.scalar) xs
encode _ _ = []

abbrev pub extracted : Content → Extracted
extracted (single x) = bigint x
extracted (several xs) = iterable (ok xs)

pub length-row_words : (n : ℕ) (xs : List ℕ) → length (row_words n xs) ≡ n * length xs
length-row_words n [] = omega arith
length-row_words n (x ∷ xs) =
    omega (
      arith,
      length-append {0} (words n x) (row_words n xs),
      length-words n x,
      length-row_words n xs,
    )

pub bigint_from_raw-words :
    (n : ℕ) (r : DataRange) (k : ℕ) (before after : List ℕ) (x : ℕ)
    → r.stride ≡ pos n
    → ltb_ℤ r.count (pos k) ≡ false
    → length before ≡ n * k
    → x < word ^ n
    → bigint_from_raw r (before ++ (words n x ++ after)) k ≡ ok x
unfolding bigint_from_raw
bigint_from_raw-words n r k before after x s c l h =
    rw (s, c, ← l) (read_words-words n x before after h)

read_rows-words :
    (n : ℕ) (r : DataRange) (xs : List ℕ) (k : ℕ) (before after : List ℕ)
    → r.stride ≡ pos n
    → r.count ≡ pos (k + length xs)
    → length before ≡ n * k
    → All (λ x. x < word ^ n) xs
    → read_rows r (before ++ (row_words n xs ++ after)) (length xs) k ≡ ok xs
unfolding read_rows
read_rows-words n r [] k before after s c l h = refl
read_rows-words n r (x ∷ xs) k before after s c l h =
    let raw = before ++ (row_words n (x ∷ xs) ++ after) in
    let first : bigint_from_raw r raw k ≡ ok x =
      rw (append_assoc (words n x) (row_words n xs) after)
        (bigint_from_raw-words n r k before (row_words n xs ++ after) x s (within c) l h.0) in
    let rest : read_rows r raw (length xs) (k + 1) ≡ ok xs =
      rw
        (
          append_assoc (words n x) (row_words n xs) after,
          ← append_assoc before (words n x) (row_words n xs ++ after),
        )
        (read_rows-words n r xs (k + 1) (before ++ words n x) after s (c ∙ ap pos (omega arith))
          (moved l) h.1) in
    rw (first, rest)
  where
    within : r.count ≡ pos (k + suc (length xs)) → ltb_ℤ r.count (pos k) ≡ false
    within e = rw e (ground arith)

    moved : length before ≡ n * k → length (before ++ words n x) ≡ n * (k + 1)
    moved e = omega (arith, length-append {0} before (words n x), length-words n x)

extract_single :
    (v : ScalarVariable) (x : ℕ) (after : List ℕ)
    → IsNarrow v
    → FitsIn v x
    → bigint_from_raw (data_range_of v (pos 1)) (words (words_of v) x ++ after) 0 ≡ ok x
extract_single v x after narrow fits =
    bigint_from_raw-words (words_of v) (data_range_of v (pos 1)) 0 [] after x
      (stride-narrow v (pos 1) narrow) (unfold data_range_of in refl) (omega arith) fits

-- The values of a designation are read from their words, whatever words follow.
pub extract_from_raw-encode :
    (d : Designation) (c : Content) (after : List ℕ)
    → Fits d c
    → extract_from_raw d (encode d c ++ after) ≡ ok (extracted c)
unfolding extract_from_raw data_range
extract_from_raw-encode (scalar_designation v) (single x) after h =
    rw (extract_single v x after h.0 h.1)
extract_from_raw-encode (scalar_designation v) (several xs) after h = absurd h
extract_from_raw-encode (memory_row v index) (single x) after h =
    rw (extract_single v.scalar x after h.0 h.1)
extract_from_raw-encode (memory_row v index) (several xs) after h = absurd h
extract_from_raw-encode (memory_range v first last) (single x) after h = absurd h
extract_from_raw-encode (memory_range v first last) (several xs) after h =
    let r = data_range_of v.scalar (row_count first last) in
    ap (λ n. ok (iterable (read_rows r (row_words (words_of v.scalar) xs ++ after) n 0)))
      (unfold data_range_of in ap pos_part h.1)
    ∙ ap (λ l. ok (iterable l))
        (read_rows-words (words_of v.scalar) r xs 0 [] after
          (stride-narrow v.scalar (row_count first last) h.0)
          (unfold data_range_of in h.1 ∙ ap pos (omega arith)) (omega arith) h.2)

one_value :
    (v : ScalarVariable) (x : ℕ)
    → IsNarrow v
    → size (data_range_of v (pos 1)) ≡ pos (length (words (words_of v) x))
one_value v x h =
    rw (stride-narrow v (pos 1) h, length-words (words_of v) x)
      (unfold data_range_of in ground arith)

-- Their words are as many as the designation's range has.
pub length-encode :
    (d : Designation) (c : Content) → Fits d c → size (data_range d) ≡ pos (length (encode d c))
unfolding data_range
length-encode (scalar_designation v) (single x) h = one_value v x h.0
length-encode (scalar_designation v) (several xs) h = absurd h
length-encode (memory_row v index) (single x) h = one_value v.scalar x h.0
length-encode (memory_row v index) (several xs) h = absurd h
length-encode (memory_range v first last) (single x) h = absurd h
length-encode (memory_range v first last) (several xs) h =
    rw (stride-narrow v.scalar (row_count first last) h.0, length-row_words (words_of v.scalar) xs)
      (unfold data_range_of in rw (h.1) (ground arith))
