-- ===== src/Sample/Layout.antt =====
-- How the parts of a reference lie in the data of a sample.
use rtl_debugger.Common.{
  ℕ, ◌≡◌, refl, sym, ap, ◌∙◌, false, List, [], ◌∷◌, ◌++◌, append_assoc, append-nil, map, length,
  length-append, drop-length, Result, ok, ◌>>=◌, arith, none, if◌then◌else◌, ◌==◌,
}
use mathlib.Core.List.{map-append}
use rtl_debugger.Common.Int.{pos}
use rtl_debugger.Variable.{ScalarVariable, MemoryVariable, Designation, memory_designation}
use rtl_debugger.Sample.{
  UnboundReference, Handle, Sample, new_reference, new_handle, with_handle, add, sample_extract,
  subarray, data_range, row_count, data_range_of, bigint_from_raw,
}
use rtl_debugger.Sample.Words.{words}
use rtl_debugger.Sample.Reading.{
  Content, Fits, encode, extracted, extract_from_raw-encode, length-encode, words_of, row_words,
  length-row_words, bigint_from_raw-words, IsNarrow, FitsIn, stride-narrow,
}

-- Designations added one behind the other, as an observer does it.
unfoldable pub add_all : UnboundReference → List Designation → Result UnboundReference
add_all r [] = ok r
add_all r (d ∷ ds) = do (handle, r') ← add r d; add_all r' ds

-- Designations with their values.
abbrev pub AllFit : List Designation → List Content → Type 0
AllFit [] [] = Unit
AllFit (d ∷ ds) (c ∷ cs) = Fits d c × AllFit ds cs
AllFit _ _ = ⊥

-- The words of all of them.
abbrev pub encode_all : List Designation → List Content → List ℕ
encode_all (d ∷ ds) (c ∷ cs) = encode d c ++ encode_all ds cs
encode_all _ _ = []

-- Each handle is of its designation and finds its values in the sample.
abbrev pub Extracts : Sample → List Handle → List Designation → List Content → Type 0
Extracts s [] [] [] = Unit
Extracts s (h ∷ hs) (d ∷ ds) (c ∷ cs) =
    (h.designation ≡ d) × (sample_extract s h ≡ ok (extracted c)) × Extracts s hs ds cs
Extracts s _ _ _ = ⊥

-- What adding the designations to a reference gives.
pub record Laid (r : UnboundReference) (s : Sample) (ds : List Designation) (cs : List Content)
    : Type 0 where
  pub result : UnboundReference
  pub handles : List Handle
  pub added : add_all r ds ≡ ok result
  pub behind : result.handles ≡ r.handles ++ handles
  pub extracts : Extracts s handles ds cs

sample_extract-encode :
    (r : UnboundReference) (s : Sample) (d : Designation) (c : Content) (before after : List ℕ)
    → Fits d c
    → r.offset ≡ pos (length before)
    → s.reference ≡ r.id
    → s.variable_data ≡ before ++ (encode d c ++ after)
    → sample_extract s (new_handle r d) ≡ ok (extracted c)
unfolding sample_extract new_handle subarray
sample_extract-encode r s d c before after h o i e =
    rw (i, e, o, drop-length before (encode d c ++ after))
      (ground (arith, extract_from_raw-encode d c after h))

add_open :
    (r : UnboundReference) (d : Designation)
    → r.frozen ≡ false
    → add r d ≡ ok (new_handle r d, with_handle r d)
unfolding add
add_open r d h = rw h

moved :
    (r : UnboundReference) (d : Designation) (c : Content) (before : List ℕ)
    → Fits d c
    → r.offset ≡ pos (length before)
    → (with_handle r d).offset ≡ pos (length (before ++ encode d c))
unfolding with_handle
moved r d c before h o =
    rw (o, length-encode d c h) (ground (arith, length-append {0} before (encode d c)))

lay_out :
    (ds : List Designation) (cs : List Content) (r : UnboundReference) (s : Sample)
    (before after : List ℕ)
    → AllFit ds cs
    → r.frozen ≡ false
    → r.offset ≡ pos (length before)
    → s.reference ≡ r.id
    → s.variable_data ≡ before ++ (encode_all ds cs ++ after)
    → Laid r s ds cs
unfolding add_all with_handle new_handle
lay_out [] [] r s before after h f o i e = record {
  result = r;
  handles = [];
  added = refl;
  behind = sym (append-nil r.handles);
  extracts = tt;
}
lay_out [] (c ∷ cs) r s before after h f o i e = absurd h
lay_out (d ∷ ds) [] r s before after h f o i e = absurd h
lay_out (d ∷ ds) (c ∷ cs) r s before after h f o i e =
    let here =
      sample_extract-encode r s d c before (encode_all ds cs ++ after) h.0 o i
        (e ∙ ap (λ l. before ++ l) (append_assoc (encode d c) (encode_all ds cs) after)) in
    let later =
      lay_out ds cs (with_handle r d) s (before ++ encode d c) after h.1 f
        (moved r d c before h.0 o) i
        (e
          ∙ ap (λ l. before ++ l) (append_assoc (encode d c) (encode_all ds cs) after)
          ∙ sym (append_assoc before (encode d c) (encode_all ds cs ++ after))) in
    record {
      result = later.result;
      handles = new_handle r d ∷ later.handles;
      added = rw (add_open r d f) later.added;
      behind = later.behind ∙ append_assoc r.handles (new_handle r d ∷ []) later.handles;
      extracts = (refl, here, later.extracts);
    }

-- An open reference takes all designations, under its own identity.
pub record Added (r : UnboundReference) (ds : List Designation) : Type 0 where
  pub result : UnboundReference
  pub added : add_all r ds ≡ ok result
  pub id : result.id ≡ r.id
  pub listed : map (λ h. h.designation) result.handles ≡ map (λ h. h.designation) r.handles ++ ds

pub add_all-Added : (r : UnboundReference) (ds : List Designation) → r.frozen ≡ false → Added r ds
unfolding add_all with_handle new_handle
add_all-Added r [] f = record {
  result = r;
  added = refl;
  id = refl;
  listed = sym (append-nil (map _ r.handles));
}
add_all-Added r (d ∷ ds) f =
    let rest = add_all-Added (with_handle r d) ds f in
    record {
      result = rest.result;
      added = rw (add_open r d f) rest.added;
      id = rest.id;
      listed =
          rest.listed
          ∙ ap (λ l. l ++ ds)
              (map-append (λ (h : Handle). h.designation) r.handles (new_handle r d ∷ []))
          ∙ append_assoc (map (λ h. h.designation) r.handles) (d ∷ []) ds;
    }

-- A reference to which designations are added, one behind the other, reads from a sample bound to it
-- each designation's values, in order, if the sample holds the words of all of them, in order.
pub sample_layout :
    (id : ℕ) (ds : List Designation) (cs : List Content) (s : Sample)
    → AllFit ds cs
    → s.reference ≡ id
    → s.variable_data ≡ encode_all ds cs
    → Laid (new_reference id) s ds cs
sample_layout id ds cs s h i e =
    lay_out ds cs (new_reference id) s [] [] h refl refl i (e ∙ sym (append-nil (encode_all ds cs)))

-- The check of the offset lets the row behind the last one through: what is read is the words of
-- whatever follows the range.
bigint_from_raw_past_end :
    (v : ScalarVariable) (xs : List ℕ) (x : ℕ) (after : List ℕ)
    → IsNarrow v
    → FitsIn v x
    → let r = data_range_of v (pos (length xs)) in
      bigint_from_raw r (row_words (words_of v) xs ++ (words (words_of v) x ++ after)) (length xs)
      ≡ ok x
bigint_from_raw_past_end v xs x after narrow fits =
    let n = words_of v in
    bigint_from_raw-words n (data_range_of v (pos (length xs))) (length xs) (row_words n xs) after x
      (stride-narrow v (pos (length xs)) narrow) (unfold data_range_of in ground arith)
      (length-row_words n xs) fits

-- The whole of a memory has its depth of rows; of a memory with no rows it has two.
whole_memory :
    (v : MemoryVariable)
    → (data_range (memory_designation v none none)).count
      ≡ pos (if v.depth == 0 then 2 else v.depth)
unfolding memory_designation data_range row_count
whole_memory v = ground arith
