-- ===== src/Source/Reading.antt =====
-- Which locations are read.
use rtl_debugger.Common.{
  ℕ, ◌+◌, ◌≡◌, ◌≢◌, refl, sym, ap, ◌∙◌, false, [], ◌∷◌, ◌++◌, append_assoc, append-nil, Option,
  none, some, arith, All, All-append, Option-cases, inl, inr,
}
use rtl_debugger.Common.Int.{pos}
use rtl_debugger.Common.Text.{Text, Lacks}
use rtl_debugger.Common.Numeral.{
  print, IsDigit, is_digit, print-All_IsDigit, value-print_radix, print_radix-ne-nil,
}
use rtl_debugger.Common.Scan.{
  Passes-digits, IsDigit-Passes, Stops, take_while, drop_while, take_while-append,
  drop_while-append, take_while-Passes, take_while-append-drop_while,
}
use rtl_debugger.Source.{
  nan, number, Location, Groups, line_only, full_range, is_line_end, digits_then, expect, at_end,
  range_end, behind_line, match_numbers, match_file, location_from_cxxrtl, open_position, location,
  before, or_zero,
}

-- A run of digits, and then text that begins otherwise.
digits_then_lem :
    (next : Text → Text → Option Groups) (ds t : Text)
    → ds ≢ []
    → All IsDigit ds
    → Stops is_digit t
    → digits_then next (ds ++ t) ≡ next ds t
unfolding digits_then
digits_then_lem next [] t n h k = absurd (n refl)
digits_then_lem next (d ∷ ds) t n h k = ground (
  arith,
  take_while-append is_digit (d ∷ ds) t (Passes-digits (d ∷ ds) h) k,
  drop_while-append is_digit (d ∷ ds) t (Passes-digits (d ∷ ds) h) k,
)

-- What a part matches holds no colon.
abbrev Colonless : (Text → Option Groups) → Type 0
Colonless next = (t : Text) (g : Groups) → next t ≡ some g → Lacks b':' t

digits-Lacks : (ds : Text) → All IsDigit ds → Lacks b':' ds
digits-Lacks [] h = tt
digits-Lacks (d ∷ ds) h = (omega arith, digits-Lacks ds h.1)

digits_then-inv :
    (next : Text → Text → Option Groups) (t : Text) (g : Groups)
    → digits_then next t ≡ some g
    → next (take_while is_digit t) (drop_while is_digit t) ≡ some g
unfolding digits_then
digits_then-inv next t g h = ground arith

digits_then-Colonless :
    (next : Text → Text → Option Groups)
    → ((ds : Text) → Colonless (next ds))
    → Colonless (digits_then next)
digits_then-Colonless next k t g h = rw (← take_while-append-drop_while is_digit t) (
    All-append (λ c. c ≢ b':') (take_while is_digit t) (drop_while is_digit t)
      (digits-Lacks (take_while is_digit t)
        (IsDigit-Passes (take_while is_digit t) (take_while-Passes is_digit t)))
      (k (take_while is_digit t) (drop_while is_digit t) g (digits_then-inv next t g h)))

expect-Colonless :
    (c : ℕ) (next : Text → Option Groups) → c ≢ b':' → Colonless next → Colonless (expect c next)
unfolding expect
expect-Colonless c next n k [] g h = tt
expect-Colonless c next n k (d ∷ t) g h = ground (arith, k t g)

at_end-Colonless : (g : Groups) → Colonless (at_end g)
unfolding at_end
at_end-Colonless g [] g' h = tt
at_end-Colonless g (c ∷ t) g' h = absurd (cc)

range_end-Colonless : (line column : Text) → Colonless (range_end line column)
unfolding range_end
range_end-Colonless line column = expect-Colonless b'-' _ (omega arith) (
    digits_then-Colonless _ λ last. expect-Colonless b'.' _ (omega arith) (
      digits_then-Colonless _
        λ last_column. at_end-Colonless (full_range line column last last_column)))

behind_line-Colonless : (line : Text) → Colonless (behind_line line)
unfolding behind_line
behind_line-Colonless line [] g h = tt
behind_line-Colonless line (c ∷ t) g h =
    expect-Colonless b'.' _ (omega arith) (digits_then-Colonless _ (range_end-Colonless line))
      (c ∷ t) g h

not-Lacks : (t rest : Text) → ¬ Lacks b':' (t ++ (b':' ∷ rest))
not-Lacks [] rest h = h.0 refl
not-Lacks (c ∷ t) rest h = not-Lacks t rest h.1

match_numbers-Lacks :
    (c : ℕ) (t : Text) (g : Groups) → match_numbers (c ∷ t) ≡ some g → Lacks b':' t
unfolding match_numbers
match_numbers-Lacks c t g h =
    digits_then-Colonless behind_line behind_line-Colonless t g (ground arith)

-- A colon behind the first character is matched by no part.
match_numbers-colon : (c : ℕ) (t rest : Text) → match_numbers (c ∷ (t ++ (b':' ∷ rest))) ≡ none
match_numbers-colon c t rest = elim (Option-cases (match_numbers (c ∷ (t ++ (b':' ∷ rest))))) [
  | inl e ↦ e
  | inr (g, e) ↦ absurd (not-Lacks t rest (match_numbers-Lacks c (t ++ (b':' ∷ rest)) g e))
]

-- So the file is all text before the last colon.
match_file_lem :
    (prefix : Text) (c : ℕ) (f numbers : Text) (g : Groups)
    → All (λ x. is_line_end x ≡ false) (c ∷ f)
    → match_numbers (b':' ∷ numbers) ≡ some g
    → match_file prefix (c ∷ (f ++ (b':' ∷ numbers))) ≡ some (prefix ++ (c ∷ f), g)
unfolding match_file
match_file_lem prefix c [] numbers g h m = rw (h.0) (ground (arith, m))
match_file_lem prefix c (d ∷ f) numbers g h m = ground (
  arith,
  h.0,
  match_numbers-colon d f numbers,
  match_file_lem (prefix ++ c ∷ []) d f numbers g h.1 m,
  append_assoc prefix (c ∷ []) (d ∷ f),
)

match_numbers-line : (l : ℕ) → match_numbers (b':' ∷ print l) ≡ some (line_only (print l))
unfolding match_numbers behind_line
match_numbers-line l = ground (
  arith,
  digits_then_lem behind_line (print l) [] (print_radix-ne-nil 10 l) (print-All_IsDigit l) tt,
  append-nil (print l),
)

-- The text of a range of lines and columns.
abbrev pub range_text : ℕ → ℕ → ℕ → ℕ → Text
range_text l c m d = print l ++ (b'.' ∷ (print c ++ (b'-' ∷ (print m ++ (b'.' ∷ print d)))))

match_numbers-range :
    (l c m d : ℕ)
    → match_numbers (b':' ∷ range_text l c m d)
      ≡ some (full_range (print l) (print c) (print m) (print d))
unfolding match_numbers behind_line range_end at_end
match_numbers-range l c m d =
    printed behind_line l (b'.' ∷ (print c ++ (b'-' ∷ (print m ++ (b'.' ∷ print d))))) refl
    ∙ printed (range_end (print l)) c (b'-' ∷ (print m ++ (b'.' ∷ print d))) refl
    ∙ printed behind_last m (b'.' ∷ print d) refl
    ∙ ap (digits_then behind_last_column) (sym (append-nil (print d)))
    ∙ printed behind_last_column d [] tt
  where
    behind_last_column : Text → Text → Option Groups
    behind_last_column digits = at_end (full_range (print l) (print c) (print m) digits)

    behind_last : Text → Text → Option Groups
    behind_last last =
        expect b'.' (digits_then λ digits. at_end (full_range (print l) (print c) last digits))

    printed :
        (next : Text → Text → Option Groups) (n : ℕ) (t : Text)
        → Stops is_digit t
        → digits_then next (print n ++ t) ≡ next (print n) t
    printed next n t k =
        digits_then_lem next (print n) t (print_radix-ne-nil 10 n) (print-All_IsDigit n) k

before-print : (n : ℕ) → before (print (n + 1)) ≡ number (pos n)
before-print n = rw (value-print_radix 10 (n + 1) (omega arith)) (ground arith)

-- A range in a file is read back: lines and columns are counted from zero. The file's name may hold
-- colons, but no line end.
location_range :
    (f : Text) (l c m d : ℕ)
    → f ≢ []
    → All (λ x. is_line_end x ≡ false) f
    → location_from_cxxrtl (some (f ++ (b':' ∷ range_text (l + 1) (c + 1) (m + 1) (d + 1))))
      ≡ some (record {
        file = f;
        start_line = number (pos l);
        start_column = some (number (pos c));
        end_line = some (number (pos m));
        end_column = some (number (pos d));
      })
unfolding location_from_cxxrtl
location_range [] l c m d n h = absurd (n refl)
location_range (x ∷ f) l c m d n h =
    let numbers = range_text (l + 1) (c + 1) (m + 1) (d + 1) in
    rw (match_file_lem [] x f numbers _ h (match_numbers-range (l + 1) (c + 1) (m + 1) (d + 1)))
      (unfold location in rw (before-print l, before-print c, before-print m, before-print d))

-- Where only a line is given the columns and the last line are not undefined but NaN, and the editor
-- opens at column zero.
location_line :
    (f : Text) (l : ℕ)
    → f ≢ []
    → All (λ x. is_line_end x ≡ false) f
    → (v : Location) × (location_from_cxxrtl (some (f ++ (b':' ∷ print (l + 1)))) ≡ some v)
      × (v.file ≡ f)
      × (v.start_line ≡ number (pos l))
      × (v.start_column ≡ some nan)
      × (v.end_line ≡ some nan)
      × (v.end_column ≡ some nan)
      × (open_position v ≡ (pos l, pos 0))
unfolding location_from_cxxrtl
location_line [] l n h = absurd (n refl)
location_line (x ∷ f) l n h =
    let e = match_file_lem [] x f (print (l + 1)) _ h (match_numbers-line (l + 1)) in
    (
      unfold location in location (x ∷ f, line_only (print (l + 1))),
      rw e,
      unfold location in refl,
      unfold location in before-print l,
      unfold location in refl,
      unfold location in refl,
      unfold location in refl,
      unfold location open_position in ap (λ n. (or_zero n, pos 0)) (before-print l),
    )
