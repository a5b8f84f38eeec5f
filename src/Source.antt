-- ===== src/Source.antt =====
-- src/model/source.ts: locations in source files, read from the texts of the protocol.
-- Numbers are exact here; the program's are exact up to 2 ^ 53.
pub mod Reading
mod Tests
use rtl_debugger.Common.{
  ℕ, Bool, true, false, ◌||◌, List, [], ◌∷◌, ◌++◌, Option, none, some, leb, ◌==◌, if◌then◌else◌,
}
use rtl_debugger.Common.Int.{ℤ, pos, negsuc, sub_ℕ}
use rtl_debugger.Common.Text.{Text, codes}
use rtl_debugger.Common.Numeral.{is_digit, value}
use rtl_debugger.Common.Scan.{take_while, drop_while}

-- A JavaScript number that may be NaN.
pub data Number : Type 0 where
  nan : Number
  number : ℤ → Number

pub record Location : Type 0 where
  pub file : Text
  pub start_line : Number
  pub start_column : Option Number
  pub end_line : Option Number
  pub end_column : Option Number

-- The groups of a match behind the file: a line, and in a full match the other three numbers.
pub data Groups : Type 0 where
  line_only : Text → Groups
  full_range : Text → Text → Text → Text → Groups

-- The characters that `.` does not match.
abbrev pub is_line_end : ℕ → Bool
is_line_end c = c == 0x0a || (c == 0x0d || (c == 0x2028 || c == 0x2029))

-- `\d+`, a character, and then `next`.
digits_then : (Text → Text → Option Groups) → Text → Option Groups
digits_then next t = elim (take_while is_digit t) [
  | [] ↦ none
  | d ∷ ds ↦ next (d ∷ ds) (drop_while is_digit t)
]

expect : ℕ → (Text → Option Groups) → Text → Option Groups
expect c next [] = none
expect c next (d ∷ t) = if d == c then next t else none

at_end : Groups → Text → Option Groups
at_end g [] = some g
at_end g (c ∷ t) = none

-- `-(\d+)\.(\d+)$` behind a line and a column.
range_end : Text → Text → Text → Option Groups
unfolding digits_then expect at_end
range_end line column = expect b'-' (
    digits_then λ last.
      expect b'.' (digits_then λ last_column. at_end (full_range line column last last_column)))

-- `(?:\.(\d+)(?:-(\d+)\.(\d+)))?$` behind a line.
behind_line : Text → Text → Option Groups
unfolding digits_then expect range_end
behind_line line [] = some (line_only line)
behind_line line (c ∷ t) = expect b'.' (digits_then (range_end line)) (c ∷ t)

-- `:(\d+)(?:\.(\d+)(?:-(\d+)\.(\d+)))?$`
match_numbers : Text → Option Groups
unfolding expect digits_then behind_line
match_numbers = expect b':' (digits_then behind_line)

-- `(.+?)`: the shortest prefix behind which the rest matches.
match_file : Text → Text → Option (Text × Groups)
match_file prefix [] = none
match_file prefix (c ∷ t) = if is_line_end c then none else elim (match_numbers t) [
  | none ↦ match_file (prefix ++ c ∷ []) t
  | some g ↦ some (prefix ++ c ∷ [], g)
]

-- The match has an entry for each group, also for one that took no part.
abbrev match_length : ℕ
match_length = 6

-- `parseInt(digits) - 1`, and of a group that took no part.
abbrev pub before : Text → Number
before digits = number (sub_ℕ (value 10 0 digits) 1)

-- `matches.length >= n ? parseInt(…) - 1 : undefined`.
abbrev optional : ℕ → Number → Option Number
optional n x = if leb n match_length then some x else none

location : Text × Groups → Location
location (file, line_only line) = record {
  file = file;
  start_line = before line;
  start_column = optional 4 nan;
  end_line = optional 4 nan;
  end_column = optional 6 nan;
}
location (file, full_range line column last last_column) = record {
  file = file;
  start_line = before line;
  start_column = optional 4 (before column);
  end_line = optional 4 (before last);
  end_column = optional 6 (before last_column);
}

abbrev map_location : Option (Text × Groups) → Option Location
map_location none = none
map_location (some m) = some (location m)

unfoldable pub location_from_cxxrtl : Option Text → Option Location
unfolding match_file match_numbers location
location_from_cxxrtl none = none
location_from_cxxrtl (some t) = map_location (match_file [] t)

-- `x || 0` of a number, and of one that may be undefined.
abbrev or_zero : Number → ℤ
or_zero nan = pos 0
or_zero (number n) = n

abbrev column_or_zero : Option Number → ℤ
column_or_zero none = pos 0
column_or_zero (some n) = or_zero n

-- The line and column that the editor opens at.
pub open_position : Location → ℤ × ℤ
open_position l = (or_zero l.start_line, column_or_zero l.start_column)

-- The arguments of the command that opens a document: its address, the selection from one position to
-- another, and how it is shown.
pub record OpenArguments (Uri : Type 0) : Type 0 where
  pub uri : Uri
  pub selection : (ℤ × ℤ) × (ℤ × ℤ)
  pub preview : Bool
  pub preserve_focus : Bool

pub record EditorCommand (Uri : Type 0) : Type 0 where
  pub title : Text
  pub command : Text
  pub arguments : OpenArguments Uri

-- `parse` is the editor's `Uri.parse`.
module _ {Uri : Type 0} (parse : Text → Uri) where
  pub open_command_arguments : Location → OpenArguments Uri
  unfolding open_position
  open_command_arguments l = record {
    uri = parse l.file;
    selection = (open_position l, open_position l);
    preview = true;
    preserve_focus = false;
  }

  pub as_open_command : Location → EditorCommand Uri
  unfolding open_command_arguments
  as_open_command l = record {
    title = codes "Reveal in Editor";
    command = codes "rtlDebugger.openDocument";
    arguments = open_command_arguments l;
  }

  -- `stringify` is `JSON.stringify`, and `encode` is `encodeURIComponent`.
  pub as_open_command_uri : (OpenArguments Uri → Text) → (Text → Text) → Location → Uri
  unfolding open_command_arguments
  as_open_command_uri stringify encode l =
      parse
        (codes "command:rtlDebugger.openDocument?" ++ encode (stringify (open_command_arguments l)))
