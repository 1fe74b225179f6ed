-- ===== src/Program/Parse.antt =====
-- parse_config of src/r2test.c: its lines, and the groups that it stores.
use openr.Prelude.{
  ℕ, ℤ, pos, negsuc, ◌-◌, ltb, ◌==◌, ◌&&◌, ◌||◌, not, is_some, if◌then◌else◌, Bool, true, false,
  Option, none, some, List, [], ◌∷◌, ◌++◌, length,
}
use openr.Names.Compare.{codes}
use openr.Context.File.{is_skipped, scan_prefix, split_lines}
use openr.Program.{Options, Group, first_options, max_groups}
use openr.Program.Scan.{scan_range}
use openr.Program.Rows.{Line, OptionRow, option_rows, file_size}

abbrev pub read_or : Option (Options → Line) → Options → Line → Line
read_or none o later = later
read_or (some f) o later = f o

abbrev pub read_after : OptionRow → Option (List ℕ) → Option (Options → Line)
read_after row none = none
read_after row (some rest) = row.read rest

-- The first row of the chain that `sscanf` reads.
unfoldable pub find_option : List OptionRow → List ℕ → Options → Line
unfolding scan_prefix
find_option [] line o = Line.unknown
find_option (row ∷ rest) line o =
    read_or (read_after row (scan_prefix (codes row.key) line)) o (find_option rest line o)

abbrev pub range_or : Option (ℤ × ℤ) → Line → Line
range_or none later = later
range_or (some (low, high)) later = Line.channels low high

unfoldable pub read_line : List ℕ → Options → Line
unfolding scan_prefix scan_range find_option option_rows
read_line line o =
    if is_skipped line
    then Line.set o false
    else range_or
        (elim (scan_prefix (codes "channel=") line) [ none ↦ none | some rest ↦ scan_range rest ])
        (find_option option_rows line o)

abbrev pub lt_int : ℤ → ℤ → Bool
lt_int (pos a) (pos b) = ltb a b
lt_int (pos a) (negsuc b) = false
lt_int (negsuc a) (pos b) = true
lt_int (negsuc a) (negsuc b) = ltb b a

abbrev pub is_empty : List ℕ → Bool
is_empty [] = true
is_empty (c ∷ cs) = false

-- A caller without a number to call or a number of its own.
abbrev pub lacks_number : Options → Bool
lacks_number o = o.caller && (is_empty o.dnid || is_empty o.cid)

-- The result, the groups that are stored, and whether C leaves undefined what was done.
pub record Parsed : Type 0 where
  pub result : ℤ
  pub groups : List Group
  pub fault : Bool

-- `return -1`
abbrev pub give_up : List Group → Bool → Parsed
give_up gs fault = record { result = negsuc 0; groups = gs; fault = fault }

-- `return g`
abbrev pub count_groups : List Group → Bool → Parsed
count_groups gs fault = record { result = pos (length gs); groups = gs; fault = fault }

-- The rest of the loop, from a line on. A group that is stored before `audiofile` was set is filled
-- by `strcpy` from an array with no value, which C leaves undefined.
unfoldable pub read_lines : List (List ℕ) → Options → List Group → Bool → Parsed
unfolding read_line
read_lines [] o gs fault = count_groups gs fault
read_lines (line ∷ lines) o gs fault = elim (read_line line o) [
  | Line.set o' f ↦ read_lines lines o' gs (fault || f)
  | Line.unknown ↦ give_up gs fault
  | Line.channels low high ↦
      let gs' = gs ++ record { lowchan = low; highchan = high; options = o } ∷ [] in
      let fault' = fault || not (is_some o.audiofile) in
      let later = read_lines lines o gs' fault' in
      if lt_int high low || lacks_number o
      then give_up gs fault
      else if length gs' == max_groups - 1
      then count_groups gs' fault'
      else later
]

unfoldable pub parse_config : List ℕ → Parsed
unfolding split_lines read_lines
parse_config bytes =
    read_lines (split_lines (file_size - 1) (file_size - 1) bytes) first_options [] false
