-- ===== src/Context/File.antt =====
-- The reader of advanced configuration files, src/r2context.c: what one line asks for, and
-- openr2_context_configure_from_advanced_file.
pub mod Rows
pub mod Loaded
pub mod Buffers
use openr.Prelude.{
  ℕ, zero, suc, ◌+◌, ◌-◌, ◌*◌, ◌%◌, ◌^◌, ltb, leb, ◌==◌, ◌&&◌, ◌||◌, if◌then◌else◌, Bool, true,
  false, Option, none, some, List, [], ◌∷◌,
}
use openr.Types.{Rc, done, failed}
use openr.Context.{Context}
use openr.Context.Variants.{tone_invalid}
use openr.Context.File.Rows.{Row, Kind, tone, number, rows}

-- A `fgets` with 255 bytes reads this many at most.
abbrev pub line_size : ℕ
line_size = 254

-- The byte before the line that the rest begins with.
abbrev pub prepend : ℕ → List (List ℕ) → List (List ℕ)
prepend b [] = (b ∷ []) ∷ []
prepend b (l ∷ ls) = (b ∷ l) ∷ ls

-- The lines of at most `size` bytes that `fgets` gives of a file, where the one at hand has room for
-- `room` bytes more.
unfoldable pub split_lines : ℕ → ℕ → List ℕ → List (List ℕ)
split_lines size room [] = []
split_lines size room (b ∷ bs) =
    let ends = b == 0xA || leb room 1 in
    let later = split_lines size (if ends then size else room - 1) bs in
    if ends then (b ∷ []) ∷ later else prepend b later

-- The text of a format in `sscanf`, and what is left of the line after it.
unfoldable pub scan_prefix : List ℕ → List ℕ → Option (List ℕ)
scan_prefix [] line = some line
scan_prefix (f ∷ fs) [] = none
scan_prefix (f ∷ fs) (c ∷ cs) = let later = scan_prefix fs cs in if f == c then later else none

-- "%c": the 0 at the end of the string is not a character.
unfoldable pub scan_char : List ℕ → Option ℕ
scan_char [] = none
scan_char (c ∷ cs) = if c == 0 then none else some c

abbrev pub is_space : ℕ → Bool
is_space c = c == b' ' || (leb 9 c && leb c 13)

abbrev pub is_digit : ℕ → Bool
is_digit c = leb b'0' c && leb c b'9'

-- The digits at the start of a text, after the number that those before it make.
abbrev pub digits_value : ℕ → List ℕ → ℕ
digits_value n [] = n
digits_value n (c ∷ cs) =
    let later = digits_value (n * 10 + (c - b'0')) cs in if is_digit c then later else n

-- A number wants one digit.
abbrev pub scan_digits : List ℕ → Option ℕ
scan_digits [] = none
scan_digits (c ∷ cs) = if is_digit c then some (digits_value 0 (c ∷ cs)) else none

-- A number as the 32 bits of an int; C does not define what becomes of one that does not fit, which
-- here wraps round.
abbrev pub signed_bits : Bool → Option ℕ → Option ℕ
signed_bits negative none = none
signed_bits false (some n) = some (n % 2 ^ 32)
signed_bits true (some n) = some ((2 ^ 32 - n % 2 ^ 32) % 2 ^ 32)

abbrev pub scan_signed : List ℕ → Option ℕ
scan_signed [] = none
scan_signed (c ∷ cs) =
    if c == b'-'
    then signed_bits true (scan_digits cs)
    else signed_bits false (scan_digits (if c == b'+' then cs else c ∷ cs))

-- "%d": white space, a sign, digits.
unfoldable pub scan_int : List ℕ → Option ℕ
scan_int [] = none
scan_int (c ∷ cs) = let later = scan_int cs in if is_space c then later else scan_signed (c ∷ cs)

-- What `sscanf` reads for a row.
unfoldable pub scan_value : Kind → List ℕ → Option ℕ
unfolding scan_char scan_int
scan_value tone line = scan_char line
scan_value number line = scan_int line

abbrev pub scan_after : Kind → Option (List ℕ) → Option ℕ
scan_after kind none = none
scan_after kind (some line) = scan_value kind line

-- What a line asks for: the value read, by which row.
pub record Found : Type 0 where
  pub row : Row
  pub value : ℕ

abbrev pub found_or : Row → Option ℕ → Option Found → Option Found
found_or row none later = later
found_or row (some v) later = some (record { row = row; value = v })

-- The first row whose `sscanf` gives 1.
unfoldable pub find_row : List Row → List ℕ → Option Found
unfolding scan_prefix scan_value
find_row [] line = none
find_row (row ∷ rest) line =
    found_or row (scan_after row.kind (scan_prefix row.format line)) (find_row rest line)

-- `strchr("1234567890BCDEF", c)`, for a character other than 0.
unfoldable pub is_tone : ℕ → Bool
is_tone c = is_digit c || (leb b'B' c && leb c b'F')

-- `intvalue` with its low byte replaced, as `(char *)&intvalue` does where that byte comes first.
unfoldable pub low_byte : ℕ → ℕ → ℕ
low_byte intvalue c = intvalue - intvalue % 256 + c

-- `intvalue` is an int that the lines share.
pub record Reader : Type 0 where
  pub intvalue : ℕ
  pub context : Context

-- The bodies of LOADTONE, and of LOADTIMER and LOADSETTING.
unfoldable pub load : Kind → (ℕ → Context → Context) → ℕ → Reader → Reader
unfolding is_tone low_byte
load tone assign c s =
    let v = low_byte s.intvalue c in
    record {
      intvalue = v;
      context = assign (if is_tone (v % 256) then v else tone_invalid) s.context;
    }
load number assign v s = record {
  intvalue = v;
  context = if ltb v (2 ^ 31) then assign v s.context else s.context;
}

abbrev pub load_found : Option Found → Reader → Reader
load_found none s = s
load_found (some f) s = load f.row.kind f.row.assign f.value s

-- A line is passed over by its first character.
abbrev pub is_skipped : List ℕ → Bool
is_skipped [] = false
is_skipped (c ∷ cs) = c == b'#' || (c == 0xA || c == b' ')

unfoldable pub load_line : List ℕ → Reader → Reader
unfolding find_row load
load_line line s = if is_skipped line then s else load_found (find_row rows line) s

abbrev pub load_lines : List (List ℕ) → Reader → Reader
load_lines [] s = s
load_lines (line ∷ lines) s = load_lines lines (load_line line s)

-- `none` is a file name that is NULL, or a file that does not open.
unfoldable pub configure_from_advanced_file : Option (List ℕ) → Context → Context × Rc
unfolding split_lines load_line
configure_from_advanced_file none r = (r, failed)
configure_from_advanced_file (some bytes) r =
    let s =
      load_lines (split_lines line_size line_size bytes) (record { intvalue = 0; context = r }) in
    (record (s.context) { configured_from_file = true }, done)
