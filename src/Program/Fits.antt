-- ===== src/Program/Fits.antt =====
-- The strings that the options of src/r2test.c leave in their buffers.
use Prim.Native.String.{String}
use openr.Prelude.{
  ℕ, ℤ, pos, negsuc, ◌<◌, ◌≡◌, refl, leb, ◌==◌, ◌&&◌, not, if◌then◌else◌, if_ind, Bool, true, false,
  Option, none, some, List, [], ◌∷◌, length, arith,
}
use openr.Names.Compare.{codes, first}
use openr.Context.{max_ani_size, max_dnis_size}
use openr.Context.File.{is_skipped, scan_prefix, scan_int}
use openr.Names.Lookup.{get_category, get_variant}
use openr.Program.{Options}
use openr.Program.Scan.{scan_string, str_is_equal, tokens, atoi, to_int}
use openr.Program.Rows.{
  Line, OptionRow, or_national, option_rows, file_size, word_row, flag_row, int_row, set_flag,
  set_number, set_string, set_levels,
}
use openr.Program.Parse.{range_or, read_line, find_option, read_or, read_after}

-- The audio file's name, if there is one, is shorter than the size.
abbrev AudioFits : Option (List ℕ) → Type 0
AudioFits none = Unit {0}
AudioFits (some s) = length s < file_size

-- Every string fits its buffer, with the 0 at its end.
abbrev pub FitsBuffers : Options → Type 0
FitsBuffers o =
    (length o.dnid < max_dnis_size)
    × (length o.cid < max_ani_size)
    × (length o.r2file < file_size)
    × AudioFits o.audiofile

-- A line whose memory accesses are defined leaves strings that fit.
abbrev pub LineFits : Line → Type 0
LineFits (Line.set o true) = Unit {0}
LineFits (Line.set o false) = FitsBuffers o
LineFits (Line.channels low high) = Unit {0}
LineFits Line.unknown = Unit {0}

abbrev ReadFits : Option (Options → Line) → Options → Type 0
ReadFits none o = Unit {0}
ReadFits (some f) o = LineFits (f o)

abbrev RowFits : OptionRow → Type 0
RowFits row = (s : List ℕ) (o : Options) → FitsBuffers o → ReadFits (row.read s) o

-- Each row of the chain.
infixr 10 ◌▹◌
data RowsFit : List OptionRow → Type 0 where
  none_left : RowsFit []
  ◌▹◌ :
      {row : OptionRow} {rest : List OptionRow} → RowFits row → RowsFit rest → RowsFit (row ∷ rest)

word_row-RowFits :
    (key : String) (assign : List ℕ → Options → Line)
    → ((w : List ℕ) (o : Options) → FitsBuffers o → LineFits (assign w o))
    → RowFits (word_row key assign)
word_row-RowFits key assign h s o v = read (scan_string s)
  where
    read : (w : Option (List ℕ)) → ReadFits (elim w [ none ↦ none | some w ↦ some (assign w) ]) o
    read none = tt
    read (some w) = h w o v

int_row-RowFits :
    (key : String) (assign : ℤ → Options → Options)
    → ((n : ℤ) (o : Options) → FitsBuffers o → FitsBuffers (assign n o))
    → RowFits (int_row key assign)
int_row-RowFits key assign h s o v = read (scan_int s)
  where
    read :
        (w : Option ℕ)
        → ReadFits
            (elim w [ none ↦ none | some n ↦ some (λ o. Line.set (assign (to_int n) o) false) ])
            o
    read none = tt
    read (some n) = h (to_int n) o v

set_flag-LineFits :
    (assign : Bool → Options → Options)
    → ((b : Bool) (o : Options) → FitsBuffers o → FitsBuffers (assign b o))
    → (w : List ℕ) (o : Options) → FitsBuffers o
    → LineFits (set_flag assign w o)
set_flag-LineFits assign h w o v =
    if_ind FitsBuffers (str_is_equal w "yes") (h true o v)
      (if_ind FitsBuffers (str_is_equal w "no") (h false o v) v)

set_number-LineFits :
    (assign : ℤ → Options → Options)
    → ((n : ℤ) (o : Options) → FitsBuffers o → FitsBuffers (assign n o))
    → (w : List ℕ) (o : Options) → FitsBuffers o
    → LineFits (set_number assign w o)
set_number-LineFits assign h w o v = number (atoi w)
  where
    number :
        (n : ℤ)
        → FitsBuffers (elim n [
          | pos n ↦ if n == 0 && not (first w == b'0') then o else assign (pos n) o
          | n ↦ assign n o
        ])
    number (pos n) = if_ind FitsBuffers (n == 0 && not (first w == b'0')) v (h (pos n) o v)
    number (negsuc n) = h (negsuc n) o v

set_string-LineFits :
    (size : ℕ) (assign : List ℕ → Options → Options)
    → ((w : List ℕ) (o : Options) → length w < size → FitsBuffers o → FitsBuffers (assign w o))
    → (w : List ℕ) (o : Options) → FitsBuffers o
    → LineFits (set_string size assign w o)
set_string-LineFits size assign h w o v = string (leb size (length w)) refl
  where
    string : (b : Bool) → leb size (length w) ≡ b → LineFits (Line.set (assign w o) b)
    string true e = tt
    string false e = h w o (ground arith) v

flag-RowFits :
    (key : String) (assign : Bool → Options → Options)
    → ((b : Bool) (o : Options) → FitsBuffers o → FitsBuffers (assign b o))
    → RowFits (flag_row key assign)
flag-RowFits key assign h = word_row-RowFits key (set_flag assign) (set_flag-LineFits assign h)

set_levels-LineFits :
    (ts : List (List ℕ)) (o : Options) → FitsBuffers o → LineFits (set_levels ts o)
set_levels-LineFits [] o v = tt
set_levels-LineFits (t ∷ ts) o v = v

option_rows-RowsFit : RowsFit option_rows
unfolding option_rows
option_rows-RowsFit =
    word_row-RowFits "advancedprotocolfile=" (set_string file_size (λ s o. record o { r2file = s }))
      (set_string-LineFits file_size (λ s o. record o { r2file = s })
        (λ s o h v. (v.0, v.1, h, v.3)))
    ▹ flag-RowFits "chargecalls=" (λ b o. record o { charge_calls = b }) (λ b o v. v)
    ▹ flag-RowFits "collectcalls=" (λ b o. record o { collect_calls = b }) (λ b o v. v)
    ▹ flag-RowFits "callfiles=" (λ b o. record o { callfiles = b }) (λ b o v. v)
    ▹ flag-RowFits "doubleanswer=" (λ b o. record o { double_answer = b }) (λ b o v. v)
    ▹ flag-RowFits "immediateaccept=" (λ b o. record o { immediateaccept = b }) (λ b o v. v)
    ▹ flag-RowFits "skipcategory=" (λ b o. record o { skipcategory = b }) (λ b o v. v)
    ▹ word_row-RowFits "meteringpulsetimeout="
        (set_number (λ n o. record o { meteringpulse_timeout = n }))
        (set_number-LineFits (λ n o. record o { meteringpulse_timeout = n }) (λ n o v. v))
    ▹ word_row-RowFits "loglevel=" (λ s. set_levels (tokens s))
        (λ s. set_levels-LineFits (tokens s))
    ▹ word_row-RowFits "mfthreshold=" (set_number (λ n o. record o { mf_threshold = n }))
        (set_number-LineFits (λ n o. record o { mf_threshold = n }) (λ n o v. v))
    ▹ word_row-RowFits "mfbacktimeout=" (set_number (λ n o. record o { mf_backtimeout = n }))
        (set_number-LineFits (λ n o. record o { mf_backtimeout = n }) (λ n o v. v))
    ▹ flag-RowFits "getanifirst=" (λ b o. record o { getanifirst = b }) (λ b o v. v)
    ▹ word_row-RowFits "usedahdimf=" (λ s o. Line.set o false) (λ s o v. v)
    ▹ int_row-RowFits "maxani=" (λ n o. record o { max_ani = n }) (λ n o v. v)
    ▹ int_row-RowFits "maxdnis=" (λ n o. record o { max_dnis = n }) (λ n o v. v)
    ▹ word_row-RowFits "cid=" (set_string max_ani_size (λ s o. record o { cid = s })) (
        set_string-LineFits max_ani_size (λ s o. record o { cid = s })
          (λ s o h v. (v.0, h, v.2, v.3)))
    ▹ word_row-RowFits "dnid=" (set_string max_dnis_size (λ s o. record o { dnid = s })) (
        set_string-LineFits max_dnis_size (λ s o. record o { dnid = s })
          (λ s o h v. (h, v.1, v.2, v.3)))
    ▹ word_row-RowFits "category="
        (λ s o. Line.set (record o { category = or_national (get_category s) }) false) (λ s o v. v)
    ▹ word_row-RowFits "variant=" (λ s o. Line.set (record o { variant = get_variant s }) false)
        (λ s o v. v)
    ▹ flag-RowFits "caller=" (λ b o. record o { caller = b }) (λ b o v. v)
    ▹ flag-RowFits "playaudio=" (λ b o. record o { playaudio = b }) (λ b o v. v)
    ▹ word_row-RowFits "audiofile=" (set_string file_size (λ s o. record o { audiofile = some s }))
        (set_string-LineFits file_size (λ s o. record o { audiofile = some s })
          (λ s o h v. (v.0, v.1, v.2, h)))
    ▹ none_left

read_or-LineFits :
    (f : Option (Options → Line)) (o : Options) (later : Line)
    → ReadFits f o
    → LineFits later
    → LineFits (read_or f o later)
read_or-LineFits none o later h k = k
read_or-LineFits (some f) o later h k = h

read_after-ReadFits :
    (row : OptionRow) (rest : Option (List ℕ)) (o : Options)
    → RowFits row
    → FitsBuffers o
    → ReadFits (read_after row rest) o
read_after-ReadFits row none o h v = tt
read_after-ReadFits row (some rest) o h v = h rest o v

find_option-LineFits :
    (rows : List OptionRow) (line : List ℕ) (o : Options)
    → RowsFit rows
    → FitsBuffers o
    → LineFits (find_option rows line o)
unfolding find_option
find_option-LineFits [] line o h v = tt
find_option-LineFits (row ∷ rest) line o (h ▹ k) v =
    read_or-LineFits (read_after row (scan_prefix (codes row.key) line)) o (find_option rest line o)
      (read_after-ReadFits row (scan_prefix (codes row.key) line) o h v)
      (find_option-LineFits rest line o k v)

range_or-LineFits :
    (r : Option (ℤ × ℤ)) (later : Line) → LineFits later → LineFits (range_or r later)
range_or-LineFits none later h = h
range_or-LineFits (some (low, high)) later h = tt

-- A line whose memory accesses are defined leaves strings that fit.
pub read_line-LineFits : (line : List ℕ) (o : Options) → FitsBuffers o → LineFits (read_line line o)
unfolding read_line
read_line-LineFits line o v = if_ind LineFits (is_skipped line) v (
    range_or-LineFits _ (find_option option_rows line o)
      (find_option-LineFits option_rows line o option_rows-RowsFit v))
