-- ===== src/Program/Rows.antt =====
-- The options of the configuration file that parse_config of src/r2test.c knows, in the order in
-- which it tries them.
use Prim.Native.String.{String}
use openr.Prelude.{
  ℕ, ℤ, pos, leb, ◌==◌, ◌&&◌, not, bit_or, if◌then◌else◌, Bool, true, false, Option, none, some,
  List, [], ◌∷◌, length,
}
use openr.Types.{Category}
use openr.Context.{max_ani_size, max_dnis_size}
use openr.Context.File.{scan_int}
use openr.Names.Compare.{first}
use openr.Names.Lookup.{LogLevel, get_category, get_variant, get_level}
use openr.Program.{Options}
use openr.Program.Scan.{to_int, scan_string, atoi, str_is_equal, tokens}

-- What a line comes to: other options, and whether memory beyond a buffer was written or NULL was
-- read; a range of channels; or no sense.
pub data Line : Type 0 where
  set : Options → Bool → Line
  channels : ℤ → ℤ → Line
  unknown : Line

-- The values of `openr2_log_level_t`.
abbrev pub level_mask : LogLevel → ℕ
level_mask LogLevel.nothing = 0
level_mask LogLevel.error = 1
level_mask LogLevel.warning = 2
level_mask LogLevel.notice = 4
level_mask LogLevel.debug = 8
level_mask LogLevel.mf_trace = 16
level_mask LogLevel.cas_trace = 32
level_mask LogLevel.stack_trace = 64
level_mask LogLevel.all = 0xFFF
level_mask LogLevel.ex_debug = 0x1000

-- The levels of the tokens but the first; one that is no level is ignored.
abbrev add_levels : List (List ℕ) → ℕ → ℕ
add_levels [] mask = mask
add_levels (t ∷ ts) mask =
    add_levels ts (elim (get_level t) [ none ↦ mask | some l ↦ bit_or mask (level_mask l) ])

-- The mask after the line's first token, which may end it.
abbrev pub first_level : Option LogLevel → List (List ℕ) → ℕ → ℕ
first_level none ts mask = mask
first_level (some l) ts mask =
    if level_mask l == 0 then 0 else add_levels ts (bit_or mask (level_mask l))

-- Without a token, openr2_log_get_level is given NULL.
abbrev pub set_levels : List (List ℕ) → Options → Line
set_levels [] o = Line.set o true
set_levels (t ∷ ts) o =
    Line.set (record o { loglevel = first_level (get_level t) ts o.loglevel }) false

-- An option of yes and no; another value changes nothing.
abbrev pub set_flag : (Bool → Options → Options) → List ℕ → Options → Line
set_flag assign s o =
    Line.set
      (if str_is_equal s "yes"
        then assign true o
        else if str_is_equal s "no"
        then assign false o
        else o)
      false

-- An option that `atoi` reads: 0 has to be written as 0.
abbrev pub set_number : (ℤ → Options → Options) → List ℕ → Options → Line
set_number assign s o =
    Line.set
      (elim (atoi s) [
        | pos n ↦ if n == 0 && not (first s == b'0') then o else assign (pos n) o
        | n ↦ assign n o
      ])
      false

-- `sscanf` with a "%s" for the buffer at hand.
abbrev pub set_string : ℕ → (List ℕ → Options → Options) → List ℕ → Options → Line
set_string size assign s o = Line.set (assign s o) (leb size (length s))

-- An unknown category is a national subscriber.
abbrev pub or_national : Category → Category
or_national Category.unknown = Category.national_subscriber
or_national c = c

-- A row of the chain: the text before the value, and what the rest of the line makes of the options.
pub record OptionRow : Type 0 where
  pub key : String
  pub read : List ℕ → Option (Options → Line)

abbrev pub word_row : String → (List ℕ → Options → Line) → OptionRow
word_row key assign = record {
  key = key;
  read = λ s. elim (scan_string s) [ none ↦ none | some w ↦ some (assign w) ];
}

abbrev pub flag_row : String → (Bool → Options → Options) → OptionRow
flag_row key assign = word_row key (set_flag assign)

abbrev pub int_row : String → (ℤ → Options → Options) → OptionRow
int_row key assign = record {
  key = key;
  read = λ s. elim (scan_int s) [
    | none ↦ none
    | some n ↦ some (λ o. Line.set (assign (to_int n) o) false)
  ];
}

abbrev pub file_size : ℕ
file_size = 512

unfoldable pub option_rows : List OptionRow
unfolding scan_string str_is_equal atoi tokens scan_int get_category get_variant get_level
option_rows =
    word_row "advancedprotocolfile=" (set_string file_size (λ s o. record o { r2file = s }))
    ∷ flag_row "chargecalls=" (λ b o. record o { charge_calls = b })
    ∷ flag_row "collectcalls=" (λ b o. record o { collect_calls = b })
    ∷ flag_row "callfiles=" (λ b o. record o { callfiles = b })
    ∷ flag_row "doubleanswer=" (λ b o. record o { double_answer = b })
    ∷ flag_row "immediateaccept=" (λ b o. record o { immediateaccept = b })
    ∷ flag_row "skipcategory=" (λ b o. record o { skipcategory = b })
    ∷ word_row "meteringpulsetimeout=" (set_number (λ n o. record o { meteringpulse_timeout = n }))
    ∷ word_row "loglevel=" (λ s. set_levels (tokens s))
    ∷ word_row "mfthreshold=" (set_number (λ n o. record o { mf_threshold = n }))
    ∷ word_row "mfbacktimeout=" (set_number (λ n o. record o { mf_backtimeout = n }))
    ∷ flag_row "getanifirst=" (λ b o. record o { getanifirst = b })
    ∷ word_row "usedahdimf=" (λ s o. Line.set o false)
    ∷ int_row "maxani=" (λ n o. record o { max_ani = n })
    ∷ int_row "maxdnis=" (λ n o. record o { max_dnis = n })
    ∷ word_row "cid=" (set_string max_ani_size (λ s o. record o { cid = s }))
    ∷ word_row "dnid=" (set_string max_dnis_size (λ s o. record o { dnid = s }))
    ∷ word_row "category="
        (λ s o. Line.set (record o { category = or_national (get_category s) }) false)
    ∷ word_row "variant=" (λ s o. Line.set (record o { variant = get_variant s }) false)
    ∷ flag_row "caller=" (λ b o. record o { caller = b })
    ∷ flag_row "playaudio=" (λ b o. record o { playaudio = b })
    ∷ word_row "audiofile=" (set_string file_size (λ s o. record o { audiofile = some s }))
    ∷ []
