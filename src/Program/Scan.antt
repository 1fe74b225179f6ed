-- ===== src/Program/Scan.antt =====
-- What parse_config of src/r2test.c reads with `sscanf`, `atoi` and `strtok` of the C library.
use Prim.Native.String.{String}
use openr.Prelude.{
  ℕ, ℤ, pos, negsuc, ◌+◌, ◌-◌, ◌^◌, ltb, ◌==◌, ◌||◌, if◌then◌else◌, Bool, true, false, Option, none,
  some, List, [], ◌∷◌, length,
}
use openr.Names.Compare.{codes, is_zero, strncasecmp}
use openr.Context.File.{is_space, is_digit, scan_int, scan_prefix}

-- The int with these 32 bits.
abbrev pub to_int : ℕ → ℤ
to_int n = if ltb n (2 ^ 31) then pos n else negsuc (2 ^ 32 - n - 1)

-- The characters up to white space, or the end of the string.
abbrev pub word : List ℕ → List ℕ
word [] = []
word (c ∷ cs) = let later = word cs in if is_space c || c == 0 then [] else c ∷ later

-- A word wants one character.
abbrev pub some_word : List ℕ → Option (List ℕ)
some_word [] = none
some_word (c ∷ cs) = some (c ∷ cs)

-- "%s": white space, then a word.
unfoldable pub scan_string : List ℕ → Option (List ℕ)
scan_string [] = none
scan_string (c ∷ cs) =
    let later = scan_string cs in if is_space c then later else some_word (word (c ∷ cs))

-- What is left after the digits at the start.
abbrev pub after_digits : List ℕ → List ℕ
after_digits [] = []
after_digits (c ∷ cs) = let later = after_digits cs in if is_digit c then later else c ∷ cs

-- What is left after a "%d" that has read a number.
unfoldable pub after_int : List ℕ → List ℕ
after_int [] = []
after_int (c ∷ cs) =
    let later = after_int cs in
    if is_space c
    then later
    else if c == b'-' || c == b'+'
    then after_digits cs
    else after_digits (c ∷ cs)

-- `atoi`: 0 where there is no number.
unfoldable pub atoi : List ℕ → ℤ
unfolding scan_int
atoi s = elim (scan_int s) [ none ↦ pos 0 | some n ↦ to_int n ]

-- STR_IS_EQUAL, which compares the 0 at the end of the literal too.
unfoldable pub str_is_equal : List ℕ → String → Bool
unfolding strncasecmp
str_is_equal x y = is_zero (strncasecmp x (codes y) (length (codes y) + 1))

-- A byte in front of the first token, or a new token if the string has a separator or its end next.
abbrev join : Bool → ℕ → List (List ℕ) → List (List ℕ)
join false c [] = (c ∷ []) ∷ []
join false c (t ∷ ts) = (c ∷ t) ∷ ts
join true c ts = (c ∷ []) ∷ ts

abbrev starts_with_comma : List ℕ → Bool
starts_with_comma [] = false
starts_with_comma (c ∷ cs) = c == b','

-- The tokens that `strtok(s, ",")` gives one after the other.
unfoldable pub tokens : List ℕ → List (List ℕ)
tokens [] = []
tokens (c ∷ cs) =
    let later = tokens cs in if c == b',' then later else join (starts_with_comma cs) c later

-- "%d-%d", after the text before it.
unfoldable pub scan_range : List ℕ → Option (ℤ × ℤ)
unfolding scan_int after_int scan_prefix
scan_range s = elim (scan_int s) [
  | none ↦ none
  | some low ↦ elim (scan_prefix (codes "-") (after_int s)) [
    | none ↦ none
    | some rest ↦ elim (scan_int rest) [ none ↦ none | some high ↦ some (to_int low, to_int high) ]
  ]
]
