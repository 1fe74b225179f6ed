-- ===== src/Context/File/Loaded.antt =====
-- What the lines of a configuration file do.
use mathlib.Core.Path.{subst}
use openr.Prelude.{
  not, ℕ, ◌+◌, ◌-◌, ◌%◌, ◌<◌, ◌≡◌, refl, ◌∙◌, ap, ◌⊎◌, inl, inr, ◌==◌, ==_refl, ◌&&◌, if◌then◌else◌,
  Bool, true, false, none, some, List, [], ◌∷◌, ◌++◌, arith, if_true_ind, if_false_ind,
}
use openr.Context.{Context}
use openr.Context.Variants.{tone_invalid}
use openr.Context.File.{
  scan_prefix, scan_char, scan_value, find_row, found_or, scan_after, is_tone, low_byte, Reader,
  load, load_line, load_found, is_skipped,
}
use openr.Context.File.Rows.{Row, Kind, rows}

-- The row is in the table.
abbrev pub Among : Row → List Row → Type 0
Among row [] = ⊥
Among row (r ∷ rs) = (row ≡ r) ⊎ Among row rs

-- The texts differ at some place before either ends.
abbrev differ : List ℕ → List ℕ → Bool
differ [] bs = false
differ (a ∷ fs) [] = false
differ (a ∷ fs) (b ∷ bs) = let later = differ fs bs in if a == b then later else true

abbrev differs_from : Row → List Row → Bool
differs_from row [] = true
differs_from row (r ∷ rs) = differ row.format r.format && differs_from row rs

-- No two rows can read the same line.
abbrev all_differ : List Row → Bool
all_differ [] = true
all_differ (r ∷ rs) = differs_from r rs && all_differ rs

scan_prefix-++ : (f line : List ℕ) → scan_prefix f (f ++ line) ≡ some line
unfolding scan_prefix
scan_prefix-++ [] line = refl
scan_prefix-++ (f ∷ fs) line =
    if_true_ind (λ x. x ≡ some line) (f == f) _ none (==_refl f) (scan_prefix-++ fs line)

scan_prefix_other : (f g line : List ℕ) → differ f g ≡ true → scan_prefix f (g ++ line) ≡ none
unfolding scan_prefix
scan_prefix_other [] g line h = cc
scan_prefix_other (a ∷ fs) [] line h = cc
scan_prefix_other (a ∷ fs) (b ∷ bs) line h = ground (arith, scan_prefix_other fs bs line)

and_left : (a b : Bool) → (a && b) ≡ true → a ≡ true
and_left true b h = refl
and_left false b h = h

and_right : (a b : Bool) → (a && b) ≡ true → b ≡ true
and_right true b h = h
and_right false b h = cc

differs_from_one :
    (r row : Row) (rs : List Row)
    → differs_from r rs ≡ true
    → Among row rs
    → differ r.format row.format ≡ true
differs_from_one r row [] h x = elim x [ ]
differs_from_one r row (s ∷ rs) h (inl same) =
    ap (λ x. differ r.format x.format) same ∙ and_left _ _ h
differs_from_one r row (s ∷ rs) h (inr later) = differs_from_one r row rs (and_right _ _ h) later

-- A line is read by the row whose format it begins with.
find_row-own :
    (row : Row) (rs : List Row) (line : List ℕ) (v : ℕ)
    → all_differ rs ≡ true
    → Among row rs
    → scan_value row.kind line ≡ some v
    → find_row rs (row.format ++ line) ≡ some (record { row = row; value = v })
unfolding find_row
find_row-own row [] line v h x value = elim x [ ]
find_row-own row (r ∷ rs) line v h (inl same) value =
    subst
      (λ x.
        found_or x (scan_after x.kind (scan_prefix x.format (row.format ++ line)))
          (find_row rs (row.format ++ line))
        ≡ some (record { row = row; value = v }))
      same
      (ap (λ o. found_or row (scan_after row.kind o) (find_row rs (row.format ++ line)))
          (scan_prefix-++ row.format line)
        ∙ ap (λ o. found_or row o (find_row rs (row.format ++ line))) value)
find_row-own row (r ∷ rs) line v h (inr later) value =
    ap (λ o. found_or r (scan_after r.kind o) (find_row rs (row.format ++ line)))
      (scan_prefix_other r.format row.format line
        (differs_from_one r row rs (and_left _ _ h) later))
    ∙ find_row-own row rs line v (and_right _ _ h) later value

-- The rows' formats begin like no line that is passed over.
abbrev is_plain : List ℕ → Bool
is_plain [] = false
is_plain (c ∷ cs) = not (is_skipped (c ∷ cs))

abbrev all_plain : List Row → Bool
all_plain [] = true
all_plain (r ∷ rs) = is_plain r.format && all_plain rs

not-true : (b : Bool) → not b ≡ true → b ≡ false
not-true true h = cc
not-true false h = refl

plain_line : (f line : List ℕ) → is_plain f ≡ true → is_skipped (f ++ line) ≡ false
plain_line [] line h = cc
plain_line (c ∷ cs) line h = not-true _ h

plain_row :
    (row : Row) (rs : List Row) → all_plain rs ≡ true → Among row rs → is_plain row.format ≡ true
plain_row row [] h x = elim x [ ]
plain_row row (r ∷ rs) h (inl same) = ap (λ x. is_plain x.format) same ∙ and_left _ _ h
plain_row row (r ∷ rs) h (inr later) = plain_row row rs (and_right _ _ h) later

rows_differ : all_differ rows ≡ true
rows_differ = refl

rows_plain : all_plain rows ≡ true
rows_plain = refl

load_line-own :
    (row : Row) (line : List ℕ) (v : ℕ) (s : Reader)
    → Among row rows
    → scan_value row.kind line ≡ some v
    → load_line (row.format ++ line) s ≡ load row.kind row.assign v s
unfolding load_line
load_line-own row line v s among value =
    if_false_ind (λ x. x ≡ load row.kind row.assign v s) (is_skipped (row.format ++ line)) s _
      (plain_line row.format line (plain_row row rows rows_plain among))
      (ap (λ o. load_found o s) (find_row-own row rows line v rows_differ among value))

scan_char_own : (c : ℕ) (rest : List ℕ) → 0 < c → scan_value Kind.tone (c ∷ rest) ≡ some c
unfolding scan_value scan_char
scan_char_own c rest h = if_false_ind (λ x. x ≡ some c) (c == 0) none (some c) (ground arith) refl

low_byte_tone : (v c : ℕ) → c < 256 → low_byte v c % 256 ≡ c
unfolding low_byte
low_byte_tone v c h = ground arith

load_tone :
    (assign : ℕ → Context → Context) (c : ℕ) (s : Reader)
    → c < 256
    → load Kind.tone assign c s ≡ record {
      intvalue = low_byte s.intvalue c;
      context = assign (if is_tone c then low_byte s.intvalue c else tone_invalid) s.context;
    }
unfolding load
load_tone assign c s h =
    ap
      (λ b. record {
        intvalue = low_byte s.intvalue c;
        context = assign (if is_tone b then low_byte s.intvalue c else tone_invalid) s.context;
      })
      (low_byte_tone s.intvalue c h)

-- A line for a tone, which is a field's name, "=" and a character, sets that tone and no other
-- field, whatever follows on the line: to 0 if the character is no tone, else to the character, to
-- which the upper bytes are added of the last number or tone that was read before. (The bytes are
-- in the order in which the low one comes first.)
pub load_line-tone :
    (row : Row) (c : ℕ) (line : List ℕ) (s : Reader)
    → Among row rows
    → row.kind ≡ Kind.tone
    → 0 < c
    → c < 256
    → load_line (row.format ++ (c ∷ line)) s ≡ record {
      intvalue = s.intvalue - s.intvalue % 256 + c;
      context =
          row.assign
            (if is_tone c then s.intvalue - s.intvalue % 256 + c else tone_invalid)
            s.context;
    }
unfolding low_byte
load_line-tone row c line s among kind h k =
    load_line-own row (c ∷ line) c s among
      (ap (λ x. scan_value x (c ∷ line)) kind ∙ scan_char_own c line h)
    ∙ ap (λ x. load x row.assign c s) kind
    ∙ load_tone row.assign c s k
