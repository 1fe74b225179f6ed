-- ===== src/Program/Stored.antt =====
-- The groups that parse_config of src/r2test.c stores, whatever the bytes of its file.
use openr.Prelude.{
  is_some, not, ℕ, ℤ, pos, negsuc, pos_part, neg_part, ◌+◌, ◌-◌, ◌<◌, ◌≤◌, ◌≡◌, refl, ◌==◌, ◌&&◌,
  ◌||◌, ◌⊎◌, inl, inr, if◌then◌else◌, Bool-cases, Bool, true, false, List, [], ◌∷◌, ◌++◌, length,
  arith, if_true_ind, if_false_ind,
}
use openr.Context.File.{split_lines}
use openr.Program.{Options, Group, first_options, max_groups}
use openr.Program.Rows.{Line, file_size}
use openr.Program.Parse.{
  Parsed, parse_config, read_lines, read_line, lt_int, lacks_number, is_empty, give_up,
  count_groups,
}
use openr.Program.Fits.{FitsBuffers, LineFits, read_line-LineFits}

-- The range is not empty, and a caller has a number to call and one of its own.
abbrev pub IsUsable : Group → Type 0
IsUsable g =
    (pos_part g.lowchan + neg_part g.highchan ≤ pos_part g.highchan + neg_part g.lowchan)
    × ((g.options.caller ≡ false) ⊎ ((0 < length g.options.dnid) × (0 < length g.options.cid)))

abbrev pub AllUsable : List Group → Type 0
AllUsable [] = Unit {0}
AllUsable (g ∷ gs) = IsUsable g × AllUsable gs

abbrev pub AllFit : List Group → Type 0
AllFit [] = Unit {0}
AllFit (g ∷ gs) = FitsBuffers g.options × AllFit gs

-- The groups are usable and leave one of the places free, the result is their number or -1, and
-- unless C leaves undefined what was done, every string fits its buffer.
pub record IsStored (r : Parsed) : Type 0 where
  pub usable : AllUsable r.groups
  pub free : length r.groups < max_groups
  pub counted : (r.result ≡ pos (length r.groups)) ⊎ (r.result ≡ negsuc 0)
  pub fits : (r.fault ≡ true) ⊎ AllFit r.groups

AllUsable-append :
    (gs : List Group) (g : Group) → AllUsable gs → IsUsable g → AllUsable (gs ++ g ∷ [])
AllUsable-append [] g h k = (k, tt)
AllUsable-append (x ∷ xs) g h k = (h.0, AllUsable-append xs g h.1 k)

AllFit-append :
    (gs : List Group) (g : Group) → AllFit gs → FitsBuffers g.options → AllFit (gs ++ g ∷ [])
AllFit-append [] g h k = (k, tt)
AllFit-append (x ∷ xs) g h k = (h.0, AllFit-append xs g h.1 k)

length-append_one : (gs : List Group) (g : Group) → length (gs ++ g ∷ []) ≡ length gs + 1
length-append_one [] g = omega arith
length-append_one (x ∷ xs) g = omega (arith, length-append_one xs g)

lt_int-le :
    (low high : ℤ)
    → lt_int high low ≡ false
    → pos_part low + neg_part high ≤ pos_part high + neg_part low
lt_int-le (pos a) (pos b) h = ground arith
lt_int-le (pos a) (negsuc b) h = cc
lt_int-le (negsuc a) (pos b) h = omega arith
lt_int-le (negsuc a) (negsuc b) h = ground arith

lacks_number-cases :
    (o : Options)
    → lacks_number o ≡ false
    → (o.caller ≡ false) ⊎ ((0 < length o.dnid) × (0 < length o.cid))
lacks_number-cases o h = cases o.caller o.dnid o.cid h
  where
    cases :
        (b : Bool) (d c : List ℕ)
        → (b && (is_empty d || is_empty c)) ≡ false
        → (b ≡ false) ⊎ ((0 < length d) × (0 < length c))
    cases false d c h = inl refl
    cases true [] c h = cc
    cases true (x ∷ d) [] h = cc
    cases true (x ∷ d) (y ∷ c) h = inr (omega arith, omega arith)

-- What is known at each line: `fault`, or that the strings of the options and the groups fit.
abbrev Known : Bool → Options → List Group → Type 0
Known fault o gs = (fault ≡ true) ⊎ (FitsBuffers o × AllFit gs)

Known-AllFit :
    (fault : Bool) (o : Options) (gs : List Group) → Known fault o gs → (fault ≡ true) ⊎ AllFit gs
Known-AllFit fault o gs (inl h) = inl h
Known-AllFit fault o gs (inr h) = inr h.1

Known-set :
    (fault f : Bool) (o o' : Options) (gs : List Group)
    → (FitsBuffers o → LineFits (Line.set o' f))
    → Known fault o gs
    → Known (fault || f) o' gs
Known-set true f o o' gs h k = inl refl
Known-set false true o o' gs h k = inl refl
Known-set false false o o' gs h (inl k) = cc
Known-set false false o o' gs h (inr k) = inr (h k.0, k.1)

-- What holds before each line.
record IsReading (o : Options) (gs : List Group) (fault : Bool) : Type 0 where
  pub usable : AllUsable gs
  pub free : length gs < max_groups - 1
  pub known : Known fault o gs

give_up-IsStored :
    (o : Options) (gs : List Group) (fault : Bool)
    → IsReading o gs fault
    → IsStored (give_up gs fault)
give_up-IsStored o gs fault h = record {
  usable = h.usable;
  free = omega (arith, h.free);
  counted = inr refl;
  fits = Known-AllFit fault o gs h.known;
}

count_groups-IsStored :
    (o : Options) (gs : List Group) (fault : Bool)
    → AllUsable gs
    → length gs < max_groups
    → Known fault o gs
    → IsStored (count_groups gs fault)
count_groups-IsStored o gs fault h free known = record {
  usable = h;
  free = free;
  counted = inl refl;
  fits = Known-AllFit fault o gs known;
}

Known-group :
    (fault : Bool) (low high : ℤ) (o : Options) (gs : List Group)
    → Known fault o gs
    → Known fault o (gs ++ record { lowchan = low; highchan = high; options = o } ∷ [])
Known-group fault low high o gs (inl h) = inl h
Known-group fault low high o gs (inr h) = inr (h.0, AllFit-append gs _ h.1 h.0)

Known-or :
    (fault f : Bool) (o : Options) (gs : List Group) → Known fault o gs → Known (fault || f) o gs
Known-or true f o gs h = inl refl
Known-or false true o gs h = inl refl
Known-or false false o gs h = h

-- A range of channels.
channels-IsStored :
    (low high : ℤ) (o : Options) (gs : List Group) (fault : Bool) (later : Parsed)
    → IsReading o gs fault
    → let gs' = gs ++ record { lowchan = low; highchan = high; options = o } ∷ [] in
      let fault' = fault || not (is_some o.audiofile) in
      (IsReading o gs' fault' → IsStored later)
      → IsStored (
          if lt_int high low || lacks_number o
          then give_up gs fault
          else if length gs' == max_groups - 1
          then count_groups gs' fault'
          else later)
channels-IsStored low high o gs fault later h rec =
    elim (Bool-cases (lt_int high low || lacks_number o)) [
      | inl bad ↦ if_true_ind IsStored _ _ _ bad (give_up-IsStored o gs fault h)
      | inr good ↦
          let gs' = gs ++ record { lowchan = low; highchan = high; options = o } ∷ [] in
          let usable =
            AllUsable-append gs _ h.usable
              (lt_int-le low high (ground arith), lacks_number-cases o (ground arith)) in
          let fault' = fault || not (is_some o.audiofile) in
          let known =
            Known-or fault (not (is_some o.audiofile)) o gs'
              (Known-group fault low high o gs h.known) in
          if_false_ind IsStored _ _ _ good (elim (Bool-cases (length gs' == max_groups - 1)) [
            | inl full ↦ if_true_ind IsStored _ _ _ full (
                count_groups-IsStored o gs' fault' usable
                  (ground (
                    arith,
                    h.free,
                    length-append_one gs (record { lowchan = low; highchan = high; options = o }),
                  ))
                  known)
            | inr free ↦ if_false_ind IsStored _ _ _ free (
                rec (record {
                  usable = usable;
                  free = ground (
                    arith,
                    h.free,
                    length-append_one gs (record { lowchan = low; highchan = high; options = o }),
                  );
                  known = known;
                }))
          ])
    ]

read_lines-IsStored :
    (lines : List (List ℕ)) (o : Options) (gs : List Group) (fault : Bool)
    → IsReading o gs fault
    → IsStored (read_lines lines o gs fault)
unfolding read_lines
read_lines-IsStored [] o gs fault h =
    count_groups-IsStored o gs fault h.usable (omega (arith, h.free)) h.known
read_lines-IsStored (line ∷ lines) o gs fault h =
    after (read_line line o) (read_line-LineFits line o) (read_lines-IsStored lines)
  where
    after :
        (l : Line)
        → (FitsBuffers o → LineFits l)
        → ((o : Options) (gs : List Group) (fault : Bool)
            → IsReading o gs fault
            → IsStored (read_lines lines o gs fault))
        → IsStored (elim l [
          | Line.set o' f ↦ read_lines lines o' gs (fault || f)
          | Line.unknown ↦ give_up gs fault
          | Line.channels low high ↦
              let gs' = gs ++ record { lowchan = low; highchan = high; options = o } ∷ [] in
              let fault' = fault || not (is_some o.audiofile) in
              let later = read_lines lines o gs' fault' in
              if lt_int high low || lacks_number o
              then give_up gs fault
              else if length gs' == max_groups - 1
              then count_groups gs' fault'
              else later
        ])
    after (Line.set o' f) fits rec = rec o' gs (fault || f) (record {
      usable = h.usable;
      free = h.free;
      known = Known-set fault f o o' gs fits h.known;
    })
    after Line.unknown fits rec = give_up-IsStored o gs fault h
    after (Line.channels low high) fits rec = channels-IsStored low high o gs fault _ h (
        rec o (gs ++ record { lowchan = low; highchan = high; options = o } ∷ [])
          (fault || not (is_some o.audiofile)))

-- Whatever the bytes of the file, parse_config stores fewer than 50 groups, and its result is their
-- number or -1. Each group has a range of channels that is not empty, and a caller has a number to
-- call and one of its own. The strings of each group fit their buffers, unless C leaves undefined
-- what was done: a string was too long, the C library gave a NULL, or a group was stored before the
-- option audiofile= was read.
pub parse_config-IsStored : (bytes : List ℕ) → IsStored (parse_config bytes)
unfolding parse_config
parse_config-IsStored bytes =
    read_lines-IsStored (split_lines (file_size - 1) (file_size - 1) bytes) first_options [] false
      (record {
        usable = tt;
        free = omega arith;
        known = inr ((omega arith, omega arith, omega arith, tt), tt);
      })
