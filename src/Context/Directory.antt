-- ===== src/Context/Directory.antt =====
-- openr2_mkdir_recursive of src/r2utils.c, which openr2_context_set_log_directory calls.
use openr.Prelude.{
  ℕ, ◌==◌, ◌&&◌, ◌≡◌, refl, ◌∙◌, ap, sym, if◌then◌else◌, Bool, true, false, not, Option, none, some,
  List, [], ◌∷◌, ◌++◌, arith,
}
use mathlib.Core.List.{map, append-nil, append_assoc}
use openr.Types.{Rc, done, failed}

-- What `mkdir` gives for a path: the directory is made, or `errno` is EEXIST, or it is another.
pub data Made : Type 0 where
  made exists refused : Made

abbrev pub is_made : Made → Bool
is_made Made.made = true
is_made other = false

abbrev pub is_refused : Made → Bool
is_refused Made.refused = true
is_refused other = false

-- The loop, where `dir` begins with `before` and the rest is still to be searched for a slash. `named`
-- is whether there is a character after the last one.
unfoldable pub make_parents : (List ℕ → Made) → List ℕ → Bool → List ℕ → Rc
make_parents mkdir before named [] =
    if named then (if is_made (mkdir before) then done else failed) else done
make_parents mkdir before named (c ∷ rest) =
    let later = make_parents mkdir (before ++ c ∷ []) (not (c == b'/')) rest in
    if c == b'/' && is_refused (mkdir before) then failed else later

-- `none` where `dir` has no character, and the search begins beyond its end.
unfoldable pub mkdir_recursive : (List ℕ → Made) → List ℕ → Option Rc
unfolding make_parents
mkdir_recursive mkdir [] = none
mkdir_recursive mkdir (c ∷ rest) = some (make_parents mkdir (c ∷ []) false rest)

-- The parts of a path that end just before a slash.
abbrev pub parents : List ℕ → List (List ℕ)
parents [] = []
parents (c ∷ cs) =
    let later = map (λ p. c ∷ p) (parents cs) in if c == b'/' then [] ∷ later else later

-- None of the paths, each of them after `before`, is refused.
abbrev pub none_refused : (List ℕ → Made) → List ℕ → List (List ℕ) → Bool
none_refused mkdir before [] = true
none_refused mkdir before (p ∷ ps) =
    not (is_refused (mkdir (before ++ p))) && none_refused mkdir before ps

-- The path ends with a character that is no slash.
abbrev pub ends_named : Bool → List ℕ → Bool
ends_named named [] = named
ends_named named (c ∷ cs) = ends_named (not (c == b'/')) cs

abbrev pub last_made : (List ℕ → Made) → List ℕ → Bool → Bool
last_made mkdir path named = if named then is_made (mkdir path) else true

abbrev pub is_done : Rc → Bool
is_done done = true
is_done failed = false

none_refused-cons :
    (mkdir : List ℕ → Made) (before : List ℕ) (c : ℕ) (ps : List (List ℕ))
    → none_refused mkdir before (map (λ p. c ∷ p) ps) ≡ none_refused mkdir (before ++ c ∷ []) ps
none_refused-cons mkdir before c [] = refl
none_refused-cons mkdir before c (p ∷ ps) =
    ap (λ x. not (is_refused (mkdir x)) && none_refused mkdir before (map (λ p. c ∷ p) ps))
      (sym (append_assoc before (c ∷ []) p))
    ∙ ap (λ b. not (is_refused (mkdir ((before ++ c ∷ []) ++ p))) && b)
        (none_refused-cons mkdir before c ps)

ends :
    (mkdir : List ℕ → Made) (path : List ℕ) (named : Bool)
    → is_done (if named then (if is_made (mkdir path) then done else failed) else done)
      ≡ last_made mkdir path named
ends mkdir path false = refl
ends mkdir path true = ground arith

refused_or :
    (refused : Bool) (later : Rc) (x y : Bool)
    → is_done later ≡ (x && y)
    → is_done (if refused then failed else later) ≡ ((not refused && x) && y)
refused_or true later x y h = refl
refused_or false later x y h = h

-- One character, a slash or another.
one_more :
    (mkdir : List ℕ → Made) (before : List ℕ) (slash : Bool) (later : Rc) (ps : List (List ℕ))
    (last : Bool)
    → is_done later ≡ (none_refused mkdir before ps && last)
    → is_done (if slash && is_refused (mkdir before) then failed else later)
      ≡ (none_refused mkdir before (if slash then [] ∷ ps else ps) && last)
one_more mkdir before false later ps last h = h
one_more mkdir before true later ps last h =
    rw (append-nil before)
      (refused_or (is_refused (mkdir before)) later (none_refused mkdir before ps) last h)

make_parents-parents :
    (mkdir : List ℕ → Made) (before : List ℕ) (named : Bool) (rest : List ℕ)
    → is_done (make_parents mkdir before named rest) ≡ (
        none_refused mkdir before (parents rest)
        && last_made mkdir (before ++ rest) (ends_named named rest))
unfolding make_parents
make_parents-parents mkdir before named [] = rw (append-nil before) (ends mkdir before named)
make_parents-parents mkdir before named (c ∷ rest) =
    one_more mkdir before (c == b'/') (make_parents mkdir (before ++ c ∷ []) (not (c == b'/')) rest)
      (map (λ p. c ∷ p) (parents rest))
      (last_made mkdir (before ++ c ∷ rest) (ends_named (not (c == b'/')) rest))
      (make_parents-parents mkdir (before ++ c ∷ []) (not (c == b'/')) rest
        ∙ ap
            (λ b.
              b && last_made mkdir ((before ++ c ∷ []) ++ rest) (ends_named (not (c == b'/')) rest))
            (sym (none_refused-cons mkdir before c (parents rest)))
        ∙ ap
            (λ p.
              none_refused mkdir before (map (λ p. c ∷ p) (parents rest))
              && last_made mkdir p (ends_named (not (c == b'/')) rest))
            (append_assoc before (c ∷ []) rest))

-- For a path that has a character, openr2_mkdir_recursive succeeds if and only if `mkdir` is refused
-- for none of the parts of the path that end before a slash beyond the first character, and, where
-- the path has a name after its last slash beyond there, makes the whole path.
pub mkdir_recursive-parents :
    (mkdir : List ℕ → Made) (c : ℕ) (rest : List ℕ)
    → (rc : Rc) × (mkdir_recursive mkdir (c ∷ rest) ≡ some rc)
      × (is_done rc ≡ (
          none_refused mkdir (c ∷ []) (parents rest)
          && last_made mkdir (c ∷ rest) (ends_named false rest)))
unfolding mkdir_recursive
mkdir_recursive-parents mkdir c rest =
    (make_parents mkdir (c ∷ []) false rest, refl, make_parents-parents mkdir (c ∷ []) false rest)
