-- ===== src/Context/File/Buffers.antt =====
-- What no configuration file changes.
use openr.Prelude.{ℕ, ℤ, ◌^◌, ◌≡◌, refl, ◌∙◌, ltb, Bool, Option, none, some, List, [], ◌∷◌, if_ind}
use openr.Types.{CasSignal}
use openr.Context.{Context}
use openr.Context.File.{
  scan_prefix, Found, find_row, found_or, scan_after, Reader, load, load_line, load_lines,
  load_found, configure_from_advanced_file, is_skipped, split_lines, line_size,
}
use openr.Context.File.Rows.{Row, Kind, rows}

-- What no line of a file may change: the digits asked for, the CAS signals, and what the setters
-- alone set.
abbrev pub buffer_fields : Context → ℤ × ℤ × (CasSignal → ℕ) × Bool × Bool × Bool × Bool × ℕ
buffer_fields r = (
  r.max_dnis, r.max_ani, r.cas_signals, r.get_ani_first, r.skip_category, r.immediate_accept,
  r.double_answer, r.loglevel,
)

abbrev Keeps : List Row → Type 0
Keeps [] = Unit {0}
Keeps (row ∷ rs) =
    ((v : ℕ) (r : Context) → buffer_fields (row.assign v r) ≡ buffer_fields r) × Keeps rs

rows-Keeps : Keeps rows
rows-Keeps = (
  λ v r. refl,
  (
    λ v r. refl,
    (
      λ v r. refl,
      (
        λ v r. refl,
        (
          λ v r. refl,
          (
            λ v r. refl,
            (
              λ v r. refl,
              (
                λ v r. refl,
                (
                  λ v r. refl,
                  (
                    λ v r. refl,
                    (
                      λ v r. refl,
                      (
                        λ v r. refl,
                        (
                          λ v r. refl,
                          (
                            λ v r. refl,
                            (
                              λ v r. refl,
                              (
                                λ v r. refl,
                                (
                                  λ v r. refl,
                                  (
                                    λ v r. refl,
                                    (
                                      λ v r. refl,
                                      (
                                        λ v r. refl,
                                        (
                                          λ v r. refl,
                                          (
                                            λ v r. refl,
                                            (
                                              λ v r. refl,
                                              (
                                                λ v r. refl,
                                                (
                                                  λ v r. refl,
                                                  (
                                                    λ v r. refl,
                                                    (
                                                      λ v r. refl,
                                                      (
                                                        λ v r. refl,
                                                        (
                                                          λ v r. refl,
                                                          (
                                                            λ v r. refl,
                                                            (
                                                            λ v r. refl,
                                                            (
                                                            λ v r. refl,
                                                            (
                                                            λ v r. refl,
                                                            (
                                                            λ v r. refl,
                                                            (
                                                            λ v r. refl,
                                                            (
                                                            λ v r. refl,
                                                            (
                                                            λ v r. refl,
                                                            (
                                                            λ v r. refl,
                                                            (
                                                            λ v r. refl,
                                                            (
                                                            λ v r. refl,
                                                            (
                                                            λ v r. refl,
                                                            (
                                                            λ v r. refl,
                                                            (
                                                            λ v r. refl,
                                                            (
                                                            λ v r. refl,
                                                            (λ v r. refl, (λ v r. refl, tt)),
                                                            ),
                                                            ),
                                                            ),
                                                            ),
                                                            ),
                                                            ),
                                                            ),
                                                            ),
                                                            ),
                                                            ),
                                                            ),
                                                            ),
                                                            ),
                                                            ),
                                                          ),
                                                        ),
                                                      ),
                                                    ),
                                                  ),
                                                ),
                                              ),
                                            ),
                                          ),
                                        ),
                                      ),
                                    ),
                                  ),
                                ),
                              ),
                            ),
                          ),
                        ),
                      ),
                    ),
                  ),
                ),
              ),
            ),
          ),
        ),
      ),
    ),
  ),
)

load-Keeps :
    (row : Row) (kind : Kind) (v : ℕ) (s : Reader)
    → ((v : ℕ) (r : Context) → buffer_fields (row.assign v r) ≡ buffer_fields r)
    → buffer_fields (load kind row.assign v s).context ≡ buffer_fields s.context
unfolding load
load-Keeps row Kind.tone v s h = h _ s.context
load-Keeps row Kind.number v s h =
    if_ind (λ x. buffer_fields x ≡ buffer_fields s.context) (ltb v (2 ^ 31)) (h v s.context) refl

found_or-Keeps :
    (row : Row) (found : Option ℕ) (later : Option Found) (s : Reader)
    → ((v : ℕ) (r : Context) → buffer_fields (row.assign v r) ≡ buffer_fields r)
    → buffer_fields (load_found later s).context ≡ buffer_fields s.context
    → buffer_fields (load_found (found_or row found later) s).context ≡ buffer_fields s.context
found_or-Keeps row none later s h k = k
found_or-Keeps row (some v) later s h k = load-Keeps row row.kind v s h

find_row-Keeps :
    (rs : List Row) (line : List ℕ) (s : Reader)
    → Keeps rs
    → buffer_fields (load_found (find_row rs line) s).context ≡ buffer_fields s.context
unfolding find_row
find_row-Keeps [] line s h = refl
find_row-Keeps (row ∷ rs) line s h =
    found_or-Keeps row (scan_after row.kind (scan_prefix row.format line)) (find_row rs line) s h.0
      (find_row-Keeps rs line s h.1)

load_line-Keeps :
    (line : List ℕ) (s : Reader)
    → buffer_fields (load_line line s).context ≡ buffer_fields s.context
unfolding load_line
load_line-Keeps line s =
    if_ind (λ (x : Reader). buffer_fields x.context ≡ buffer_fields s.context) (is_skipped line)
      refl (find_row-Keeps rows line s rows-Keeps)

load_lines-Keeps :
    (lines : List (List ℕ)) (s : Reader)
    → buffer_fields (load_lines lines s).context ≡ buffer_fields s.context
load_lines-Keeps [] s = refl
load_lines-Keeps (line ∷ lines) s =
    load_lines-Keeps lines (load_line line s) ∙ load_line-Keeps line s

-- No file, whatever its bytes, changes how many digits a channel asks for, the CAS signals, the log
-- level, or whether the ANI comes first, the category is skipped, a call is accepted at once, or the
-- answer is doubled.
pub configure_from_advanced_file-buffers :
    (file : Option (List ℕ)) (r : Context)
    → buffer_fields (configure_from_advanced_file file r).0 ≡ buffer_fields r
unfolding configure_from_advanced_file
configure_from_advanced_file-buffers none r = refl
configure_from_advanced_file-buffers (some bytes) r =
    load_lines-Keeps (split_lines line_size line_size bytes) (record { intvalue = 0; context = r })
