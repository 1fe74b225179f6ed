-- ===== src/Chan/Listed.antt =====
-- The list of a context's channels, src/r2context.c: `chanlist`, linked by `next`, as a list whose
-- head is the channel added last.
pub mod Next
use openr.Prelude.{
  ℕ, ◌+◌, ℤ, pos, negsuc, pos_part, ◌==◌, ◌&&◌, not, if◌then◌else◌, Bool, true, false, Option, none,
  some, List, [], ◌∷◌,
}
use openr.Chan.{Chan, Time}
use openr.Chan.Timers.{timercmp_lt, ms_until}

-- `openr2_context_add_channel`, on the channels' addresses; the log level is left to the log.
abbrev pub add_channel : ℕ → List ℕ → List ℕ
add_channel channel chanlist = channel ∷ chanlist

-- Beyond the head, `prev->next = curr->next`.
abbrev pub unlink : ℕ → List ℕ → List ℕ
unlink channel [] = []
unlink channel (c ∷ cs) = let later = unlink channel cs in if c == channel then cs else c ∷ later

-- At the head, `chanlist = NULL`.
unfoldable pub remove_channel : ℕ → List ℕ → List ℕ
remove_channel channel [] = []
remove_channel channel (c ∷ cs) = if c == channel then [] else c ∷ unlink channel cs

-- `sched_timers[0].time`; the entries beyond `timers_count` are zero there.
abbrev pub first_time : Chan → Time
first_time c = elim c.sched_timers [ [] ↦ record { tv_sec = 0; tv_usec = 0 } | t ∷ _ ↦ t.time ]

abbrev pub has_timers : Chan → Bool
has_timers c = elim c.sched_timers [ [] ↦ false | _ ∷ _ ↦ true ]

abbrev pub is_last : List Chan → Bool
is_last [] = true
is_last (c ∷ cs) = false

-- `if (!winner) winner = current`
abbrev pub winner_or : Option Chan → Chan → Chan
winner_or none c = c
winner_or (some w) c = w

-- The winner after the comparison with the next channel.
unfoldable pub next_winner : Chan → List Chan → Chan
next_winner w [] = w
next_winner w (d ∷ ds) = if timercmp_lt (first_time d) (first_time w) then d else w

-- The milliseconds from now to a time, or 0 if it has passed.
unfoldable pub wait_until : Time → Time → ℤ
unfolding ms_until
wait_until t now = pos (pos_part (ms_until t now))

-- The loop over the channels, with the winner so far.
unfoldable pub next_event : Option Chan → Time → List Chan → ℤ
unfolding next_winner wait_until
next_event winner now [] = negsuc 0
next_event winner now (c ∷ cs) =
    let w = winner_or winner c in
    let later = next_event (if has_timers c then some (next_winner w cs) else winner) now cs in
    if has_timers c && is_last cs then wait_until (first_time w) now else later

-- `openr2_context_get_time_to_next_event`, by what `gettimeofday` gives.
unfoldable pub context_time_to_next_event : Option Time → List Chan → ℤ
unfolding next_event
context_time_to_next_event none chanlist = negsuc 0
context_time_to_next_event (some now) chanlist = next_event none now chanlist
