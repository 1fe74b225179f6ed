-- ===== src/Chan/Timers.antt =====
-- The scheduler of src/r2chan.c: openr2_chan_add_timer, openr2_chan_cancel_timer,
-- openr2_chan_cancel_all_timers, and what openr2_chan_handle_timers collects.
pub mod Order
pub mod Due
pub mod Cancel
pub mod Waited
use openr.Prelude.{
  ℕ, suc, ◌+◌, ◌-◌, ◌*◌, ◌/◌, ◌%◌, ℤ, pos, negsuc, sub_ℕ, to_i32, is_positive, ltb, leb, ◌==◌,
  if◌then◌else◌, Bool, true, false, Option, none, some, List, [], ◌∷◌, length, not,
}
use openr.Chan.{Time, TimerCallback, SchedTimer, TimerIds, Event, Action, Chan, Env}

-- OR2_MAX_SCHED_TIMERS
abbrev pub max_sched_timers : ℕ
max_sched_timers = 10

-- `openr2_timercmp(a, b, <)`
unfoldable pub timercmp_lt : Time → Time → Bool
timercmp_lt a b = if a.tv_sec == b.tv_sec then ltb a.tv_usec b.tv_usec else ltb a.tv_sec b.tv_sec

-- The time of a timer of `ms` milliseconds that is set at `tv`.
unfoldable pub expiry : Time → ℕ → Time
expiry tv ms =
    let sec = tv.tv_sec + ms / 1000 in
    let usec = tv.tv_usec + ms % 1000 * 1000 in
    if ltb 1000000 usec
    then record { tv_sec = sec + 1; tv_usec = usec - 1000000 }
    else record { tv_sec = sec; tv_usec = usec }

-- The loop that finds the slot: before the first timer that is due later.
unfoldable pub insert_timer : SchedTimer → List SchedTimer → List SchedTimer
insert_timer t [] = t ∷ []
insert_timer t (u ∷ us) = if timercmp_lt t.time u.time then t ∷ u ∷ us else u ∷ insert_timer t us

-- The loop that removes the timer of an id, and whether it was there.
unfoldable pub remove_timer : ℕ → List SchedTimer → List SchedTimer × Bool
remove_timer n [] = ([], false)
remove_timer n (u ∷ us) =
    let rest = remove_timer n us in if u.id == n then (us, true) else (u ∷ rest.0, rest.1)

abbrev pub no_timer_ids : TimerIds
no_timer_ids = record {
  mf_fwd_safety = pos 0;
  r2_seize = pos 0;
  r2_seize_persist = pos 0;
  r2_answer = pos 0;
  r2_metering_pulse = pos 0;
  r2_double_answer = pos 0;
  mf_back_resume_cycle = pos 0;
  mf_back_cycle = pos 0;
  r2_answer_delay = pos 0;
  cas_persistence_check = pos 0;
  dtmf_start_dial = pos 0;
}

-- A call of the user's event interface: it is recorded, and then the callback runs.
unfoldable pub emit : Env → Event → Chan → Chan
emit env e c = env.callback e (record c { trace = Action.user e ∷ c.trace })

-- The new timer in its slot, under the next id.
unfoldable pub schedule : Time → TimerCallback → Chan → Chan × ℤ
unfolding insert_timer
schedule time callback c =
    let timer : SchedTimer = record { time = time; callback = callback; id = suc c.timer_id } in
    (
      record c { timer_id = suc c.timer_id; sched_timers = insert_timer timer c.sched_timers },
      pos (suc c.timer_id),
    )

-- The channel, and the id of the timer or -1.
unfoldable pub add_timer : Env → ℕ → TimerCallback → Chan → Chan × ℤ
unfolding schedule expiry emit
add_timer env ms callback c = elim (env.gettimeofday c) [
  | none ↦ (emit env (Event.on_os_error (env.errno c)) c, negsuc 0)
  | some tv ↦
      if length c.sched_timers == max_sched_timers
      then (c, negsuc 0)
      else schedule (expiry tv ms) callback c
]

-- The channel, and what the function leaves in `*timer_id`.
unfoldable pub cancel_timer : ℤ → Chan → Chan × ℤ
unfolding remove_timer
cancel_timer (pos n) c =
    let out = remove_timer n c.sched_timers in
    if ltb n 1
    then (c, pos n)
    else (record c { sched_timers = out.0 }, if out.1 then pos 0 else pos n)
cancel_timer (negsuc n) c = (c, negsuc n)

unfoldable pub cancel_all_timers : Chan → Chan
cancel_all_timers c = record c { sched_timers = []; timer_id = 1; timer_ids = no_timer_ids }

-- `(t.tv_sec - now.tv_sec) * 1000 + (t.tv_usec - now.tv_usec) / 1000`, the division towards 0.
unfoldable pub ms_between : Time → Time → ℤ
ms_between t now =
    sub_ℕ (t.tv_sec * 1000 + (t.tv_usec - now.tv_usec) / 1000)
      (now.tv_sec * 1000 + (now.tv_usec - t.tv_usec) / 1000)

-- That difference as it is stored in `ms`, an int: beyond 2^31 milliseconds it wraps round.
unfoldable pub ms_until : Time → Time → ℤ
unfolding ms_between
ms_until t now = to_i32 (ms_between t now)

-- The timers that `openr2_chan_handle_timers` copies to its own array.
unfoldable pub due_timers : Time → List SchedTimer → List SchedTimer
unfolding ms_until
due_timers now [] = []
due_timers now (t ∷ ts) =
    let rest = due_timers now ts in if is_positive (ms_until t.time now) then rest else t ∷ rest

-- Its second loop, which cancels each of them.
unfoldable pub cancel_each : List SchedTimer → Chan → Chan
unfolding cancel_timer
cancel_each [] c = c
cancel_each (t ∷ ts) c = cancel_each ts (cancel_timer (pos t.id) c).0

-- `openr2_chan_get_time_to_next_event`: -1 with no timer, else the milliseconds left, at least 0.
unfoldable pub time_to_next_event : Env → Chan → Chan × ℤ
unfolding ms_until emit
time_to_next_event env c = elim c.sched_timers [
  | [] ↦ (c, negsuc 0)
  | t ∷ _ ↦ elim (env.gettimeofday c) [
    | none ↦ (emit env (Event.on_os_error (env.errno c)) c, negsuc 0)
    | some now ↦ (c, elim (ms_until t.time now) [ pos n ↦ pos n | negsuc _ ↦ pos 0 ])
  ]
]
