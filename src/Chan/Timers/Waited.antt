-- ===== src/Chan/Timers/Waited.antt =====
-- The program that sleeps for as long as openr2_chan_get_time_to_next_event says.
use mathlib.Core.Path.{subst}
use openr.Prelude.{
  ◌+◌, ◌*◌, ◌≤◌, ◌<◌, ◌≡◌, ap, ◌∙◌, ◌⊎◌, inl, inr, false, ℤ, pos, negsuc, pos_part, is_positive,
  some, List, ◌∷◌, arith,
}
use openr.Chan.{Chan, Env, Time, SchedTimer}
use openr.Chan.Timers.{ms_between, ms_until, due_timers, time_to_next_event}
use openr.Chan.Timers.Due.{micros, AreNear, ms_until_near}

-- The wait that the function gives.
abbrev wait_of : ℤ → ℤ
wait_of n = elim n [ pos n ↦ pos n | negsuc _ ↦ pos 0 ]

ms_between_waited :
    (t now later : Time)
    → t.tv_usec ≤ 1000000
    → now.tv_usec < 1000000
    → later.tv_usec < 1000000
    → micros now + 1000 * pos_part (wait_of (ms_between t now)) ≤ micros later
    → (is_positive (ms_between t later) ≡ false) ⊎ (ms_between t later ≡ pos 1)
unfolding ms_between
ms_between_waited t now later h k l w = ground arith

ms_until_waited :
    (t now later : Time)
    → t.tv_usec ≤ 1000000
    → now.tv_usec < 1000000
    → later.tv_usec < 1000000
    → AreNear t now
    → AreNear t later
    → micros now + 1000 * pos_part (wait_of (ms_until t now)) ≤ micros later
    → (is_positive (ms_until t later) ≡ false) ⊎ (ms_until t later ≡ pos 1)
ms_until_waited t now later h k l near near' w = rw (ms_until_near t later h l near') (
    ms_between_waited t now later h k l (
      subst (λ (n : ℤ). micros now + 1000 * pos_part (wait_of n) ≤ micros later)
        (ms_until_near t now h k near) w))

time_to_next_event-wait_of :
    (env : Env) (c : Chan) (t : SchedTimer) (ts : List SchedTimer) (now : Time)
    → c.sched_timers ≡ t ∷ ts
    → env.gettimeofday c ≡ some now
    → (time_to_next_event env c).1 ≡ wait_of (ms_until t.time now)
unfolding time_to_next_event
time_to_next_event-wait_of env c t ts now first clock = ground (arith, first, clock)

due_first :
    (t : SchedTimer) (ts : List SchedTimer) (later : Time)
    → is_positive (ms_until t.time later) ≡ false
    → due_timers later (t ∷ ts) ≡ t ∷ due_timers later ts
unfolding due_timers
due_first t ts later h = ground (arith, h)

-- A program that sleeps for as long as openr2_chan_get_time_to_next_event says, or longer, then finds
-- the first timer among those that openr2_chan_handle_timers dispatches, or has one millisecond left
-- to sleep: if it asks and wakes less than 2^31 - 1 milliseconds before or after the timer's time, the
-- clock's microseconds stay below 1000000, and the timer's do not exceed that.
pub time_to_next_event-due :
    (env : Env) (c : Chan) (t : SchedTimer) (ts : List SchedTimer) (now later : Time)
    → c.sched_timers ≡ t ∷ ts
    → env.gettimeofday c ≡ some now
    → t.time.tv_usec ≤ 1000000
    → now.tv_usec < 1000000
    → later.tv_usec < 1000000
    → AreNear t.time now
    → AreNear t.time later
    → micros now + 1000 * pos_part (time_to_next_event env c).1 ≤ micros later
    → (due_timers later c.sched_timers ≡ t ∷ due_timers later ts) ⊎ (ms_until t.time later ≡ pos 1)
time_to_next_event-due env c t ts now later first clock h k l near near' slept =
    elim (ms_until_waited t.time now later h k l near near' (
      subst (λ (n : ℤ). micros now + 1000 * pos_part n ≤ micros later)
        (time_to_next_event-wait_of env c t ts now first clock) slept)) [
          | inl due ↦ inl (ap (due_timers later) first ∙ due_first t ts later due)
          | inr one ↦ inr one
        ]
