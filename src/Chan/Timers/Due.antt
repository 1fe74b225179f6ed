-- ===== src/Chan/Timers/Due.antt =====
-- What openr2_chan_handle_timers takes out of the schedule, and the time that a timer is given.
use openr.Prelude.{
  ◌⊎◌, ℕ, ◌+◌, ◌*◌, ◌≤◌, ◌<◌, ◌≡◌, refl, ◌≢◌, sym, ap, ◌∙◌, if◌then◌else◌, true, false, pos, List,
  [], ◌∷◌, arith, is_positive, ℤ, negsuc, pos_part, neg_part, to_i32,
}
use openr.Chan.{Time, SchedTimer, Chan}
use openr.Chan.Timers.{
  expiry, remove_timer, cancel_timer, ms_between, ms_until, due_timers, cancel_each,
}
use openr.Chan.Timers.Order.{HasIdsBelow, HasDistinctIds, LacksId, IsScheduled}

-- The microseconds of a time.
abbrev pub micros : Time → ℕ
micros t = t.tv_sec * 1000000 + t.tv_usec

-- A timer of `ms` milliseconds is due that much after the time it is set at, to the microsecond,
-- and its microseconds stay at most 1000000 if those of the clock do.
pub micros-expiry :
    (tv : Time) (ms : ℕ)
    → tv.tv_usec < 1000000
    → (micros (expiry tv ms) ≡ micros tv + ms * 1000) × ((expiry tv ms).tv_usec ≤ 1000000)
unfolding expiry
micros-expiry tv ms h = ground arith

-- The timers that are not due.
abbrev pub later_timers : Time → List SchedTimer → List SchedTimer
later_timers now [] = []
later_timers now (t ∷ ts) =
    let rest = later_timers now ts in if is_positive (ms_until t.time now) then t ∷ rest else rest

-- The schedule after each timer of a list was cancelled.
abbrev without : List SchedTimer → List SchedTimer → List SchedTimer
without [] l = l
without (t ∷ ts) l = without ts (remove_timer t.id l).0

sched_timers-cancel_timer :
    (n : ℕ) (c : Chan)
    → 0 < n
    → (cancel_timer (pos n) c).0.sched_timers ≡ (remove_timer n c.sched_timers).0
unfolding cancel_timer
sched_timers-cancel_timer n c h = ground arith

sched_timers-cancel_each :
    (ts : List SchedTimer) (n : ℕ) (c : Chan)
    → HasIdsBelow n ts
    → (cancel_each ts c).sched_timers ≡ without ts c.sched_timers
unfolding cancel_each
sched_timers-cancel_each [] n c h = refl
sched_timers-cancel_each (t ∷ ts) n c h =
    sched_timers-cancel_each ts n (cancel_timer (pos t.id) c).0 h.2
    ∙ ap (without ts) (sched_timers-cancel_timer t.id c h.0)

due_timers-HasIdsBelow :
    (now : Time) (n : ℕ) (l : List SchedTimer) → HasIdsBelow n l → HasIdsBelow n (due_timers now l)
unfolding due_timers
due_timers-HasIdsBelow now n [] h = tt
due_timers-HasIdsBelow now n (t ∷ ts) h = ground (arith, due_timers-HasIdsBelow now n ts h.2)

due_timers-LacksId :
    (now : Time) (n : ℕ) (l : List SchedTimer) → LacksId n l → LacksId n (due_timers now l)
unfolding due_timers
due_timers-LacksId now n [] h = tt
due_timers-LacksId now n (t ∷ ts) h = ground (arith, due_timers-LacksId now n ts h.1)

-- Cancelling others keeps the first timer.
without-cons :
    (ts : List SchedTimer) (u : SchedTimer) (l : List SchedTimer)
    → LacksId u.id ts
    → without ts (u ∷ l) ≡ u ∷ without ts l
unfolding remove_timer
without-cons [] u l h = refl
without-cons (t ∷ ts) u l h =
    ap (without ts) (kept t u l (λ e. h.0 (sym e))) ∙ without-cons ts u (remove_timer t.id l).0 h.1
  where
    kept :
        (t u : SchedTimer) (l : List SchedTimer)
        → u.id ≢ t.id
        → (remove_timer t.id (u ∷ l)).0 ≡ u ∷ (remove_timer t.id l).0
    kept t u l d = ground arith

without-due_timers :
    (now : Time) (l : List SchedTimer)
    → HasDistinctIds l
    → without (due_timers now l) l ≡ later_timers now l
unfolding due_timers remove_timer
without-due_timers now [] d = refl
without-due_timers now (t ∷ ts) d = ground (
  arith,
  without-due_timers now ts d.1,
  without-cons (due_timers now ts) t ts (due_timers-LacksId now t.id ts d.0),
)

-- On a schedule with distinct ids above 0, the timers that handle_timers takes out are those it
-- dispatches, the ones due now, and no other: what stays is every timer that is not due, in order.
pub cancel_each-due_timers :
    (now : Time) (c : Chan)
    → IsScheduled c.timer_id c.sched_timers
    → (cancel_each (due_timers now c.sched_timers) c).sched_timers ≡ later_timers now c.sched_timers
cancel_each-due_timers now c v =
    sched_timers-cancel_each _ c.timer_id c
      (due_timers-HasIdsBelow now c.timer_id c.sched_timers v.ids_below)
    ∙ without-due_timers now c.sched_timers v.distinct

-- A difference that an int holds is stored as it is.
to_i32_id : (z : ℤ) → pos_part z < 2147483648 → neg_part z ≤ 2147483648 → to_i32 z ≡ z
to_i32_id (pos n) h k = ground arith
to_i32_id (negsuc n) h k = ground arith

-- The two times are less than 2^31 - 1 milliseconds apart.
abbrev pub AreNear : Time → Time → Type 0
AreNear t now =
    (micros t < micros now + 2147483647 * 1000) × (micros now < micros t + 2147483647 * 1000)

ms_between_small :
    (t now : Time)
    → t.tv_usec ≤ 1000000
    → now.tv_usec < 1000000
    → AreNear t now
    → (pos_part (ms_between t now) < 2147483648) × (neg_part (ms_between t now) ≤ 2147483648)
unfolding ms_between
ms_between_small t now h k near = ground arith

pub ms_until_near :
    (t now : Time)
    → t.tv_usec ≤ 1000000
    → now.tv_usec < 1000000
    → AreNear t now
    → ms_until t now ≡ ms_between t now
unfolding ms_until
ms_until_near t now h k near =
    let small = ms_between_small t now h k near in to_i32_id (ms_between t now) small.0 small.1

-- For a timer of at most 1000000 microseconds beside its seconds, less than 2^31 - 1 milliseconds away,
-- and a clock below 1000000: a timer is either taken as due, less than a millisecond before its time
-- at the earliest, or it is left, and its time is still to come.
pub ms_until_due :
    (t now : Time)
    → t.tv_usec ≤ 1000000
    → now.tv_usec < 1000000
    → AreNear t now
    → ((is_positive (ms_until t now) ≡ false) × (micros t < micros now + 1000))
      ⊎ ((is_positive (ms_until t now) ≡ true) × (micros now < micros t))
unfolding ms_between
ms_until_due t now h k near = rw (ms_until_near t now h k near) (ground arith)
