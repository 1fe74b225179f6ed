-- ===== src/Chan/Timers/Cancel.antt =====
-- A timer that is set and cancelled.
use openr.Prelude.{suc, ◌≡◌, true, pos, List, [], ◌∷◌, arith}
use openr.Chan.{Time, TimerCallback, SchedTimer, Chan}
use openr.Chan.Timers.{insert_timer, remove_timer, schedule, cancel_timer}
use openr.Chan.Timers.Order.{LacksId, HasIdsBelow-LacksId, IsScheduled}

remove_timer-insert_timer :
    (t : SchedTimer) (l : List SchedTimer)
    → LacksId t.id l
    → remove_timer t.id (insert_timer t l) ≡ (l, true)
unfolding remove_timer insert_timer
remove_timer-insert_timer t [] h = ground arith
remove_timer-insert_timer t (u ∷ us) h = ground (arith, remove_timer-insert_timer t us h.1)

-- On an ordered schedule with distinct ids, cancelling the timer that was just set finds it, gives
-- its id variable 0, and leaves the timers as they were before it was set.
pub cancel_timer-schedule :
    (time : Time) (callback : TimerCallback) (c : Chan)
    → IsScheduled c.timer_id c.sched_timers
    → let out = schedule time callback c in
      let back = cancel_timer out.1 out.0 in
      (back.0.sched_timers ≡ c.sched_timers) × (back.1 ≡ pos 0)
unfolding schedule cancel_timer
cancel_timer-schedule time callback c v =
    let t : SchedTimer = record { time = time; callback = callback; id = suc c.timer_id } in
    ground (
      arith,
      remove_timer-insert_timer t c.sched_timers
          (HasIdsBelow-LacksId c.timer_id c.sched_timers v.ids_below),
    )
