-- ===== src/Ending/Hangup.antt =====
-- The end of a call that is hung up: the timer by which send_clear_forward of src/r2proto.c makes
-- sure of it.
use openr.Prelude.{ℕ, suc, ◌≡◌}
use openr.Chan.{Chan, Env, Event, Time, SchedTimer, TimerCallback}
use openr.Chan.Timers.{expiry}
use openr.Proto.Clear.{r2_set_call_down}

-- The user's callback for a system error leaves the schedule of the channel as it is.
abbrev pub KeepsTimers : Env → Type 0
KeepsTimers env =
    (errno : ℕ) (c : Chan)
    → (env.callback (Event.on_os_error errno) c).sched_timers ≡ c.sched_timers

-- The timer that ends the call.
abbrev call_down : Time → ℕ → ℕ → SchedTimer
call_down tv ms id = record {
  time = expiry tv ms;
  callback = TimerCallback.r2_set_call_down;
  id = id;
}

module _ (env : Env) (c : Chan) (tv : Time) where
  abbrev down : SchedTimer
  down = call_down tv env.r2context.timers.r2_set_call_down (suc c.timer_id)
