-- ===== src/Sound.antt =====
-- The invariant of an MFC/R2 channel, and what it asks of the user's callbacks.
pub mod Line
pub mod Mf
pub mod Backward
pub mod Forward
pub mod Cas
pub mod Calls
pub mod Events
pub mod Session
pub mod Creation
use openr.Prelude.{
  ℕ, ℤ, pos, negsuc, ◌≡◌, ◌<◌, ltb, ◌==◌, if◌then◌else◌, Bool-cases, inl, inr, none, some,
  Option-cases, Bool, length, arith,
}
use openr.Context.{max_ani_size, max_dnis_size}
use openr.Chan.{Chan, Env, Event, Time, TimerCallback}
use openr.Chan.Timers.{
  max_sched_timers, emit, schedule, add_timer, cancel_timer, cancel_all_timers, remove_timer,
  expiry,
}
use openr.Chan.Device.{io_failure, io_set_cas, io_get_cas, io_flush_write_buffers}
use openr.Chan.Timers.Order.{
  IsScheduled, schedule-IsScheduled, remove_timer-IsScheduled, nil-IsScheduled,
}
use openr.Proto.Mf.{emit_dnis_digit}

pub record IsSound (c : Chan) : Type 0 where
  pub scheduled : IsScheduled c.timer_id c.sched_timers
  pub ani_size : length c.ani ≡ max_ani_size
  pub dnis_size : length c.dnis ≡ max_dnis_size
  pub dnis_room : c.dnis_len < max_dnis_size

-- The user's callbacks keep the channel sound; those that act on it by the operations below do.
pub record IsPolite (env : Env) : Type 0 where
  pub callback : (e : Event) (c : Chan) → IsSound c → IsSound (env.callback e c)
  pub dnis_callback : (d : ℕ) (c : Chan) → IsSound c → IsSound (env.dnis_callback d c).1

schedule-IsSound :
    (time : Time) (f : TimerCallback) (c : Chan)
    → length c.sched_timers < max_sched_timers
    → IsSound c
    → IsSound (schedule time f c).0
unfolding schedule
schedule-IsSound time f c room v = record {
  scheduled = schedule-IsScheduled time f c room v.scheduled;
  ani_size = v.ani_size;
  dnis_size = v.dnis_size;
  dnis_room = v.dnis_room;
}

pub cancel_timer-IsSound : (id : ℤ) (c : Chan) → IsSound c → IsSound (cancel_timer id c).0
unfolding cancel_timer
cancel_timer-IsSound (negsuc n) c v = v
cancel_timer-IsSound (pos n) c v =
    ground (arith, remove_timer-IsScheduled n c.timer_id c.sched_timers v.scheduled)

pub cancel_all_timers-IsSound : (c : Chan) → IsSound c → IsSound (cancel_all_timers c)
unfolding cancel_all_timers
cancel_all_timers-IsSound c v = ground (arith, nil-IsScheduled 1)

module _ (env : Env) (polite : IsPolite env) where
  pub emit-IsSound : (e : Event) (c : Chan) → IsSound c → IsSound (emit env e c)
  unfolding emit
  emit-IsSound e c v = polite.callback e _ (record {
    scheduled = v.scheduled;
    ani_size = v.ani_size;
    dnis_size = v.dnis_size;
    dnis_room = v.dnis_room;
  })

  pub io_failure-IsSound : (errno : ℕ) (c : Chan) → IsSound c → IsSound (io_failure env errno c)
  unfolding io_failure
  io_failure-IsSound errno c v = grind (arith, emit-IsSound)

  pub io_set_cas-IsSound : (cas : ℕ) (c : Chan) → IsSound c → IsSound (io_set_cas env cas c).0
  unfolding io_set_cas
  io_set_cas-IsSound cas c v = grind (arith, io_failure-IsSound)

  pub io_get_cas-IsSound : (c : Chan) → IsSound c → IsSound (io_get_cas env c).0
  unfolding io_get_cas
  io_get_cas-IsSound c v = grind (arith, io_failure-IsSound)

  pub io_flush_write_buffers-IsSound :
      (c : Chan) → IsSound c → IsSound (io_flush_write_buffers env c).0
  unfolding io_flush_write_buffers
  io_flush_write_buffers-IsSound c v = grind (arith, io_failure-IsSound)

  pub emit_dnis_digit-IsSound : (d : ℕ) (c : Chan) → IsSound c → IsSound (emit_dnis_digit env d c).1
  unfolding emit_dnis_digit
  emit_dnis_digit-IsSound d c v = polite.dnis_callback d _ (record {
    scheduled = v.scheduled;
    ani_size = v.ani_size;
    dnis_size = v.dnis_size;
    dnis_room = v.dnis_room;
  })

  pub add_timer-IsSound :
      (ms : ℕ) (f : TimerCallback) (c : Chan) → IsSound c → IsSound (add_timer env ms f c).0
  unfolding add_timer
  add_timer-IsSound ms f c v = elim (Option-cases (env.gettimeofday c)) [
    | inl e ↦ rw (e, add_timer) (emit-IsSound _ c v)
    | inr (tv, e) ↦ ground (arith, schedule-IsSound (expiry tv ms) f c)
  ]
