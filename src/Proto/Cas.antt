-- ===== src/Proto/Cas.antt =====
-- The line signalling of src/r2proto.c: openr2_proto_handle_cas and persistence_check_expired.
pub mod Dispatch
use openr.Prelude.{
  ℕ, ◌==◌, nonzero, if◌then◌else◌, bit_and, int_nonzero, pos, Bool, Option, none, some,
}
use openr.Types.{Rc, done, failed}
use openr.Chan.{Chan, Env, TimerCallback}
use openr.Chan.Timers.{add_timer, cancel_timer}
use openr.Chan.Device.{io_get_cas}
use Dispatch.{dispatch_cas}

-- The label `handlecas`.
unfoldable pub handle_bits : Env → ℕ → Chan → Chan
handle_bits env cas c =
    if c.inalarm then c else dispatch_cas env c.r2_state cas (record c { cas_read = cas })

-- `openr2_chan_cancel_timer(r2chan, &r2chan->timer_ids.cas_persistence_check)`
unfoldable pub cancel_persistence_check : Chan → Chan
cancel_persistence_check c =
    let (c1, id) = cancel_timer c.timer_ids.cas_persistence_check c in
    record c1 { timer_ids = record (c1.timer_ids) { cas_persistence_check = id } }

-- The new pattern is kept, and the timer set.
unfoldable pub start_persistence_check : Env → ℕ → Chan → Chan
start_persistence_check env cas c =
    let (c1, id) =
      add_timer env env.r2context.timers.cas_persistence_check
        TimerCallback.persistence_check_expired
        (record c { cas_persistence_check_signal = some cas }) in
    record c1 { timer_ids = record (c1.timer_ids) { cas_persistence_check = id } }

-- The bits as they were at the last event.
unfoldable pub bits_unchanged : Chan → Chan
bits_unchanged c =
    if int_nonzero c.timer_ids.cas_persistence_check
    then record (cancel_persistence_check c) { cas_persistence_check_signal = none }
    else c

-- The bits that the line shows: ignored, checked for persistence, or handled.
unfoldable pub new_bits : Env → ℕ → Chan → Chan
new_bits env cas c =
    if c.cas_read == cas
    then bits_unchanged c
    else if nonzero env.r2context.timers.cas_persistence_check
    then start_persistence_check env cas (cancel_persistence_check c)
    else handle_bits env cas c

-- `openr2_proto_handle_cas` from its call of `openr2_io_get_cas` on.
unfoldable pub read_bits : Env → Chan → Chan × Rc
read_bits env c =
    let (c1, got) = io_get_cas env c in
    elim got [
      | none ↦ (c1, failed)
      | some raw ↦ (new_bits env (bit_and raw env.r2context.cas_r2_bits) c1, done)
    ]

unfoldable pub handle_cas : Env → Chan → Chan × Rc
handle_cas env c = elim c.cas_persistence_check_signal [
  | none ↦ read_bits env c
  | some cas ↦
      if int_nonzero c.timer_ids.cas_persistence_check
      then read_bits env c
      else (handle_bits env cas (record c { cas_persistence_check_signal = none }), done)
]

-- `cas_persistence_check_signal == cas`
abbrev pub is_checked : Option ℕ → ℕ → Bool
is_checked none cas = Bool.false
is_checked (some s) cas = s == cas

-- The timer's callback.
unfoldable pub persistence_check_expired : Env → Chan → Chan
persistence_check_expired env c =
    let c1 = record c { timer_ids = record (c.timer_ids) { cas_persistence_check = pos 0 } } in
    let (c2, got) = io_get_cas env c1 in
    elim got [
      | none ↦ c2
      | some raw ↦
          (let cas = bit_and raw env.r2context.cas_r2_bits in
            if is_checked c2.cas_persistence_check_signal cas
            then (handle_cas env c2).0
            else if c2.cas_read == cas
            then record c2 { cas_persistence_check_signal = none }
            else start_persistence_check env cas c2)
    ]
