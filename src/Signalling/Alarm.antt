-- ===== src/Signalling/Alarm.antt =====
-- The line while an alarm lasts, and when it begins.
use openr.Prelude.{
  true, ℕ, ◌≡◌, Option, none, some, if◌then◌else◌, arith, pos, bit_and, int_nonzero, Option-cases,
  inl, inr,
}
use openr.Types.{Rc}
use openr.Chan.{Chan, Env}
use openr.Chan.Device.{io_get_cas}
use openr.Proto.Cas.{handle_bits, new_bits, bits_unchanged, read_bits, handle_cas}

-- An alarm, and no persistence check configured or under way.
abbrev IsDeaf : Env → Chan → Type 0
IsDeaf env c =
    (c.inalarm ≡ true)
    × (env.r2context.timers.cas_persistence_check ≡ 0)
    × (c.timer_ids.cas_persistence_check ≡ pos 0)

new_bits_deaf : (env : Env) (cas : ℕ) (c : Chan) → IsDeaf env c → new_bits env cas c ≡ c
unfolding new_bits bits_unchanged handle_bits
new_bits_deaf env cas c d = ground (arith, d)

-- The bits were read, or the failure of the read is all that comes of the event.
read_bits_deaf : (env : Env) (c : Chan) → IsDeaf env c → (read_bits env c).0 ≡ (io_get_cas env c).0
unfolding read_bits io_get_cas
read_bits_deaf env c d = elim (Option-cases (env.get_cas c)) [
  | inl e ↦ ground (arith, e)
  | inr (raw, e) ↦ ground (
    arith,
    e,
    new_bits_deaf env (bit_and raw env.r2context.cas_r2_bits) (record c { cas_raw_read = raw }) d,
  )
]

handle_checked_deaf :
    (env : Env) (checked : Option ℕ) (c : Chan)
    → checked ≡ none
    → IsDeaf env c
    → let r : Chan × Rc = elim checked [
      | none ↦ read_bits env c
      | some cas ↦
          if int_nonzero c.timer_ids.cas_persistence_check
          then read_bits env c
          else (handle_bits env cas (record c { cas_persistence_check_signal = none }), Rc.done)
    ] in
      r.0 ≡ (io_get_cas env c).0
handle_checked_deaf env none c h d = read_bits_deaf env c d
handle_checked_deaf env (some cas) c h d = cc

-- While an alarm lasts, and with no persistence check configured or under way, an event of the line
-- does no more than the read of its bits: no signal is taken and no state changes. The user is told
-- nothing but the failure of that read, where the I/O interface tells it.
pub handle_cas_inalarm :
    (env : Env) (c : Chan)
    → c.inalarm ≡ true
    → env.r2context.timers.cas_persistence_check ≡ 0
    → c.timer_ids.cas_persistence_check ≡ pos 0
    → c.cas_persistence_check_signal ≡ none
    → (handle_cas env c).0 ≡ (io_get_cas env c).0
unfolding handle_cas
handle_cas_inalarm env c alarm nocheck notimer nosignal =
    handle_checked_deaf env c.cas_persistence_check_signal c nosignal (alarm, nocheck, notimer)
