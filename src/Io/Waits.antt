-- ===== src/Io/Waits.antt =====
-- What the Zaptel backend waits for, and the main loop on a channel with nothing to wait for.
use openr.Prelude.{◌≡◌, refl, ◌∙◌, ap, true, false, if_ind, Option, none, some, List, ◌∷◌}
use openr.Types.{MfState, failed}
use openr.Chan.{Chan, Env}
use openr.Media.{
  Devices, Events, Mask, finished, process_rounds, process_round, wanted_events, after_wait,
  after_round,
}
use openr.Io.{ZapFlags, zt_wait}

abbrev pub mf_only : Mask
mf_only = record { oob = false; mf = true }

-- The channel has nothing to read or to write, and no alarm.
pub record IsIdle (c : Chan) : Type 0 where
  pub alarm : c.inalarm ≡ false
  pub reading : c.read_enabled ≡ false
  pub dialing : c.dialing_dtmf ≡ false
  pub off : c.mf_state ≡ MfState.off_state

nothing_wanted :
    (m : Devices) (c : Chan)
    → IsIdle c
    → wanted_events m mf_only c ≡ record { oob = false; read = false; write = false }
unfolding wanted_events
nothing_wanted m c idle = rw (idle.alarm, idle.reading, idle.dialing, idle.off) refl

wait_fails :
    (ioctl : ZapFlags → Chan → Option ZapFlags) (env : Env) (c : Chan)
    → zt_wait env ioctl (record { oob = false; read = false; write = false }) false c ≡ (c, none)
unfolding zt_wait
wait_fails ioctl env c = refl

module _ (ioctl : ZapFlags → Chan → Option ZapFlags) (m : Devices)
    (wait : (e : Events) (d : Chan) → m.wait e d ≡ zt_wait m.env ioctl e false d) where
  idle_round : (c : Chan) → IsIdle c → process_round m mf_only c ≡ (c, finished failed)
  unfolding process_round
  idle_round c idle = ap (after_wait m) (
      if_ind (λ e. e ≡ (c, none)) m.env.r2context.has_io
        (ap (λ e. m.wait e c) (nothing_wanted m c idle) ∙ (wait _ c ∙ wait_fails ioctl m.env c))
        refl)

  -- The loop of openr2_chan_process_mf_signaling, on the Zaptel backend, ends with the result -1, an
  -- error, where the channel is out of alarm and there is nothing to do: no read is enabled, no DTMF
  -- is dialed and the MF engine is off.
  pub process_rounds_idle :
      (ms : List Devices) (c : Chan)
      → IsIdle c
      → process_rounds (m ∷ ms) mf_only c ≡ (c, some failed)
  unfolding process_rounds
  process_rounds_idle ms c idle =
      ap (λ out. after_round out (process_rounds ms mf_only out.0)) (idle_round c idle)
