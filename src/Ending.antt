-- ===== src/Ending.antt =====
-- How a call is taken back: a disconnection before the line answers, and the tone of a refusal.
pub mod Hangup
use openr.Prelude.{
  ◌<◌, ℕ, true, false, ◌≡◌, refl, ap, ◌∙◌, some, ◌∷◌, arith, bit_or, if_true_ind, ==_refl, ◌==◌,
}
use openr.Types.{CasSignal, CasState, Cause, Direction, MfState, done}
use openr.Chan.{Chan, Env, Action}
use openr.Chan.Timers.{cancel_timer}
use openr.Chan.Device.{io_set_cas}
use openr.Proto.Line.{r2_bits, set_cas_signal, turn_off_mf_engine, release_mf_engine}
use openr.Proto.Clear.{send_clear_forward}
use openr.Proto.Cas.Dispatch.{cas_seize_txd, dispatch_cas}
use openr.Proto.Calls.{
  is_call_idle, disconnect_forward, disconnect_call, cause_tone, disconnect_tone,
}
use openr.Context.Bounds.{HasTones}
use openr.Rest.{last_action, is_off_lem}

-- The line takes the bits that it is given.
abbrev pub TakesBits : Env → Type 0
TakesBits env =
    (env.r2context.has_io ≡ true) × ((c : Chan) (cas : ℕ) → env.set_cas_fails c cas ≡ false)

set_cas_signal_sent :
    (env : Env) (s : CasSignal) (c : Chan)
    → TakesBits env
    → let r = set_cas_signal env (some s) c in
      (r.1 ≡ done)
      × (r.0.cas_tx_signal ≡ some s)
      × (r.0.r2_state ≡ c.r2_state)
      × (r.0.mf_state ≡ c.mf_state)
      × (r.0.trace ≡ Action.tx_cas (bit_or (r2_bits env s) env.r2context.cas_nonr2_bits) ∷ c.trace)
unfolding set_cas_signal io_set_cas
set_cas_signal_sent env s c takes = ground (
  arith,
  takes.0,
  takes.1 (record c { cas_write = r2_bits env s; cas_tx_signal = some s })
      (bit_or (r2_bits env s) env.r2context.cas_nonr2_bits),
)

mf_state-turn_off_mf_engine :
    (env : Env) (c : Chan) → (turn_off_mf_engine env c).mf_state ≡ MfState.off_state
unfolding turn_off_mf_engine release_mf_engine cancel_timer
mf_state-turn_off_mf_engine env c = ground (arith, is_off_lem c.mf_state)

r2_state-turn_off_mf_engine :
    (env : Env) (c : Chan) → (turn_off_mf_engine env c).r2_state ≡ c.r2_state
unfolding turn_off_mf_engine release_mf_engine cancel_timer
r2_state-turn_off_mf_engine env c = ground arith

-- The bits of the clear forward are the last thing done, and the MF engine is off.
abbrev pub IsClearing : Env → Chan → Type 0
IsClearing env c =
    (c.r2_state ≡ CasState.clear_fwd_txd)
    × (c.cas_tx_signal ≡ some CasSignal.clear_forward)
    × (c.mf_state ≡ MfState.off_state)
    × (last_action c.trace
        ≡ some (
            Action.tx_cas
              (bit_or (r2_bits env CasSignal.clear_forward) env.r2context.cas_nonr2_bits)))

send_clear_forward-IsClearing :
    (env : Env) (c : Chan)
    → TakesBits env
    → ((send_clear_forward env c).1 ≡ done) × IsClearing env (send_clear_forward env c).0
unfolding send_clear_forward
send_clear_forward-IsClearing env c takes =
    let sent = set_cas_signal_sent env CasSignal.clear_forward _ takes in
    (
      sent.0,
      (
        sent.2 ∙ r2_state-turn_off_mf_engine env _,
        sent.1,
        sent.3 ∙ mf_state-turn_off_mf_engine env _,
        ap last_action sent.4,
      ),
    )

pending_seize_ack :
    (env : Env) (d : Chan)
    → TakesBits env
    → IsClearing env
        (dispatch_cas env CasState.seize_txd_clear_fwd_pending (r2_bits env CasSignal.seize_ack) d)
unfolding dispatch_cas cas_seize_txd
pending_seize_ack env d takes =
    if_true_ind (IsClearing env)
      (r2_bits env CasSignal.seize_ack == r2_bits env CasSignal.seize_ack) _ _
      (==_refl (r2_bits env CasSignal.seize_ack)) (send_clear_forward-IsClearing env _ takes).1

pending_disconnect :
    (env : Env) (cause : Cause) (c : Chan)
    → is_call_idle c.call_state ≡ false
    → c.direction ≡ Direction.forward
    → c.r2_state ≡ CasState.seize_txd
    → disconnect_call env cause c
      ≡ (record c { r2_state = CasState.seize_txd_clear_fwd_pending }, done)
unfolding disconnect_call disconnect_forward
pending_disconnect env cause c busy dir state = rw (busy, dir, state) refl

-- A call that is disconnected while its seize is not yet acknowledged sends nothing then; when the
-- acknowledgement comes, and the line takes bits, the bits of the clear forward are the last thing
-- done, with the MF engine off.
pub disconnect_call_pending :
    (env : Env) (cause : Cause) (c d : Chan)
    → TakesBits env
    → is_call_idle c.call_state ≡ false
    → c.direction ≡ Direction.forward
    → c.r2_state ≡ CasState.seize_txd
    → let out = disconnect_call env cause c in
      (out ≡ (record c { r2_state = CasState.seize_txd_clear_fwd_pending }, done))
      × IsClearing env (dispatch_cas env out.0.r2_state (r2_bits env CasSignal.seize_ack) d)
disconnect_call_pending env cause c d takes busy dir state =
    let out = pending_disconnect env cause c busy dir state in
    (out, rw out (pending_seize_ack env d takes))

-- With the tones that every variant configures, every cause of a refusal is told by a valid tone.
pub disconnect_tone_valid :
    (env : Env) (cause : Cause) → HasTones env.r2context → 0 < disconnect_tone env cause
unfolding disconnect_tone cause_tone
disconnect_tone_valid env cause v = ground (arith, v)
