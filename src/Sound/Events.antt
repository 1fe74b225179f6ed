-- ===== src/Sound/Events.antt =====
-- Soundness of what happens to a channel: tones, timers, alarms.
use openr.Prelude.{ℕ, pos, Bool, List, [], ◌∷◌, arith}
use openr.Chan.{Chan, Env, SchedTimer, TimerCallback}
use openr.Chan.Timers.{cancel_each}
use openr.Proto.Mf.{mf_back_resume_cycle, mf_fwd_safety_timeout_expired}
use openr.Proto.Forward.Accept.{r2_answer_timeout_expired}
use openr.Proto.Clear.{r2_set_call_down, r2_seize_persist_expired}
use openr.Proto.Tone.{
  check_threshold, handle_tone_on, handle_tone_off, tone_on, tone_off, handle_mf_tone,
}
use openr.Proto.Schedule.{
  r2_metering_pulse, run_callback, dispatch_timers, handle_timers, forget_signals,
  handle_alarm_state, handle_alarm_event,
}
use openr.Sound.Calls.{seize_timeout_expired-IsSound, start_dialing_dtmf-IsSound}
use openr.Sound.{IsSound, IsPolite, cancel_timer-IsSound, emit-IsSound}
use openr.Sound.Line.{
  set_idle-IsSound, set_blocked-IsSound, handle_protocol_error-IsSound,
  report_call_disconnection-IsSound, report_call_end-IsSound,
}
use openr.Sound.Mf.{set_silence-IsSound}
use openr.Sound.Forward.{handle_backward_mf_tone-IsSound, handle_backward_mf_silence-IsSound}
use openr.Sound.Backward.{
  handle_forward_mf_tone-IsSound, handle_forward_mf_silence-IsSound, ready_to_answer-IsSound,
  mf_back_cycle_timeout_expired-IsSound,
}
use openr.Sound.Cas.{
  send_clear_forward-IsSound, double_answer_handler-IsSound, handle_cas-IsSound,
  persistence_check_expired-IsSound,
}

module _ (env : Env) (polite : IsPolite env) where
  pub check_threshold-IsSound :
      (tone : ℕ) (c : Chan) → IsSound c → IsSound ((check_threshold env tone c).0)
  unfolding check_threshold
  check_threshold-IsSound tone c v = grind (arith)

  pub handle_tone_on-IsSound :
      (tone : ℕ) (c : Chan) → IsSound c → IsSound (handle_tone_on env tone c)
  unfolding handle_tone_on
  handle_tone_on-IsSound tone c v = grind (
    arith, handle_forward_mf_tone-IsSound, handle_backward_mf_tone-IsSound,
    handle_protocol_error-IsSound,
  )

  pub handle_tone_off-IsSound : (c : Chan) → IsSound c → IsSound (handle_tone_off env c)
  unfolding handle_tone_off
  handle_tone_off-IsSound c v = grind (
    arith, handle_forward_mf_silence-IsSound, handle_backward_mf_silence-IsSound,
    handle_protocol_error-IsSound,
  )

  pub tone_on-IsSound : (tone : ℕ) (c : Chan) → IsSound c → IsSound (tone_on env tone c)
  unfolding tone_on
  tone_on-IsSound tone c v =
      grind (arith, check_threshold-IsSound, handle_tone_on-IsSound, handle_protocol_error-IsSound)

  pub tone_off-IsSound : (c : Chan) → IsSound c → IsSound (tone_off env c)
  unfolding tone_off
  tone_off-IsSound c v = grind (arith, check_threshold-IsSound, handle_tone_off-IsSound)

  pub handle_mf_tone-IsSound :
      (tone : ℕ) (c : Chan) → IsSound c → IsSound (handle_mf_tone env tone c)
  unfolding handle_mf_tone
  handle_mf_tone-IsSound tone c v = grind (arith, tone_on-IsSound, tone_off-IsSound)

  pub r2_metering_pulse-IsSound : (c : Chan) → IsSound c → IsSound (r2_metering_pulse env c)
  unfolding r2_metering_pulse
  r2_metering_pulse-IsSound c v = grind (arith, report_call_disconnection-IsSound)

  pub run_callback-IsSound :
      (f : TimerCallback) (c : Chan) → IsSound c → IsSound (run_callback env f c)
  unfolding run_callback mf_fwd_safety_timeout_expired mf_back_resume_cycle
      r2_answer_timeout_expired r2_set_call_down r2_seize_persist_expired
  run_callback-IsSound f c v = grind (
    arith, set_silence-IsSound, handle_protocol_error-IsSound,
    mf_back_cycle_timeout_expired-IsSound, seize_timeout_expired-IsSound,
    send_clear_forward-IsSound, report_call_disconnection-IsSound, r2_metering_pulse-IsSound,
    double_answer_handler-IsSound, ready_to_answer-IsSound, persistence_check_expired-IsSound,
    start_dialing_dtmf-IsSound, report_call_end-IsSound,
  )

  pub dispatch_timers-IsSound :
      (ts : List SchedTimer) (c : Chan) → IsSound c → IsSound (dispatch_timers env ts c)
  unfolding dispatch_timers
  dispatch_timers-IsSound [] c v = v
  dispatch_timers-IsSound (t ∷ ts) c v =
      dispatch_timers-IsSound ts _ (run_callback-IsSound t.callback c v)

  pub cancel_each-IsSound :
      (ts : List SchedTimer) (c : Chan) → IsSound c → IsSound (cancel_each ts c)
  unfolding cancel_each
  cancel_each-IsSound [] c v = v
  cancel_each-IsSound (t ∷ ts) c v = cancel_each-IsSound ts _ (cancel_timer-IsSound (pos t.id) c v)

  pub handle_timers-IsSound : (c : Chan) → IsSound c → IsSound ((handle_timers env c).0)
  unfolding handle_timers
  handle_timers-IsSound c v = grind (arith, dispatch_timers-IsSound, cancel_each-IsSound)

  pub handle_alarm_state-IsSound : (c : Chan) → IsSound c → IsSound (handle_alarm_state env c)
  unfolding handle_alarm_state forget_signals
  handle_alarm_state-IsSound c v = grind (
    arith, handle_protocol_error-IsSound, handle_cas-IsSound, set_idle-IsSound, set_blocked-IsSound,
  )

  pub handle_alarm_event-IsSound :
      (on : Bool) (c : Chan) → IsSound c → IsSound (handle_alarm_event env on c)
  unfolding handle_alarm_event
  handle_alarm_event-IsSound on c v = grind (arith, emit-IsSound, handle_alarm_state-IsSound)
