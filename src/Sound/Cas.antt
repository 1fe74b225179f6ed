-- ===== src/Sound/Cas.antt =====
-- Soundness of the operations of Proto/Clear, Proto/Incoming and Proto/Cas.
use openr.Prelude.{if_ind, ℕ, Bool, arith}
use openr.Types.{CasSignal, CasState, ProtocolError, Cause}
use openr.Chan.{Chan, Env, Event}
use openr.Proto.Clear.{
  send_clear_backward, send_forced_release, send_clear_forward, start_double_answer,
  double_answer_handler,
}
use openr.Proto.Incoming.{
  ack_call, begin_collecting, init_mf_detector, init_dtmf_detector, handle_incoming_call,
}
use openr.Proto.Cas.Dispatch.{
  rx, invalid_bits, disconnection_or_invalid, cas_idle, cas_called, cancel_r2_seize,
  start_dtmf_dial, seize_acknowledged, cas_seize_txd, cas_double_seizure, cas_clear_back_txd,
  cas_accept_rxd, dtmf_answer_received, cas_seize_ack_rxd, start_metering_pulse,
  maybe_metering_pulse, cas_answer_rxd, cas_wait_idle, cas_clear_fwd_txd, cancel_metering_pulse,
  cas_clear_back_rxd, cas_blocked, cas_init, dispatch_cas,
}
use openr.Proto.Cas.{
  handle_bits, cancel_persistence_check, start_persistence_check, bits_unchanged, new_bits,
  read_bits, handle_cas, persistence_check_expired,
}
use openr.Sound.{
  IsSound, IsPolite, io_get_cas-IsSound, cancel_timer-IsSound, emit-IsSound, add_timer-IsSound,
}
use openr.Sound.Line.{
  open_logfile-IsSound, turn_off_mf_engine-IsSound, set_cas_signal-IsSound,
  handle_protocol_error-IsSound, report_call_disconnection-IsSound, report_call_end-IsSound,
}
use openr.Sound.Forward.{
  mf_send_dnis-IsSound, start_r2_answer-IsSound, cancel_r2_answer-IsSound, answer_received-IsSound,
}

module _ (env : Env) (polite : IsPolite env) where
  pub send_clear_backward-IsSound : (c : Chan) → IsSound c → IsSound ((send_clear_backward env c).0)
  unfolding send_clear_backward
  send_clear_backward-IsSound c v =
      grind (arith, turn_off_mf_engine-IsSound, set_cas_signal-IsSound)

  pub send_forced_release-IsSound : (c : Chan) → IsSound c → IsSound ((send_forced_release env c).0)
  unfolding send_forced_release
  send_forced_release-IsSound c v =
      grind (arith, turn_off_mf_engine-IsSound, set_cas_signal-IsSound)

  pub send_clear_forward-IsSound : (c : Chan) → IsSound c → IsSound ((send_clear_forward env c).0)
  unfolding send_clear_forward
  send_clear_forward-IsSound c v =
      grind (arith, turn_off_mf_engine-IsSound, set_cas_signal-IsSound, add_timer-IsSound)

  pub start_double_answer-IsSound : (c : Chan) → IsSound c → IsSound (start_double_answer env c)
  unfolding start_double_answer
  start_double_answer-IsSound c v = grind (arith, add_timer-IsSound)

  pub double_answer_handler-IsSound : (c : Chan) → IsSound c → IsSound (double_answer_handler env c)
  unfolding double_answer_handler
  double_answer_handler-IsSound c v =
      grind
        (arith, send_clear_backward-IsSound, set_cas_signal-IsSound, start_double_answer-IsSound)

  pub ack_call-IsSound : (c : Chan) → IsSound c → IsSound ((ack_call env c).0)
  unfolding ack_call
  ack_call-IsSound c v = grind (arith, set_cas_signal-IsSound, handle_protocol_error-IsSound)

  pub begin_collecting-IsSound : (c : Chan) → IsSound c → IsSound (begin_collecting env c)
  unfolding begin_collecting
  begin_collecting-IsSound c v = grind (arith, emit-IsSound, ack_call-IsSound)

  pub init_mf_detector-IsSound : (c : Chan) → IsSound c → IsSound (init_mf_detector env c)
  unfolding init_mf_detector
  init_mf_detector-IsSound c v =
      grind (arith, begin_collecting-IsSound, handle_protocol_error-IsSound)

  pub init_dtmf_detector-IsSound : (c : Chan) → IsSound c → IsSound (init_dtmf_detector env c)
  unfolding init_dtmf_detector
  init_dtmf_detector-IsSound c v =
      grind (arith, begin_collecting-IsSound, handle_protocol_error-IsSound)

  pub handle_incoming_call-IsSound : (c : Chan) → IsSound c → IsSound (handle_incoming_call env c)
  unfolding handle_incoming_call
  handle_incoming_call-IsSound c v =
      grind (arith, open_logfile-IsSound, init_mf_detector-IsSound, init_dtmf_detector-IsSound)

  pub invalid_bits-IsSound :
      (e : ProtocolError) (c : Chan) → IsSound c → IsSound (invalid_bits env e c)
  unfolding invalid_bits
  invalid_bits-IsSound e c v = grind (arith, handle_protocol_error-IsSound)

  pub disconnection_or_invalid-IsSound :
      (cas : ℕ) (c : Chan) → IsSound c → IsSound (disconnection_or_invalid env cas c)
  unfolding disconnection_or_invalid
  disconnection_or_invalid-IsSound cas c v =
      grind (arith, report_call_disconnection-IsSound, invalid_bits-IsSound)

  pub cas_idle-IsSound : (cas : ℕ) (c : Chan) → IsSound c → IsSound (cas_idle env cas c)
  unfolding cas_idle
  cas_idle-IsSound cas c v = ground (
    arith,
    emit-IsSound env polite Event.on_line_blocked (rx CasSignal.block c),
    emit-IsSound env polite Event.on_line_idle (rx CasSignal.idle c),
    handle_incoming_call-IsSound (rx CasSignal.seize c),
    invalid_bits-IsSound ProtocolError.invalid_cas_bits c v,
  )

  pub cas_called-IsSound : (cas : ℕ) (c : Chan) → IsSound c → IsSound (cas_called env cas c)
  unfolding cas_called
  cas_called-IsSound cas c v =
      grind (arith, report_call_disconnection-IsSound, invalid_bits-IsSound)

  pub cancel_r2_seize-IsSound : (c : Chan) → IsSound c → IsSound (cancel_r2_seize c)
  unfolding cancel_r2_seize
  cancel_r2_seize-IsSound c v = grind (arith, cancel_timer-IsSound)

  pub start_dtmf_dial-IsSound : (c : Chan) → IsSound c → IsSound (start_dtmf_dial env c)
  unfolding start_dtmf_dial
  start_dtmf_dial-IsSound c v = grind (arith, add_timer-IsSound)

  pub seize_acknowledged-IsSound : (c : Chan) → IsSound c → IsSound (seize_acknowledged env c)
  unfolding seize_acknowledged
  seize_acknowledged-IsSound c v =
      grind (
        arith, start_dtmf_dial-IsSound, start_r2_answer-IsSound, mf_send_dnis-IsSound, emit-IsSound,
      )

  pub cas_seize_txd-IsSound :
      (pending : Bool) (cas : ℕ) (c : Chan) → IsSound c → IsSound (cas_seize_txd env pending cas c)
  unfolding cas_seize_txd
  cas_seize_txd-IsSound pending cas c v =
      let w = cancel_r2_seize-IsSound (rx CasSignal.seize_ack c) (ground arith) in
      if_ind IsSound _
        (if_ind IsSound pending (send_clear_forward-IsSound _ w) (seize_acknowledged-IsSound _ w))
        (if_ind IsSound _
          (report_call_disconnection-IsSound env polite _ _
            (cancel_r2_seize-IsSound _ (ground arith)))
          (invalid_bits-IsSound _ c v))

  pub cas_double_seizure-IsSound :
      (pending : Bool) (cas : ℕ) (c : Chan)
      → IsSound c
      → IsSound (cas_double_seizure env pending cas c)
  unfolding cas_double_seizure
  cas_double_seizure-IsSound pending cas c v =
      grind (arith, report_call_end-IsSound, invalid_bits-IsSound)

  pub cas_clear_back_txd-IsSound :
      (cas : ℕ) (c : Chan) → IsSound c → IsSound (cas_clear_back_txd env cas c)
  unfolding cas_clear_back_txd
  cas_clear_back_txd-IsSound cas c v = grind (arith, report_call_end-IsSound, invalid_bits-IsSound)

  pub cas_accept_rxd-IsSound : (cas : ℕ) (c : Chan) → IsSound c → IsSound (cas_accept_rxd env cas c)
  unfolding cas_accept_rxd
  cas_accept_rxd-IsSound cas c v =
      grind (arith, answer_received-IsSound, disconnection_or_invalid-IsSound)

  pub dtmf_answer_received-IsSound : (c : Chan) → IsSound c → IsSound (dtmf_answer_received env c)
  unfolding dtmf_answer_received
  dtmf_answer_received-IsSound c v = grind (arith, cancel_r2_answer-IsSound, emit-IsSound)

  pub cas_seize_ack_rxd-IsSound :
      (cas : ℕ) (c : Chan) → IsSound c → IsSound (cas_seize_ack_rxd env cas c)
  unfolding cas_seize_ack_rxd
  cas_seize_ack_rxd-IsSound cas c v =
      grind (
        arith, report_call_disconnection-IsSound, dtmf_answer_received-IsSound,
        invalid_bits-IsSound,
      )

  pub start_metering_pulse-IsSound : (c : Chan) → IsSound c → IsSound (start_metering_pulse env c)
  unfolding start_metering_pulse
  start_metering_pulse-IsSound c v = grind (arith, add_timer-IsSound)

  pub maybe_metering_pulse-IsSound :
      (cause : Cause) (c : Chan) → IsSound c → IsSound (maybe_metering_pulse env cause c)
  unfolding maybe_metering_pulse
  maybe_metering_pulse-IsSound cause c v =
      grind (arith, start_metering_pulse-IsSound, report_call_disconnection-IsSound)

  pub cas_answer_rxd-IsSound : (cas : ℕ) (c : Chan) → IsSound c → IsSound (cas_answer_rxd env cas c)
  unfolding cas_answer_rxd
  cas_answer_rxd-IsSound cas c v = ground (
    arith,
    maybe_metering_pulse-IsSound Cause.normal_clearing
        (record (rx CasSignal.clear_back c) { r2_state = CasState.clear_back_rxd }),
    report_call_disconnection-IsSound env polite Cause.normal_clearing
        (record (rx CasSignal.clear_forward c) { r2_state = CasState.clear_fwd_rxd }),
    maybe_metering_pulse-IsSound Cause.forced_release
        (record (rx CasSignal.forced_release c) { r2_state = CasState.forced_release_rxd }),
    invalid_bits-IsSound ProtocolError.invalid_cas_bits c v,
  )

  pub cas_wait_idle-IsSound : (cas : ℕ) (c : Chan) → IsSound c → IsSound (cas_wait_idle env cas c)
  unfolding cas_wait_idle
  cas_wait_idle-IsSound cas c v = grind (arith, report_call_end-IsSound, invalid_bits-IsSound)

  pub cas_clear_fwd_txd-IsSound :
      (cas : ℕ) (c : Chan) → IsSound c → IsSound (cas_clear_fwd_txd env cas c)
  unfolding cas_clear_fwd_txd
  cas_clear_fwd_txd-IsSound cas c v = grind (arith, report_call_end-IsSound, invalid_bits-IsSound)

  pub cancel_metering_pulse-IsSound : (c : Chan) → IsSound c → IsSound (cancel_metering_pulse c)
  unfolding cancel_metering_pulse
  cancel_metering_pulse-IsSound c v = grind (arith, cancel_timer-IsSound)

  pub cas_clear_back_rxd-IsSound :
      (cas : ℕ) (c : Chan) → IsSound c → IsSound (cas_clear_back_rxd env cas c)
  unfolding cas_clear_back_rxd
  cas_clear_back_rxd-IsSound cas c v =
      grind (arith, emit-IsSound, cancel_metering_pulse-IsSound, invalid_bits-IsSound)

  pub cas_blocked-IsSound : (cas : ℕ) (c : Chan) → IsSound c → IsSound (cas_blocked env cas c)
  unfolding cas_blocked
  cas_blocked-IsSound cas c v = grind (arith, emit-IsSound)

  pub cas_init-IsSound : (cas : ℕ) (c : Chan) → IsSound c → IsSound (cas_init env cas c)
  unfolding cas_init
  cas_init-IsSound cas c v = ground (
    arith,
    emit-IsSound env polite Event.on_line_blocked (rx CasSignal.block c),
    emit-IsSound env polite Event.on_line_idle (rx CasSignal.idle c),
    invalid_bits-IsSound ProtocolError.invalid_r2_state c v,
  )

  pub dispatch_cas-IsSound :
      (s : CasState) (cas : ℕ) (c : Chan) → IsSound c → IsSound (dispatch_cas env s cas c)
  unfolding dispatch_cas
  dispatch_cas-IsSound s cas c v = grind (
    arith, cas_idle-IsSound, cas_called-IsSound, cas_seize_txd-IsSound, cas_double_seizure-IsSound,
    cas_clear_back_txd-IsSound, cas_accept_rxd-IsSound, cas_seize_ack_rxd-IsSound,
    cas_answer_rxd-IsSound, cas_wait_idle-IsSound, cas_clear_fwd_txd-IsSound,
    cas_clear_back_rxd-IsSound, cas_blocked-IsSound, cas_init-IsSound, invalid_bits-IsSound,
  )

  pub handle_bits-IsSound : (cas : ℕ) (c : Chan) → IsSound c → IsSound (handle_bits env cas c)
  unfolding handle_bits
  handle_bits-IsSound cas c v = grind (arith, dispatch_cas-IsSound)

  pub cancel_persistence_check-IsSound :
      (c : Chan) → IsSound c → IsSound (cancel_persistence_check c)
  unfolding cancel_persistence_check
  cancel_persistence_check-IsSound c v = grind (arith, cancel_timer-IsSound)

  pub start_persistence_check-IsSound :
      (cas : ℕ) (c : Chan) → IsSound c → IsSound (start_persistence_check env cas c)
  unfolding start_persistence_check
  start_persistence_check-IsSound cas c v = grind (arith, add_timer-IsSound)

  pub new_bits-IsSound : (cas : ℕ) (c : Chan) → IsSound c → IsSound (new_bits env cas c)
  unfolding new_bits bits_unchanged
  new_bits-IsSound cas c v = grind (
    arith, cancel_persistence_check-IsSound, start_persistence_check-IsSound, handle_bits-IsSound,
  )

  pub read_bits-IsSound : (c : Chan) → IsSound c → IsSound ((read_bits env c).0)
  unfolding read_bits
  read_bits-IsSound c v = grind (arith, io_get_cas-IsSound, new_bits-IsSound)

  pub handle_cas-IsSound : (c : Chan) → IsSound c → IsSound ((handle_cas env c).0)
  unfolding handle_cas
  handle_cas-IsSound c v = grind (arith, read_bits-IsSound, handle_bits-IsSound)

  pub persistence_check_expired-IsSound :
      (c : Chan) → IsSound c → IsSound (persistence_check_expired env c)
  unfolding persistence_check_expired
  persistence_check_expired-IsSound c v =
      grind (arith, io_get_cas-IsSound, handle_cas-IsSound, start_persistence_check-IsSound)
