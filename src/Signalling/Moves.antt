-- ===== src/Signalling/Moves.antt =====
-- The moves that the switch of openr2_proto_handle_cas allows: the diagram of Signalling.Diagram.
use openr.Prelude.{ℕ, true, false, ◌≡◌, ◌∙◌, arith}
use openr.Types.{CasState, Cause, ProtocolError}
use openr.Chan.{Chan, Env}
use openr.Proto.Incoming.{
  ack_call, begin_collecting, init_mf_detector, init_dtmf_detector, handle_incoming_call,
}
use openr.Proto.Forward.Accept.{start_r2_answer, answer_received}
use openr.Proto.Clear.{send_clear_forward}
use openr.Proto.Cas.Dispatch.{
  invalid_bits, check_backward_disconnection, disconnection_or_invalid, cas_idle, cas_called,
  cancel_r2_seize, start_dtmf_dial, seize_acknowledged, cas_seize_txd, cas_double_seizure,
  cas_clear_back_txd, cas_accept_rxd, dtmf_answer_received, cas_seize_ack_rxd, start_metering_pulse,
  maybe_metering_pulse, cas_answer_rxd, cas_wait_idle, cas_clear_fwd_txd, cas_clear_back_rxd,
  cas_blocked, cas_init, dispatch_cas,
}
use openr.Signalling.Diagram.{CasMoves}
use openr.Signalling.{
  IsQuiet, r2_state-cancel_timer, r2_state-set_cas_signal, r2_state-turn_off_mf_engine,
  r2_state-emit, r2_state-add_timer, r2_state-handle_protocol_error, r2_state-report_call_end,
  r2_state-report_call_disconnection, r2_state-mf_send_dnis,
}

module _ (env : Env) (quiet : IsQuiet env) where
  invalid_bits_idle :
      (reason : ProtocolError) (c : Chan) → (invalid_bits env reason c).r2_state ≡ CasState.idle
  unfolding invalid_bits
  invalid_bits_idle reason c = r2_state-handle_protocol_error env quiet reason _

  r2_state-begin_collecting : (c : Chan) → CasMoves CasState.idle (begin_collecting env c).r2_state
  unfolding begin_collecting ack_call
  r2_state-begin_collecting c =
      grind (arith, r2_state-emit, r2_state-set_cas_signal, r2_state-handle_protocol_error)

  r2_state-handle_incoming_call :
      (c : Chan) → CasMoves CasState.idle (handle_incoming_call env c).r2_state
  unfolding handle_incoming_call init_mf_detector init_dtmf_detector
  r2_state-handle_incoming_call c =
      grind (arith, r2_state-begin_collecting, r2_state-handle_protocol_error)

  r2_state-send_clear_forward :
      (c : Chan) → (send_clear_forward env c).0.r2_state ≡ CasState.clear_fwd_txd
  unfolding send_clear_forward
  r2_state-send_clear_forward c =
      r2_state-set_cas_signal env quiet _ _ ∙ r2_state-turn_off_mf_engine env _

  r2_state-answer_received : (c : Chan) → (answer_received env c).r2_state ≡ CasState.answer_rxd
  unfolding answer_received
  r2_state-answer_received c = r2_state-emit env quiet _ _ ∙ r2_state-turn_off_mf_engine env _

  r2_state-seize_acknowledged :
      (c : Chan) → CasMoves CasState.seize_txd (seize_acknowledged env c).r2_state
  unfolding seize_acknowledged start_r2_answer start_dtmf_dial
  r2_state-seize_acknowledged c =
      grind (arith, r2_state-emit, r2_state-add_timer, r2_state-mf_send_dnis)

  r2_state-disconnection :
      (cas : ℕ) (c : Chan)
      → CasMoves CasState.accept_rxd (disconnection_or_invalid env cas c).r2_state
  unfolding disconnection_or_invalid check_backward_disconnection
  r2_state-disconnection cas c =
      grind (arith, r2_state-report_call_disconnection, invalid_bits_idle)

  r2_state-dtmf_answer_received :
      (c : Chan) → (dtmf_answer_received env c).r2_state ≡ CasState.answer_rxd
  unfolding dtmf_answer_received
  r2_state-dtmf_answer_received c = r2_state-emit env quiet _ _

  r2_state-maybe_metering_pulse :
      (cause : Cause) (c : Chan) → (maybe_metering_pulse env cause c).r2_state ≡ c.r2_state
  unfolding maybe_metering_pulse start_metering_pulse
  r2_state-maybe_metering_pulse cause c =
      grind (arith, r2_state-add_timer, r2_state-report_call_disconnection)

  r2_state-cancel_r2_seize : (c : Chan) → (cancel_r2_seize c).r2_state ≡ c.r2_state
  unfolding cancel_r2_seize
  r2_state-cancel_r2_seize c = r2_state-cancel_timer c.timer_ids.r2_seize c

  idle-CasMoves :
      (cas : ℕ) (c : Chan)
      → c.r2_state ≡ CasState.idle
      → CasMoves CasState.idle (cas_idle env cas c).r2_state
  unfolding cas_idle
  idle-CasMoves cas c h =
      grind (arith, r2_state-emit, r2_state-handle_incoming_call, invalid_bits_idle)

  seize_ack_txd-CasMoves :
      (cas : ℕ) (c : Chan) → CasMoves CasState.seize_ack_txd (cas_called env cas c).r2_state
  unfolding cas_called
  seize_ack_txd-CasMoves cas c =
      grind (arith, r2_state-report_call_disconnection, invalid_bits_idle)

  answer_txd-CasMoves :
      (cas : ℕ) (c : Chan) → CasMoves CasState.answer_txd (cas_called env cas c).r2_state
  unfolding cas_called
  answer_txd-CasMoves cas c = grind (arith, r2_state-report_call_disconnection, invalid_bits_idle)

  executing_double_answer-CasMoves :
      (cas : ℕ) (c : Chan)
      → CasMoves CasState.executing_double_answer (cas_called env cas c).r2_state
  unfolding cas_called
  executing_double_answer-CasMoves cas c =
      grind (arith, r2_state-report_call_disconnection, invalid_bits_idle)

  seize_txd-CasMoves :
      (cas : ℕ) (c : Chan) → CasMoves CasState.seize_txd (cas_seize_txd env false cas c).r2_state
  unfolding cas_seize_txd
  seize_txd-CasMoves cas c = grind (
    arith, r2_state-report_call_disconnection, invalid_bits_idle, r2_state-send_clear_forward,
    r2_state-seize_acknowledged, r2_state-cancel_r2_seize,
  )

  seize_txd_clear_fwd_pending-CasMoves :
      (cas : ℕ) (c : Chan)
      → CasMoves CasState.seize_txd_clear_fwd_pending (cas_seize_txd env true cas c).r2_state
  unfolding cas_seize_txd
  seize_txd_clear_fwd_pending-CasMoves cas c = grind (
    arith, r2_state-report_call_disconnection, invalid_bits_idle, r2_state-send_clear_forward,
    r2_state-seize_acknowledged, r2_state-cancel_r2_seize,
  )

  double_seizure-CasMoves :
      (cas : ℕ) (c : Chan)
      → CasMoves CasState.double_seizure (cas_double_seizure env false cas c).r2_state
  unfolding cas_double_seizure
  double_seizure-CasMoves cas c = grind (arith, r2_state-report_call_end, invalid_bits_idle)

  double_seizure_clear_fwd_pending-CasMoves :
      (cas : ℕ) (c : Chan)
      → CasMoves CasState.double_seizure_clear_fwd_pending
          (cas_double_seizure env true cas c).r2_state
  unfolding cas_double_seizure
  double_seizure_clear_fwd_pending-CasMoves cas c =
      grind (arith, r2_state-report_call_end, invalid_bits_idle)

  clear_back_txd-CasMoves :
      (cas : ℕ) (c : Chan)
      → CasMoves CasState.clear_back_txd (cas_clear_back_txd env cas c).r2_state
  unfolding cas_clear_back_txd
  clear_back_txd-CasMoves cas c = grind (arith, r2_state-report_call_end, invalid_bits_idle)

  forced_release_txd-CasMoves :
      (cas : ℕ) (c : Chan)
      → CasMoves CasState.forced_release_txd (cas_clear_back_txd env cas c).r2_state
  unfolding cas_clear_back_txd
  forced_release_txd-CasMoves cas c = grind (arith, r2_state-report_call_end, invalid_bits_idle)

  accept_rxd-CasMoves :
      (cas : ℕ) (c : Chan) → CasMoves CasState.accept_rxd (cas_accept_rxd env cas c).r2_state
  unfolding cas_accept_rxd
  accept_rxd-CasMoves cas c = grind (arith, r2_state-answer_received, r2_state-disconnection)

  seize_ack_rxd-CasMoves :
      (cas : ℕ) (c : Chan) → CasMoves CasState.seize_ack_rxd (cas_seize_ack_rxd env cas c).r2_state
  unfolding cas_seize_ack_rxd check_backward_disconnection
  seize_ack_rxd-CasMoves cas c =
      grind (
        arith, r2_state-report_call_disconnection, r2_state-dtmf_answer_received, invalid_bits_idle,
      )

  answer_rxd_mf_pending-CasMoves :
      (cas : ℕ) (c : Chan)
      → CasMoves CasState.answer_rxd_mf_pending (cas_answer_rxd env cas c).r2_state
  unfolding cas_answer_rxd
  answer_rxd_mf_pending-CasMoves cas c =
      grind (
        arith, r2_state-maybe_metering_pulse, r2_state-report_call_disconnection, invalid_bits_idle,
      )

  answer_rxd-CasMoves :
      (cas : ℕ) (c : Chan) → CasMoves CasState.answer_rxd (cas_answer_rxd env cas c).r2_state
  unfolding cas_answer_rxd
  answer_rxd-CasMoves cas c =
      grind (
        arith, r2_state-maybe_metering_pulse, r2_state-report_call_disconnection, invalid_bits_idle,
      )

  clear_back_tone_rxd-CasMoves :
      (cas : ℕ) (c : Chan)
      → CasMoves CasState.clear_back_tone_rxd (cas_wait_idle env cas c).r2_state
  unfolding cas_wait_idle
  clear_back_tone_rxd-CasMoves cas c = grind (arith, r2_state-report_call_end, invalid_bits_idle)

  clear_back_after_clear_fwd_rxd-CasMoves :
      (cas : ℕ) (c : Chan)
      → CasMoves CasState.clear_back_after_clear_fwd_rxd (cas_wait_idle env cas c).r2_state
  unfolding cas_wait_idle
  clear_back_after_clear_fwd_rxd-CasMoves cas c =
      grind (arith, r2_state-report_call_end, invalid_bits_idle)

  clear_fwd_txd-CasMoves :
      (cas : ℕ) (c : Chan) → CasMoves CasState.clear_fwd_txd (cas_clear_fwd_txd env cas c).r2_state
  unfolding cas_clear_fwd_txd check_backward_disconnection
  clear_fwd_txd-CasMoves cas c = grind (arith, r2_state-report_call_end, invalid_bits_idle)

  clear_back_rxd-CasMoves :
      (cas : ℕ) (c : Chan)
      → CasMoves CasState.clear_back_rxd (cas_clear_back_rxd env cas c).r2_state
  unfolding cas_clear_back_rxd
  clear_back_rxd-CasMoves cas c = grind (arith, r2_state-emit, invalid_bits_idle)

  forced_release_rxd-CasMoves :
      (cas : ℕ) (c : Chan)
      → CasMoves CasState.forced_release_rxd (cas_clear_back_rxd env cas c).r2_state
  unfolding cas_clear_back_rxd
  forced_release_rxd-CasMoves cas c = grind (arith, r2_state-emit, invalid_bits_idle)

  blocked-CasMoves :
      (cas : ℕ) (c : Chan)
      → c.r2_state ≡ CasState.blocked
      → CasMoves CasState.blocked (cas_blocked env cas c).r2_state
  unfolding cas_blocked
  blocked-CasMoves cas c h = grind (arith, r2_state-emit)

  init-CasMoves :
      (cas : ℕ) (c : Chan)
      → c.r2_state ≡ CasState.init
      → CasMoves CasState.init (cas_init env cas c).r2_state
  unfolding cas_init
  init-CasMoves cas c h = grind (arith, r2_state-emit, invalid_bits_idle)

  pub dispatch_cas-CasMoves :
      (s : CasState) (cas : ℕ) (c : Chan)
      → c.r2_state ≡ s
      → CasMoves s (dispatch_cas env s cas c).r2_state
  unfolding dispatch_cas
  dispatch_cas-CasMoves CasState.idle cas c h = idle-CasMoves cas c h
  dispatch_cas-CasMoves CasState.seize_ack_txd cas c h = seize_ack_txd-CasMoves cas c
  dispatch_cas-CasMoves CasState.answer_txd cas c h = answer_txd-CasMoves cas c
  dispatch_cas-CasMoves CasState.executing_double_answer cas c h =
      executing_double_answer-CasMoves cas c
  dispatch_cas-CasMoves CasState.seize_txd cas c h = seize_txd-CasMoves cas c
  dispatch_cas-CasMoves CasState.seize_txd_clear_fwd_pending cas c h =
      seize_txd_clear_fwd_pending-CasMoves cas c
  dispatch_cas-CasMoves CasState.double_seizure cas c h = double_seizure-CasMoves cas c
  dispatch_cas-CasMoves CasState.double_seizure_clear_fwd_pending cas c h =
      double_seizure_clear_fwd_pending-CasMoves cas c
  dispatch_cas-CasMoves CasState.clear_back_txd cas c h = clear_back_txd-CasMoves cas c
  dispatch_cas-CasMoves CasState.forced_release_txd cas c h = forced_release_txd-CasMoves cas c
  dispatch_cas-CasMoves CasState.accept_rxd cas c h = accept_rxd-CasMoves cas c
  dispatch_cas-CasMoves CasState.seize_ack_rxd cas c h = seize_ack_rxd-CasMoves cas c
  dispatch_cas-CasMoves CasState.answer_rxd_mf_pending cas c h =
      answer_rxd_mf_pending-CasMoves cas c
  dispatch_cas-CasMoves CasState.answer_rxd cas c h = answer_rxd-CasMoves cas c
  dispatch_cas-CasMoves CasState.clear_back_tone_rxd cas c h = clear_back_tone_rxd-CasMoves cas c
  dispatch_cas-CasMoves CasState.clear_back_after_clear_fwd_rxd cas c h =
      clear_back_after_clear_fwd_rxd-CasMoves cas c
  dispatch_cas-CasMoves CasState.clear_fwd_txd cas c h = clear_fwd_txd-CasMoves cas c
  dispatch_cas-CasMoves CasState.clear_back_rxd cas c h = clear_back_rxd-CasMoves cas c
  dispatch_cas-CasMoves CasState.forced_release_rxd cas c h = forced_release_rxd-CasMoves cas c
  dispatch_cas-CasMoves CasState.blocked cas c h = blocked-CasMoves cas c h
  dispatch_cas-CasMoves CasState.init cas c h = init-CasMoves cas c h
  dispatch_cas-CasMoves CasState.invalid_state cas c h = invalid_bits_idle _ c
  dispatch_cas-CasMoves CasState.clear_fwd_rxd cas c h = invalid_bits_idle _ c
