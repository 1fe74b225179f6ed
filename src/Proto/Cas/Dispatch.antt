-- ===== src/Proto/Cas/Dispatch.antt =====
-- The switch on the CAS state, `handlecas` of openr2_proto_handle_cas. A state's clauses take the
-- bits as the source's tests do, in their order.
use openr.Prelude.{
  ℕ, ◌==◌, nonzero, if◌then◌else◌, pos, Bool, true, false, not, ◌&&◌, ◌||◌, Option, none, some, ◌∷◌,
}
use openr.Types.{CallState, CasSignal, CasState, Cause, MfGroup, ProtocolError}
use openr.Chan.{Chan, Env, Event, Action, TimerCallback}
use openr.Chan.Timers.{emit, add_timer, cancel_timer}
use openr.Proto.Line.{r2_bits, handle_protocol_error, report_call_disconnection, report_call_end}
use openr.Proto.Forward.Send.{mf_send_dnis}
use openr.Proto.Forward.Accept.{start_r2_answer, cancel_r2_answer, answer_received}
use openr.Proto.Clear.{send_clear_forward}
use openr.Proto.Incoming.{handle_incoming_call}

-- `CAS_LOG_RX(signal)`
abbrev pub rx : CasSignal → Chan → Chan
rx s c = record c { cas_rx_signal = some s }

-- `CAS_LOG_RX(INVALID)` and a protocol error.
unfoldable pub invalid_bits : Env → ProtocolError → Chan → Chan
invalid_bits env reason c = handle_protocol_error env reason (record c { cas_rx_signal = none })

-- The new state and the cause, if the bits end the call.
unfoldable pub check_backward_disconnection : Env → ℕ → Option (CasSignal × Cause × CasState)
check_backward_disconnection env cas =
    if cas == r2_bits env CasSignal.clear_back
    then some (CasSignal.clear_back, Cause.normal_clearing, CasState.clear_back_rxd)
    else if cas == r2_bits env CasSignal.forced_release
    then some (CasSignal.forced_release, Cause.forced_release, CasState.forced_release_rxd)
    else none

-- A disconnection, or bits that mean nothing here.
unfoldable pub disconnection_or_invalid : Env → ℕ → Chan → Chan
disconnection_or_invalid env cas c = elim (check_backward_disconnection env cas) [
  | some (s, cause, state) ↦
      report_call_disconnection env cause (record (rx s c) { r2_state = state })
  | none ↦ invalid_bits env ProtocolError.invalid_cas_bits c
]

unfoldable pub cas_idle : Env → ℕ → Chan → Chan
cas_idle env cas c =
    if cas == r2_bits env CasSignal.block
    then emit env Event.on_line_blocked (rx CasSignal.block c)
    else if cas == r2_bits env CasSignal.idle
    then emit env Event.on_line_idle (rx CasSignal.idle c)
    else if cas == r2_bits env CasSignal.seize
    then handle_incoming_call env (rx CasSignal.seize c)
    else invalid_bits env ProtocolError.invalid_cas_bits c

-- The call set up or answered by the other side, which may only clear forward.
unfoldable pub cas_called : Env → ℕ → Chan → Chan
cas_called env cas c =
    if cas == r2_bits env CasSignal.clear_forward
    then report_call_disconnection env Cause.normal_clearing
        (record (rx CasSignal.clear_forward c) { r2_state = CasState.clear_fwd_rxd })
    else invalid_bits env ProtocolError.invalid_cas_bits c

-- `openr2_chan_cancel_timer(r2chan, &r2chan->timer_ids.r2_seize)`
unfoldable pub cancel_r2_seize : Chan → Chan
cancel_r2_seize c =
    let (c1, id) = cancel_timer c.timer_ids.r2_seize c in
    record c1 { timer_ids = record (c1.timer_ids) { r2_seize = id } }

-- `timer_ids.dtmf_start_dial = openr2_chan_add_timer(…)`
unfoldable pub start_dtmf_dial : Env → Chan → Chan
start_dtmf_dial env c =
    let (c1, id) =
      add_timer env env.r2context.timers.dtmf_start_dial TimerCallback.start_dialing_dtmf c in
    record c1 { timer_ids = record (c1.timer_ids) { dtmf_start_dial = id } }

-- The seize was acknowledged and the call is wanted still.
unfoldable pub seize_acknowledged : Env → Chan → Chan
seize_acknowledged env c =
    let c1 = record c { r2_state = CasState.seize_ack_rxd } in
    emit env Event.on_call_proceed (
      if env.r2context.dial_with_dtmf
      then start_r2_answer env (start_dtmf_dial env c1)
      else mf_send_dnis env (pos 0) (record c1 {
        mf_group = MfGroup.gi;
        trace = Action.init_mf_reader false ∷ Action.init_mf_writer true ∷ c1.trace;
      }))

-- `pending` is the state OR2_SEIZE_TXD_CLEAR_FWD_PENDING.
unfoldable pub cas_seize_txd : Env → Bool → ℕ → Chan → Chan
cas_seize_txd env pending cas c =
    if cas == r2_bits env CasSignal.seize_ack
    then (let c1 = cancel_r2_seize (rx CasSignal.seize_ack c) in
        if pending then (send_clear_forward env c1).0 else seize_acknowledged env c1)
    else if cas == r2_bits env CasSignal.seize
    then report_call_disconnection env Cause.glare
        (cancel_r2_seize (record (rx CasSignal.seize c) { r2_state = CasState.double_seizure }))
    else invalid_bits env ProtocolError.invalid_cas_bits c

-- `pending` is the state OR2_DOUBLE_SEIZURE_CLEAR_FWD_PENDING.
unfoldable pub cas_double_seizure : Env → Bool → ℕ → Chan → Chan
cas_double_seizure env pending cas c =
    if cas == r2_bits env CasSignal.clear_forward
    then (if pending
        then report_call_end env (rx CasSignal.idle c)
        else record (rx CasSignal.clear_forward c) { r2_state = CasState.clear_fwd_rxd })
    else invalid_bits env ProtocolError.invalid_cas_bits c

unfoldable pub cas_clear_back_txd : Env → ℕ → Chan → Chan
cas_clear_back_txd env cas c =
    if cas == r2_bits env CasSignal.clear_forward
    then report_call_end env (rx CasSignal.clear_forward c)
    else invalid_bits env ProtocolError.invalid_cas_bits c

unfoldable pub cas_accept_rxd : Env → ℕ → Chan → Chan
cas_accept_rxd env cas c =
    if cas == r2_bits env CasSignal.answer
    then answer_received env (rx CasSignal.answer c)
    else disconnection_or_invalid env cas c

-- A DTMF call is answered; the MF engine stays as it is.
unfoldable pub dtmf_answer_received : Env → Chan → Chan
dtmf_answer_received env c =
    emit env Event.on_call_answered (record (cancel_r2_answer (rx CasSignal.answer c)) {
      r2_state = CasState.answer_rxd;
      call_state = CallState.answered;
      answered = true;
    })

unfoldable pub cas_seize_ack_rxd : Env → ℕ → Chan → Chan
cas_seize_ack_rxd env cas c =
    if not env.r2context.dial_with_dtmf && (cas == r2_bits env CasSignal.answer)
    then record (rx CasSignal.answer c) { r2_state = CasState.answer_rxd_mf_pending }
    else elim (check_backward_disconnection env cas) [
      | some (s, cause, state) ↦
          report_call_disconnection env cause (record (rx s c) { r2_state = state })
      | none ↦
          if cas == r2_bits env CasSignal.answer
          then dtmf_answer_received env c
          else invalid_bits env ProtocolError.invalid_cas_bits c
    ]

-- `timer_ids.r2_metering_pulse = openr2_chan_add_timer(…)`
unfoldable pub start_metering_pulse : Env → Chan → Chan
start_metering_pulse env c =
    let (c1, id) =
      add_timer env env.r2context.timers.r2_metering_pulse TimerCallback.r2_metering_pulse c in
    record c1 { timer_ids = record (c1.timer_ids) { r2_metering_pulse = id } }

-- A disconnection that may be a metering pulse is reported only after the timer.
unfoldable pub maybe_metering_pulse : Env → Cause → Chan → Chan
maybe_metering_pulse env cause c =
    if nonzero env.r2context.timers.r2_metering_pulse
    then start_metering_pulse env c
    else report_call_disconnection env cause c

-- `IS_DTMF_R2(r2chan)`
abbrev pub is_dtmf_r2 : Env → Bool
is_dtmf_r2 env = env.r2context.dial_with_dtmf || env.r2context.detect_dtmf

unfoldable pub cas_answer_rxd : Env → ℕ → Chan → Chan
cas_answer_rxd env cas c =
    if cas == r2_bits env CasSignal.clear_back
    then maybe_metering_pulse env Cause.normal_clearing
        (record (rx CasSignal.clear_back c) { r2_state = CasState.clear_back_rxd })
    else if is_dtmf_r2 env && (cas == r2_bits env CasSignal.clear_forward)
    then report_call_disconnection env Cause.normal_clearing
        (record (rx CasSignal.clear_forward c) { r2_state = CasState.clear_fwd_rxd })
    else if cas == r2_bits env CasSignal.forced_release
    then maybe_metering_pulse env Cause.forced_release
        (record (rx CasSignal.forced_release c) { r2_state = CasState.forced_release_rxd })
    else invalid_bits env ProtocolError.invalid_cas_bits c

-- The states that only IDLE ends: the tone of refusal, and the clear back after our clear forward.
unfoldable pub cas_wait_idle : Env → ℕ → Chan → Chan
cas_wait_idle env cas c =
    if cas == r2_bits env CasSignal.idle
    then report_call_end env (rx CasSignal.idle c)
    else invalid_bits env ProtocolError.invalid_cas_bits c

unfoldable pub cas_clear_fwd_txd : Env → ℕ → Chan → Chan
cas_clear_fwd_txd env cas c =
    if cas == r2_bits env CasSignal.idle
    then report_call_end env (rx CasSignal.idle c)
    else elim (check_backward_disconnection env cas) [
      | some (s, _, _) ↦ record (rx s c) { r2_state = CasState.clear_back_after_clear_fwd_rxd }
      | none ↦ invalid_bits env ProtocolError.invalid_cas_bits c
    ]

-- `openr2_chan_cancel_timer(r2chan, &r2chan->timer_ids.r2_metering_pulse)`
unfoldable pub cancel_metering_pulse : Chan → Chan
cancel_metering_pulse c =
    let (c1, id) = cancel_timer c.timer_ids.r2_metering_pulse c in
    record c1 { timer_ids = record (c1.timer_ids) { r2_metering_pulse = id } }

unfoldable pub cas_clear_back_rxd : Env → ℕ → Chan → Chan
cas_clear_back_rxd env cas c =
    if nonzero env.r2context.timers.r2_metering_pulse && (cas == r2_bits env CasSignal.answer)
    then emit env Event.on_billing_pulse_received
        (record (cancel_metering_pulse (rx CasSignal.answer c)) { r2_state = CasState.answer_rxd })
    else invalid_bits env ProtocolError.invalid_cas_bits c

unfoldable pub cas_blocked : Env → ℕ → Chan → Chan
cas_blocked env cas c =
    if cas == r2_bits env CasSignal.idle
    then emit env Event.on_line_idle (rx CasSignal.idle c)
    else record c { cas_rx_signal = none }

unfoldable pub cas_init : Env → ℕ → Chan → Chan
cas_init env cas c =
    if cas == r2_bits env CasSignal.idle
    then emit env Event.on_line_idle (rx CasSignal.idle c)
    else if cas == r2_bits env CasSignal.block
    then emit env Event.on_line_blocked (rx CasSignal.block c)
    else invalid_bits env ProtocolError.invalid_r2_state c

unfoldable pub dispatch_cas : Env → CasState → ℕ → Chan → Chan
dispatch_cas env CasState.idle cas c = cas_idle env cas c
dispatch_cas env CasState.seize_ack_txd cas c = cas_called env cas c
dispatch_cas env CasState.answer_txd cas c = cas_called env cas c
dispatch_cas env CasState.executing_double_answer cas c = cas_called env cas c
dispatch_cas env CasState.seize_txd cas c = cas_seize_txd env false cas c
dispatch_cas env CasState.seize_txd_clear_fwd_pending cas c = cas_seize_txd env true cas c
dispatch_cas env CasState.double_seizure cas c = cas_double_seizure env false cas c
dispatch_cas env CasState.double_seizure_clear_fwd_pending cas c = cas_double_seizure env true cas c
dispatch_cas env CasState.clear_back_txd cas c = cas_clear_back_txd env cas c
dispatch_cas env CasState.forced_release_txd cas c = cas_clear_back_txd env cas c
dispatch_cas env CasState.accept_rxd cas c = cas_accept_rxd env cas c
dispatch_cas env CasState.seize_ack_rxd cas c = cas_seize_ack_rxd env cas c
dispatch_cas env CasState.answer_rxd_mf_pending cas c = cas_answer_rxd env cas c
dispatch_cas env CasState.answer_rxd cas c = cas_answer_rxd env cas c
dispatch_cas env CasState.clear_back_tone_rxd cas c = cas_wait_idle env cas c
dispatch_cas env CasState.clear_fwd_txd cas c = cas_clear_fwd_txd env cas c
dispatch_cas env CasState.clear_back_after_clear_fwd_rxd cas c = cas_wait_idle env cas c
dispatch_cas env CasState.clear_back_rxd cas c = cas_clear_back_rxd env cas c
dispatch_cas env CasState.forced_release_rxd cas c = cas_clear_back_rxd env cas c
dispatch_cas env CasState.blocked cas c = cas_blocked env cas c
dispatch_cas env CasState.init cas c = cas_init env cas c
dispatch_cas env CasState.invalid_state cas c = invalid_bits env ProtocolError.invalid_r2_state c
dispatch_cas env CasState.clear_fwd_rxd cas c = invalid_bits env ProtocolError.invalid_r2_state c
