-- ===== src/Sound/Forward.antt =====
-- Soundness of the operations of Proto/Forward.
use openr.Prelude.{if_ind, ℕ, ℤ, pos, negsuc, arith}
use openr.Types.{CasState, ProtocolError, Cause, MfGroup, MfState, CallMode}
use openr.Chan.{Chan, Env, Event}
use openr.Chan.Device.{fault, read_dnis, read_ani}
use openr.Proto.Forward.Send.{
  send_dnis_digit, wait_timeout, mf_send_dnis, mf_send_category, send_ani_end, send_ani_digit,
  send_ani, mf_send_ani,
}
use openr.Proto.Mf.{get_mode_from_tone}
use openr.Chan.Timers.{emit}
use openr.Proto.Forward.Accept.{
  start_r2_answer, cancel_r2_answer, answer_received, handle_accept_tone, is_untouched,
  is_answer_pending,
}
use openr.Proto.Forward.{
  clear_back_tone, handle_dnis_request, group_a_other, handle_group_a_request,
  handle_group_b_request, handle_group_c_request, backward_silence, handle_backward_mf_silence,
  handle_backward_mf_tone,
}
use openr.Sound.{IsSound, IsPolite, cancel_timer-IsSound, emit-IsSound, add_timer-IsSound}
use openr.Sound.Line.{
  turn_off_mf_engine-IsSound, handle_protocol_error-IsSound, report_call_disconnection-IsSound,
}
use openr.Sound.Mf.{prepare_mf_tone-IsSound, set_silence-IsSound, start_mf_fwd_safety-IsSound}

module _ (env : Env) (polite : IsPolite env) where
  pub read_dnis-IsSound : (c : Chan) → IsSound c → IsSound ((read_dnis c).0)
  unfolding read_dnis fault
  read_dnis-IsSound c v = grind (arith)

  pub wait_timeout-IsSound : (c : Chan) → IsSound c → IsSound (wait_timeout env c)
  unfolding wait_timeout
  wait_timeout-IsSound c v = grind (arith, start_mf_fwd_safety-IsSound)

  pub send_dnis_digit-IsSound : (c : Chan) → IsSound c → IsSound (send_dnis_digit env c)
  unfolding send_dnis_digit
  send_dnis_digit-IsSound c v =
      let w = read_dnis-IsSound c v in
      let c1 = (read_dnis c).0 in
      ground (
        arith,
        prepare_mf_tone-IsSound env polite (read_dnis c).1
            (record c1 { mf_state = MfState.dnis_txd }),
        prepare_mf_tone-IsSound env polite env.r2context.mf_g1_tones.no_more_dnis_available
            (record c1 { mf_state = MfState.dnis_end_txd }),
        wait_timeout-IsSound c1 w,
      )

  pub mf_send_dnis-IsSound :
      (offset : ℤ) (c : Chan) → IsSound c → IsSound (mf_send_dnis env offset c)
  unfolding mf_send_dnis
  mf_send_dnis-IsSound offset c v =
      grind (arith, send_dnis_digit-IsSound, handle_protocol_error-IsSound)

  pub mf_send_category-IsSound : (c : Chan) → IsSound c → IsSound (mf_send_category env c)
  unfolding mf_send_category
  mf_send_category-IsSound c v = grind (arith, prepare_mf_tone-IsSound)

  pub send_ani_end-IsSound : (tone : ℕ) (c : Chan) → IsSound c → IsSound (send_ani_end env tone c)
  unfolding send_ani_end
  send_ani_end-IsSound tone c v = grind (arith, prepare_mf_tone-IsSound)

  pub send_ani_digit-IsSound :
      (digit : ℕ) (c : Chan) → IsSound c → IsSound (send_ani_digit env digit c)
  unfolding send_ani_digit fault
  send_ani_digit-IsSound digit c v = grind (arith, prepare_mf_tone-IsSound)

  pub read_ani-IsSound : (c : Chan) → IsSound c → IsSound ((read_ani c).0)
  unfolding read_ani fault
  read_ani-IsSound c v = grind (arith)

  pub send_ani-IsSound : (c : Chan) → IsSound c → IsSound (send_ani env c)
  unfolding send_ani
  send_ani-IsSound c v =
      let w = read_ani-IsSound c v in
      let c1 = (read_ani c).0 in
      let g1 = env.r2context.mf_g1_tones in
      ground (
        arith,
        send_ani_end-IsSound g1.caller_ani_is_restricted c v,
        send_ani_digit-IsSound (read_ani c).1 c1 w,
        send_ani_end-IsSound g1.no_more_ani_available c1 w,
        send_ani_end-IsSound g1.caller_ani_is_restricted c1 w,
        wait_timeout-IsSound c1 w,
      )

  pub mf_send_ani-IsSound : (c : Chan) → IsSound c → IsSound (mf_send_ani env c)
  unfolding mf_send_ani
  mf_send_ani-IsSound c v = grind (arith, send_ani-IsSound, mf_send_dnis-IsSound)

  pub start_r2_answer-IsSound : (c : Chan) → IsSound c → IsSound (start_r2_answer env c)
  unfolding start_r2_answer
  start_r2_answer-IsSound c v = grind (arith, add_timer-IsSound)

  pub cancel_r2_answer-IsSound : (c : Chan) → IsSound c → IsSound (cancel_r2_answer c)
  unfolding cancel_r2_answer
  cancel_r2_answer-IsSound c v = grind (arith, cancel_timer-IsSound)

  pub answer_received-IsSound : (c : Chan) → IsSound c → IsSound (answer_received env c)
  unfolding answer_received
  answer_received-IsSound c v =
      grind (arith, cancel_r2_answer-IsSound, turn_off_mf_engine-IsSound, emit-IsSound)

  pub handle_accept_tone-IsSound :
      (mode : CallMode) (c : Chan) → IsSound c → IsSound (handle_accept_tone env mode c)
  unfolding handle_accept_tone
  handle_accept_tone-IsSound mode c v =
      let c0 = record c { r2_state = CasState.accept_rxd } in
      let c1 = emit env (Event.on_call_accepted mode) c0 in
      let w = emit-IsSound env polite (Event.on_call_accepted mode) c0 (ground arith) in
      if_ind IsSound (is_answer_pending c.r2_state)
        (if_ind IsSound (is_untouched c c1) (answer_received-IsSound c1 w) w)
        (emit-IsSound env polite (Event.on_call_accepted mode) (start_r2_answer env c0)
          (start_r2_answer-IsSound c0 (ground arith)))

  pub clear_back_tone-IsSound :
      (cause : Cause) (c : Chan) → IsSound c → IsSound (clear_back_tone env cause c)
  unfolding clear_back_tone
  clear_back_tone-IsSound cause c v = grind (arith, report_call_disconnection-IsSound)

  pub group_a_other-IsSound : (tone : ℕ) (c : Chan) → IsSound c → IsSound (group_a_other env tone c)
  unfolding group_a_other
  group_a_other-IsSound tone c v =
      let to = λ (g : MfGroup). mf_send_category-IsSound (record c { mf_group = g }) in
      ground (
        arith,
        mf_send_ani-IsSound c v,
        mf_send_category-IsSound c v,
        to MfGroup.giii,
        to MfGroup.gii,
        handle_accept_tone-IsSound CallMode.with_charge c v,
        clear_back_tone-IsSound Cause.network_congestion c v,
        handle_protocol_error-IsSound env polite ProtocolError.invalid_mf_tone c v,
      )

  pub handle_group_a_request-IsSound :
      (tone : ℕ) (c : Chan) → IsSound c → IsSound (handle_group_a_request env tone c)
  unfolding handle_group_a_request handle_dnis_request
  handle_group_a_request-IsSound tone c v = ground (
    arith,
    mf_send_dnis-IsSound (pos 1) c v,
    mf_send_dnis-IsSound (negsuc 0) c v,
    mf_send_dnis-IsSound (negsuc 1) c v,
    mf_send_dnis-IsSound (negsuc 2) c v,
    mf_send_dnis-IsSound (pos 0) (record c { dnis_index = 0 }),
    group_a_other-IsSound tone c v,
  )

  pub handle_group_c_request-IsSound :
      (tone : ℕ) (c : Chan) → IsSound c → IsSound (handle_group_c_request env tone c)
  unfolding handle_group_c_request
  handle_group_c_request-IsSound tone c v = grind (
    arith, mf_send_ani-IsSound, mf_send_category-IsSound, mf_send_dnis-IsSound,
    clear_back_tone-IsSound, handle_protocol_error-IsSound,
  )

  pub handle_group_b_request-IsSound :
      (tone : ℕ) (c : Chan) → IsSound c → IsSound (handle_group_b_request env tone c)
  unfolding handle_group_b_request
  handle_group_b_request-IsSound tone c v = ground (
    arith,
    handle_accept_tone-IsSound (get_mode_from_tone env tone) c v,
    clear_back_tone-IsSound Cause.busy_number c v,
    clear_back_tone-IsSound Cause.network_congestion c v,
    clear_back_tone-IsSound Cause.unallocated_number c v,
    clear_back_tone-IsSound Cause.number_changed c v,
    clear_back_tone-IsSound Cause.out_of_order c v,
    handle_protocol_error-IsSound env polite ProtocolError.invalid_mf_tone c v,
  )

  pub handle_backward_mf_silence-IsSound :
      (tone : ℕ) (c : Chan) → IsSound c → IsSound (handle_backward_mf_silence env tone c)
  unfolding handle_backward_mf_silence backward_silence
  handle_backward_mf_silence-IsSound tone c v = grind (
    arith, handle_group_a_request-IsSound, handle_group_b_request-IsSound,
    handle_group_c_request-IsSound, handle_protocol_error-IsSound,
  )

  pub handle_backward_mf_tone-IsSound :
      (tone : ℕ) (c : Chan) → IsSound c → IsSound (handle_backward_mf_tone env tone c)
  unfolding handle_backward_mf_tone
  handle_backward_mf_tone-IsSound tone c v =
      grind (arith, cancel_timer-IsSound, set_silence-IsSound)
