-- ===== src/Sound/Backward.antt =====
-- Soundness of the operations of Proto/Backward.
use openr.Prelude.{if_ind, ◌+◌, ℕ, Bool, length-set, arith}
use openr.Types.{MfGroup, MfState}
use openr.Chan.{Chan, Env}
use openr.Chan.Device.{fault, append_ani, put_ani, append_dnis, put_dnis}
use openr.Proto.Backward.Request.{
  request_calling_party_category, bypass_change_to_g2, request_change_to_g2, try_change_to_g2,
  try_request_calling_party_category, request_next_dnis_digit, start_mf_back_resume_cycle,
  mf_back_cycle_timeout_expired,
}
use openr.Proto.Backward.Receive.{
  keep_dnis_digit, after_dnis_digit, end_of_dnis, mf_receive_expected_dnis, end_of_ani,
  request_next_ani_digit, receive_ani_digit, mf_receive_expected_ani, receive_first_digit,
}
use openr.Proto.Backward.{
  receive_category, cancel_mf_back_cycle, forward_tone, handle_forward_mf_tone, ready_to_answer,
  finish_accept, forward_silence, handle_forward_mf_silence,
}
use openr.Sound.{
  IsSound, IsPolite, cancel_timer-IsSound, cancel_all_timers-IsSound, emit-IsSound,
  emit_dnis_digit-IsSound, add_timer-IsSound,
}
use openr.Sound.Line.{turn_off_mf_engine-IsSound, handle_protocol_error-IsSound}
use openr.Sound.Mf.{prepare_mf_tone-IsSound, set_silence-IsSound, offer_call-IsSound}

pub put_dnis-IsSound : (i d : ℕ) (c : Chan) → IsSound c → IsSound (put_dnis i d c)
unfolding put_dnis fault
put_dnis-IsSound i d c v = ground (arith, length-set c.dnis i d)

pub put_ani-IsSound : (i d : ℕ) (c : Chan) → IsSound c → IsSound (put_ani i d c)
unfolding put_ani fault
put_ani-IsSound i d c v = ground (arith, length-set c.ani i d)

pub keep_dnis_digit-IsSound : (tone : ℕ) (c : Chan) → IsSound c → IsSound (keep_dnis_digit tone c)
unfolding keep_dnis_digit append_dnis
keep_dnis_digit-IsSound tone c v = ground (
  arith,
  put_dnis-IsSound c.dnis_len tone c v,
  put_dnis-IsSound (c.dnis_len + 1) 0
      (record (put_dnis c.dnis_len tone c) { dnis_len = c.dnis_len + 1 }),
)

module _ (env : Env) (polite : IsPolite env) where
  pub request_calling_party_category-IsSound :
      (c : Chan) → IsSound c → IsSound (request_calling_party_category env c)
  unfolding request_calling_party_category
  request_calling_party_category-IsSound c v = grind (arith, prepare_mf_tone-IsSound)

  pub bypass_change_to_g2-IsSound : (c : Chan) → IsSound c → IsSound (bypass_change_to_g2 env c)
  unfolding bypass_change_to_g2
  bypass_change_to_g2-IsSound c v = grind (arith, prepare_mf_tone-IsSound, offer_call-IsSound)

  pub request_change_to_g2-IsSound : (c : Chan) → IsSound c → IsSound (request_change_to_g2 env c)
  unfolding request_change_to_g2
  request_change_to_g2-IsSound c v = grind (arith, prepare_mf_tone-IsSound)

  pub try_change_to_g2-IsSound : (c : Chan) → IsSound c → IsSound (try_change_to_g2 env c)
  unfolding try_change_to_g2
  try_change_to_g2-IsSound c v =
      grind (arith, bypass_change_to_g2-IsSound, request_change_to_g2-IsSound)

  pub try_request_calling_party_category-IsSound :
      (c : Chan) → IsSound c → IsSound (try_request_calling_party_category env c)
  unfolding try_request_calling_party_category
  try_request_calling_party_category-IsSound c v =
      grind (arith, try_change_to_g2-IsSound, request_calling_party_category-IsSound)

  pub request_next_dnis_digit-IsSound :
      (c : Chan) → IsSound c → IsSound (request_next_dnis_digit env c)
  unfolding request_next_dnis_digit
  request_next_dnis_digit-IsSound c v = grind (arith, prepare_mf_tone-IsSound)

  pub start_mf_back_resume_cycle-IsSound :
      (c : Chan) → IsSound c → IsSound (start_mf_back_resume_cycle env c)
  unfolding start_mf_back_resume_cycle
  start_mf_back_resume_cycle-IsSound c v = grind (arith, add_timer-IsSound)

  pub mf_back_cycle_timeout_expired-IsSound :
      (c : Chan) → IsSound c → IsSound (mf_back_cycle_timeout_expired env c)
  unfolding mf_back_cycle_timeout_expired
  mf_back_cycle_timeout_expired-IsSound c v =
      let w = start_mf_back_resume_cycle-IsSound c v in
      if_ind IsSound _
        (if_ind IsSound _ (try_request_calling_party_category-IsSound _ w)
          (try_change_to_g2-IsSound _ w))
        (handle_protocol_error-IsSound env polite _ c v)

  pub after_dnis_digit-IsSound :
      (rc : Bool) (c : Chan) → IsSound c → IsSound (after_dnis_digit env rc c)
  unfolding after_dnis_digit
  after_dnis_digit-IsSound rc c v =
      if_ind IsSound _
        (if_ind IsSound _ (try_request_calling_party_category-IsSound c v)
          (try_change_to_g2-IsSound c v))
        (if_ind IsSound _ (try_request_calling_party_category-IsSound c v)
          (request_next_dnis_digit-IsSound c v))

  pub end_of_dnis-IsSound : (c : Chan) → IsSound c → IsSound (end_of_dnis env c)
  unfolding end_of_dnis
  end_of_dnis-IsSound c v =
      grind (arith, try_request_calling_party_category-IsSound, try_change_to_g2-IsSound)

  pub mf_receive_expected_dnis-IsSound :
      (tone : ℕ) (c : Chan) → IsSound c → IsSound (mf_receive_expected_dnis env tone c)
  unfolding mf_receive_expected_dnis
  mf_receive_expected_dnis-IsSound tone c v =
      if_ind IsSound _
        (after_dnis_digit-IsSound _ _
          (emit_dnis_digit-IsSound env polite tone _ (keep_dnis_digit-IsSound tone c v)))
        (if_ind IsSound _ (end_of_dnis-IsSound c v)
          (handle_protocol_error-IsSound env polite _ c v))

  pub append_ani-IsSound : (tone : ℕ) (c : Chan) → IsSound c → IsSound (append_ani tone c)
  unfolding append_ani
  append_ani-IsSound tone c v = put_ani-IsSound _ 0 _ (
      let w = put_ani-IsSound c.ani_len tone c v in
      record {
        scheduled = w.scheduled;
        ani_size = w.ani_size;
        dnis_size = w.dnis_size;
        dnis_room = w.dnis_room;
      })

  pub end_of_ani-IsSound : (c : Chan) → IsSound c → IsSound (end_of_ani env c)
  unfolding end_of_ani
  end_of_ani-IsSound c v =
      if_ind IsSound _ (try_change_to_g2-IsSound c v) (request_next_dnis_digit-IsSound c v)

  pub request_next_ani_digit-IsSound :
      (c : Chan) → IsSound c → IsSound (request_next_ani_digit env c)
  unfolding request_next_ani_digit
  request_next_ani_digit-IsSound c v = grind (arith, prepare_mf_tone-IsSound)

  pub receive_ani_digit-IsSound :
      (tone : ℕ) (c : Chan) → IsSound c → IsSound (receive_ani_digit env tone c)
  unfolding receive_ani_digit
  receive_ani_digit-IsSound tone c v =
      let w = emit-IsSound env polite _ _ (append_ani-IsSound tone c v) in
      if_ind IsSound _ (request_next_ani_digit-IsSound _ w) (end_of_ani-IsSound _ w)

  pub mf_receive_expected_ani-IsSound :
      (tone : ℕ) (c : Chan) → IsSound c → IsSound (mf_receive_expected_ani env tone c)
  unfolding mf_receive_expected_ani
  mf_receive_expected_ani-IsSound tone c v =
      let w = end_of_ani-IsSound c v in
      if_ind IsSound _ (request_next_ani_digit-IsSound c v) (
        if_ind IsSound _ (receive_ani_digit-IsSound tone c v) (
          if_ind IsSound _
            (end_of_ani-IsSound _ (record {
              scheduled = v.scheduled;
              ani_size = v.ani_size;
              dnis_size = v.dnis_size;
              dnis_room = v.dnis_room;
            }))
            (if_ind IsSound _ w (handle_protocol_error-IsSound env polite _ c v))))

  pub receive_first_digit-IsSound :
      (tone : ℕ) (c : Chan) → IsSound c → IsSound (receive_first_digit env tone c)
  unfolding receive_first_digit
  receive_first_digit-IsSound tone c v =
      if_ind IsSound _ (mf_receive_expected_ani-IsSound tone c v)
        (mf_receive_expected_dnis-IsSound tone c v)

  pub receive_category-IsSound :
      (group : MfGroup) (tone : ℕ) (c : Chan)
      → IsSound c
      → IsSound (receive_category env group tone c)
  unfolding receive_category
  receive_category-IsSound group tone c v = grind (
    arith, mf_receive_expected_ani-IsSound, request_change_to_g2-IsSound, try_change_to_g2-IsSound,
  )

  pub cancel_mf_back_cycle-IsSound : (c : Chan) → IsSound c → IsSound (cancel_mf_back_cycle c)
  unfolding cancel_mf_back_cycle
  cancel_mf_back_cycle-IsSound c v = grind (arith, cancel_timer-IsSound)

  pub forward_tone-IsSound :
      (group : MfGroup) (state : MfState) (tone : ℕ) (c : Chan)
      → IsSound c
      → IsSound (forward_tone env group state tone c)
  unfolding forward_tone
  forward_tone-IsSound group state tone c v = grind (
    arith, receive_first_digit-IsSound, mf_receive_expected_dnis-IsSound, receive_category-IsSound,
    mf_receive_expected_ani-IsSound, offer_call-IsSound, handle_protocol_error-IsSound,
  )

  pub handle_forward_mf_tone-IsSound :
      (tone : ℕ) (c : Chan) → IsSound c → IsSound (handle_forward_mf_tone env tone c)
  unfolding handle_forward_mf_tone
  handle_forward_mf_tone-IsSound tone c v =
      forward_tone-IsSound _ _ tone _ (cancel_mf_back_cycle-IsSound c v)

  pub ready_to_answer-IsSound : (c : Chan) → IsSound c → IsSound (ready_to_answer env c)
  unfolding ready_to_answer
  ready_to_answer-IsSound c v = grind (arith, emit-IsSound)

  pub finish_accept-IsSound : (c : Chan) → IsSound c → IsSound (finish_accept env c)
  unfolding finish_accept
  finish_accept-IsSound c v = grind (arith, turn_off_mf_engine-IsSound, add_timer-IsSound)

  pub forward_silence-IsSound :
      (group : MfGroup) (state : MfState) (c : Chan)
      → IsSound c
      → IsSound (forward_silence env group state c)
  unfolding forward_silence
  forward_silence-IsSound group state c v =
      grind (arith, finish_accept-IsSound, cancel_all_timers-IsSound, handle_protocol_error-IsSound)

  pub handle_forward_mf_silence-IsSound :
      (c : Chan) → IsSound c → IsSound (handle_forward_mf_silence env c)
  unfolding handle_forward_mf_silence
  handle_forward_mf_silence-IsSound c v =
      forward_silence-IsSound _ _ _ (set_silence-IsSound env polite c v)
