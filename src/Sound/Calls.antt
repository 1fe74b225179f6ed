-- ===== src/Sound/Calls.antt =====
-- Soundness of the operations of Proto/Calls: what the user asks of a channel.
use openr.Context.{max_ani_size, max_dnis_size}
use openr.Prelude.{
  if◌then◌else◌, true, false, zero, suc, none, some, refl, ◌∙◌, ◌-◌, if_ind, ◌+◌, ℕ, Bool, Option,
  List, [], ◌∷◌, ◌≡◌, length, set, length-set, arith,
}
use openr.Types.{Cause, CallMode, AnswerMode, Category, Rc}
use openr.Chan.{Chan, Env}
use openr.Proto.Calls.{
  is_clear_fwd_rxd, release_call, is_offered, accept_call, do_answer, answer_call,
  answer_call_with_mode, handle_dtmf_end, send_disconnect, disconnect_backward, start_seize_persist,
  disconnect_forward, disconnect_call,
}
use openr.Proto.Calls.Make.{
  string_copy, all_digits, start_r2_seize, store_call, init_dtmf_dialing, begin_dialing, make_call,
  seize_timeout_expired, start_dialing_dtmf,
}
use openr.Sound.{IsSound, IsPolite, emit-IsSound, add_timer-IsSound}
use openr.Sound.Line.{
  open_logfile-IsSound, close_logfile-IsSound, turn_off_mf_engine-IsSound, set_cas_signal-IsSound,
  handle_protocol_error-IsSound, report_call_end-IsSound,
}
use openr.Sound.Mf.{prepare_mf_tone-IsSound, offer_call-IsSound}
use openr.Sound.Cas.{
  send_clear_backward-IsSound, send_forced_release-IsSound, send_clear_forward-IsSound,
  start_double_answer-IsSound,
}

pub length-string_copy : (n : ℕ) (s : List ℕ) → length (string_copy n s) ≡ n + 1
unfolding string_copy
length-string_copy zero s = refl
length-string_copy (suc n) [] = omega (arith, length-string_copy n [])
length-string_copy (suc n) (d ∷ ds) = omega (arith, length-string_copy n ds)

ani_buffer :
    (ani : Option (List ℕ)) (old : List ℕ)
    → length old ≡ max_ani_size
    → length (elim ani [ none ↦ set old 0 0 | some a ↦ string_copy (max_ani_size - 1) a ])
      ≡ max_ani_size
ani_buffer none old h = length-set old 0 0 ∙ h
ani_buffer (some a) old h = length-string_copy 79 a

dnis_buffer :
    (ok : Bool) (dnis old : List ℕ)
    → length old ≡ max_dnis_size
    → length (if ok then string_copy (max_dnis_size - 1) dnis else set old 0 0) ≡ max_dnis_size
dnis_buffer true dnis old h = length-string_copy 79 dnis
dnis_buffer false dnis old h = length-set old 0 0 ∙ h

module _ (env : Env) (polite : IsPolite env) where
  pub accept_call-IsSound :
      (mode : CallMode) (c : Chan) → IsSound c → IsSound ((accept_call env mode c).0)
  unfolding accept_call
  accept_call-IsSound mode c v = grind (arith, emit-IsSound, prepare_mf_tone-IsSound)

  pub do_answer-IsSound : (c : Chan) → IsSound c → IsSound ((do_answer env c).0)
  unfolding do_answer
  do_answer-IsSound c v = grind (arith, set_cas_signal-IsSound)

  pub answer_call-IsSound : (c : Chan) → IsSound c → IsSound ((answer_call env c).0)
  unfolding answer_call
  answer_call-IsSound c v = grind (arith, do_answer-IsSound, start_double_answer-IsSound)

  pub answer_call_with_mode-IsSound :
      (mode : AnswerMode) (c : Chan) → IsSound c → IsSound ((answer_call_with_mode env mode c).0)
  unfolding answer_call_with_mode
  answer_call_with_mode-IsSound mode c v =
      grind (arith, do_answer-IsSound, start_double_answer-IsSound)

  pub handle_dtmf_end-IsSound : (c : Chan) → IsSound c → IsSound (handle_dtmf_end env c)
  unfolding handle_dtmf_end
  handle_dtmf_end-IsSound c v =
      grind (arith, turn_off_mf_engine-IsSound, emit-IsSound, offer_call-IsSound)

  pub send_disconnect-IsSound :
      (cause : Cause) (c : Chan) → IsSound c → IsSound (send_disconnect env cause c)
  unfolding send_disconnect
  send_disconnect-IsSound cause c v = grind (arith, prepare_mf_tone-IsSound)

  release_call-IsSound :
      (cause : Cause) (c : Chan) → IsSound c → IsSound ((release_call env cause c).0)
  unfolding release_call
  release_call-IsSound cause c v = ground (
    arith,
    send_forced_release-IsSound env polite c v,
    send_clear_backward-IsSound env polite c v,
  )

  pub disconnect_backward-IsSound :
      (cause : Cause) (c : Chan) → IsSound c → IsSound ((disconnect_backward env cause c).0)
  unfolding disconnect_backward
  disconnect_backward-IsSound cause c v =
      if_ind (λ (r : Chan × Rc). IsSound r.0) env.r2context.detect_dtmf
        (if_ind (λ (r : Chan × Rc). IsSound r.0) (is_clear_fwd_rxd c.r2_state)
          (report_call_end-IsSound env polite c v) (send_clear_backward-IsSound env polite c v))
        (if_ind (λ (r : Chan × Rc). IsSound r.0) (is_offered c.call_state)
          (send_disconnect-IsSound cause c v)
          (if_ind (λ (r : Chan × Rc). IsSound r.0) (is_clear_fwd_rxd c.r2_state)
            (report_call_end-IsSound env polite c v) (release_call-IsSound cause c v)))

  pub start_seize_persist-IsSound : (c : Chan) → IsSound c → IsSound (start_seize_persist env c)
  unfolding start_seize_persist
  start_seize_persist-IsSound c v = grind (arith, add_timer-IsSound)

  pub disconnect_forward-IsSound : (c : Chan) → IsSound c → IsSound ((disconnect_forward env c).0)
  unfolding disconnect_forward
  disconnect_forward-IsSound c v =
      grind
        (arith, report_call_end-IsSound, send_clear_forward-IsSound, start_seize_persist-IsSound)

  pub disconnect_call-IsSound :
      (cause : Cause) (c : Chan) → IsSound c → IsSound ((disconnect_call env cause c).0)
  unfolding disconnect_call
  disconnect_call-IsSound cause c v =
      grind (arith, disconnect_backward-IsSound, disconnect_forward-IsSound)

  pub start_r2_seize-IsSound : (c : Chan) → IsSound c → IsSound (start_r2_seize env c)
  unfolding start_r2_seize
  start_r2_seize-IsSound c v = grind (arith, add_timer-IsSound)

  pub store_call-IsSound :
      (ani : Option (List ℕ)) (dnis : List ℕ) (cat : Category) (r : Bool) (c : Chan)
      → IsSound c
      → IsSound (store_call env ani dnis cat r c)
  unfolding store_call
  store_call-IsSound ani dnis cat r c v = record {
    scheduled = v.scheduled;
    ani_size = ani_buffer ani c.ani v.ani_size;
    dnis_size = dnis_buffer (all_digits dnis) dnis c.dnis v.dnis_size;
    dnis_room = v.dnis_room;
  }

  pub init_dtmf_dialing-IsSound : (c : Chan) → IsSound c → IsSound ((init_dtmf_dialing env c).0)
  unfolding init_dtmf_dialing
  init_dtmf_dialing-IsSound c v = grind (arith)

  pub begin_dialing-IsSound :
      (ani : Option (List ℕ)) (dnis : List ℕ) (cat : Category) (r : Bool) (c : Chan)
      → IsSound c
      → IsSound ((begin_dialing env ani dnis cat r c).0)
  unfolding begin_dialing
  begin_dialing-IsSound ani dnis cat r c v =
      grind (arith, start_r2_seize-IsSound, store_call-IsSound, init_dtmf_dialing-IsSound)

  pub make_call-IsSound :
      (ani : Option (List ℕ)) (dnis : List ℕ) (cat : Category) (r : Bool) (c : Chan)
      → IsSound c
      → IsSound ((make_call env ani dnis cat r c).0)
  unfolding make_call
  make_call-IsSound ani dnis cat r c v = grind (
    arith, open_logfile-IsSound, close_logfile-IsSound, set_cas_signal-IsSound,
    begin_dialing-IsSound,
  )

  pub seize_timeout_expired-IsSound : (c : Chan) → IsSound c → IsSound (seize_timeout_expired env c)
  unfolding seize_timeout_expired
  seize_timeout_expired-IsSound c v = grind (arith, handle_protocol_error-IsSound)

  pub start_dialing_dtmf-IsSound : (c : Chan) → IsSound c → IsSound (start_dialing_dtmf env c)
  unfolding start_dialing_dtmf
  start_dialing_dtmf-IsSound c v = grind (arith)
