-- ===== src/Sound/Mf.antt =====
-- Soundness of the operations of Proto/Mf.
use openr.Prelude.{if_ind, ℕ, arith}
use openr.Types.{Rc, done, failed}
use openr.Chan.{Chan, Env}
use openr.Chan.Device.{io_flush_write_buffers}
use openr.Proto.Mf.{
  start_mf_back_cycle, start_mf_fwd_safety, start_tone, change_tone, next_tone, prepare_mf_tone,
  set_silence, offer_call,
}
use openr.Proto.Line.{select_tone}
use openr.Sound.{IsSound, IsPolite, emit-IsSound, add_timer-IsSound, io_flush_write_buffers-IsSound}
use openr.Sound.Line.{handle_protocol_error-IsSound}

module _ (env : Env) (polite : IsPolite env) where
  pub start_mf_back_cycle-IsSound : (c : Chan) → IsSound c → IsSound (start_mf_back_cycle env c)
  unfolding start_mf_back_cycle
  start_mf_back_cycle-IsSound c v = grind (arith, add_timer-IsSound)

  pub start_mf_fwd_safety-IsSound : (c : Chan) → IsSound c → IsSound (start_mf_fwd_safety env c)
  unfolding start_mf_fwd_safety
  start_mf_fwd_safety-IsSound c v = grind (arith, add_timer-IsSound)

  pub start_tone-IsSound : (tone : ℕ) (c : Chan) → IsSound c → IsSound (start_tone env tone c)
  unfolding start_tone
  start_tone-IsSound tone c v =
      grind (arith, start_mf_back_cycle-IsSound, io_flush_write_buffers-IsSound)

  pub change_tone-IsSound : (tone : ℕ) (c : Chan) → IsSound c → IsSound (change_tone env tone c)
  unfolding change_tone select_tone
  change_tone-IsSound tone c v = grind (arith, start_tone-IsSound, handle_protocol_error-IsSound)

  next_tone-IsSound : (tone : ℕ) (c : Chan) → IsSound c → IsSound (next_tone env tone c)
  unfolding next_tone
  next_tone-IsSound tone c v = if_ind IsSound _ v (change_tone-IsSound tone c v)

  flushed-IsSound :
      (tone : ℕ) (out : Chan × Rc)
      → IsSound out.0
      → IsSound (elim out.1 [ failed ↦ out.0 | done ↦ next_tone env tone out.0 ])
  flushed-IsSound tone (c, failed) v = v
  flushed-IsSound tone (c, done) v = next_tone-IsSound tone c v

  pub prepare_mf_tone-IsSound :
      (tone : ℕ) (c : Chan) → IsSound c → IsSound (prepare_mf_tone env tone c)
  unfolding prepare_mf_tone
  prepare_mf_tone-IsSound tone c v =
      if_ind IsSound _
        (flushed-IsSound tone (io_flush_write_buffers env c)
          (io_flush_write_buffers-IsSound env polite c v))
        (next_tone-IsSound tone c v)

  pub set_silence-IsSound : (c : Chan) → IsSound c → IsSound (set_silence env c)
  unfolding set_silence
  set_silence-IsSound c v = grind (arith, prepare_mf_tone-IsSound)

  pub offer_call-IsSound : (c : Chan) → IsSound c → IsSound (offer_call env c)
  unfolding offer_call
  offer_call-IsSound c v = grind (arith, emit-IsSound, handle_protocol_error-IsSound)
