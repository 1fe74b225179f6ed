-- ===== src/Exchange/Talk.antt =====
-- One side of the MF exchange as the other side can tell it, and what the operations of
-- src/r2proto.c that both sides use make of it: timers, the tone sent, and openr2_proto_handle_mf_tone.
use openr.Prelude.{
  ℕ, ℤ, pos, negsuc, ◌≡◌, refl, ap, nonzero, true, inl, inr, Option-cases, Option, Bool, List, ◌∷◌,
  arith,
}
use openr.Types.{CallState, Direction, MfGroup, MfState}
use openr.Chan.{Chan, Env, Event, Action, TimerCallback}
use openr.Chan.Timers.{emit, schedule, add_timer, cancel_timer}
use openr.Chan.Device.{io_flush_write_buffers}
use openr.Proto.Line.{select_tone}
use openr.Proto.Mf.{
  start_mf_back_cycle, start_tone, change_tone, next_tone, prepare_mf_tone, set_silence,
}
use openr.Proto.Tone.{
  check_threshold, handle_tone_on, handle_tone_off, tone_on, tone_off, handle_mf_tone,
}
use openr.Signalling.{IsQuiet}
use openr.Digits.Sent.{SendsTones}

pub record Talk : Type 0 where
  pub direction : Direction
  pub mf_group : MfGroup
  pub mf_state : MfState
  pub mf_read_tone : ℕ
  pub mf_write_tone : ℕ
  pub dnis : List ℕ
  pub dnis_index : ℕ
  pub dnis_len : ℕ
  pub caller_category : ℕ
  pub category_sent : Bool
  pub ani : List ℕ
  pub ani_ptr : Option ℕ
  pub ani_len : ℕ
  pub call_state : CallState

abbrev pub talk : Chan → Talk
talk c = record {
  direction = c.direction;
  mf_group = c.mf_group;
  mf_state = c.mf_state;
  mf_read_tone = c.mf_read_tone;
  mf_write_tone = c.mf_write_tone;
  dnis = c.dnis;
  dnis_index = c.dnis_index;
  dnis_len = c.dnis_len;
  caller_category = c.caller_category;
  category_sent = c.category_sent;
  ani = c.ani;
  ani_ptr = c.ani_ptr;
  ani_len = c.ani_len;
  call_state = c.call_state;
}

pub talk-cancel_timer : (id : ℤ) (c : Chan) → talk (cancel_timer id c).0 ≡ talk c
unfolding cancel_timer
talk-cancel_timer (pos n) c = ground arith
talk-cancel_timer (negsuc n) c = refl

module _ (env : Env) (quiet : IsQuiet env) (sends : SendsTones env) where
  pub talk-emit : (e : Event) (c : Chan) → talk (emit env e c) ≡ talk c
  unfolding emit
  talk-emit e c = ap talk (quiet.callback e (record c { trace = Action.user e ∷ c.trace }))

  pub talk-add_timer :
      (ms : ℕ) (f : TimerCallback) (c : Chan) → talk (add_timer env ms f c).0 ≡ talk c
  unfolding add_timer schedule
  talk-add_timer ms f c = elim (Option-cases (env.gettimeofday c)) [
    | inl e ↦ rw (e, add_timer) (talk-emit _ c)
    | inr (tv, e) ↦ ground arith
  ]

  talk-start_mf_back_cycle : (c : Chan) → talk (start_mf_back_cycle env c) ≡ talk c
  unfolding start_mf_back_cycle
  talk-start_mf_back_cycle c =
      talk-add_timer env.r2context.timers.mf_back_cycle TimerCallback.mf_back_cycle_timeout_expired
        c

  talk-start_tone :
      (tone : ℕ) (c : Chan)
      → talk (start_tone env tone c) ≡ record (talk c) { mf_write_tone = tone }
  unfolding start_tone io_flush_write_buffers
  talk-start_tone tone c = ground (
    arith,
    sends.has_io,
    sends.flushes c,
    sends.flushes (start_mf_back_cycle env c),
    talk-start_mf_back_cycle c,
  )

  -- A tone that is asked for is the tone on the line.
  pub talk-prepare_mf_tone :
      (tone : ℕ) (c : Chan)
      → talk (prepare_mf_tone env tone c) ≡ record (talk c) { mf_write_tone = tone }
  unfolding prepare_mf_tone next_tone change_tone select_tone io_flush_write_buffers
  talk-prepare_mf_tone tone c = ground (
    arith,
    sends.has_io,
    sends.flushes c,
    sends.selects c tone,
    talk-start_tone tone (select_tone tone c),
  )

  pub talk-set_silence :
      (c : Chan) → talk (set_silence env c) ≡ record (talk c) { mf_write_tone = 0 }
  unfolding set_silence
  talk-set_silence c = ap (λ (t : Talk). record t { mf_write_tone = 0 }) (talk-prepare_mf_tone 0 c)

-- With no threshold every tone and every silence counts at once.
module _ (env : Env) (threshold : env.r2context.mf_threshold ≡ 0) where
  pub handle_mf_tone-on :
      (tone : ℕ) (c : Chan)
      → nonzero tone ≡ true
      → c.mf_read_tone ≡ 0
      → handle_mf_tone env tone c ≡ handle_tone_on env tone c
  unfolding handle_mf_tone tone_on check_threshold
  handle_mf_tone-on tone c sound silent = ground arith

  pub handle_mf_tone-off :
      (c : Chan) → nonzero c.mf_read_tone ≡ true → handle_mf_tone env 0 c ≡ handle_tone_off env c
  unfolding handle_mf_tone tone_off check_threshold
  handle_mf_tone-off c heard = ground arith
