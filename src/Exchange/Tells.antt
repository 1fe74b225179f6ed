-- ===== src/Exchange/Tells.antt =====
-- What the calling side makes of a tone or a silence of the called side: the next digit of the DNIS,
-- and the category.
use openr.Prelude.{ℕ, ◌+◌, ◌-◌, ◌<◌, ◌≡◌, ◌≢◌, nonzero, true, false, List, get_or, arith}
use openr.Types.{Direction, MfGroup, MfState}
use openr.Context.{GaTones, max_dnis_size}
use openr.Chan.{Chan, Env}
use openr.Chan.Timers.{cancel_timer}
use openr.Proto.Calls.Make.{string_copy}
use openr.Proto.Forward.{
  handle_backward_mf_tone, handle_dnis_request, group_a_other, handle_group_a_request,
  backward_silence, handle_backward_mf_silence,
}
use openr.Proto.Forward.Send.{mf_send_category}
use openr.Proto.Tone.{handle_tone_on, handle_tone_off, handle_mf_tone}
use openr.Signalling.{IsQuiet}
use openr.Digits.{mf_send_dnis_next}
use openr.Digits.Sent.{SendsTones}
use openr.Exchange.Talk.{
  talk, talk-cancel_timer, talk-prepare_mf_tone, talk-set_silence, handle_mf_tone-on,
  handle_mf_tone-off,
}

-- The side that tells its number: its devices send the tones they are given, and its user only looks
-- on.
pub record TellsNumber (env : Env) : Type 0 where
  pub sends : SendsTones env
  pub quiet : IsQuiet env
  pub threshold : env.r2context.mf_threshold ≡ 0

-- The tone that asks for the category asks for nothing else.
pub record AsksCategory (t : GaTones) : Type 0 where
  pub used : nonzero t.request_category ≡ true
  pub next_digit : t.request_category ≢ t.request_next_dnis_digit
  pub minus_1 : t.request_category ≢ t.request_dnis_minus_1
  pub minus_2 : t.request_category ≢ t.request_dnis_minus_2
  pub minus_3 : t.request_category ≢ t.request_dnis_minus_3
  pub all_again : t.request_category ≢ t.request_all_dnis_again
  pub no_change : t.request_category ≢ t.request_category_and_change_to_gc

module _ (env : Env) (tells : TellsNumber env) where
  pub hears_request :
      (tone : ℕ) (c : Chan)
      → nonzero tone ≡ true
      → c.direction ≡ Direction.forward
      → c.mf_read_tone ≡ 0
      → talk (handle_mf_tone env tone c)
        ≡ record (talk c) { mf_read_tone = tone; mf_write_tone = 0 }
  unfolding handle_tone_on handle_backward_mf_tone
  hears_request tone c sound direction silent =
      let c1 = record c { mf_read_tone = tone } in
      ground (
        arith,
        handle_mf_tone-on env tells.threshold tone c sound silent,
        talk-cancel_timer c.timer_ids.mf_fwd_safety c1,
        talk-set_silence env tells.quiet tells.sends (
            let (c2, id) = cancel_timer c1.timer_ids.mf_fwd_safety c1 in
            record c2 { timer_ids = record (c2.timer_ids) { mf_fwd_safety = id } }),
      )

  -- The request heard is answered when it stops.
  pub request_stops :
      (c : Chan)
      → nonzero c.mf_read_tone ≡ true
      → c.direction ≡ Direction.forward
      → c.mf_group ≡ MfGroup.gi
      → handle_mf_tone env 0 c
        ≡ record (handle_group_a_request env c.mf_read_tone c) { mf_read_tone = 0 }
  unfolding handle_tone_off handle_backward_mf_silence backward_silence
  request_stops c heard direction group =
      ground (arith, handle_mf_tone-off env tells.threshold c heard)

  pub tells_digit :
      (s : List ℕ) (c : Chan)
      → nonzero c.mf_read_tone ≡ true
      → c.mf_read_tone ≡ env.r2context.mf_ga_tones.request_next_dnis_digit
      → c.direction ≡ Direction.forward
      → c.mf_group ≡ MfGroup.gi
      → c.dnis ≡ string_copy (max_dnis_size - 1) s
      → c.dnis_index + 1 < max_dnis_size - 1
      → nonzero (get_or s (c.dnis_index + 1) 0) ≡ true
      → talk (handle_mf_tone env 0 c) ≡ record (talk c) {
        mf_read_tone = 0;
        mf_write_tone = get_or s (c.dnis_index + 1) 0;
        mf_state = MfState.dnis_txd;
        dnis_index = c.dnis_index + 1;
      }
  unfolding handle_group_a_request handle_dnis_request
  tells_digit s c heard asked direction group dnis room digit = ground (
    arith,
    request_stops c heard direction group,
    mf_send_dnis_next env s c dnis room digit,
    talk-prepare_mf_tone env tells.quiet tells.sends (get_or s (c.dnis_index + 1) 0)
        (record c { dnis_index = c.dnis_index + 1; mf_state = MfState.dnis_txd }),
  )

  pub tells_category :
      (c : Chan)
      → AsksCategory env.r2context.mf_ga_tones
      → c.mf_read_tone ≡ env.r2context.mf_ga_tones.request_category
      → c.direction ≡ Direction.forward
      → c.mf_group ≡ MfGroup.gi
      → c.category_sent ≡ false
      → talk (handle_mf_tone env 0 c) ≡ record (talk c) {
        mf_read_tone = 0;
        mf_write_tone = c.caller_category;
        mf_state = MfState.category_txd;
        category_sent = true;
      }
  unfolding handle_group_a_request handle_dnis_request group_a_other mf_send_category
  tells_category c asks asked direction group unsent = ground (
    arith,
    asks.used,
    asks.next_digit,
    asks.minus_1,
    asks.minus_2,
    asks.minus_3,
    asks.all_again,
    asks.no_change,
    request_stops c (ground (arith, asks.used)) direction group,
    talk-prepare_mf_tone env tells.quiet tells.sends c.caller_category
        (record c { mf_state = MfState.category_txd; category_sent = true }),
  )
