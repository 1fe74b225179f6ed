-- ===== src/Exchange/TellsAni.antt =====
-- What the calling side makes of the requests for its ANI and for the change to group B.
use openr.Prelude.{ℕ, ◌+◌, ◌<◌, ◌≡◌, ◌≢◌, ap, nonzero, true, false, some, length, get_or, arith}
use openr.Types.{Direction, MfGroup, MfState}
use openr.Context.{GaTones}
use openr.Chan.{Chan, Env}
use openr.Chan.Device.{read_ani}
use openr.Proto.Forward.{handle_dnis_request, group_a_other, handle_group_a_request}
use openr.Proto.Forward.Send.{is_ani_end, send_ani_digit, send_ani, mf_send_ani, mf_send_category}
use openr.Proto.Tone.{handle_mf_tone}
use openr.Exchange.Talk.{Talk, talk, talk-prepare_mf_tone}
use openr.Exchange.Tells.{TellsNumber, request_stops}

-- The tones that ask for the ANI and for the change to group B ask for nothing else.
pub record AsksAni (t : GaTones) : Type 0 where
  pub ani_used : nonzero t.request_next_ani_digit ≡ true
  pub g2_used : nonzero t.request_change_to_g2 ≡ true
  pub next_digit : t.request_next_ani_digit ≢ t.request_next_dnis_digit
  pub minus_1 : t.request_next_ani_digit ≢ t.request_dnis_minus_1
  pub minus_2 : t.request_next_ani_digit ≢ t.request_dnis_minus_2
  pub minus_3 : t.request_next_ani_digit ≢ t.request_dnis_minus_3
  pub all_again : t.request_next_ani_digit ≢ t.request_all_dnis_again
  pub g2_next_digit : t.request_change_to_g2 ≢ t.request_next_dnis_digit
  pub g2_minus_1 : t.request_change_to_g2 ≢ t.request_dnis_minus_1
  pub g2_minus_2 : t.request_change_to_g2 ≢ t.request_dnis_minus_2
  pub g2_minus_3 : t.request_change_to_g2 ≢ t.request_dnis_minus_3
  pub g2_all_again : t.request_change_to_g2 ≢ t.request_all_dnis_again
  pub g2_ani : t.request_change_to_g2 ≢ t.request_next_ani_digit
  pub g2_category : t.request_change_to_g2 ≢ t.request_category

module _ (env : Env) (tells : TellsNumber env) (asks : AsksAni env.r2context.mf_ga_tones) where
  -- The caller tells the next digit of its ANI where the request stops.
  pub tells_ani :
      (p : ℕ) (c : Chan)
      → c.mf_read_tone ≡ env.r2context.mf_ga_tones.request_next_ani_digit
      → c.direction ≡ Direction.forward
      → c.mf_group ≡ MfGroup.gi
      → c.category_sent ≡ true
      → is_ani_end c.mf_state ≡ false
      → c.ani_ptr ≡ some p
      → p < length c.ani
      → nonzero (get_or c.ani p 0) ≡ true
      → talk (handle_mf_tone env 0 c) ≡ record (talk c) {
        mf_read_tone = 0;
        mf_write_tone = get_or c.ani p 0;
        mf_state = MfState.ani_txd;
        ani_ptr = some (p + 1);
      }
  unfolding handle_group_a_request handle_dnis_request group_a_other mf_send_ani send_ani
      send_ani_digit read_ani
  tells_ani p c asked direction group sent told ptr inside digit =
      let same =
        talk-prepare_mf_tone env tells.quiet tells.sends (get_or c.ani p 0)
          (record c { mf_state = MfState.ani_txd }) in
      ground (
        arith,
        asks,
        request_stops env tells c (ground (arith, asks.ani_used)) direction group,
        same,
        ap (λ (t : Talk). t.ani_ptr) same,
      )

  -- The caller changes to group B.
  pub tells_group :
      (c : Chan)
      → c.mf_read_tone ≡ env.r2context.mf_ga_tones.request_change_to_g2
      → c.direction ≡ Direction.forward
      → c.mf_group ≡ MfGroup.gi
      → nonzero env.r2context.mf_ga_tones.request_category ≡ true
      → talk (handle_mf_tone env 0 c) ≡ record (talk c) {
        mf_read_tone = 0;
        mf_write_tone = c.caller_category;
        mf_group = MfGroup.gii;
        mf_state = MfState.category_txd;
        category_sent = true;
      }
  unfolding handle_group_a_request handle_dnis_request group_a_other mf_send_category
  tells_group c asked direction group plain = ground (
    arith,
    asks,
    request_stops env tells c (ground (arith, asks.g2_used)) direction group,
    talk-prepare_mf_tone env tells.quiet tells.sends c.caller_category (record c {
      mf_group = MfGroup.gii;
      mf_state = MfState.category_txd;
      category_sent = true;
    }),
  )
