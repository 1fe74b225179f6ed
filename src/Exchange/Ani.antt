-- ===== src/Exchange/Ani.antt =====
-- What the called side makes of the tones of the caller after the category was asked for: the digits
-- of the ANI, and the category in group B, on which the call is offered.
use mathlib.Core.Path.{subst}
use openr.Prelude.{
  ℕ, pos, ◌+◌, ◌<◌, ◌≤◌, ◌≡◌, ◌⊎◌, sym, ap, ◌∙◌, nonzero, to_u32, ltb, if◌then◌else◌, not, ◌&&◌,
  true, false, length, set, length-set, arith,
}
use openr.Types.{CallState, Direction, MfGroup, MfState}
use openr.Chan.{Chan, Env, Event}
use openr.Chan.Device.{put_ani, append_ani}
use openr.Chan.Timers.{emit}
use openr.Proto.Mf.{offer_call, tone2category}
use openr.Proto.Backward.{
  forward_tone, receive_category, cancel_mf_back_cycle, handle_forward_mf_tone,
}
use openr.Proto.Backward.Request.{request_change_to_g2, try_change_to_g2}
use openr.Proto.Backward.Receive.{
  is_digit_tone, request_next_ani_digit, end_of_ani, receive_ani_digit, mf_receive_expected_ani,
}
use openr.Proto.Tone.{handle_tone_on, handle_mf_tone}
use openr.Exchange.Talk.{Talk, talk, talk-emit, talk-prepare_mf_tone, handle_mf_tone-on}
use openr.Exchange.Answers.{CollectsNumber, talk-cancel_mf_back_cycle}

-- The side that collects `m` digits of the ANI and then asks for the change to group B.
pub record CollectsAni (m : ℕ) (env : Env) : Type 0 where
  pub max_ani : env.r2context.max_ani ≡ pos m
  pub counted : env.r2context.force_use_max_ani ≡ false
  pub waits : env.r2context.immediate_accept ≡ false
  pub no_gc : env.r2context.mf_gc_tones.request_next_ani_digit ≡ 0

-- A digit of the ANI is kept.
abbrev pub kept_ani : ℕ → Talk → Talk
kept_ani d t = record t {
  ani = set (set t.ani t.ani_len d) (t.ani_len + 1) 0;
  ani_len = t.ani_len + 1;
}

-- The called side's request is on the line.
abbrev pub requesting : MfGroup → MfState → ℕ → Talk → Talk
requesting group state tone t = record t {
  mf_group = group;
  mf_state = state;
  mf_write_tone = tone;
}

append_ani_inside :
    (d : ℕ) (c : Chan) → c.ani_len + 1 < length c.ani → talk (append_ani d c) ≡ kept_ani d (talk c)
unfolding append_ani put_ani
append_ani_inside d c h = ground (arith, length-set c.ani c.ani_len d)

module _ (env : Env) (n m : ℕ) (collects : CollectsNumber n env) (numbers : CollectsAni m env) where
  talk-request_next_ani_digit :
      (c : Chan)
      → c.mf_group ≡ MfGroup.ga
      → talk (request_next_ani_digit env c)
        ≡ requesting MfGroup.ga MfState.ani_rq_txd env.r2context.mf_ga_tones.request_next_ani_digit
            (talk c)
  unfolding request_next_ani_digit
  talk-request_next_ani_digit c group = ground (
    arith,
    numbers.no_gc,
    talk-prepare_mf_tone env collects.quiet collects.sends
        env.r2context.mf_ga_tones.request_next_ani_digit
        (record c { mf_state = MfState.ani_rq_txd }),
  )

  talk-end_of_ani :
      (c : Chan)
      → c.mf_group ≡ MfGroup.ga
      → talk (end_of_ani env c)
        ≡ requesting MfGroup.gb MfState.chg_gii_txd env.r2context.mf_ga_tones.request_change_to_g2
            (talk c)
  unfolding end_of_ani try_change_to_g2 request_change_to_g2
  talk-end_of_ani c group = ground (
    arith,
    collects.dnis_first,
    numbers.waits,
    talk-prepare_mf_tone env collects.quiet collects.sends
        env.r2context.mf_ga_tones.request_change_to_g2
        (record c { mf_group = MfGroup.gb; mf_state = MfState.chg_gii_txd }),
  )

  handle_mf_tone-category :
      (tone : ℕ) (c : Chan)
      → 0 < m
      → nonzero tone ≡ true
      → c.direction ≡ Direction.backward
      → c.mf_read_tone ≡ 0
      → c.mf_group ≡ MfGroup.ga
      → c.mf_state ≡ MfState.category_rq_txd
      → handle_mf_tone env tone c
        ≡ request_next_ani_digit env
            (record (cancel_mf_back_cycle (record c { mf_read_tone = tone })) {
              caller_category = tone;
            })
  unfolding handle_tone_on handle_forward_mf_tone forward_tone receive_category
      mf_receive_expected_ani
  handle_mf_tone-category tone c more sound direction silent group state =
      ground (arith, numbers.max_ani, handle_mf_tone-on env collects.threshold tone c sound silent)

  -- The tone of the category is kept, and the ANI asked for.
  pub hears_category :
      (tone : ℕ) (c : Chan)
      → 0 < m
      → nonzero tone ≡ true
      → c.direction ≡ Direction.backward
      → c.mf_read_tone ≡ 0
      → c.mf_group ≡ MfGroup.ga
      → c.mf_state ≡ MfState.category_rq_txd
      → talk (handle_mf_tone env tone c)
        ≡ requesting MfGroup.ga MfState.ani_rq_txd env.r2context.mf_ga_tones.request_next_ani_digit
            (record (talk c) { mf_read_tone = tone; caller_category = tone })
  hears_category tone c more sound direction silent group state =
      let c1 = record c { mf_read_tone = tone } in
      let c2 = record (cancel_mf_back_cycle c1) { caller_category = tone } in
      let same =
        ap (λ (t : Talk). record t { caller_category = tone })
          (talk-cancel_mf_back_cycle env n collects c1) in
      ap talk (handle_mf_tone-category tone c more sound direction silent group state)
      ∙ talk-request_next_ani_digit c2 (ap (λ (t : Talk). t.mf_group) same ∙ group)
      ∙ ap
          (requesting MfGroup.ga MfState.ani_rq_txd
            env.r2context.mf_ga_tones.request_next_ani_digit)
          same

  -- The last digit is answered by the request to change, any other by that of the next digit.
  abbrev pub AniAsked : Talk → Talk → Type 0
  AniAsked t t' =
      ((m ≤ t.ani_len)
        × (t'
            ≡ requesting MfGroup.gb MfState.chg_gii_txd
                env.r2context.mf_ga_tones.request_change_to_g2 t))
      ⊎ ((t.ani_len < m)
          × (t'
              ≡ requesting MfGroup.ga MfState.ani_rq_txd
                  env.r2context.mf_ga_tones.request_next_ani_digit t))

  after_ani_digit :
      (c : Chan)
      → c.mf_group ≡ MfGroup.ga
      → AniAsked (talk c) (
          talk (
            if not env.r2context.force_use_max_ani && ltb c.ani_len (to_u32 env.r2context.max_ani)
            then request_next_ani_digit env c
            else end_of_ani env c))
  after_ani_digit c group = ground (
    arith,
    numbers.max_ani,
    numbers.counted,
    talk-request_next_ani_digit c group,
    talk-end_of_ani c group,
  )

  receive_ani_digit-AniAsked :
      (d : ℕ) (c : Chan)
      → c.mf_group ≡ MfGroup.ga
      → c.ani_len + 1 < length c.ani
      → AniAsked (kept_ani d (talk c)) (talk (receive_ani_digit env d c))
  unfolding receive_ani_digit
  receive_ani_digit-AniAsked d c group room =
      let c1 = emit env (Event.on_ani_digit_received d) (append_ani d c) in
      let same =
        talk-emit env collects.quiet collects.sends (Event.on_ani_digit_received d) (append_ani d c)
        ∙ append_ani_inside d c room in
      subst (λ (t : Talk). AniAsked t (talk (receive_ani_digit env d c))) same
        (after_ani_digit c1 (ap (λ (t : Talk). t.mf_group) same ∙ group))

  handle_mf_tone-ani :
      (d : ℕ) (c : Chan)
      → is_digit_tone d ≡ true
      → c.direction ≡ Direction.backward
      → c.mf_read_tone ≡ 0
      → c.mf_group ≡ MfGroup.ga
      → c.mf_state ≡ MfState.ani_rq_txd
      → handle_mf_tone env d c
        ≡ receive_ani_digit env d (cancel_mf_back_cycle (record c { mf_read_tone = d }))
  unfolding handle_tone_on handle_forward_mf_tone forward_tone mf_receive_expected_ani
  handle_mf_tone-ani d c digit direction silent group state =
      ground (arith, handle_mf_tone-on env collects.threshold d c (ground arith) silent)

  -- A digit of the ANI that answers the request is kept.
  pub hears_ani :
      (d : ℕ) (c : Chan)
      → is_digit_tone d ≡ true
      → c.direction ≡ Direction.backward
      → c.mf_read_tone ≡ 0
      → c.mf_group ≡ MfGroup.ga
      → c.mf_state ≡ MfState.ani_rq_txd
      → c.ani_len + 1 < length c.ani
      → AniAsked (kept_ani d (record (talk c) { mf_read_tone = d })) (talk (handle_mf_tone env d c))
  hears_ani d c digit direction silent group state room =
      let c1 = record c { mf_read_tone = d } in
      let x = cancel_mf_back_cycle c1 in
      let same = talk-cancel_mf_back_cycle env n collects c1 in
      subst (λ (y : Chan). AniAsked (kept_ani d (talk c1)) (talk y))
        (sym (handle_mf_tone-ani d c digit direction silent group state))
        (subst (λ (t : Talk). AniAsked (kept_ani d t) (talk (receive_ani_digit env d x))) same
          (receive_ani_digit-AniAsked d x (ap (λ (t : Talk). t.mf_group) same ∙ group) (
            omega (
              arith,
              ap (λ (t : Talk). t.ani_len) same,
              ap (λ (t : Talk). length t.ani) same,
              room,
            ))))

  -- The category, told again in group B, lets the call be offered.
  pub hears_offer :
      (tone : ℕ) (c : Chan)
      → nonzero tone ≡ true
      → c.direction ≡ Direction.backward
      → c.mf_read_tone ≡ 0
      → c.mf_group ≡ MfGroup.gb
      → c.mf_state ≡ MfState.chg_gii_txd
      → c.call_state ≡ CallState.collecting
      → (x : Chan) × (handle_mf_tone env tone c
          ≡ emit env
              (Event.on_call_offered
                (tone2category env x.caller_category)
                x.caller_ani_is_restricted)
              x)
        × (talk x ≡ record (talk c) { mf_read_tone = tone; call_state = CallState.offered })
  unfolding handle_tone_on handle_forward_mf_tone forward_tone offer_call
  hears_offer tone c sound direction silent group state collecting =
      let c1 = record c { mf_read_tone = tone } in
      let same = talk-cancel_mf_back_cycle env n collects c1 in
      (
        record (cancel_mf_back_cycle c1) { call_state = CallState.offered },
        ground (
          arith,
          handle_mf_tone-on env collects.threshold tone c sound silent,
          ap (λ (t : Talk). t.call_state) same,
        ),
        ap (λ (t : Talk). record t { call_state = CallState.offered }) same,
      )
