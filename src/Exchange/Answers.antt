-- ===== src/Exchange/Answers.antt =====
-- What the called side makes of a tone or a silence of the caller, while it collects the DNIS.
use mathlib.Core.Path.{subst}
use openr.Prelude.{
  ℕ, ◌+◌, ◌<◌, ◌≤◌, ◌≡◌, ◌≢◌, ◌⊎◌, sym, ap, ◌∙◌, nonzero, to_u32, true, false, ◌∷◌, length, set,
  arith,
}
use openr.Types.{Direction, MfGroup, MfState}
use openr.Context.{max_dnis_size}
use openr.Chan.{Chan, Env, Event, Action}
use openr.Proto.Mf.{emit_dnis_digit}
use openr.Proto.Backward.{
  forward_tone, cancel_mf_back_cycle, handle_forward_mf_tone, forward_silence,
  handle_forward_mf_silence,
}
use openr.Proto.Backward.Request.{
  request_next_dnis_digit, request_calling_party_category, try_request_calling_party_category,
}
use openr.Proto.Backward.Receive.{
  is_digit_tone, keep_dnis_digit, after_dnis_digit, mf_receive_expected_dnis, receive_first_digit,
}
use openr.Proto.Tone.{handle_tone_on, handle_tone_off, handle_mf_tone}
use openr.Signalling.{IsQuiet}
use openr.Digits.{append_dnis_inside}
use openr.Digits.Sent.{SendsTones}
use openr.Exchange.Talk.{
  Talk, talk, talk-cancel_timer, talk-prepare_mf_tone, talk-set_silence, handle_mf_tone-on,
  handle_mf_tone-off,
}

-- The side that collects `n` digits and then asks for the category: its devices send the tones they
-- are given, its user only looks on and wants each digit, and it asks for the DNIS first.
pub record CollectsNumber (n : ℕ) (env : Env) : Type 0 where
  pub sends : SendsTones env
  pub quiet : IsQuiet env
  pub threshold : env.r2context.mf_threshold ≡ 0
  pub wants_digit : (d : ℕ) (c : Chan) → (env.dnis_callback d c).0 ≡ true
  pub max_dnis : to_u32 env.r2context.max_dnis ≡ n
  pub dnis_first : env.r2context.get_ani_first ≡ false
  pub asks_category : env.r2context.skip_category ≡ false
  pub category : nonzero env.r2context.mf_ga_tones.request_category ≡ true
  pub next_digit : nonzero env.r2context.mf_ga_tones.request_next_dnis_digit ≡ true

-- The called side waits for a digit: the first of all, or the answer to its request.
abbrev pub AwaitsDigit : Talk → Type 0
AwaitsDigit t =
    ((t.mf_group ≡ MfGroup.back_init) × (t.mf_state ≡ MfState.seize_ack_txd))
    ⊎ ((t.mf_group ≡ MfGroup.ga) × (t.mf_state ≡ MfState.dnis_rq_txd))

-- The called side has asked for something: not accepted in group A, or a change to group B.
abbrev pub IsAsking : Talk → Type 0
IsAsking t =
    ((t.mf_group ≡ MfGroup.ga) × (t.mf_state ≢ MfState.accepted_txd))
    ⊎ ((t.mf_group ≡ MfGroup.gb) × (t.mf_state ≡ MfState.chg_gii_txd))

-- A digit is kept, and the next request is on the line.
abbrev pub kept : ℕ → Talk → Talk
kept d t = record t {
  mf_read_tone = d;
  dnis = set (set t.dnis t.dnis_len d) (t.dnis_len + 1) 0;
  dnis_len = t.dnis_len + 1;
}

abbrev pub asking : MfState → ℕ → Talk → Talk
asking state tone t = record t { mf_group = MfGroup.ga; mf_state = state; mf_write_tone = tone }

module _ (env : Env) (n : ℕ) (collects : CollectsNumber n env) where
  pub talk-cancel_mf_back_cycle : (c : Chan) → talk (cancel_mf_back_cycle c) ≡ talk c
  unfolding cancel_mf_back_cycle
  talk-cancel_mf_back_cycle c = talk-cancel_timer c.timer_ids.mf_back_cycle c

  talk-request_next_dnis_digit :
      (c : Chan)
      → c.mf_group ≢ MfGroup.gc
      → talk (request_next_dnis_digit env c)
        ≡ asking MfState.dnis_rq_txd env.r2context.mf_ga_tones.request_next_dnis_digit (talk c)
  unfolding request_next_dnis_digit
  talk-request_next_dnis_digit c group = ground (
    arith,
    talk-prepare_mf_tone env collects.quiet collects.sends
        env.r2context.mf_ga_tones.request_next_dnis_digit
        (record c { mf_group = MfGroup.ga; mf_state = MfState.dnis_rq_txd }),
  )

  talk-request_category :
      (c : Chan)
      → talk (try_request_calling_party_category env c)
        ≡ asking MfState.category_rq_txd env.r2context.mf_ga_tones.request_category (talk c)
  unfolding try_request_calling_party_category request_calling_party_category
  talk-request_category c = ground (
    arith,
    collects.asks_category,
    collects.category,
    talk-prepare_mf_tone env collects.quiet collects.sends
        env.r2context.mf_ga_tones.request_category
        (record c { mf_group = MfGroup.ga; mf_state = MfState.category_rq_txd }),
  )

  talk-after_dnis_digit :
      (c : Chan)
      → c.mf_group ≢ MfGroup.gc
      → ((n ≤ c.dnis_len)
          × (talk (after_dnis_digit env true c)
              ≡ asking MfState.category_rq_txd env.r2context.mf_ga_tones.request_category (talk c)))
        ⊎ ((c.dnis_len < n)
            × (talk (after_dnis_digit env true c)
                ≡ asking MfState.dnis_rq_txd env.r2context.mf_ga_tones.request_next_dnis_digit
                    (talk c)))
  unfolding after_dnis_digit
  talk-after_dnis_digit c group = ground (
    arith,
    collects.max_dnis,
    collects.dnis_first,
    talk-request_category c,
    talk-request_next_dnis_digit c group,
  )

  talk-keep_dnis_digit :
      (d : ℕ) (c : Chan)
      → length c.dnis ≡ max_dnis_size
      → c.dnis_len + 1 < max_dnis_size
      → talk (keep_dnis_digit d c) ≡ record (kept d (talk c)) { mf_read_tone = c.mf_read_tone }
  unfolding keep_dnis_digit
  talk-keep_dnis_digit d c size room =
      ground (arith, ap talk (append_dnis_inside d c (omega (arith, size, room))))

  emit_dnis_digit-wanted :
      (d : ℕ) (c : Chan)
      → emit_dnis_digit env d c
        ≡ (true, record c { trace = Action.user (Event.on_dnis_digit_received d) ∷ c.trace })
  unfolding emit_dnis_digit
  emit_dnis_digit-wanted d c =
      let seen = record c { trace = Action.user (Event.on_dnis_digit_received d) ∷ c.trace } in
      ground (arith, collects.wants_digit d seen, collects.quiet.dnis_callback d seen)

  -- The last digit is answered by the request of the category, any other by that of the next digit.
  abbrev pub Asked : Talk → Talk → Type 0
  Asked t t' =
      ((n ≤ t.dnis_len)
        × (t' ≡ asking MfState.category_rq_txd env.r2context.mf_ga_tones.request_category t))
      ⊎ ((t.dnis_len < n)
          × (t' ≡ asking MfState.dnis_rq_txd env.r2context.mf_ga_tones.request_next_dnis_digit t))

  receive-Asked :
      (d : ℕ) (c : Chan)
      → is_digit_tone d ≡ true
      → c.mf_group ≢ MfGroup.gc
      → length c.dnis ≡ max_dnis_size
      → c.dnis_len + 1 < max_dnis_size
      → Asked
          (record (kept d (talk c)) { mf_read_tone = c.mf_read_tone })
          (talk (mf_receive_expected_dnis env d c))
  unfolding mf_receive_expected_dnis
  receive-Asked d c digit group size room =
      let k = keep_dnis_digit d c in
      let same = talk-keep_dnis_digit d c size room in
      let seen = record k { trace = Action.user (Event.on_dnis_digit_received d) ∷ k.trace } in
      rw (digit, emit_dnis_digit-wanted d k)
        (subst (λ (t : Talk). Asked t (talk (after_dnis_digit env true seen))) same
          (talk-after_dnis_digit seen (λ e. group (sym (ap (λ (t : Talk). t.mf_group) same) ∙ e))))

  receives-Asked :
      (d : ℕ) (c : Chan)
      → is_digit_tone d ≡ true
      → c.mf_group ≢ MfGroup.gc
      → length c.dnis ≡ max_dnis_size
      → c.dnis_len + 1 < max_dnis_size
      → Asked
          (record (kept d (talk c)) { mf_read_tone = c.mf_read_tone })
          (talk (mf_receive_expected_dnis env d (cancel_mf_back_cycle c)))
  receives-Asked d c digit group size room =
      let x = cancel_mf_back_cycle c in
      let same = talk-cancel_mf_back_cycle c in
      subst
        (λ (t : Talk).
          Asked (record (kept d t) { mf_read_tone = t.mf_read_tone })
            (talk (mf_receive_expected_dnis env d x)))
        same
        (receive-Asked d x digit (λ e. group (sym (ap (λ (t : Talk). t.mf_group) same) ∙ e))
          (ap (λ (t : Talk). length t.dnis) same ∙ size)
          (omega (arith, ap (λ (t : Talk). t.dnis_len) same, room)))

  handle_mf_tone-awaits :
      (d : ℕ) (c : Chan)
      → nonzero d ≡ true
      → c.direction ≡ Direction.backward
      → c.mf_read_tone ≡ 0
      → AwaitsDigit (talk c)
      → handle_mf_tone env d c
        ≡ mf_receive_expected_dnis env d (cancel_mf_back_cycle (record c { mf_read_tone = d }))
  unfolding handle_tone_on handle_forward_mf_tone forward_tone receive_first_digit
  handle_mf_tone-awaits d c sound direction silent awaits =
      ground (arith, collects.dnis_first, handle_mf_tone-on env collects.threshold d c sound silent)

  AwaitsDigit-group : (c : Chan) → AwaitsDigit (talk c) → c.mf_group ≢ MfGroup.gc
  AwaitsDigit-group c awaits = ground arith

  -- A tone that answers the request, or comes first, is kept as a digit.
  pub hears_digit :
      (d : ℕ) (c : Chan)
      → is_digit_tone d ≡ true
      → c.direction ≡ Direction.backward
      → c.mf_read_tone ≡ 0
      → AwaitsDigit (talk c)
      → length c.dnis ≡ max_dnis_size
      → c.dnis_len + 1 < max_dnis_size
      → Asked (kept d (talk c)) (talk (handle_mf_tone env d c))
  hears_digit d c digit direction silent awaits size room =
      subst (λ x. Asked (kept d (talk c)) (talk x))
        (sym (handle_mf_tone-awaits d c (ground arith) direction silent awaits))
        (receives-Asked d (record c { mf_read_tone = d }) digit (AwaitsDigit-group c awaits) size
          room)

  -- The called side's own tone stops with the other's, and then it waits.
  pub hears_stop :
      (c : Chan)
      → nonzero c.mf_read_tone ≡ true
      → c.direction ≡ Direction.backward
      → IsAsking (talk c)
      → talk (handle_mf_tone env 0 c) ≡ record (talk c) { mf_read_tone = 0; mf_write_tone = 0 }
  unfolding handle_tone_off handle_forward_mf_silence forward_silence
  hears_stop c heard direction asking = ground (
    arith,
    handle_mf_tone-off env collects.threshold c heard,
    talk-set_silence env collects.quiet collects.sends c,
  )
