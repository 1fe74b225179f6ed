-- ===== src/Exchange/Whole.antt =====
-- A whole call as the MF exchange of two channels tells it: the DNIS, the category, the ANI, the
-- change to group B, and the category again, on which the call is offered.
use mathlib.Core.Path.{subst}
use openr.Prelude.{
  ℕ, zero, suc, ◌+◌, ◌<◌, ◌≡◌, refl, sym, ap, ◌∙◌, inl, inr, nonzero, true, List, length, take,
  get_or, take_whole, arith,
}
use openr.Types.{CallState}
use openr.Context.{max_ani_size, max_dnis_size}
use openr.Chan.{Chan, Env, Event}
use openr.Chan.Timers.{emit}
use openr.Proto.Mf.{tone2category}
use openr.Proto.Backward.Receive.{is_digit_tone}
use openr.Proto.Tone.{handle_mf_tone}
use openr.Digits.{dnis_text}
use openr.Exchange.Talk.{Talk, talk}
use openr.Exchange.Answers.{CollectsNumber}
use openr.Exchange.Tells.{TellsNumber, AsksCategory}
use openr.Exchange.Ani.{CollectsAni, AniAsked, kept_ani, hears_ani, hears_offer}
use openr.Exchange.TellsAni.{AsksAni}
use openr.Exchange.Cycle.{cycle, cycles, Telling, Collecting, half}
use openr.Exchange.Number.{Told, cycles_all}
use openr.Exchange.Offer.{
  CollectingAni, HasAll, ani_text, length-kept_ani, kept_ani-text, answer_ani, answer_group,
  cycle_category,
}

module _ (calling : Env) (called : Env) (s ani : List ℕ) (k : ℕ) (tells : TellsNumber calling)
    (collects : CollectsNumber (length s) called) (numbers : CollectsAni (length ani) called)
    (agree : calling.r2context.mf_ga_tones ≡ called.r2context.mf_ga_tones)
    (category : AsksCategory called.r2context.mf_ga_tones)
    (asks : AsksAni called.r2context.mf_ga_tones) (used : nonzero k ≡ true)
    (short : length ani < max_ani_size)
    (digits : (j : ℕ) → j < length ani → is_digit_tone (get_or ani j 0) ≡ true) where
  asked_ani :
      (j x : ℕ) (b : Chan)
      → x ≡ get_or ani j 0
      → CollectingAni s ani k j (talk b)
      → j < length ani
      → AniAsked called
          (length s)
          (length ani)
          collects
          numbers
          (kept_ani x (record (talk b) { mf_read_tone = x }))
          (talk (handle_mf_tone called x b))
  asked_ani j x b digit y more =
      hears_ani called (length s) (length ani) collects numbers x b
        (ap is_digit_tone digit ∙ digits j more) y.direction y.heard y.group y.state
        (omega (arith, y.ani_len, y.ani_size))

  -- The cycle of a digit of the ANI that is not the last.
  cycle_ani :
      (j : ℕ) (a b : Chan)
      → Told ani k (j + 1) (get_or ani j 0) (talk a)
      → CollectingAni s ani k j (talk b)
      → j + 1 < length ani
      → let ab = cycle calling called (a, b) in
        Told ani k (j + 1 + 1) (get_or ani (j + 1) 0) (talk ab.0)
        × CollectingAni s ani k (j + 1) (talk ab.1)
  unfolding cycle
  cycle_ani j a b x y more = elim (asked_ani j a.mf_write_tone b x.sends y (omega arith)) [
    | inl (last, e) ↦ absurd (omega (arith, last, y.ani_len))
    | inr (room, e) ↦
        let (ha, hb) =
          half calling called (length s) tells collects a _ _ e asks.ani_used
            (ground (arith, x.sends, digits j (omega arith))) y.direction (inl (refl, ground arith))
            x.direction x.heard in
        let ab1 = cycle calling called (a, b) in
        (
          answer_ani calling called s ani k tells collects numbers agree category asks used short
              digits (j + 1) a _ ab1.1.mf_write_tone x ha (ap (λ (t : Talk). t.mf_write_tone) hb)
              more,
          subst (CollectingAni s ani k (j + 1)) (sym hb) (record {
            direction = y.direction;
            group = refl;
            state = refl;
            heard = refl;
            text = y.text;
            category = y.category;
            ani_size = length-kept_ani a.mf_write_tone (talk b) ∙ y.ani_size;
            ani_len = ap (λ (i : ℕ). i + 1) y.ani_len;
            ani_text =
                kept_ani-text ani j a.mf_write_tone (talk b) y.ani_size y.ani_len y.ani_text
                  (omega arith) short x.sends;
            collecting = y.collecting;
          }),
        )
  ]

  -- The cycle of the last digit.
  cycle_ani_last :
      (j : ℕ) (a b : Chan)
      → Told ani k (j + 1) (get_or ani j 0) (talk a)
      → CollectingAni s ani k j (talk b)
      → j + 1 ≡ length ani
      → let ab = cycle calling called (a, b) in
        (ab.0.mf_write_tone ≡ k) × HasAll s ani k (talk ab.1)
  unfolding cycle
  cycle_ani_last j a b x y last = elim (asked_ani j a.mf_write_tone b x.sends y (omega arith)) [
    | inr (room, e) ↦ absurd (omega (arith, room, y.ani_len))
    | inl (full, e) ↦
        let (ha, hb) =
          half calling called (length s) tells collects a _ _ e asks.g2_used
            (ground (arith, x.sends, digits j (omega arith))) y.direction (inr (refl, refl))
            x.direction x.heard in
        let ab1 = cycle calling called (a, b) in
        (
          answer_group calling called s ani k tells collects numbers agree category asks used short
              digits a _ ab1.1.mf_write_tone x ha (ap (λ (t : Talk). t.mf_write_tone) hb),
          subst (HasAll s ani k) (sym hb) (record {
            direction = y.direction;
            group = refl;
            state = refl;
            heard = refl;
            text = y.text;
            category = y.category;
            ani_text =
                ap (λ (i : ℕ). take (i + 1) (kept_ani a.mf_write_tone (talk b)).ani) y.ani_len
                ∙ kept_ani-text ani j a.mf_write_tone (talk b) y.ani_size y.ani_len y.ani_text
                    (omega arith) short x.sends
                ∙ take_whole (j + 1) ani (omega arith);
            collecting = y.collecting;
          }),
        )
  ]

  cycles_ani :
      (n j : ℕ) (a b : Chan)
      → Told ani k (j + 1) (get_or ani j 0) (talk a)
      → CollectingAni s ani k j (talk b)
      → j + suc n ≡ length ani
      → let ab = cycles calling called (suc n) (a, b) in
        (ab.0.mf_write_tone ≡ k) × HasAll s ani k (talk ab.1)
  unfolding cycles
  cycles_ani zero j a b x y last = cycle_ani_last j a b x y (omega arith)
  cycles_ani (suc n) j a b x y more =
      let (x', y') = cycle_ani j a b x y (omega arith) in
      let ab = cycle calling called (a, b) in cycles_ani n (j + 1) ab.0 ab.1 x' y' (omega arith)

  -- The cycles of the whole ANI.
  cycles_ani_all :
      (n : ℕ) (a b : Chan)
      → Told ani k 1 (get_or ani 0 0) (talk a)
      → CollectingAni s ani k 0 (talk b)
      → 0 < n
      → n ≡ length ani
      → let ab = cycles calling called n (a, b) in
        (ab.0.mf_write_tone ≡ k) × HasAll s ani k (talk ab.1)
  cycles_ani_all zero a b x y more e = absurd (omega (arith, more))
  cycles_ani_all (suc n) a b x y more e = cycles_ani n 0 a b x y (omega (arith, e))

  -- The category in group B, on which the call is offered.
  offered :
      (tone : ℕ) (b : Chan)
      → tone ≡ k
      → HasAll s ani k (talk b)
      → (x : Chan) × (handle_mf_tone called tone b
          ≡ emit called
              (Event.on_call_offered (tone2category called k) x.caller_ani_is_restricted)
              x)
        × (dnis_text x ≡ s)
        × (ani_text x ≡ ani)
        × (x.call_state ≡ CallState.offered)
  offered tone b e y =
      let (x, heard, same) =
        hears_offer called (length s) (length ani) collects numbers tone b (ap nonzero e ∙ used)
          y.direction y.heard y.group y.state y.collecting in
      (
        x,
        heard
            ∙ ap
                (λ (t : ℕ).
                  emit called
                    (Event.on_call_offered (tone2category called t) x.caller_ani_is_restricted) x)
                (ap (λ (t : Talk). t.caller_category) same ∙ y.category),
        ap (λ (t : Talk). take t.dnis_len t.dnis) same ∙ y.text,
        ap (λ (t : Talk). take t.ani_len t.ani) same ∙ y.ani_text,
        ap (λ (t : Talk). t.call_state) same,
      )

-- A call is offered to the called side whole. The caller has the first digit of the number `s` on
-- the line, its own number `ani` in its buffer, and the tone `k` for its category; the called side
-- has nothing yet, and is to collect as many digits as the two numbers have, from 1 to 79 of each.
-- Each side hears what the other has on the line, with the same tones for requests, each of which
-- stands for one request, but that one tone may ask for the category and, later, for the ANI. After
-- a compelled cycle for each digit and one for the category, the called side, when it hears the
-- category again, calls the user's `on_call_offered` with the category of `k` on a channel whose
-- DNIS is `s` and whose ANI is `ani`. The users only look on and want each digit, the devices send
-- what they are given, and no tone must last. The called side asks for the DNIS, then the category,
-- then the ANI, by tones of group A; it does not force the use of `max_ani`; and it does not accept
-- the call before the user does. At the start neither side hears a tone.
pub cycles-offered :
    (calling called : Env) (s ani : List ℕ) (k : ℕ) (a b : Chan)
    → TellsNumber calling
    → CollectsNumber (length s) called
    → CollectsAni (length ani) called
    → calling.r2context.mf_ga_tones ≡ called.r2context.mf_ga_tones
    → AsksCategory called.r2context.mf_ga_tones
    → AsksAni called.r2context.mf_ga_tones
    → nonzero k ≡ true
    → (0 < length s) × (length s < max_dnis_size)
    → (0 < length ani) × (length ani < max_ani_size)
    → ((j : ℕ) → j < length s → is_digit_tone (get_or s j 0) ≡ true)
    → ((j : ℕ) → j < length ani → is_digit_tone (get_or ani j 0) ≡ true)
    → Telling s ani k 0 (talk a)
    → Collecting s 0 (talk b)
    → let number = cycles calling called (length s) (a, b) in
      let ab = cycles calling called (length ani) (cycle calling called number) in
      (x : Chan) × (handle_mf_tone called ab.0.mf_write_tone ab.1
        ≡ emit called (Event.on_call_offered (tone2category called k) x.caller_ani_is_restricted) x)
      × (dnis_text x ≡ s)
      × (ani_text x ≡ ani)
      × (x.call_state ≡ CallState.offered)
cycles-offered calling called s ani k a b tells collects numbers agree category asks used
      (more, short) (more', short') digits digits' x y =
    let number = cycles calling called (length s) (a, b) in
    let (x1, y1) =
      cycles_all calling called s ani k tells collects short agree digits category (length s) a b x
        y more refl in
    let (x2, y2) =
      cycle_category calling called s ani k tells collects numbers agree category asks used short'
        digits' number.0 number.1 more' x1 y1 in
    let told = cycle calling called number in
    let (tone, has) =
      cycles_ani_all calling called s ani k tells collects numbers agree category asks used short'
        digits' (length ani) told.0 told.1 x2 y2 more' refl in
    let ab = cycles calling called (length ani) told in
    offered calling called s ani k tells collects numbers agree category asks used short' digits'
      ab.0.mf_write_tone ab.1 tone has
