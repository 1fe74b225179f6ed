-- ===== src/Exchange/Number.antt =====
-- The cycles of the DNIS in the MF exchange of two channels, and the category after them.
use mathlib.Core.Path.{subst}
use openr.Prelude.{
  ℕ, zero, suc, ◌+◌, ◌-◌, ◌<◌, ◌≡◌, refl, sym, ap, ◌∙◌, inl, inr, true, false, some, List, length,
  take, get_or, take_whole, arith,
}
use openr.Types.{CallState, Direction, MfGroup, MfState}
use openr.Context.{GaTones, max_ani_size, max_dnis_size}
use openr.Chan.{Chan, Env}
use openr.Proto.Forward.Send.{is_ani_end}
use openr.Proto.Calls.Make.{string_copy}
use openr.Proto.Backward.Receive.{is_digit_tone}
use openr.Proto.Tone.{handle_mf_tone}
use openr.Exchange.Talk.{Talk, talk}
use openr.Exchange.Answers.{CollectsNumber, kept}
use openr.Exchange.Tells.{TellsNumber, AsksCategory, tells_category}
use openr.Exchange.Cycle.{cycle, cycles, Telling, Collecting, half, asked, cycle_next, kept-text}

-- The called side has the number `s` and asks for the category.
pub record HasNumber (s : List ℕ) (t : Talk) : Type 0 where
  pub direction : t.direction ≡ Direction.backward
  pub group : t.mf_group ≡ MfGroup.ga
  pub state : t.mf_state ≡ MfState.category_rq_txd
  pub heard : t.mf_read_tone ≡ 0
  pub text : take t.dnis_len t.dnis ≡ s
  pub ani_size : length t.ani ≡ max_ani_size
  pub ani_len : t.ani_len ≡ 0
  pub collecting : t.call_state ≡ CallState.collecting

-- The caller, whose category has the tone `k`, has told it; it has the next digit of its own number
-- `ani` at `p`, and `tone` on the line.
pub record Told (ani : List ℕ) (k p tone : ℕ) (t : Talk) : Type 0 where
  pub direction : t.direction ≡ Direction.forward
  pub group : t.mf_group ≡ MfGroup.gi
  pub more : is_ani_end t.mf_state ≡ false
  pub heard : t.mf_read_tone ≡ 0
  pub sends : t.mf_write_tone ≡ tone
  pub category : t.caller_category ≡ k
  pub sent : t.category_sent ≡ true
  pub own : t.ani ≡ string_copy (max_ani_size - 1) ani
  pub own_index : t.ani_ptr ≡ some p

module _ (calling : Env) (called : Env) (s ani : List ℕ) (k : ℕ) (tells : TellsNumber calling)
    (collects : CollectsNumber (length s) called) (short : length s < max_dnis_size)
    (agree : calling.r2context.mf_ga_tones ≡ called.r2context.mf_ga_tones)
    (digits : (j : ℕ) → j < length s → is_digit_tone (get_or s j 0) ≡ true)
    (asks : AsksCategory called.r2context.mf_ga_tones) where
  -- The caller tells its category where the request for it stops.
  answer_category :
      {i : ℕ} (a a1 : Chan) (tone : ℕ)
      → Telling s ani k i (talk a)
      → talk a1 ≡ record (talk a) {
        mf_read_tone = called.r2context.mf_ga_tones.request_category;
        mf_write_tone = 0;
      }
      → tone ≡ 0
      → Told ani k 0 k (talk (handle_mf_tone calling tone a1))
  answer_category a a1 tone x e silent =
      let category = ap (λ (t : Talk). t.caller_category) e ∙ x.category in
      let same =
        ap (λ (t : ℕ). talk (handle_mf_tone calling t a1)) silent
        ∙ tells_category calling tells a1 (subst AsksCategory (sym agree) asks)
            (ap (λ (t : Talk). t.mf_read_tone) e
              ∙ ap (λ (t : GaTones). t.request_category) (sym agree))
            (ap (λ (t : Talk). t.direction) e ∙ x.direction)
            (ap (λ (t : Talk). t.mf_group) e ∙ x.group)
            (ap (λ (t : Talk). t.category_sent) e ∙ x.unsent) in
      subst (Told ani k 0 k) (sym same) (record {
        direction = ap (λ (t : Talk). t.direction) e ∙ x.direction;
        group = ap (λ (t : Talk). t.mf_group) e ∙ x.group;
        more = refl;
        heard = refl;
        sends = category;
        category = category;
        sent = refl;
        own = ap (λ (t : Talk). t.ani) e ∙ x.own;
        own_index = ap (λ (t : Talk). t.ani_ptr) e ∙ x.own_index;
      })

  -- The cycle of the last digit.
  cycle_last :
      (i : ℕ) (a b : Chan)
      → Telling s ani k i (talk a)
      → Collecting s i (talk b)
      → i + 1 ≡ length s
      → let ab = cycle calling called (a, b) in Told ani k 0 k (talk ab.0) × HasNumber s (talk ab.1)
  unfolding cycle
  cycle_last i a b x y last =
      elim (asked calling called s ani k tells collects short agree digits i a b x y
        (omega arith)) [
          | inr (room, e) ↦ absurd (omega (arith, room, y.len))
          | inl (full, e) ↦
              let (ha, hb) =
                half calling called (length s) tells collects a _ _ e collects.category
                  (ground (arith, x.sends, digits i (omega arith))) y.direction
                  (inl (refl, ground arith)) x.direction x.heard in
              let ab1 = cycle calling called (a, b) in
              (
                answer_category a _ ab1.1.mf_write_tone x ha
                    (ap (λ (t : Talk). t.mf_write_tone) hb),
                subst (HasNumber s) (sym hb) (record {
                  direction = y.direction;
                  group = refl;
                  state = refl;
                  heard = refl;
                  text =
                      ap (λ (j : ℕ). take (j + 1) (kept a.mf_write_tone (talk b)).dnis) y.len
                      ∙ kept-text s i a.mf_write_tone (talk b) y (omega arith) short x.sends
                      ∙ take_whole (i + 1) s (omega arith);
                  ani_size = y.ani_size;
                  ani_len = y.ani_len;
                  collecting = y.collecting;
                }),
              )
        ]

  -- The digits after the first `i`, and the category.
  cycles_from :
      (n i : ℕ) (a b : Chan)
      → Telling s ani k i (talk a)
      → Collecting s i (talk b)
      → i + suc n ≡ length s
      → let ab = cycles calling called (suc n) (a, b) in
        Told ani k 0 k (talk ab.0) × HasNumber s (talk ab.1)
  unfolding cycles
  cycles_from zero i a b x y last = cycle_last i a b x y (omega arith)
  cycles_from (suc n) i a b x y more =
      let (x', y') =
        cycle_next calling called s ani k tells collects short agree digits i a b x y
          (omega arith) in
      let ab = cycle calling called (a, b) in cycles_from n (i + 1) ab.0 ab.1 x' y' (omega arith)

  -- The cycles of the whole number.
  pub cycles_all :
      (n : ℕ) (a b : Chan)
      → Telling s ani k 0 (talk a)
      → Collecting s 0 (talk b)
      → 0 < n
      → n ≡ length s
      → let ab = cycles calling called n (a, b) in
        Told ani k 0 k (talk ab.0) × HasNumber s (talk ab.1)
  cycles_all zero a b x y more e = absurd (omega (arith, more))
  cycles_all (suc n) a b x y more e = cycles_from n 0 a b x y (omega (arith, e))
