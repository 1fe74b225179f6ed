-- ===== src/Exchange/Offer.antt =====
-- The cycles of the category and of the ANI in the MF exchange of two channels: what the two sides
-- have, and what the caller tells.
use mathlib.Core.Path.{subst}
use openr.Prelude.{
  ℕ, ◌+◌, ◌<◌, ◌≡◌, refl, sym, ap, ◌∙◌, inl, nonzero, true, List, [], ◌∷◌, ◌++◌, length, take, set,
  get_or, length-set, arith,
}
use openr.Types.{CallState, Direction, MfGroup, MfState}
use openr.Context.{GaTones, max_ani_size}
use openr.Chan.{Chan, Env}
use openr.Proto.Forward.Send.{is_ani_end}
use openr.Proto.Backward.Receive.{is_digit_tone}
use openr.Proto.Tone.{handle_mf_tone}
use openr.Digits.{kept_text, get_or-string_copy}
use openr.Sound.Calls.{length-string_copy}
use openr.Exchange.Talk.{Talk, talk}
use openr.Exchange.Answers.{CollectsNumber}
use openr.Exchange.Tells.{TellsNumber, AsksCategory}
use openr.Exchange.Ani.{CollectsAni, kept_ani, hears_category}
use openr.Exchange.TellsAni.{AsksAni, tells_ani, tells_group}
use openr.Exchange.Cycle.{cycle, half, take-next}
use openr.Exchange.Number.{HasNumber, Told}

-- The called side has the number `s`, the category `k` and the digits of `ani` before `j`.
pub record CollectingAni (s ani : List ℕ) (k j : ℕ) (t : Talk) : Type 0 where
  pub direction : t.direction ≡ Direction.backward
  pub group : t.mf_group ≡ MfGroup.ga
  pub state : t.mf_state ≡ MfState.ani_rq_txd
  pub heard : t.mf_read_tone ≡ 0
  pub text : take t.dnis_len t.dnis ≡ s
  pub category : t.caller_category ≡ k
  pub ani_size : length t.ani ≡ max_ani_size
  pub ani_len : t.ani_len ≡ j
  pub ani_text : take j t.ani ≡ take j ani
  pub collecting : t.call_state ≡ CallState.collecting

-- The called side has all, and waits for the category in group B.
pub record HasAll (s ani : List ℕ) (k : ℕ) (t : Talk) : Type 0 where
  pub direction : t.direction ≡ Direction.backward
  pub group : t.mf_group ≡ MfGroup.gb
  pub state : t.mf_state ≡ MfState.chg_gii_txd
  pub heard : t.mf_read_tone ≡ 0
  pub text : take t.dnis_len t.dnis ≡ s
  pub category : t.caller_category ≡ k
  pub ani_text : take t.ani_len t.ani ≡ ani
  pub collecting : t.call_state ≡ CallState.collecting

-- The ANI collected, as a string.
abbrev pub ani_text : Chan → List ℕ
ani_text c = take c.ani_len c.ani

pub length-kept_ani : (d : ℕ) (t : Talk) → length (kept_ani d t).ani ≡ length t.ani
length-kept_ani d t =
    length-set (set t.ani t.ani_len d) (t.ani_len + 1) 0 ∙ length-set t.ani t.ani_len d

-- The text with a digit more.
pub kept_ani-text :
    (ani : List ℕ) (j d : ℕ) (t : Talk)
    → length t.ani ≡ max_ani_size
    → t.ani_len ≡ j
    → take j t.ani ≡ take j ani
    → j < length ani
    → length ani < max_ani_size
    → d ≡ get_or ani j 0
    → take (j + 1) (kept_ani d t).ani ≡ take (j + 1) ani
kept_ani-text ani j d t size len text more short digit =
    ap (λ (i : ℕ). take (j + 1) (set (set t.ani i d) (i + 1) 0)) len
    ∙ kept_text t.ani j d (omega (arith, size))
    ∙ ap (λ l. l ++ (d ∷ [])) text
    ∙ ap (λ (x : ℕ). take j ani ++ (x ∷ [])) digit
    ∙ sym (take-next ani j more)

module _ (calling : Env) (called : Env) (s ani : List ℕ) (k : ℕ) (tells : TellsNumber calling)
    (collects : CollectsNumber (length s) called) (numbers : CollectsAni (length ani) called)
    (agree : calling.r2context.mf_ga_tones ≡ called.r2context.mf_ga_tones)
    (category : AsksCategory called.r2context.mf_ga_tones)
    (asks : AsksAni called.r2context.mf_ga_tones) (used : nonzero k ≡ true)
    (short : length ani < max_ani_size)
    (digits : (j : ℕ) → j < length ani → is_digit_tone (get_or ani j 0) ≡ true) where
  -- The caller tells the next digit of its ANI where the request for it stops.
  pub answer_ani :
      {x : ℕ} (p : ℕ) (a a1 : Chan) (tone : ℕ)
      → Told ani k p x (talk a)
      → talk a1 ≡ record (talk a) {
        mf_read_tone = called.r2context.mf_ga_tones.request_next_ani_digit;
        mf_write_tone = 0;
      }
      → tone ≡ 0
      → p < length ani
      → Told ani k (p + 1) (get_or ani p 0) (talk (handle_mf_tone calling tone a1))
  answer_ani p a a1 tone x e silent more =
      let own = ap (λ (t : Talk). t.ani) e ∙ x.own in
      let digit : get_or a1.ani p 0 ≡ get_or ani p 0 =
        ap (λ (l : List ℕ). get_or l p 0) own ∙ ground (arith, get_or-string_copy 79 ani p) in
      let same =
        ap (λ (t : ℕ). talk (handle_mf_tone calling t a1)) silent
        ∙ tells_ani calling tells (subst AsksAni (sym agree) asks) p a1
            (ap (λ (t : Talk). t.mf_read_tone) e
              ∙ ap (λ (t : GaTones). t.request_next_ani_digit) (sym agree))
            (ap (λ (t : Talk). t.direction) e ∙ x.direction)
            (ap (λ (t : Talk). t.mf_group) e ∙ x.group)
            (ap (λ (t : Talk). t.category_sent) e ∙ x.sent)
            (ap (λ (t : Talk). is_ani_end t.mf_state) e ∙ x.more)
            (ap (λ (t : Talk). t.ani_ptr) e ∙ x.own_index)
            (omega (arith, ap (λ (l : List ℕ). length l) own, length-string_copy 79 ani))
            (ground (arith, digit, digits p more)) in
      subst (Told ani k (p + 1) (get_or ani p 0)) (sym same) (record {
        direction = ap (λ (t : Talk). t.direction) e ∙ x.direction;
        group = ap (λ (t : Talk). t.mf_group) e ∙ x.group;
        more = refl;
        heard = refl;
        sends = digit;
        category = ap (λ (t : Talk). t.caller_category) e ∙ x.category;
        sent = ap (λ (t : Talk). t.category_sent) e ∙ x.sent;
        own = own;
        own_index = refl;
      })

  -- It tells its category again where the request to change to group B stops.
  pub answer_group :
      {x p : ℕ} (a a1 : Chan) (tone : ℕ)
      → Told ani k p x (talk a)
      → talk a1 ≡ record (talk a) {
        mf_read_tone = called.r2context.mf_ga_tones.request_change_to_g2;
        mf_write_tone = 0;
      }
      → tone ≡ 0
      → (handle_mf_tone calling tone a1).mf_write_tone ≡ k
  answer_group a a1 tone x e silent =
      ap (λ (t : ℕ). (handle_mf_tone calling t a1).mf_write_tone) silent
      ∙ ap (λ (t : Talk). t.mf_write_tone)
          (tells_group calling tells (subst AsksAni (sym agree) asks) a1
            (ap (λ (t : Talk). t.mf_read_tone) e
              ∙ ap (λ (t : GaTones). t.request_change_to_g2) (sym agree))
            (ap (λ (t : Talk). t.direction) e ∙ x.direction)
            (ap (λ (t : Talk). t.mf_group) e ∙ x.group)
            (ap (λ (t : GaTones). nonzero t.request_category) agree ∙ category.used))
      ∙ ap (λ (t : Talk). t.caller_category) e
      ∙ x.category

  -- The cycle of the category.
  pub cycle_category :
      (a b : Chan)
      → 0 < length ani
      → Told ani k 0 k (talk a)
      → HasNumber s (talk b)
      → let ab = cycle calling called (a, b) in
        Told ani k 1 (get_or ani 0 0) (talk ab.0) × CollectingAni s ani k 0 (talk ab.1)
  unfolding cycle
  cycle_category a b more x y =
      let e =
        hears_category called (length s) (length ani) collects numbers a.mf_write_tone b more
          (ap nonzero x.sends ∙ used) y.direction y.heard y.group y.state in
      let (ha, hb) =
        half calling called (length s) tells collects a _ _ e asks.ani_used
          (ap nonzero x.sends ∙ used) y.direction (inl (refl, ground arith)) x.direction x.heard in
      let ab1 = cycle calling called (a, b) in
      (
        answer_ani 0 a _ ab1.1.mf_write_tone x ha (ap (λ (t : Talk). t.mf_write_tone) hb) more,
        subst (CollectingAni s ani k 0) (sym hb) (record {
          direction = y.direction;
          group = refl;
          state = refl;
          heard = refl;
          text = y.text;
          category = x.sends;
          ani_size = y.ani_size;
          ani_len = y.ani_len;
          ani_text = refl;
          collecting = y.collecting;
        }),
      )
