-- ===== src/Exchange/Cycle.antt =====
-- The MF exchange of two channels, a tone at a time: each hears the tone that the other has on the
-- line. A compelled cycle is a tone of the caller, the answer of the called side, and the end of
-- the one and of the other.
use mathlib.Core.Path.{subst}
use openr.Prelude.{
  ℕ, zero, suc, ◌+◌, ◌-◌, ◌<◌, ◌≡◌, refl, sym, ap, ◌∙◌, inl, inr, nonzero, true, false, some, List,
  [], ◌∷◌, ◌++◌, length, take, set, get_or, length-set, arith,
}
use openr.Types.{CallState, Direction, MfGroup, MfState}
use openr.Context.{GaTones, max_ani_size, max_dnis_size}
use openr.Chan.{Chan, Env}
use openr.Proto.Calls.Make.{string_copy}
use openr.Proto.Backward.Receive.{is_digit_tone}
use openr.Proto.Tone.{handle_mf_tone}
use openr.Digits.{kept_text}
use openr.Digits.Sent.{suc_add_one}
use openr.Exchange.Talk.{Talk, talk}
use openr.Exchange.Answers.{
  CollectsNumber, AwaitsDigit, IsAsking, Asked, kept, asking, hears_digit, hears_stop,
}
use openr.Exchange.Tells.{TellsNumber, hears_request, tells_digit}

-- The caller and the called side after a cycle.
unfoldable pub cycle : Env → Env → Chan × Chan → Chan × Chan
cycle calling called (a, b) =
    let b1 = handle_mf_tone called a.mf_write_tone b in
    let a1 = handle_mf_tone calling b1.mf_write_tone a in
    let b2 = handle_mf_tone called a1.mf_write_tone b1 in
    let a2 = handle_mf_tone calling b2.mf_write_tone a1 in (a2, b2)

unfoldable pub cycles : Env → Env → ℕ → Chan × Chan → Chan × Chan
unfolding cycle
cycles calling called zero ab = ab
cycles calling called (suc n) ab = cycles calling called n (cycle calling called ab)

-- The caller of the number `s`, with its own number `ani` and the tone `k` for its category, has
-- digit `i` on the line.
pub record Telling (s ani : List ℕ) (k i : ℕ) (t : Talk) : Type 0 where
  pub direction : t.direction ≡ Direction.forward
  pub group : t.mf_group ≡ MfGroup.gi
  pub heard : t.mf_read_tone ≡ 0
  pub sends : t.mf_write_tone ≡ get_or s i 0
  pub dnis : t.dnis ≡ string_copy (max_dnis_size - 1) s
  pub index : t.dnis_index ≡ i
  pub category : t.caller_category ≡ k
  pub unsent : t.category_sent ≡ false
  pub own : t.ani ≡ string_copy (max_ani_size - 1) ani
  pub own_index : t.ani_ptr ≡ some 0

-- The called side has the digits of `s` before `i`, and waits for the next.
pub record Collecting (s : List ℕ) (i : ℕ) (t : Talk) : Type 0 where
  pub direction : t.direction ≡ Direction.backward
  pub awaits : AwaitsDigit t
  pub heard : t.mf_read_tone ≡ 0
  pub size : length t.dnis ≡ max_dnis_size
  pub len : t.dnis_len ≡ i
  pub text : take i t.dnis ≡ take i s
  pub ani_size : length t.ani ≡ max_ani_size
  pub ani_len : t.ani_len ≡ 0
  pub collecting : t.call_state ≡ CallState.collecting

pub take-next :
    (s : List ℕ) (i : ℕ) → i < length s → take (i + 1) s ≡ take i s ++ (get_or s i 0 ∷ [])
take-next [] i h = absurd (omega arith)
take-next (d ∷ ds) zero h = refl
take-next (d ∷ ds) (suc i) h =
    ap (λ (m : ℕ). take m (d ∷ ds)) (suc_add_one i) ∙ ap (λ l. d ∷ l) (take-next ds i (omega arith))

-- What the two sides have when the called side's request ends.
module _ (calling : Env) (called : Env) (n : ℕ) (tells : TellsNumber calling)
    (collects : CollectsNumber n called) where
  pub half :
      (a b1 : Chan) (t : Talk)
      → let a1 = handle_mf_tone calling b1.mf_write_tone a in
        let b2 = handle_mf_tone called a1.mf_write_tone b1 in
        talk b1 ≡ t
        → nonzero t.mf_write_tone ≡ true
        → nonzero t.mf_read_tone ≡ true
        → t.direction ≡ Direction.backward
        → IsAsking t
        → a.direction ≡ Direction.forward
        → a.mf_read_tone ≡ 0
        → (talk a1 ≡ record (talk a) { mf_read_tone = t.mf_write_tone; mf_write_tone = 0 })
          × (talk b2 ≡ record t { mf_read_tone = 0; mf_write_tone = 0 })
  half a b1 t e used sound backward asking forward silent =
      let a1 = handle_mf_tone calling b1.mf_write_tone a in
      let write = ap (λ (u : Talk). u.mf_write_tone) e in
      let ea =
        hears_request calling tells b1.mf_write_tone a (ap nonzero write ∙ used) forward silent in
      let quiet = ap (λ (u : Talk). u.mf_write_tone) ea in
      (
        ea ∙ ap (λ (x : ℕ). record (talk a) { mf_read_tone = x; mf_write_tone = 0 }) write,
        ap (λ (x : ℕ). talk (handle_mf_tone called x b1)) quiet
            ∙ hears_stop called n collects b1 (ap (λ (u : Talk). nonzero u.mf_read_tone) e ∙ sound)
                (ap (λ (u : Talk). u.direction) e ∙ backward) (subst IsAsking (sym e) asking)
            ∙ ap (λ (u : Talk). record u { mf_read_tone = 0; mf_write_tone = 0 }) e,
      )

-- The text with a digit more.
pub kept-text :
    (s : List ℕ) (i d : ℕ) (t : Talk)
    → Collecting s i t
    → i < length s
    → length s < max_dnis_size
    → d ≡ get_or s i 0
    → take (i + 1) (kept d t).dnis ≡ take (i + 1) s
kept-text s i d t c more short digit =
    ap (λ (j : ℕ). take (i + 1) (set (set t.dnis j d) (j + 1) 0)) c.len
    ∙ kept_text t.dnis i d (omega (arith, c.size))
    ∙ ap (λ l. l ++ (d ∷ [])) c.text
    ∙ ap (λ (x : ℕ). take i s ++ (x ∷ [])) digit
    ∙ sym (take-next s i more)

length-kept : (d : ℕ) (t : Talk) → length (kept d t).dnis ≡ length t.dnis
length-kept d t =
    length-set (set t.dnis t.dnis_len d) (t.dnis_len + 1) 0 ∙ length-set t.dnis t.dnis_len d

module _ (calling : Env) (called : Env) (s ani : List ℕ) (k : ℕ) (tells : TellsNumber calling)
    (collects : CollectsNumber (length s) called) (short : length s < max_dnis_size)
    (agree : calling.r2context.mf_ga_tones ≡ called.r2context.mf_ga_tones)
    (digits : (j : ℕ) → j < length s → is_digit_tone (get_or s j 0) ≡ true) where
  pub asked :
      (i : ℕ) (a b : Chan)
      → Telling s ani k i (talk a)
      → Collecting s i (talk b)
      → i < length s
      → Asked called
          (length s)
          collects
          (kept a.mf_write_tone (talk b))
          (talk (handle_mf_tone called a.mf_write_tone b))
  asked i a b x y more =
      hears_digit called (length s) collects a.mf_write_tone b
        (ap is_digit_tone x.sends ∙ digits i more) y.direction y.heard y.awaits y.size
        (omega (arith, y.len))

  -- The caller tells the next digit where the request for it stops.
  next_told :
      (i : ℕ) (a a1 : Chan) (tone : ℕ)
      → Telling s ani k i (talk a)
      → talk a1 ≡ record (talk a) {
        mf_read_tone = called.r2context.mf_ga_tones.request_next_dnis_digit;
        mf_write_tone = 0;
      }
      → tone ≡ 0
      → i + 1 < length s
      → Telling s ani k (i + 1) (talk (handle_mf_tone calling tone a1))
  next_told i a a1 tone x e silent more =
      let request = ap (λ (t : Talk). t.mf_read_tone) e in
      let index = ap (λ (t : Talk). t.dnis_index) e ∙ x.index in
      let same =
        ap (λ (t : ℕ). talk (handle_mf_tone calling t a1)) silent
        ∙ tells_digit calling tells s a1 (ap nonzero request ∙ collects.next_digit)
            (request ∙ ap (λ (t : GaTones). t.request_next_dnis_digit) (sym agree))
            (ap (λ (t : Talk). t.direction) e ∙ x.direction)
            (ap (λ (t : Talk). t.mf_group) e ∙ x.group) (ap (λ (t : Talk). t.dnis) e ∙ x.dnis)
            (omega (arith, index)) (ground (arith, index, digits (i + 1) more)) in
      subst (Telling s ani k (i + 1)) (sym same) (record {
        direction = ap (λ (t : Talk). t.direction) e ∙ x.direction;
        group = ap (λ (t : Talk). t.mf_group) e ∙ x.group;
        heard = refl;
        sends = ap (λ (j : ℕ). get_or s (j + 1) 0) index;
        dnis = ap (λ (t : Talk). t.dnis) e ∙ x.dnis;
        index = ap (λ (j : ℕ). j + 1) index;
        category = ap (λ (t : Talk). t.caller_category) e ∙ x.category;
        unsent = ap (λ (t : Talk). t.category_sent) e ∙ x.unsent;
        own = ap (λ (t : Talk). t.ani) e ∙ x.own;
        own_index = ap (λ (t : Talk). t.ani_ptr) e ∙ x.own_index;
      })

  -- The called side has a digit more.
  pub collected :
      (i d : ℕ) (state : MfState) (t : Talk)
      → Collecting s i t
      → i < length s
      → d ≡ get_or s i 0
      → AwaitsDigit (asking state 0 t)
      → Collecting s (i + 1) (record (asking state 0 (kept d t)) { mf_read_tone = 0 })
  collected i d state t y more digit awaits = record {
    direction = y.direction;
    awaits = awaits;
    heard = refl;
    size = length-kept d t ∙ y.size;
    len = ap (λ (j : ℕ). j + 1) y.len;
    text = kept-text s i d t y more short digit;
    ani_size = y.ani_size;
    ani_len = y.ani_len;
    collecting = y.collecting;
  }

  pub cycle_next :
      (i : ℕ) (a b : Chan)
      → Telling s ani k i (talk a)
      → Collecting s i (talk b)
      → i + 1 < length s
      → let ab = cycle calling called (a, b) in
        Telling s ani k (i + 1) (talk ab.0) × Collecting s (i + 1) (talk ab.1)
  unfolding cycle
  cycle_next i a b x y more = elim (asked i a b x y (omega arith)) [
    | inl (last, e) ↦ absurd (omega (arith, last, y.len))
    | inr (room, e) ↦
        let (ha, hb) =
          half calling called (length s) tells collects a _ _ e collects.next_digit
            (ground (arith, x.sends, digits i (omega arith))) y.direction (inl (refl, ground arith))
            x.direction x.heard in
        let b2 = (cycle calling called (a, b)).1 in
        (
          next_told i a _ b2.mf_write_tone x ha (ap (λ (t : Talk). t.mf_write_tone) hb) more,
          subst (Collecting s (i + 1)) (sym hb) (
              collected i a.mf_write_tone MfState.dnis_rq_txd (talk b) y (omega arith) x.sends
                (inr (refl, refl))),
        )
  ]
