-- ===== src/Digits/Sent.antt =====
-- A whole number on its way from the calling side to the called side, digit by digit: mf_send_dnis
-- of the one, and what mf_receive_expected_dnis of the other keeps.
use mathlib.Core.Path.{subst}
use openr.Prelude.{
  ℕ, zero, suc, ◌+◌, ◌-◌, ◌<◌, ◌≡◌, refl, ap, sym, ◌∙◌, pos, nonzero, true, false, List, [], ◌∷◌,
  ◌++◌, length, take, take_whole, get_or, arith,
}
use openr.Types.{Direction, MfState}
use openr.Context.{max_dnis_size}
use openr.Chan.{Chan, Env}
use openr.Chan.Device.{io_flush_write_buffers}
use openr.Proto.Line.{select_tone}
use openr.Proto.Mf.{prepare_mf_tone, set_silence, next_tone, change_tone, start_tone}
use openr.Proto.Forward.Send.{mf_send_dnis}
use openr.Proto.Backward.Receive.{keep_dnis_digit}
use openr.Proto.Calls.Make.{string_copy}
use openr.Sound.{IsSound}
use openr.Digits.{dnis_text, mf_send_dnis_next}
use openr.Digits.Collected.{keep_each, dnis_text-keep_each}

-- One request of the next digit: the caller, silent since its last tone, sends a digit, and the tone
-- on the line is the digit that the called side keeps.
abbrev pub next_digit : Env → Chan → Chan
next_digit env caller = mf_send_dnis env (pos 1) (set_silence env caller)

-- The called side after so many requests.
unfoldable pub exchange : Env → ℕ → Chan → Chan → Chan
exchange env zero caller called = called
exchange env (suc n) caller called =
    let caller' = next_digit env caller in
    exchange env n caller' (keep_dnis_digit caller'.mf_write_tone called)

-- The devices send the tones that they are given.
pub record SendsTones (env : Env) : Type 0 where
  pub has_io : env.r2context.has_io ≡ true
  pub selects : (c : Chan) (tone : ℕ) → env.select_tone_fails c tone ≡ false
  pub flushes : (c : Chan) → env.flush_fails c ≡ false

-- The caller of the number `s` has told its digits up to `i`.
pub record HasTold (s : List ℕ) (i : ℕ) (c : Chan) : Type 0 where
  pub direction : c.direction ≡ Direction.forward
  pub dnis : c.dnis ≡ string_copy (max_dnis_size - 1) s
  pub index : c.dnis_index ≡ i

-- The `n` digits told after digit `i`.
abbrev digits_from : List ℕ → ℕ → ℕ → List ℕ
digits_from s i zero = []
digits_from s i (suc n) = get_or s (i + 1) 0 ∷ digits_from s (i + 1) n

pub suc_add_one : (i : ℕ) → suc i + 1 ≡ suc (i + 1)
suc_add_one i = omega arith

digits_from-cons :
    (d : ℕ) (ds : List ℕ) (i n : ℕ) → digits_from (d ∷ ds) (suc i) n ≡ digits_from ds i n
digits_from-cons d ds i zero = refl
digits_from-cons d ds i (suc n) =
    ap (λ (j : ℕ). get_or (d ∷ ds) j 0 ∷ digits_from (d ∷ ds) j n) (suc_add_one i)
    ∙ ap (λ l. get_or ds (i + 1) 0 ∷ l) (digits_from-cons d ds (i + 1) n)

digits_from-first : (d : ℕ) (ds : List ℕ) → digits_from (d ∷ ds) 0 (length ds) ≡ ds
digits_from-first d [] = refl
digits_from-first d (e ∷ es) =
    ap (λ l. e ∷ l) (digits_from-cons d (e ∷ es) 0 (length es) ∙ digits_from-first e es)

module _ (env : Env) (sends : SendsTones env) (s : List ℕ) where
  set_silence-HasTold :
      (i : ℕ) (c : Chan)
      → HasTold s i c
      → HasTold s i (set_silence env c) × ((set_silence env c).mf_write_tone ≡ 0)
  unfolding set_silence prepare_mf_tone next_tone change_tone start_tone select_tone
      io_flush_write_buffers
  set_silence-HasTold i c told = ground (arith, sends.selects c 0, sends.has_io, sends.flushes c)

  prepare_mf_tone-HasTold :
      (i tone : ℕ) (c : Chan)
      → nonzero tone ≡ true
      → c.mf_write_tone ≡ 0
      → HasTold s i c
      → HasTold s i (prepare_mf_tone env tone c)
        × ((prepare_mf_tone env tone c).mf_write_tone ≡ tone)
  unfolding prepare_mf_tone next_tone change_tone start_tone select_tone io_flush_write_buffers
  prepare_mf_tone-HasTold i tone c h silent told = ground (
    arith,
    sends.has_io,
    sends.selects c tone,
    sends.flushes (select_tone tone c),
    told.direction,
  )

  -- The caller told a digit, which is the tone on the line.
  Tells : ℕ → Chan → Type 0
  Tells i c = HasTold s i c × (c.mf_write_tone ≡ get_or s i 0)

  from_silence :
      (c : Chan)
      → HasTold s c.dnis_index c
      → c.mf_write_tone ≡ 0
      → c.dnis_index + 1 < max_dnis_size - 1
      → nonzero (get_or s (c.dnis_index + 1) 0) ≡ true
      → Tells (c.dnis_index + 1) (mf_send_dnis env (pos 1) c)
  unfolding Tells
  from_silence c told silent room digit =
      subst (λ x. Tells (c.dnis_index + 1) x) (sym (mf_send_dnis_next env s c told.dnis room digit))
        (prepare_mf_tone-HasTold (c.dnis_index + 1) (get_or s (c.dnis_index + 1) 0)
          (record c { dnis_index = c.dnis_index + 1; mf_state = MfState.dnis_txd }) digit silent
          (record { direction = told.direction; dnis = told.dnis; index = refl }))

  one_digit :
      (i : ℕ) (c : Chan)
      → HasTold s i c
      → i + 1 < max_dnis_size - 1
      → nonzero (get_or s (i + 1) 0) ≡ true
      → Tells (i + 1) (next_digit env c)
  one_digit i c told room digit =
      let quiet = set_silence-HasTold i c told in
      let d = set_silence env c in
      subst (λ (j : ℕ). Tells (j + 1) (mf_send_dnis env (pos 1) d)) quiet.0.index
        (from_silence d
          (record { direction = quiet.0.direction; dnis = quiet.0.dnis; index = refl }) quiet.1
          (subst (λ (j : ℕ). j + 1 < max_dnis_size - 1) (sym quiet.0.index) room)
          (subst (λ (j : ℕ). nonzero (get_or s (j + 1) 0) ≡ true) (sym quiet.0.index) digit))

  exchange-keep_each :
      (n i : ℕ) (caller called : Chan)
      → HasTold s i caller
      → i + n < length s
      → length s < max_dnis_size
      → ((j : ℕ) → j < length s → nonzero (get_or s j 0) ≡ true)
      → exchange env n caller called ≡ keep_each (digits_from s i n) called
  unfolding exchange Tells
  exchange-keep_each zero i caller called told more short digits = refl
  exchange-keep_each (suc n) i caller called told more short digits =
      let one = one_digit i caller told (omega arith) (digits (i + 1) (omega arith)) in
      exchange-keep_each n (i + 1) (next_digit env caller)
        (keep_dnis_digit (next_digit env caller).mf_write_tone called) one.0 (omega arith) short
        digits
      ∙ ap (λ (t : ℕ). keep_each (digits_from s (i + 1) n) (keep_dnis_digit t called)) one.1

-- The number of a call reaches the called side whole. A caller that dialed the number `d ∷ ds`, of at
-- most 79 digits, and has told its first digit, tells the others one by one on as many requests for
-- the next digit; and a sound channel that has kept the first digit, and keeps each tone that it
-- hears, then has the number. The devices of the caller send the tones that they are given.
pub dnis_text-exchange :
    (env : Env) (d : ℕ) (ds : List ℕ) (caller called : Chan)
    → SendsTones env
    → length (d ∷ ds) < max_dnis_size
    → ((j : ℕ) → j < length (d ∷ ds) → nonzero (get_or (d ∷ ds) j 0) ≡ true)
    → HasTold (d ∷ ds) 0 caller
    → IsSound called
    → dnis_text called ≡ d ∷ []
    → dnis_text (exchange env (length ds) caller called) ≡ d ∷ ds
dnis_text-exchange env d ds caller called sends short digits told sound first =
    ap dnis_text (
      exchange-keep_each env sends (d ∷ ds) (length ds) 0 caller called told (omega arith) short
        digits)
    ∙ dnis_text-keep_each (digits_from (d ∷ ds) 0 (length ds)) called sound
    ∙ ap (λ l. take (max_dnis_size - 1) (l ++ digits_from (d ∷ ds) 0 (length ds))) first
    ∙ ap (λ l. take (max_dnis_size - 1) (d ∷ l)) (digits_from-first d ds)
    ∙ take_whole (max_dnis_size - 1) (d ∷ ds) (omega arith)
