-- ===== src/Digits.antt =====
-- The digit buffers as strings: what is collected, and what is sent.
pub mod Collected
pub mod Sent
use openr.Prelude.{
  nonzero, pos, ◌⊎◌, ℕ, zero, suc, ◌+◌, ◌-◌, ◌≤◌, ◌<◌, ◌≡◌, refl, ap, ◌∙◌, ltb, ◌==◌, if◌then◌else◌,
  true, List, [], ◌∷◌, ◌++◌, length, get_or, set, take, length-set, get_or-set_self, arith, inl,
  inr, Bool-cases,
}
use openr.Context.{max_dnis_size}
use openr.Chan.{Chan, Env}
use openr.Chan.Device.{put_dnis, append_dnis, read_dnis}
use openr.Proto.Backward.Receive.{keep_dnis_digit}
use openr.Proto.Calls.Make.{string_copy}
use openr.Proto.Mf.{prepare_mf_tone}
use openr.Proto.Forward.Send.{move_dnis_index, send_dnis_digit, mf_send_dnis}
use openr.Types.{MfState}
use openr.Sound.{IsSound}
use openr.Sound.Calls.{length-string_copy}

module _ {ℓ} {A : Type ℓ} where
  -- A change beyond the first `n` leaves them.
  take-set : (xs : List A) (n i : ℕ) (v : A) → n ≤ i → take n (set xs i v) ≡ take n xs
  take-set [] n i v h = refl
  take-set (x ∷ xs) zero i v h = refl
  take-set (x ∷ xs) (suc n) zero v h = absurd (omega arith)
  take-set (x ∷ xs) (suc n) (suc i) v h = ap (λ l. x ∷ l) (take-set xs n i v (omega arith))

  take-suc-set :
      (xs : List A) (n : ℕ) (v : A)
      → n < length xs
      → take (suc n) (set xs n v) ≡ take n xs ++ (v ∷ [])
  take-suc-set [] n v h = elim h [ ]
  take-suc-set (x ∷ xs) zero v h = refl
  take-suc-set (x ∷ xs) (suc n) v h = ap (λ l. x ∷ l) (take-suc-set xs n v (omega arith))

  get_or-set_other :
      (xs : List A) (i j : ℕ) (v d : A) → j < i → get_or (set xs i v) j d ≡ get_or xs j d
  get_or-set_other [] i j v d h = refl
  get_or-set_other (x ∷ xs) zero j v d h = absurd (omega arith)
  get_or-set_other (x ∷ xs) (suc i) zero v d h = refl
  get_or-set_other (x ∷ xs) (suc i) (suc j) v d h = get_or-set_other xs i j v d (omega arith)

pub kept_text :
    (xs : List ℕ) (n v : ℕ)
    → n < length xs
    → take (n + 1) (set (set xs n v) (n + 1) 0) ≡ take n xs ++ (v ∷ [])
kept_text xs n v h =
    take-set (set xs n v) (n + 1) (n + 1) 0 (omega arith)
    ∙ ap (λ (m : ℕ). take m (set xs n v)) (add_one n)
    ∙ take-suc-set xs n v h
  where
    add_one : (m : ℕ) → m + 1 ≡ suc m
    add_one m = omega arith

-- The DNIS collected, as a string.
abbrev pub dnis_text : Chan → List ℕ
dnis_text c = take c.dnis_len c.dnis

put_dnis_inside :
    (i v : ℕ) (c : Chan) → i < length c.dnis → put_dnis i v c ≡ record c { dnis = set c.dnis i v }
unfolding put_dnis
put_dnis_inside i v c h = ground arith

pub append_dnis_inside :
    (tone : ℕ) (c : Chan)
    → c.dnis_len + 1 < length c.dnis
    → append_dnis tone c ≡ record c {
      dnis = set (set c.dnis c.dnis_len tone) (c.dnis_len + 1) 0;
      dnis_len = c.dnis_len + 1;
    }
unfolding append_dnis
append_dnis_inside tone c h =
    ap (λ (d : Chan). put_dnis (c.dnis_len + 1) 0 (record d { dnis_len = c.dnis_len + 1 }))
      (put_dnis_inside c.dnis_len tone c (omega arith))
    ∙ put_dnis_inside (c.dnis_len + 1) 0
        (record c { dnis = set c.dnis c.dnis_len tone; dnis_len = c.dnis_len + 1 })
        (omega (arith, length-set c.dnis c.dnis_len tone))

-- A sound channel keeps a digit after those it has, with a 0 behind it, and overruns nothing; once
-- there are 79 it drops the digit and changes nothing.
pub dnis_text-keep_dnis_digit :
    (tone : ℕ) (c : Chan)
    → IsSound c
    → let c' = keep_dnis_digit tone c in
      ((c.dnis_len < max_dnis_size - 1)
        × (dnis_text c' ≡ dnis_text c ++ (tone ∷ []))
        × (get_or c'.dnis c'.dnis_len 1 ≡ 0)
        × (c'.trace ≡ c.trace))
      ⊎ ((c.dnis_len ≡ max_dnis_size - 1) × (c' ≡ c))
unfolding keep_dnis_digit
dnis_text-keep_dnis_digit tone c v = elim (Bool-cases (c.dnis_len == max_dnis_size - 1)) [
  | inl e ↦ inr (ground arith, rw e refl)
  | inr e ↦
      rw (e, append_dnis_inside tone c (ground (arith, v.dnis_room, v.dnis_size)))
        (inl (
          ground (arith, v.dnis_room),
          kept_text c.dnis c.dnis_len tone (ground (arith, v.dnis_room, v.dnis_size)),
          get_or-set_self (set c.dnis c.dnis_len tone) (c.dnis_len + 1) 0 1
              (ground (arith, v.dnis_room, v.dnis_size, length-set c.dnis c.dnis_len tone)),
          refl,
        ))
]

-- The buffer that a call copies its DNIS or ANI to holds the text cut to the `n` bytes before the
-- last: below `n` it reads as the text does, zeros behind it included, and its last byte is 0.
pub get_or-string_copy :
    (n : ℕ) (s : List ℕ) (i : ℕ)
    → get_or (string_copy n s) i 0 ≡ (if ltb i n then get_or s i 0 else 0)
unfolding string_copy
get_or-string_copy zero s zero = refl
get_or-string_copy zero s (suc i) = ground arith
get_or-string_copy (suc n) [] zero = ground arith
get_or-string_copy (suc n) [] (suc i) = ground (arith, get_or-string_copy n [] i)
get_or-string_copy (suc n) (d ∷ ds) zero = ground arith
get_or-string_copy (suc n) (d ∷ ds) (suc i) = ground (arith, get_or-string_copy n ds i)

pub read_dnis-string_copy :
    (s : List ℕ) (c : Chan)
    → c.dnis ≡ string_copy (max_dnis_size - 1) s
    → c.dnis_index < max_dnis_size - 1
    → read_dnis c ≡ (c, get_or s c.dnis_index 0)
unfolding read_dnis
read_dnis-string_copy s c e h = ground (
  arith,
  length-string_copy 79 s,
  get_or-string_copy 79 s c.dnis_index,
  ap (λ (l : List ℕ). length l) e,
  ap (λ (l : List ℕ). get_or l c.dnis_index 0) e,
)

-- On a request for the next DNIS digit, a caller that copied the number `s` to its buffer and has
-- told digit `i` moves to digit `i + 1`, and sends it if the number, cut to 79 digits, has it.
pub mf_send_dnis_next :
    (env : Env) (s : List ℕ) (c : Chan)
    → c.dnis ≡ string_copy (max_dnis_size - 1) s
    → c.dnis_index + 1 < max_dnis_size - 1
    → nonzero (get_or s (c.dnis_index + 1) 0) ≡ true
    → mf_send_dnis env (pos 1) c
      ≡ prepare_mf_tone env
          (get_or s (c.dnis_index + 1) 0)
          (record c { dnis_index = c.dnis_index + 1; mf_state = MfState.dnis_txd })
unfolding mf_send_dnis move_dnis_index send_dnis_digit
mf_send_dnis_next env s c e h k =
    rw (read_dnis-string_copy s (record c { dnis_index = c.dnis_index + 1 }) e h, k) refl
