-- ===== src/Digits/Collected.antt =====
-- A whole number as the called side collects it, digit by digit.
use openr.Prelude.{
  ℕ, zero, suc, ◌-◌, ◌≤◌, ◌≡◌, refl, ap, sym, ◌∙◌, inl, inr, List, [], ◌∷◌, ◌++◌, length, take,
  arith,
}
use openr.Context.{max_dnis_size}
use openr.Chan.{Chan}
use openr.Proto.Backward.Receive.{keep_dnis_digit}
use openr.Sound.{IsSound}
use openr.Sound.Backward.{keep_dnis_digit-IsSound}
use openr.Digits.{dnis_text, dnis_text-keep_dnis_digit}

-- Digit after digit is kept.
abbrev pub keep_each : List ℕ → Chan → Chan
keep_each [] c = c
keep_each (d ∷ ds) c = keep_each ds (keep_dnis_digit d c)

module _ {ℓ} {A : Type ℓ} where
  length-take : (n : ℕ) (xs : List A) → n ≤ length xs → length (take n xs) ≡ n
  length-take zero xs h = refl
  length-take (suc n) [] h = absurd (omega arith)
  length-take (suc n) (x ∷ xs) h = ap suc (length-take n xs (omega arith))

  take-append : (n : ℕ) (xs ys : List A) → length xs ≡ n → take n (xs ++ ys) ≡ xs
  take-append zero [] ys h = refl
  take-append zero (x ∷ xs) ys h = absurd (omega (arith, h))
  take-append (suc n) [] ys h = absurd (omega (arith, h))
  take-append (suc n) (x ∷ xs) ys h = ap (λ l. x ∷ l) (take-append n xs ys (omega (arith, h)))

  append-cons : (xs : List A) (y : A) (ys : List A) → (xs ++ (y ∷ [])) ++ ys ≡ xs ++ (y ∷ ys)
  append-cons [] y ys = refl
  append-cons (x ∷ xs) y ys = ap (λ l. x ∷ l) (append-cons xs y ys)

  take-nil : (n : ℕ) (xs : List A) → length xs ≤ n → take n (xs ++ []) ≡ xs
  take-nil zero [] h = refl
  take-nil (suc n) [] h = refl
  take-nil zero (x ∷ xs) h = absurd (omega arith)
  take-nil (suc n) (x ∷ xs) h = ap (λ l. x ∷ l) (take-nil n xs (omega arith))

length-dnis_text : (c : Chan) → IsSound c → length (dnis_text c) ≡ c.dnis_len
length-dnis_text c v = length-take c.dnis_len c.dnis (omega (arith, v.dnis_room, v.dnis_size))

-- On a sound channel any sequence of DNIS digits is collected whole and in order behind those it
-- has, and cut to the first 79 digits.
pub dnis_text-keep_each :
    (ds : List ℕ) (c : Chan)
    → IsSound c
    → dnis_text (keep_each ds c) ≡ take (max_dnis_size - 1) (dnis_text c ++ ds)
dnis_text-keep_each [] c v =
    sym (take-nil 79 (dnis_text c) (omega (arith, length-dnis_text c v, v.dnis_room)))
dnis_text-keep_each (d ∷ ds) c v =
    dnis_text-keep_each ds (keep_dnis_digit d c) (keep_dnis_digit-IsSound d c v)
    ∙ elim (dnis_text-keep_dnis_digit d c v) [
      | inl (room, text, _, _) ↦
          ap (take 79) (ap (λ l. l ++ ds) text ∙ append-cons (dnis_text c) d ds)
      | inr (full, same) ↦
          ap (λ (e : Chan). take 79 (dnis_text e ++ ds)) same
          ∙ take-append 79 (dnis_text c) ds (length-dnis_text c v ∙ full)
          ∙ sym (take-append 79 (dnis_text c) (d ∷ ds) (length-dnis_text c v ∙ full))
    ]
