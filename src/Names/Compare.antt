-- ===== src/Names/Compare.antt =====
-- openr2_strncasecmp of src/r2utils.c. A C string is the list of its bytes, without the 0 at its
-- end, which a read just beyond the list gives.
use Prim.Native.Char.{code}
use Prim.Native.String.{String}
use openr.Prelude.{
  ℕ, zero, suc, ◌+◌, ◌<◌, ◌≡◌, refl, ◌∙◌, ap, ℤ, pos, negsuc, sub_ℕ, leb, ◌==◌, ◌&&◌, ◌||◌,
  if◌then◌else◌, Bool, true, false, List, [], ◌∷◌, ◌++◌, arith, Bool-cases, ==_refl,
}

-- The bytes of a literal.
abbrev pub codes : String → List ℕ
codes String.[] = []
codes (String.◌∷◌ c s) = code c ∷ codes s

-- The C library's `tolower`, in the C locale.
unfoldable pub tolower : ℕ → ℕ
tolower c = if leb b'A' c && leb c b'Z' then c + 32 else c

abbrev pub lower : List ℕ → List ℕ
lower [] = []
lower (c ∷ s) = tolower c ∷ lower s

-- `*p`, and `p + 1`
abbrev pub first : List ℕ → ℕ
first [] = 0
first (c ∷ s) = c

abbrev pub rest : List ℕ → List ℕ
rest [] = []
rest (c ∷ s) = s

abbrev pub is_zero : ℤ → Bool
is_zero (pos zero) = true
is_zero (pos (suc n)) = false
is_zero (negsuc n) = false

-- The test that two pointers are equal has no counterpart: the loop gives 0 for equal strings too.
unfoldable pub strncasecmp : List ℕ → List ℕ → ℕ → ℤ
strncasecmp s1 s2 zero = pos 0
strncasecmp s1 s2 (suc n) =
    let result = sub_ℕ (tolower (first s1)) (tolower (first s2)) in
    let next = strncasecmp (rest s1) (rest s2) n in
    if is_zero result then (if first s1 == 0 || n == 0 then result else next) else result

-- No byte of the string is 0.
abbrev pub IsText : List ℕ → Type 0
IsText [] = Unit {0}
IsText (c ∷ s) = (0 < c) × IsText s

-- The string with the 0 at its end, in lower case.
abbrev pub lowered : List ℕ → List ℕ
lowered s = lower s ++ (0 ∷ [])

tolower_positive : (c : ℕ) → 0 < c → 0 < tolower c
unfolding tolower
tolower_positive c h = ground arith

is_zero_pos : (n : ℕ) → is_zero (pos n) ≡ (n == 0)
is_zero_pos zero = refl
is_zero_pos (suc n) = ground arith

is_zero-sub_ℕ : (a b : ℕ) → is_zero (sub_ℕ a b) ≡ (a == b)
is_zero-sub_ℕ a b = grind (arith, is_zero_pos)

-- The first `n` bytes agree, where a string that ends does so in both.
abbrev pub agree : ℕ → List ℕ → List ℕ → Bool
agree zero a b = true
agree (suc n) [] [] = true
agree (suc n) [] (d ∷ t) = false
agree (suc n) (c ∷ s) [] = false
agree (suc n) (c ∷ s) (d ∷ t) = (c == d) && agree n s t

pub agree_zero : (n : ℕ) (a b : List ℕ) → (n == 0) ≡ true → agree n a b ≡ true
agree_zero zero a b h = refl
agree_zero (suc n) a b h = ground arith

-- What one round of the loop gives, by the difference of the two bytes.
round_zero :
    (r next : ℤ) (ended : Bool)
    → is_zero (if is_zero r then (if ended then r else next) else r)
      ≡ (is_zero r && (ended || is_zero next))
round_zero (pos zero) next true = refl
round_zero (pos zero) next false = refl
round_zero (pos (suc n)) next ended = refl
round_zero (negsuc n) next ended = refl

ended_agree :
    (c n : ℕ) (s t : List ℕ) → 0 < c → (((c == 0) || (n == 0)) || agree n s t) ≡ agree n s t
ended_agree c n s t h = ground (arith, Bool-cases (c == 0), Bool-cases (n == 0), agree_zero n s t)

ended_by_zero :
    (r : ℕ) (next : Bool)
    → 0 < tolower r
    → (is_zero (sub_ℕ (tolower r) (tolower 0)) && next) ≡ false
unfolding tolower
ended_by_zero r next h = ground (arith, is_zero-sub_ℕ (tolower r) 0)

lowered_differ :
    (d : ℕ) (next : Bool)
    → 0 < tolower d
    → (is_zero (sub_ℕ (tolower 0) (tolower d)) && next) ≡ false
unfolding tolower
lowered_differ d next h = ground (arith, is_zero-sub_ℕ 0 (tolower d))

-- In two strings without the byte 0, the function tells whether the first `n` bytes agree in lower
-- case, as `agree` does on the lists.
pub strncasecmp-agree :
    (a b : List ℕ) (n : ℕ)
    → IsText a
    → IsText b
    → is_zero (strncasecmp a b n) ≡ agree n (lower a) (lower b)
unfolding strncasecmp
strncasecmp-agree a b zero ha hb = refl
strncasecmp-agree [] [] (suc n) ha hb =
    round_zero (sub_ℕ (tolower 0) (tolower 0)) (pos 0) true
    ∙ ap (λ b. b && true) (is_zero-sub_ℕ (tolower 0) (tolower 0) ∙ ==_refl (tolower 0))
strncasecmp-agree [] (d ∷ t) (suc n) ha hb =
    round_zero (sub_ℕ (tolower 0) (tolower d)) (pos 0) true
    ∙ lowered_differ d _ (tolower_positive d hb.0)
strncasecmp-agree (c ∷ s) [] (suc n) ha hb =
    round_zero (sub_ℕ (tolower c) (tolower 0)) (strncasecmp s [] n) ((c == 0) || (n == 0))
    ∙ ended_by_zero c _ (tolower_positive c ha.0)
strncasecmp-agree (c ∷ s) (d ∷ t) (suc n) ha hb =
    round_zero (sub_ℕ (tolower c) (tolower d)) (strncasecmp s t n) ((c == 0) || (n == 0))
    ∙ grind (
      arith,
      is_zero-sub_ℕ (tolower c) (tolower d),
      strncasecmp-agree s t n ha.1 hb.1,
      ended_agree c n (lower s) (lower t) ha.0,
    )
