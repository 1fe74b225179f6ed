-- ===== src/Names/Lookup/Found.antt =====
-- What the lookups of names find.
use Prim.Native.String.{String}
use openr.Prelude.{
  ℕ, zero, suc, ◌<◌, ◌≡◌, refl, ◌∙◌, sym, ap, ◌≢◌, ◌↔◌, ==_iff, inl, inr, Bool, true, false, some,
  List, [], ◌∷◌, ◌++◌, ltb, ◌&&◌, if◌then◌else◌, length, arith, Bool-cases, if_true_ind,
  if_false_ind,
}
use openr.Types.{Category, Variant}
use openr.Names.{get_category_string}
use openr.Names.Compare.{codes, lower, tolower, strncasecmp, strncasecmp-agree, agree, IsText}
use openr.Names.Lookup.{
  find_named, categories, get_category, r2variants, name_size, get_variant, get_variant_string,
  get_level, get_level_string, LogLevel,
}

is_text : List ℕ → Bool
is_text [] = true
is_text (c ∷ s) = ltb 0 c && is_text s

is_text_sound : (s : List ℕ) → is_text s ≡ true → IsText s
unfolding is_text
is_text_sound [] h = tt
is_text_sound (c ∷ s) h = (ground arith, is_text_sound s (ground arith))

all_texts {ℓ} : {V : Type ℓ} → List (String × V) → Bool
all_texts [] = true
all_texts ((name, v) ∷ rows) = is_text (codes name) && all_texts rows

-- Two tests that agree on names without the byte 0 find the same row.
find_named_agree {ℓ} :
    {V : Type ℓ} (p q : String → Bool)
    → ((name : String) → IsText (codes name) → p name ≡ q name)
    → (other : V) (rows : List (String × V)) → all_texts rows ≡ true
    → find_named p other rows ≡ find_named q other rows
unfolding all_texts
find_named_agree p q same other [] h = refl
find_named_agree p q same other ((name, v) ∷ rows) h = cc (
  same name (is_text_sound (codes name) (ground arith)),
  find_named_agree p q same other rows (ground arith),
)

IsText-++ : (s t : List ℕ) → IsText s → IsText t → IsText (s ++ t)
IsText-++ [] t hs ht = ht
IsText-++ (c ∷ s) t hs ht = (hs.0, IsText-++ s t hs.1 ht)

lower-++ : (s t : List ℕ) → lower (s ++ t) ≡ lower s ++ lower t
lower-++ [] t = refl
lower-++ (c ∷ s) t = ap (λ r. tolower c ∷ r) (lower-++ s t)

-- openr2_proto_get_category on the letters alone.
category_of : List ℕ → Category
category_of letters =
    find_named (λ name. agree (length (codes name)) letters (lower (codes name))) Category.unknown
      categories

get_category_letters : (s : List ℕ) → IsText s → get_category s ≡ category_of (lower s)
unfolding get_category category_of all_texts is_text
get_category_letters s hs =
    find_named_agree _ _ (λ name h. strncasecmp-agree s (codes name) (length (codes name)) hs h)
      Category.unknown categories refl

category_of_name :
    (c : Category) (t : List ℕ)
    → c ≢ Category.unknown
    → category_of (lower (codes (get_category_string c)) ++ t) ≡ c
unfolding category_of get_category_string tolower
category_of_name Category.national_subscriber t h = refl
category_of_name Category.national_priority_subscriber t h = refl
category_of_name Category.international_subscriber t h = refl
category_of_name Category.international_priority_subscriber t h = refl
category_of_name Category.collect_call t h = refl
category_of_name Category.test_equipment t h = refl
category_of_name Category.pay_phone t h = refl
category_of_name Category.unknown t h = elim (h refl) [ ]

-- A text that begins with the name of a category, in letters of either case, is read as that
-- category by openr2_proto_get_category, whatever follows the name; the category without a name is
-- left out.
pub get_category-get_category_string :
    (c : Category) (s t : List ℕ)
    → c ≢ Category.unknown
    → IsText s
    → IsText t
    → lower s ≡ lower (codes (get_category_string c))
    → get_category (s ++ t) ≡ c
get_category-get_category_string c s t h hs ht same =
    get_category_letters (s ++ t) (IsText-++ s t hs ht)
    ∙ ap category_of (lower-++ s t ∙ ap (λ r. r ++ lower t) same)
    ∙ category_of_name c (lower t) h

agree_whole : (n : ℕ) (a b : List ℕ) → agree n a b ≡ true → length a < n → b ≡ a
agree_whole zero a b h l = absurd (omega arith)
agree_whole (suc n) [] [] h l = refl
agree_whole (suc n) [] (d ∷ t) h l = ground arith
agree_whole (suc n) (c ∷ s) [] h l = ground arith
agree_whole (suc n) (c ∷ s) (d ∷ t) h l = grind (arith, agree_whole n s t, ==_iff c d)

-- openr2_proto_get_variant on the letters alone.
variant_of : List ℕ → Variant
variant_of letters =
    find_named (λ name. agree name_size (lower (codes name)) letters) Variant.unknown r2variants

get_variant_letters : (s : List ℕ) → IsText s → get_variant s ≡ variant_of (lower s)
unfolding get_variant variant_of all_texts is_text
get_variant_letters s hs =
    find_named_agree _ _ (λ name h. strncasecmp-agree (codes name) s name_size h hs) Variant.unknown
      r2variants refl

-- Each row's name is the one that its variant has, and is shorter than the letters compared.
AreNames : List (String × Variant) → Type 0
AreNames [] = Unit {0}
AreNames ((name, v) ∷ rows) =
    (get_variant_string v ≡ name) × (length (lower (codes name)) < name_size) × AreNames rows

r2variants-AreNames : AreNames r2variants
unfolding AreNames get_variant_string
r2variants-AreNames = (
  refl,
  omega arith,
  (
    refl,
    omega arith,
    (
      refl,
      omega arith,
      (
        refl,
        omega arith,
        (
          refl,
          omega arith,
          (
            refl,
            omega arith,
            (refl, omega arith, (refl, omega arith, (refl, omega arith, (refl, omega arith, tt)))),
          ),
        ),
      ),
    ),
  ),
)

if_true {ℓ} : {A : Type ℓ} (b : Bool) (x y : A) → b ≡ true → (if b then x else y) ≡ x
if_true b x y h = if_true_ind (λ z. z ≡ x) b x y h refl

if_false {ℓ} : {A : Type ℓ} (b : Bool) (x y : A) → b ≡ false → (if b then x else y) ≡ y
if_false b x y h = if_false_ind (λ z. z ≡ y) b x y h refl

abbrev find_letters : List ℕ → List (String × Variant) → Variant
find_letters letters rows =
    find_named (λ name. agree name_size (lower (codes name)) letters) Variant.unknown rows

module _ (name : String) (w v : Variant) (rows : List (String × Variant)) (letters : List ℕ) where
  row_name :
      get_variant_string w ≡ name
      → agree name_size (lower (codes name)) letters ≡ true
      → find_letters letters ((name, w) ∷ rows) ≡ v
      → name ≡ get_variant_string v
  row_name same hit h = sym same ∙ ap get_variant_string (sym (if_true _ _ _ hit) ∙ h)

  row_missed :
      agree name_size (lower (codes name)) letters ≡ false
      → find_letters letters ((name, w) ∷ rows) ≡ v
      → find_letters letters rows ≡ v
  row_missed miss h = sym (if_false _ _ _ miss) ∙ h

found_name :
    (rows : List (String × Variant)) (letters : List ℕ) (v : Variant)
    → AreNames rows
    → v ≢ Variant.unknown
    → find_named (λ name. agree name_size (lower (codes name)) letters) Variant.unknown rows ≡ v
    → letters ≡ lower (codes (get_variant_string v))
unfolding AreNames
found_name [] letters v names known h = elim (known (sym h)) [ ]
found_name ((name, w) ∷ rows) letters v names known h =
    elim (Bool-cases (agree name_size (lower (codes name)) letters)) [
      | inl hit ↦
          agree_whole name_size (lower (codes name)) letters hit names.1
          ∙ ap (λ x. lower (codes x)) (row_name name w v rows letters names.0 hit h)
      | inr miss ↦ found_name rows letters v names.2 known (row_missed name w v rows letters miss h)
    ]

variant_of_name :
    (v : Variant) → v ≢ Variant.unknown → variant_of (lower (codes (get_variant_string v))) ≡ v
unfolding variant_of get_variant_string tolower
variant_of_name Variant.argentina h = refl
variant_of_name Variant.brazil h = refl
variant_of_name Variant.china h = refl
variant_of_name Variant.czech h = refl
variant_of_name Variant.colombia h = refl
variant_of_name Variant.ecuador h = refl
variant_of_name Variant.itu h = refl
variant_of_name Variant.mexico h = refl
variant_of_name Variant.philippines h = refl
variant_of_name Variant.venezuela h = refl
variant_of_name Variant.unknown h = elim (h refl) [ ]

-- openr2_proto_get_variant gives a known variant for its name in letters of either case, and for no
-- other text.
pub get_variant-get_variant_string :
    (v : Variant) (s : List ℕ)
    → v ≢ Variant.unknown
    → IsText s
    → (get_variant s ≡ v) ↔ (lower s ≡ lower (codes (get_variant_string v)))
unfolding variant_of
get_variant-get_variant_string v s known hs = (
  λ h.
      found_name r2variants (lower s) v r2variants-AreNames known
        (sym (get_variant_letters s hs) ∙ h),
  λ h. get_variant_letters s hs ∙ ap variant_of h ∙ variant_of_name v known,
)

-- The name of a level is read back as that level; the mask of all levels has no name of its own.
pub get_level-get_level_string :
    (l : LogLevel) → l ≢ LogLevel.all → get_level (codes (get_level_string l)) ≡ some l
unfolding get_level get_level_string strncasecmp tolower
get_level-get_level_string LogLevel.nothing h = refl
get_level-get_level_string LogLevel.error h = refl
get_level-get_level_string LogLevel.warning h = refl
get_level-get_level_string LogLevel.notice h = refl
get_level-get_level_string LogLevel.debug h = refl
get_level-get_level_string LogLevel.mf_trace h = refl
get_level-get_level_string LogLevel.cas_trace h = refl
get_level-get_level_string LogLevel.stack_trace h = refl
get_level-get_level_string LogLevel.ex_debug h = refl
get_level-get_level_string LogLevel.all h = elim (h refl) [ ]
