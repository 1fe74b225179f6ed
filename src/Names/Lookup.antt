-- ===== src/Names/Lookup.antt =====
-- The functions that find a value by its name: openr2_proto_get_category and openr2_proto_get_variant
-- of src/r2proto.c, and openr2_log_get_level of src/r2log.c.
pub mod Found
use Prim.Native.String.{String}
use openr.Prelude.{ℕ, ◌==◌, if◌then◌else◌, Bool, Option, none, some, List, [], ◌∷◌, length}
use openr.Types.{Category, Variant}
use openr.Names.Compare.{codes, is_zero, strncasecmp}

-- The first row whose name passes the test, as a chain of `else if` finds it.
abbrev pub find_named {ℓ} : {V : Type ℓ} → (String → Bool) → V → List (String × V) → V
find_named test other [] = other
find_named test other ((name, v) ∷ rows) =
    let later = find_named test other rows in if test name then v else later

-- The two chains of openr2_proto_get_category.
abbrev pub categories : List (String × Category)
categories =
    ("NATIONAL_SUBSCRIBER", Category.national_subscriber)
    ∷ ("NATIONAL_PRIORITY_SUBSCRIBER", Category.national_priority_subscriber)
    ∷ ("INTERNATIONAL_SUBSCRIBER", Category.international_subscriber)
    ∷ ("INTERNATIONAL_PRIORITY_SUBSCRIBER", Category.international_priority_subscriber)
    ∷ ("COLLECT_CALL", Category.collect_call)
    ∷ ("TEST_EQUIPMENT", Category.test_equipment)
    ∷ ("PAY_PHONE", Category.pay_phone)
    ∷ ("National Subscriber", Category.national_subscriber)
    ∷ ("National Priority Subscriber", Category.national_priority_subscriber)
    ∷ ("International Subscriber", Category.international_subscriber)
    ∷ ("International Priority Subscriber", Category.international_priority_subscriber)
    ∷ ("Collect Call", Category.collect_call)
    ∷ ("Test Equipment", Category.test_equipment)
    ∷ ("Pay Phone", Category.pay_phone)
    ∷ []

unfoldable pub get_category : List ℕ → Category
unfolding strncasecmp
get_category category =
    find_named (λ name. is_zero (strncasecmp category (codes name) (length (codes name))))
      Category.unknown categories

-- `r2variants`: the names, and below the countries. Context.Variants.variant_config has the rest.
abbrev pub r2variants : List (String × Variant)
r2variants =
    ("AR", Variant.argentina)
    ∷ ("BR", Variant.brazil)
    ∷ ("CN", Variant.china)
    ∷ ("CZ", Variant.czech)
    ∷ ("CO", Variant.colombia)
    ∷ ("EC", Variant.ecuador)
    ∷ ("ITU", Variant.itu)
    ∷ ("MX", Variant.mexico)
    ∷ ("PH", Variant.philippines)
    ∷ ("VE", Variant.venezuela)
    ∷ []

-- `sizeof(r2variants[i].name) - 1`, where a pointer has eight bytes.
abbrev pub name_size : ℕ
name_size = 7

unfoldable pub get_variant : List ℕ → Variant
unfolding strncasecmp
get_variant variant_name =
    find_named (λ name. is_zero (strncasecmp (codes name) variant_name name_size)) Variant.unknown
      r2variants

-- The values of `openr2_variant_t`.
abbrev pub variant_code : Variant → ℕ
variant_code Variant.argentina = 0
variant_code Variant.brazil = 20
variant_code Variant.china = 40
variant_code Variant.czech = 60
variant_code Variant.colombia = 70
variant_code Variant.ecuador = 80
variant_code Variant.itu = 100
variant_code Variant.mexico = 120
variant_code Variant.philippines = 140
variant_code Variant.venezuela = 160
variant_code Variant.unknown = 999

-- The name of the first row that has the id.
abbrev pub name_of : ℕ → List (String × Variant) → String
name_of id [] = "*Unknown*"
name_of id ((name, v) ∷ rows) =
    let later = name_of id rows in if id == variant_code v then name else later

unfoldable pub get_variant_string : Variant → String
get_variant_string variant = name_of (variant_code variant) r2variants

-- `openr2_log_level_t`, for the masks that have a name.
pub data LogLevel : Type 0 where
  nothing error warning notice debug mf_trace cas_trace stack_trace all ex_debug : LogLevel

unfoldable pub get_level_string : LogLevel → String
get_level_string LogLevel.error = "ERROR"
get_level_string LogLevel.warning = "WARNING"
get_level_string LogLevel.notice = "NOTICE"
get_level_string LogLevel.debug = "DEBUG"
get_level_string LogLevel.mf_trace = "MF TRACE"
get_level_string LogLevel.cas_trace = "CAS TRACE"
get_level_string LogLevel.stack_trace = "STACK TRACE"
get_level_string LogLevel.nothing = "NOTHING"
get_level_string LogLevel.ex_debug = "EXDEBUG"
get_level_string LogLevel.all = "*UNKNOWN*"

-- The chain of openr2_log_get_level.
abbrev pub levels : List (String × Option LogLevel)
levels =
    ("ALL", some LogLevel.all)
    ∷ ("ERROR", some LogLevel.error)
    ∷ ("WARNING", some LogLevel.warning)
    ∷ ("NOTICE", some LogLevel.notice)
    ∷ ("DEBUG", some LogLevel.debug)
    ∷ ("EXDEBUG", some LogLevel.ex_debug)
    ∷ ("MF", some LogLevel.mf_trace)
    ∷ ("CAS", some LogLevel.cas_trace)
    ∷ ("STACK", some LogLevel.stack_trace)
    ∷ ("NOTHING", some LogLevel.nothing)
    ∷ []

-- The level, or none for -1.
unfoldable pub get_level : List ℕ → Option LogLevel
unfolding strncasecmp
get_level levelstr =
    find_named (λ name. is_zero (strncasecmp (codes name) levelstr (length (codes name)))) none
      levels
