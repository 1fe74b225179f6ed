-- ===== src/Exchange.antt =====
-- The MF exchange: categories and their tones, tones that follow each other, and the mode of an
-- acceptance.
pub mod Threshold
pub mod Talk
pub mod Answers
pub mod Tells
pub mod Cycle
pub mod Number
pub mod Ani
pub mod TellsAni
pub mod Offer
pub mod Whole
use openr.Prelude.{ℕ, ◌<◌, ◌≡◌, refl, ◌≢◌, ◌⊎◌, arith}
use openr.Types.{Category, CallMode, ProtocolError}
use openr.Context.{GiiTones}
use openr.Chan.{Chan, Env}
use openr.Proto.Mf.{tone2category, category2tone, get_mode_from_tone, get_tone_from_mode}

-- The tones of the categories differ, but where two of them are not used.
abbrev pub HasDistinctTones : GiiTones → Type 0
HasDistinctTones t =
    (t.national_subscriber ≢ t.national_priority_subscriber)
    × (t.national_subscriber ≢ t.international_subscriber)
    × (t.national_subscriber ≢ t.international_priority_subscriber)
    × (t.national_subscriber ≢ t.collect_call)
    × (t.national_subscriber ≢ t.test_equipment)
    × (t.national_subscriber ≢ t.pay_phone)
    × (t.national_priority_subscriber ≢ t.international_subscriber)
    × (t.national_priority_subscriber ≢ t.international_priority_subscriber)
    × (t.national_priority_subscriber ≢ t.collect_call)
    × (t.national_priority_subscriber ≢ t.test_equipment)
    × (t.national_priority_subscriber ≢ t.pay_phone)
    × (t.international_subscriber ≢ t.international_priority_subscriber)
    × (t.international_subscriber ≢ t.collect_call)
    × (t.international_subscriber ≢ t.test_equipment)
    × (t.international_subscriber ≢ t.pay_phone)
    × (t.international_priority_subscriber ≢ t.collect_call)
    × (t.international_priority_subscriber ≢ t.test_equipment)
    × (t.international_priority_subscriber ≢ t.pay_phone)
    × (t.collect_call ≢ t.test_equipment)
    × (t.test_equipment ≢ t.pay_phone)

-- Where the category tones differ, except that collect call and pay phone may both be unused, a
-- category that has a tone and is not `unknown` is recovered from the tone that tells it.
pub tone2category-category2tone :
    (env : Env) (category : Category)
    → HasDistinctTones env.r2context.mf_g2_tones
    → (env.r2context.mf_g2_tones.collect_call ≢ env.r2context.mf_g2_tones.pay_phone)
      ⊎ (env.r2context.mf_g2_tones.pay_phone ≡ 0)
    → category ≢ Category.unknown
    → 0 < category2tone env category
    → tone2category env (category2tone env category) ≡ category
unfolding tone2category category2tone
tone2category-category2tone env Category.national_subscriber d u known used = ground (arith, d)
tone2category-category2tone env Category.national_priority_subscriber d u known used =
    ground (arith, d)
tone2category-category2tone env Category.international_subscriber d u known used = ground (arith, d)
tone2category-category2tone env Category.international_priority_subscriber d u known used =
    ground (arith, d)
tone2category-category2tone env Category.collect_call d u known used = ground (arith, d)
tone2category-category2tone env Category.test_equipment d u known used = ground (arith, d)
tone2category-category2tone env Category.pay_phone d u known used = ground (arith, d)
tone2category-category2tone env Category.unknown d u known used = absurd (known refl)

-- Where there is a tone for acceptances without charge, and neither that tone nor the special one is
-- that for charge, the calling side reads a call accepted with charge as that, and one accepted in
-- any other mode, `special` too, as without charge.
pub get_mode_from_tone-get_tone_from_mode :
    (env : Env) (mode : CallMode)
    → 0 < env.r2context.mf_gb_tones.accept_call_no_charge
    → env.r2context.mf_gb_tones.accept_call_no_charge
      ≢ env.r2context.mf_gb_tones.accept_call_with_charge
    → env.r2context.mf_gb_tones.special_info_tone
      ≢ env.r2context.mf_gb_tones.accept_call_with_charge
    → ((mode ≡ CallMode.with_charge)
        × (get_mode_from_tone env (get_tone_from_mode env mode) ≡ CallMode.with_charge))
      ⊎ ((mode ≢ CallMode.with_charge)
          × (get_mode_from_tone env (get_tone_from_mode env mode) ≡ CallMode.no_charge))
unfolding get_mode_from_tone get_tone_from_mode
get_mode_from_tone-get_tone_from_mode env mode used d e = ground (arith, d, e)
