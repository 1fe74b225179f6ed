-- ===== src/Context/Variants.antt =====
-- openr2_proto_configure_context of src/r2proto.c, with the r2config_… function of each variant.
use openr.Prelude.{ℕ, ◌-◌, ℤ, pos, negsuc, leb, if◌then◌else◌, true, false, Option, none, some}
use openr.Types.{CasSignal, Variant}
use openr.Context.{
  Context, GaTones, GbTones, GcTones, GiTones, GiiTones, TimerLengths, max_ani_size, max_dnis_size,
}

-- OR2_MF_TONE_INVALID
abbrev pub tone_invalid : ℕ
tone_invalid = 0

unfoldable pub r2config_argentina : Context → Context
r2config_argentina r = record r {
  mf_g1_tones = record (r.mf_g1_tones) {
    no_more_dnis_available = tone_invalid;
    caller_ani_is_restricted = b'F';
    no_more_ani_available = b'C';
  };
  mf_g2_tones = record (r.mf_g2_tones) { pay_phone = b'4' };
  timers = record (r.timers) { r2_metering_pulse = 400 };
}

unfoldable pub r2config_brazil : Context → Context
r2config_brazil r = record r {
  mf_g1_tones = record (r.mf_g1_tones) {
    no_more_dnis_available = tone_invalid;
    caller_ani_is_restricted = b'C';
  };
  mf_g2_tones = record (r.mf_g2_tones) { collect_call = b'8' };
  mf_ga_tones = record (r.mf_ga_tones) {
    address_complete_charge_setup = tone_invalid;
    request_dnis_minus_1 = b'9';
    request_all_dnis_again = b'2';
  };
  mf_gb_tones = record (r.mf_gb_tones) {
    accept_call_with_charge = b'1';
    busy_number = b'2';
    accept_call_no_charge = b'5';
    special_info_tone = b'6';
    number_changed = b'3';
    unallocated_number = b'7';
  };
}

unfoldable pub r2config_china : Context → Context
r2config_china r = record r {
  cas_nonr2_bits = 0x3;
  mf_ga_tones = record (r.mf_ga_tones) {
    request_next_ani_digit = b'1';
    request_category = b'6';
    address_complete_charge_setup = tone_invalid;
  };
  mf_gb_tones = record (r.mf_gb_tones) {
    accept_call_with_charge = b'1';
    busy_number = b'2';
    special_info_tone = tone_invalid;
  };
  mf_g1_tones = record (r.mf_g1_tones) { no_more_dnis_available = tone_invalid };
  ani_can_come_first = true;
  force_use_max_ani = true;
  max_ani = pos max_ani_size;
}

unfoldable pub r2config_itu : Context → Context
r2config_itu r = r

unfoldable pub r2config_mexico : Context → Context
r2config_mexico r = record r {
  get_ani_first = false;
  mf_ga_tones = record (r.mf_ga_tones) {
    request_category = tone_invalid;
    request_category_and_change_to_gc = b'6';
    address_complete_charge_setup = tone_invalid;
    request_next_ani_digit = tone_invalid;
  };
  mf_gb_tones = record (r.mf_gb_tones) {
    accept_call_with_charge = b'1';
    accept_call_no_charge = b'5';
    busy_number = b'2';
    unallocated_number = b'2';
    special_info_tone = tone_invalid;
  };
  mf_gc_tones = record (r.mf_gc_tones) {
    request_next_ani_digit = b'1';
    request_change_to_g2 = b'3';
    request_next_dnis_digit_and_change_to_ga = b'5';
    network_congestion = b'4';
  };
  mf_g1_tones = record (r.mf_g1_tones) {
    no_more_dnis_available = tone_invalid;
    caller_ani_is_restricted = b'F';
  };
}

unfoldable pub r2config_venezuela : Context → Context
r2config_venezuela r = record r {
  mf_ga_tones = record (r.mf_ga_tones) { request_next_ani_digit = b'9' };
  mf_g1_tones = record (r.mf_g1_tones) {
    caller_ani_is_restricted = b'C';
    no_more_dnis_available = tone_invalid;
  };
}

unfoldable pub r2config_colombia : Context → Context
r2config_colombia r = record r {
  mf_g1_tones = record (r.mf_g1_tones) { caller_ani_is_restricted = b'C' };
  mf_gb_tones = record (r.mf_gb_tones) {
    accept_call_with_charge = b'1';
    busy_number = b'2';
    accept_call_no_charge = b'5';
    unallocated_number = b'6';
  };
}

-- The `config` column of the table `r2variants`; `none` where the loop finds no entry.
unfoldable pub variant_config : Variant → Option (Context → Context)
variant_config Variant.argentina = some r2config_argentina
variant_config Variant.brazil = some r2config_brazil
variant_config Variant.china = some r2config_china
variant_config Variant.czech = some r2config_itu
variant_config Variant.colombia = some r2config_colombia
variant_config Variant.ecuador = some r2config_itu
variant_config Variant.itu = some r2config_itu
variant_config Variant.mexico = some r2config_mexico
variant_config Variant.philippines = some r2config_itu
variant_config Variant.venezuela = some r2config_venezuela
variant_config Variant.unknown = none

-- The patterns of the A and B bits.
unfoldable pub standard_cas_signals : CasSignal → ℕ
standard_cas_signals CasSignal.idle = 0x8
standard_cas_signals CasSignal.block = 0xC
standard_cas_signals CasSignal.seize = 0x0
standard_cas_signals CasSignal.seize_ack = 0xC
standard_cas_signals CasSignal.clear_back = 0xC
standard_cas_signals CasSignal.forced_release = 0x0
standard_cas_signals CasSignal.clear_forward = 0x8
standard_cas_signals CasSignal.answer = 0x4

-- `(n >= size) ? size - 1 : n`
unfoldable pub clamp_digits : ℤ → ℕ → ℤ
clamp_digits (pos n) size = if leb size n then pos (size - 1) else pos n
clamp_digits (negsuc n) size = negsuc n

abbrev pub itu_ga_tones : GaTones
itu_ga_tones = record {
  request_next_dnis_digit = b'1';
  request_dnis_minus_1 = b'2';
  request_dnis_minus_2 = b'7';
  request_dnis_minus_3 = b'8';
  request_all_dnis_again = tone_invalid;
  request_next_ani_digit = b'5';
  request_category = b'5';
  request_category_and_change_to_gc = tone_invalid;
  request_change_to_g2 = b'3';
  address_complete_charge_setup = b'6';
  network_congestion = b'4';
}

abbrev pub itu_gb_tones : GbTones
itu_gb_tones = record {
  accept_call_with_charge = b'6';
  accept_call_no_charge = b'7';
  busy_number = b'3';
  network_congestion = b'4';
  unallocated_number = b'5';
  line_out_of_order = b'8';
  special_info_tone = b'2';
  number_changed = tone_invalid;
}

abbrev pub itu_gc_tones : GcTones
itu_gc_tones = record {
  request_next_ani_digit = tone_invalid;
  request_change_to_g2 = tone_invalid;
  request_next_dnis_digit_and_change_to_ga = tone_invalid;
  network_congestion = tone_invalid;
}

abbrev pub itu_g1_tones : GiTones
itu_g1_tones = record {
  no_more_dnis_available = b'F';
  no_more_ani_available = b'F';
  caller_ani_is_restricted = b'C';
}

abbrev pub itu_g2_tones : GiiTones
itu_g2_tones = record {
  national_subscriber = b'1';
  national_priority_subscriber = b'2';
  international_subscriber = b'7';
  international_priority_subscriber = b'9';
  collect_call = tone_invalid;
  test_equipment = b'3';
  pay_phone = tone_invalid;
}

-- The timers that the function sets; the persistence check keeps its length.
abbrev pub itu_timers : TimerLengths → TimerLengths
itu_timers t = record {
  mf_back_cycle = 2000;
  mf_back_resume_cycle = 150;
  mf_fwd_safety = 30000;
  r2_seize = 2000;
  r2_answer = 60000;
  r2_metering_pulse = 0;
  r2_double_answer = 400;
  r2_answer_delay = 150;
  cas_persistence_check = t.cas_persistence_check;
  dtmf_start_dial = 500;
  r2_set_call_down = 3000;
  r2_seize_persist = 150;
}

-- The ITU defaults, set before the variant's function runs.
unfoldable pub itu_defaults : Context → ℤ → ℤ → Context
itu_defaults r max_ani max_dnis = record r {
  cas_signals = standard_cas_signals;
  cas_nonr2_bits = 0x1;
  cas_r2_bits = 0xC;
  timers = itu_timers r.timers;
  max_dnis = clamp_digits max_dnis max_dnis_size;
  max_ani = clamp_digits max_ani max_ani_size;
  auto_seize_ack = true;
  get_ani_first = true;
  immediate_accept = false;
  mf_ga_tones = itu_ga_tones;
  mf_gb_tones = itu_gb_tones;
  mf_gc_tones = itu_gc_tones;
  mf_g1_tones = itu_g1_tones;
  mf_g2_tones = itu_g2_tones;
}

-- `none` is the result -1, which leaves the context as it was.
unfoldable pub configure_context : Context → Variant → ℤ → ℤ → Option Context
configure_context r variant max_ani max_dnis = elim (variant_config variant) [
  | none ↦ none
  | some config ↦ some (config (itu_defaults r max_ani max_dnis))
]
