-- ===== src/Context/Zero.antt =====
-- The configuration of a context that is not configured yet.
use openr.Prelude.{ℤ, false, []}
use openr.Types.{Variant}
use openr.Context.{Context}

-- The configuration in the memory that `calloc` gives, with the variant and the log level.
abbrev pub zero_context : Variant → Context
zero_context variant = record {
  has_io = false;
  variant = variant;
  cas_signals = λ s. 0;
  cas_nonr2_bits = 0;
  cas_r2_bits = 0;
  mf_ga_tones = record {
    request_next_dnis_digit = 0;
    request_dnis_minus_1 = 0;
    request_dnis_minus_2 = 0;
    request_dnis_minus_3 = 0;
    request_all_dnis_again = 0;
    request_next_ani_digit = 0;
    request_category = 0;
    request_category_and_change_to_gc = 0;
    request_change_to_g2 = 0;
    address_complete_charge_setup = 0;
    network_congestion = 0;
  };
  mf_gb_tones = record {
    accept_call_with_charge = 0;
    accept_call_no_charge = 0;
    busy_number = 0;
    network_congestion = 0;
    unallocated_number = 0;
    line_out_of_order = 0;
    special_info_tone = 0;
    number_changed = 0;
  };
  mf_gc_tones = record {
    request_next_ani_digit = 0;
    request_change_to_g2 = 0;
    request_next_dnis_digit_and_change_to_ga = 0;
    network_congestion = 0;
  };
  mf_g1_tones = record {
    no_more_dnis_available = 0;
    no_more_ani_available = 0;
    caller_ani_is_restricted = 0;
  };
  mf_g2_tones = record {
    national_subscriber = 0;
    national_priority_subscriber = 0;
    international_subscriber = 0;
    international_priority_subscriber = 0;
    collect_call = 0;
    test_equipment = 0;
    pay_phone = 0;
  };
  timers = record {
    mf_back_cycle = 0;
    mf_back_resume_cycle = 0;
    mf_fwd_safety = 0;
    r2_seize = 0;
    r2_answer = 0;
    r2_metering_pulse = 0;
    r2_double_answer = 0;
    r2_answer_delay = 0;
    cas_persistence_check = 0;
    dtmf_start_dial = 0;
    r2_set_call_down = 0;
    r2_seize_persist = 0;
  };
  max_dnis = ℤ.pos 0;
  max_ani = ℤ.pos 0;
  get_ani_first = false;
  skip_category = false;
  immediate_accept = false;
  double_answer = false;
  mf_threshold = 0;
  dial_with_dtmf = false;
  detect_dtmf = false;
  dtmf_on = 0;
  dtmf_off = 0;
  loglevel = 7;
  logdir = [];
  configured_from_file = false;
  ani_can_come_first = false;
  force_use_max_ani = false;
  auto_seize_ack = false;
}
