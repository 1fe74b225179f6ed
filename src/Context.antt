-- ===== src/Context.antt =====
-- The context, src/openr2/r2context-pvt.h: what a protocol variant configures, and what the
-- channels of the context read. An MF tone is its character code, and OR2_MF_TONE_INVALID is 0.
pub mod Variants
pub mod Bounds
pub mod Settings
pub mod Directory
pub mod Members
pub mod Zero
pub mod Interfaces
pub mod File
use openr.Prelude.{ℕ, ℤ, Bool, List}
use openr.Types.{CasSignal, Variant}

-- `openr2_mf_ga_tones_t`
pub record GaTones : Type 0 where
  pub request_next_dnis_digit : ℕ
  pub request_dnis_minus_1 : ℕ
  pub request_dnis_minus_2 : ℕ
  pub request_dnis_minus_3 : ℕ
  pub request_all_dnis_again : ℕ
  pub request_next_ani_digit : ℕ
  pub request_category : ℕ
  pub request_category_and_change_to_gc : ℕ
  pub request_change_to_g2 : ℕ
  pub address_complete_charge_setup : ℕ
  pub network_congestion : ℕ

-- `openr2_mf_gb_tones_t`
pub record GbTones : Type 0 where
  pub accept_call_with_charge : ℕ
  pub accept_call_no_charge : ℕ
  pub busy_number : ℕ
  pub network_congestion : ℕ
  pub unallocated_number : ℕ
  pub line_out_of_order : ℕ
  pub special_info_tone : ℕ
  pub number_changed : ℕ

-- `openr2_mf_gc_tones_t`
pub record GcTones : Type 0 where
  pub request_next_ani_digit : ℕ
  pub request_change_to_g2 : ℕ
  pub request_next_dnis_digit_and_change_to_ga : ℕ
  pub network_congestion : ℕ

-- `openr2_mf_g1_tones_t`
pub record GiTones : Type 0 where
  pub no_more_dnis_available : ℕ
  pub no_more_ani_available : ℕ
  pub caller_ani_is_restricted : ℕ

-- `openr2_mf_g2_tones_t`
pub record GiiTones : Type 0 where
  pub national_subscriber : ℕ
  pub national_priority_subscriber : ℕ
  pub international_subscriber : ℕ
  pub international_priority_subscriber : ℕ
  pub collect_call : ℕ
  pub test_equipment : ℕ
  pub pay_phone : ℕ

-- `openr2_timers_t`, in milliseconds
pub record TimerLengths : Type 0 where
  pub mf_back_cycle : ℕ
  pub mf_back_resume_cycle : ℕ
  pub mf_fwd_safety : ℕ
  pub r2_seize : ℕ
  pub r2_answer : ℕ
  pub r2_metering_pulse : ℕ
  pub r2_double_answer : ℕ
  pub r2_answer_delay : ℕ
  pub cas_persistence_check : ℕ
  pub dtmf_start_dial : ℕ
  pub r2_set_call_down : ℕ
  pub r2_seize_persist : ℕ

-- `openr2_context_t`, with each bit of `flags` a field of its own.
pub record Context : Type 0 where
  pub has_io : Bool
  pub variant : Variant
  pub cas_signals : CasSignal → ℕ
  pub cas_nonr2_bits : ℕ
  pub cas_r2_bits : ℕ
  pub mf_ga_tones : GaTones
  pub mf_gb_tones : GbTones
  pub mf_gc_tones : GcTones
  pub mf_g1_tones : GiTones
  pub mf_g2_tones : GiiTones
  pub timers : TimerLengths
  pub max_dnis : ℤ
  pub max_ani : ℤ
  pub get_ani_first : Bool
  pub skip_category : Bool
  pub immediate_accept : Bool
  pub double_answer : Bool
  pub mf_threshold : ℕ
  pub dial_with_dtmf : Bool
  pub detect_dtmf : Bool
  pub dtmf_on : ℕ
  pub dtmf_off : ℕ
  pub loglevel : ℕ
  pub logdir : List ℕ
  pub configured_from_file : Bool
  pub ani_can_come_first : Bool
  pub force_use_max_ani : Bool
  pub auto_seize_ack : Bool

-- OR2_MAX_ANI and OR2_MAX_DNIS, the sizes of the digit buffers.
abbrev pub max_ani_size : ℕ
max_ani_size = 80

abbrev pub max_dnis_size : ℕ
max_dnis_size = 80
