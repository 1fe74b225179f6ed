-- ===== src/Context/File/Rows.antt =====
-- The lines that an advanced configuration file may have: the fields that LOADTONE, LOADTIMER and
-- LOADSETTING of src/r2context.c are called for, in their order.
use Prim.Native.String.{String}
use openr.Prelude.{ℕ, List, [], ◌∷◌, ◌++◌}
use openr.Context.{Context}
use openr.Names.Compare.{codes}

-- A tone is read by "%c", a number by "%d".
pub data Kind : Type 0 where
  tone number : Kind

-- The format up to its conversion, and the assignment to the field.
pub record Row : Type 0 where
  pub format : List ℕ
  pub kind : Kind
  pub assign : ℕ → Context → Context

abbrev pub tone_row : String → (ℕ → Context → Context) → Row
tone_row text assign = record { format = codes text; kind = Kind.tone; assign = assign }

abbrev pub number_row : String → (ℕ → Context → Context) → Row
number_row text assign = record { format = codes text; kind = Kind.number; assign = assign }

abbrev pub tone_rows : List Row
tone_rows =
    tone_row "mf_ga_tones.request_next_ani_digit="
      (λ v r. record r { mf_ga_tones = record (r.mf_ga_tones) { request_next_ani_digit = v } })
    ∷ tone_row "mf_ga_tones.request_next_dnis_digit="
        (λ v r. record r { mf_ga_tones = record (r.mf_ga_tones) { request_next_dnis_digit = v } })
    ∷ tone_row "mf_ga_tones.request_dnis_minus_1="
        (λ v r. record r { mf_ga_tones = record (r.mf_ga_tones) { request_dnis_minus_1 = v } })
    ∷ tone_row "mf_ga_tones.request_dnis_minus_2="
        (λ v r. record r { mf_ga_tones = record (r.mf_ga_tones) { request_dnis_minus_2 = v } })
    ∷ tone_row "mf_ga_tones.request_dnis_minus_3="
        (λ v r. record r { mf_ga_tones = record (r.mf_ga_tones) { request_dnis_minus_3 = v } })
    ∷ tone_row "mf_ga_tones.request_all_dnis_again="
        (λ v r. record r { mf_ga_tones = record (r.mf_ga_tones) { request_all_dnis_again = v } })
    ∷ tone_row "mf_ga_tones.request_category="
        (λ v r. record r { mf_ga_tones = record (r.mf_ga_tones) { request_category = v } })
    ∷ tone_row "mf_ga_tones.request_category_and_change_to_gc=" (λ v r. record r {
      mf_ga_tones = record (r.mf_ga_tones) { request_category_and_change_to_gc = v };
    })
    ∷ tone_row "mf_ga_tones.request_change_to_g2="
        (λ v r. record r { mf_ga_tones = record (r.mf_ga_tones) { request_change_to_g2 = v } })
    ∷ tone_row "mf_ga_tones.address_complete_charge_setup=" (λ v r. record r {
      mf_ga_tones = record (r.mf_ga_tones) { address_complete_charge_setup = v };
    })
    ∷ tone_row "mf_ga_tones.network_congestion="
        (λ v r. record r { mf_ga_tones = record (r.mf_ga_tones) { network_congestion = v } })
    ∷ tone_row "mf_gb_tones.accept_call_with_charge="
        (λ v r. record r { mf_gb_tones = record (r.mf_gb_tones) { accept_call_with_charge = v } })
    ∷ tone_row "mf_gb_tones.accept_call_no_charge="
        (λ v r. record r { mf_gb_tones = record (r.mf_gb_tones) { accept_call_no_charge = v } })
    ∷ tone_row "mf_gb_tones.busy_number="
        (λ v r. record r { mf_gb_tones = record (r.mf_gb_tones) { busy_number = v } })
    ∷ tone_row "mf_gb_tones.network_congestion="
        (λ v r. record r { mf_gb_tones = record (r.mf_gb_tones) { network_congestion = v } })
    ∷ tone_row "mf_gb_tones.unallocated_number="
        (λ v r. record r { mf_gb_tones = record (r.mf_gb_tones) { unallocated_number = v } })
    ∷ tone_row "mf_gb_tones.line_out_of_order="
        (λ v r. record r { mf_gb_tones = record (r.mf_gb_tones) { line_out_of_order = v } })
    ∷ tone_row "mf_gb_tones.special_info_tone="
        (λ v r. record r { mf_gb_tones = record (r.mf_gb_tones) { special_info_tone = v } })
    ∷ tone_row "mf_gb_tones.number_changed="
        (λ v r. record r { mf_gb_tones = record (r.mf_gb_tones) { number_changed = v } })
    ∷ tone_row "mf_gc_tones.request_next_ani_digit="
        (λ v r. record r { mf_gc_tones = record (r.mf_gc_tones) { request_next_ani_digit = v } })
    ∷ tone_row "mf_gc_tones.request_change_to_g2="
        (λ v r. record r { mf_gc_tones = record (r.mf_gc_tones) { request_change_to_g2 = v } })
    ∷ tone_row "mf_gc_tones.request_next_dnis_digit_and_change_to_ga=" (λ v r. record r {
      mf_gc_tones = record (r.mf_gc_tones) { request_next_dnis_digit_and_change_to_ga = v };
    })
    ∷ tone_row "mf_g1_tones.no_more_dnis_available="
        (λ v r. record r { mf_g1_tones = record (r.mf_g1_tones) { no_more_dnis_available = v } })
    ∷ tone_row "mf_g1_tones.no_more_ani_available="
        (λ v r. record r { mf_g1_tones = record (r.mf_g1_tones) { no_more_ani_available = v } })
    ∷ tone_row "mf_g1_tones.caller_ani_is_restricted="
        (λ v r. record r { mf_g1_tones = record (r.mf_g1_tones) { caller_ani_is_restricted = v } })
    ∷ tone_row "mf_g2_tones.national_subscriber="
        (λ v r. record r { mf_g2_tones = record (r.mf_g2_tones) { national_subscriber = v } })
    ∷ tone_row "mf_g2_tones.national_priority_subscriber=" (λ v r. record r {
      mf_g2_tones = record (r.mf_g2_tones) { national_priority_subscriber = v };
    })
    ∷ tone_row "mf_g2_tones.international_subscriber="
        (λ v r. record r { mf_g2_tones = record (r.mf_g2_tones) { international_subscriber = v } })
    ∷ tone_row "mf_g2_tones.international_priority_subscriber=" (λ v r. record r {
      mf_g2_tones = record (r.mf_g2_tones) { international_priority_subscriber = v };
    })
    ∷ tone_row "mf_g2_tones.collect_call="
        (λ v r. record r { mf_g2_tones = record (r.mf_g2_tones) { collect_call = v } })
    ∷ tone_row "mf_g2_tones.pay_phone="
        (λ v r. record r { mf_g2_tones = record (r.mf_g2_tones) { pay_phone = v } })
    ∷ []

abbrev pub number_rows : List Row
number_rows =
    number_row "timers.mf_back_cycle="
      (λ v r. record r { timers = record (r.timers) { mf_back_cycle = v } })
    ∷ number_row "timers.mf_back_resume_cycle="
        (λ v r. record r { timers = record (r.timers) { mf_back_resume_cycle = v } })
    ∷ number_row "timers.mf_fwd_safety="
        (λ v r. record r { timers = record (r.timers) { mf_fwd_safety = v } })
    ∷ number_row "timers.r2_seize="
        (λ v r. record r { timers = record (r.timers) { r2_seize = v } })
    ∷ number_row "timers.r2_seize_persist="
        (λ v r. record r { timers = record (r.timers) { r2_seize_persist = v } })
    ∷ number_row "timers.r2_answer="
        (λ v r. record r { timers = record (r.timers) { r2_answer = v } })
    ∷ number_row "timers.r2_metering_pulse="
        (λ v r. record r { timers = record (r.timers) { r2_metering_pulse = v } })
    ∷ number_row "timers.r2_double_answer="
        (λ v r. record r { timers = record (r.timers) { r2_double_answer = v } })
    ∷ number_row "timers.r2_answer_delay="
        (λ v r. record r { timers = record (r.timers) { r2_answer_delay = v } })
    ∷ number_row "timers.r2_set_call_down="
        (λ v r. record r { timers = record (r.timers) { r2_set_call_down = v } })
    ∷ number_row "timers.cas_persistence_check="
        (λ v r. record r { timers = record (r.timers) { cas_persistence_check = v } })
    ∷ number_row "timers.dtmf_start_dial="
        (λ v r. record r { timers = record (r.timers) { dtmf_start_dial = v } })
    ∷ number_row "mf_threshold=" (λ v r. record r { mf_threshold = v })
    ∷ number_row "cas_r2_bits=" (λ v r. record r { cas_r2_bits = v })
    ∷ number_row "cas_nonr2_bits=" (λ v r. record r { cas_nonr2_bits = v })
    ∷ []

abbrev pub rows : List Row
rows = tone_rows ++ number_rows
