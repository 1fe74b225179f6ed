-- ===== src/Tests/Surroundings.antt =====
-- The theorems on names and on the context at concrete inputs.
use openr.Prelude.{pos, negsuc, none, some, List, [], ◌∷◌, ◌++◌, ◌≡◌, refl, ◌≢◌, ◌↔◌, arith}
use openr.Types.{Category, Variant}
use openr.Context.Bounds.{IsConfigured}
use openr.Context.Settings.Kept.{Setting, apply_all, apply_all-IsConfigured}
use openr.Context.Interfaces.{
  EventInterface, MflibInterface, IoInterface, IoType, Library, Defaults,
}
use openr.Context.Interfaces.Checked.{AreComplete}
use openr.Names.{get_category_string}
use openr.Names.Compare.{
  codes, lower, is_zero, strncasecmp, agree, tolower, strncasecmp-agree, IsText,
}
use openr.Names.Lookup.{get_category, get_variant, get_variant_string}
use openr.Names.Lookup.Found.{get_category-get_category_string, get_variant-get_variant_string}
use openr.Tests.Examples.{line-IsConfigured}
use openr.Tests.{line_context}

IsText-ar : IsText (codes "aR")
IsText-ar = (omega arith, (omega arith, tt))

IsText-arg : IsText (codes "Arg")
IsText-arg = (omega arith, (omega arith, (omega arith, tt)))

strncasecmp-agree_example :
    is_zero (strncasecmp (codes "aR") (codes "Arg") 2)
    ≡ agree 2 (lower (codes "aR")) (lower (codes "Arg"))
strncasecmp-agree_example = strncasecmp-agree (codes "aR") (codes "Arg") 2 IsText-ar IsText-arg

known_argentina : Variant.argentina ≢ Variant.unknown
known_argentina h = cc

get_variant-get_variant_string_example :
    (get_variant (codes "aR") ≡ Variant.argentina)
    ↔ (lower (codes "aR") ≡ lower (codes (get_variant_string Variant.argentina)))
get_variant-get_variant_string_example =
    get_variant-get_variant_string Variant.argentina (codes "aR") known_argentina IsText-ar

known_pay_phone : Category.pay_phone ≢ Category.unknown
known_pay_phone h = cc

IsText-pay_phone : IsText (codes "PAY phone")
IsText-pay_phone = (
  omega arith,
  (
    omega arith,
    (
      omega arith,
      (omega arith, (omega arith, (omega arith, (omega arith, (omega arith, (omega arith, tt)))))),
    ),
  ),
)

get_category-get_category_string_example :
    get_category (codes "PAY phone" ++ codes "Arg") ≡ Category.pay_phone
unfolding get_category_string tolower
get_category-get_category_string_example =
    get_category-get_category_string Category.pay_phone (codes "PAY phone") (codes "Arg")
      known_pay_phone IsText-pay_phone IsText-arg refl

-- Changes of the ITU context.
abbrev changes : List Setting
changes =
    Setting.max_dnis (pos 200)
    ∷ Setting.max_ani (pos 0)
    ∷ Setting.dtmf_dialing (pos 1) (pos 0) (pos 70)
    ∷ Setting.mf_threshold (negsuc 4)
    ∷ []

apply_all-IsConfigured_example : IsConfigured (apply_all changes line_context)
apply_all-IsConfigured_example =
    apply_all-IsConfigured changes line_context (ground arith) line-IsConfigured

-- The library's interfaces, and a set of the user's with one function.
abbrev own_events : EventInterface
own_events = record {
  on_call_init = 100;
  on_call_proceed = 101;
  on_call_offered = 102;
  on_call_accepted = 103;
  on_call_answered = 104;
  on_call_disconnect = 105;
  on_call_end = 106;
  on_call_read = 107;
  on_hardware_alarm = 108;
  on_os_error = 109;
  on_protocol_error = 110;
  on_line_blocked = 111;
  on_line_idle = 112;
  on_context_log = 113;
  on_dnis_digit_received = 114;
  on_ani_digit_received = 115;
  on_billing_pulse_received = 116;
  on_call_log_created = 117;
}

abbrev pub user_events : EventInterface
user_events = record {
  on_call_init = 100;
  on_call_proceed = 0;
  on_call_offered = 0;
  on_call_accepted = 0;
  on_call_answered = 0;
  on_call_disconnect = 0;
  on_call_end = 0;
  on_call_read = 0;
  on_hardware_alarm = 0;
  on_os_error = 0;
  on_protocol_error = 0;
  on_line_blocked = 0;
  on_line_idle = 0;
  on_context_log = 0;
  on_dnis_digit_received = 0;
  on_ani_digit_received = 0;
  on_billing_pulse_received = 0;
  on_call_log_created = 0;
}

abbrev own_mflib : MflibInterface
own_mflib = record {
  mf_read_init = 100;
  mf_write_init = 101;
  mf_detect_tone = 102;
  mf_generate_tone = 103;
  mf_select_tone = 104;
  mf_want_generate = 105;
  mf_read_dispose = 0;
  mf_write_dispose = 0;
}

abbrev own_io : IoInterface
own_io = record {
  open_fd = 100;
  close = 101;
  set_cas = 102;
  get_cas = 103;
  flush_write_buffers = 104;
  write = 105;
  read = 106;
  setup = 107;
  wait = 108;
  get_oob_event = 109;
  get_alarm_state = 110;
}

abbrev pub own : Defaults
own = record {
  evmanager = own_events;
  mflib = own_mflib;
  transcoder = record { alaw_to_linear = 100; linear_to_alaw = 101 };
  dtmfeng = record {
    dtmf_tx_init = 100;
    dtmf_tx_set_timing = 101;
    dtmf_tx_put = 102;
    dtmf_tx = 103;
    dtmf_rx_init = 104;
    dtmf_rx_status = 105;
    dtmf_rx = 106;
  };
  zt_io = none;
  dummy_io = own_io;
}

pub own-AreComplete : AreComplete own
own-AreComplete = record {
  evmanager = refl;
  mflib = refl;
  transcoder = refl;
  dtmfeng = refl;
  dummy_io = refl;
  zt_io = λ z h. cc;
}

abbrev own_library : Library
own_library = record {
  context = line_context;
  evmanager = own_events;
  mflib = own_mflib;
  transcoder = own.transcoder;
  dtmfeng = own.dtmfeng;
  io = some own_io;
  io_type = IoType.default_io;
  last_error = none;
}
