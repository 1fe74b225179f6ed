-- ===== src/Context/Members.antt =====
-- The interfaces of src/r2context.c, and the part of `openr2_context_t` that holds them. A member of
-- an interface is the address of a function, and 0 is NULL.
use openr.Prelude.{ℕ, nonzero, Bool, true, ◌&&◌, Option, List, [], ◌∷◌}
use openr.Context.{Context}

-- `openr2_event_interface_t`
pub record EventInterface : Type 0 where
  pub on_call_init : ℕ
  pub on_call_proceed : ℕ
  pub on_call_offered : ℕ
  pub on_call_accepted : ℕ
  pub on_call_answered : ℕ
  pub on_call_disconnect : ℕ
  pub on_call_end : ℕ
  pub on_call_read : ℕ
  pub on_hardware_alarm : ℕ
  pub on_os_error : ℕ
  pub on_protocol_error : ℕ
  pub on_line_blocked : ℕ
  pub on_line_idle : ℕ
  pub on_context_log : ℕ
  pub on_dnis_digit_received : ℕ
  pub on_ani_digit_received : ℕ
  pub on_billing_pulse_received : ℕ
  pub on_call_log_created : ℕ

-- `openr2_mflib_interface_t`
pub record MflibInterface : Type 0 where
  pub mf_read_init : ℕ
  pub mf_write_init : ℕ
  pub mf_detect_tone : ℕ
  pub mf_generate_tone : ℕ
  pub mf_select_tone : ℕ
  pub mf_want_generate : ℕ
  pub mf_read_dispose : ℕ
  pub mf_write_dispose : ℕ

-- `openr2_transcoder_interface_t`
pub record TranscoderInterface : Type 0 where
  pub alaw_to_linear : ℕ
  pub linear_to_alaw : ℕ

-- `openr2_dtmf_interface_t`
pub record DtmfInterface : Type 0 where
  pub dtmf_tx_init : ℕ
  pub dtmf_tx_set_timing : ℕ
  pub dtmf_tx_put : ℕ
  pub dtmf_tx : ℕ
  pub dtmf_rx_init : ℕ
  pub dtmf_rx_status : ℕ
  pub dtmf_rx : ℕ

-- `openr2_io_interface_t`
pub record IoInterface : Type 0 where
  pub open_fd : ℕ
  pub close : ℕ
  pub set_cas : ℕ
  pub get_cas : ℕ
  pub flush_write_buffers : ℕ
  pub write : ℕ
  pub read : ℕ
  pub setup : ℕ
  pub wait : ℕ
  pub get_oob_event : ℕ
  pub get_alarm_state : ℕ

-- `openr2_io_type_t`; `other` is a value that the enumeration lacks.
pub data IoType : Type 0 where
  default_io zt custom other : IoType

-- The library errors that the context's functions set.
pub data ContextError : Type 0 where
  out_of_memory invalid_interface : ContextError

-- The rest of `openr2_context_t`: the configuration, and the interfaces in use.
pub record Library : Type 0 where
  pub context : Context
  pub evmanager : EventInterface
  pub mflib : MflibInterface
  pub transcoder : TranscoderInterface
  pub dtmfeng : DtmfInterface
  pub io : Option IoInterface
  pub io_type : IoType
  pub last_error : Option ContextError

-- The interfaces that the library itself has; the Zaptel one is there if it was built with it.
pub record Defaults : Type 0 where
  pub evmanager : EventInterface
  pub mflib : MflibInterface
  pub transcoder : TranscoderInterface
  pub dtmfeng : DtmfInterface
  pub zt_io : Option IoInterface
  pub dummy_io : IoInterface

-- No member of the list is NULL.
abbrev pub all_given : List ℕ → Bool
all_given [] = true
all_given (p ∷ ps) = nonzero p && all_given ps

-- The members that each check asks for, in its order: that of an I/O interface does not ask for
-- `get_alarm_state`, which openr2_io_get_alarm_state calls.
abbrev pub mflib_members : MflibInterface → List ℕ
mflib_members m =
    m.mf_read_init ∷ m.mf_write_init ∷ m.mf_detect_tone ∷ m.mf_generate_tone ∷ m.mf_select_tone
    ∷ m.mf_want_generate ∷ []

abbrev pub transcoder_members : TranscoderInterface → List ℕ
transcoder_members t = t.alaw_to_linear ∷ t.linear_to_alaw ∷ []

abbrev pub dtmf_members : DtmfInterface → List ℕ
dtmf_members d =
    d.dtmf_tx_init ∷ d.dtmf_tx_set_timing ∷ d.dtmf_tx_put ∷ d.dtmf_tx ∷ d.dtmf_rx_init
    ∷ d.dtmf_rx_status ∷ d.dtmf_rx ∷ []

abbrev pub io_members : IoInterface → List ℕ
io_members i =
    i.open_fd ∷ i.close ∷ i.set_cas ∷ i.get_cas ∷ i.flush_write_buffers ∷ i.write ∷ i.read ∷ i.setup
    ∷ i.wait ∷ i.get_oob_event ∷ []

abbrev pub event_members : EventInterface → List ℕ
event_members e =
    e.on_call_init ∷ e.on_call_proceed ∷ e.on_call_offered ∷ e.on_call_accepted ∷ e.on_call_answered
    ∷ e.on_call_disconnect ∷ e.on_call_end ∷ e.on_call_read ∷ e.on_hardware_alarm ∷ e.on_os_error
    ∷ e.on_protocol_error ∷ e.on_line_blocked ∷ e.on_line_idle ∷ e.on_context_log
    ∷ e.on_dnis_digit_received ∷ e.on_ani_digit_received ∷ e.on_billing_pulse_received
    ∷ e.on_call_log_created ∷ []
