-- ===== src/Context/Interfaces.antt =====
-- The interfaces that a context of src/r2context.c is given, their checks, and its creation. A
-- member of an interface is the address of a function, and 0 is NULL.
pub mod Checked
use openr.Prelude.{
  ℕ, ℤ, nonzero, if◌then◌else◌, Bool, true, false, not, ◌&&◌, Option, none, some, List, [], ◌∷◌,
}
use openr.Types.{CasSignal, Rc, done, failed, Variant}
use openr.Context.{Context}
pub use openr.Context.Members.{
  EventInterface, MflibInterface, TranscoderInterface, DtmfInterface, IoInterface, IoType,
  ContextError, Library, Defaults, all_given, mflib_members, transcoder_members, dtmf_members,
  io_members, event_members,
}
pub use openr.Context.Zero.{zero_context}
use openr.Context.Variants.{configure_context}

-- NULL, which is none, leaves the interface in use.
unfoldable pub set_mflib_interface : Option MflibInterface → Library → Library × Rc
set_mflib_interface none l = (l, done)
set_mflib_interface (some m) l =
    if all_given (mflib_members m)
    then (record l { mflib = m }, done)
    else (record l { last_error = some ContextError.invalid_interface }, failed)

unfoldable pub set_transcoder_interface : Option TranscoderInterface → Library → Library × Rc
set_transcoder_interface none l = (l, done)
set_transcoder_interface (some t) l =
    if all_given (transcoder_members t)
    then (record l { transcoder = t }, done)
    else (record l { last_error = some ContextError.invalid_interface }, failed)

-- NULL brings back the library's own engine; no failure sets the library error.
unfoldable pub set_dtmf_interface : Defaults → Option DtmfInterface → Library → Library × Rc
set_dtmf_interface own none l = (record l { dtmfeng = own.dtmfeng }, done)
set_dtmf_interface own (some d) l =
    if all_given (dtmf_members d) then (record l { dtmfeng = d }, done) else (l, failed)

abbrev pub use_io : IoType → IoInterface → Library → Library × Rc
use_io io_type i l = (
  record l { io = some i; io_type = io_type; context = record (l.context) { has_io = true } },
  done,
)

abbrev pub use_zt : Option IoInterface → Library → Library × Rc
use_zt none l = (l, failed)
use_zt (some z) l = use_io IoType.zt z l

abbrev pub zt_or : Option IoInterface → IoInterface → IoInterface
zt_or none dummy = dummy
zt_or (some z) dummy = z

unfoldable pub set_io_type : Defaults → IoType → Option IoInterface → Library → Library × Rc
set_io_type own IoType.custom none l = (l, failed)
set_io_type own IoType.custom (some i) l =
    if all_given (io_members i) then use_io IoType.custom i l else (l, failed)
set_io_type own IoType.zt i l = use_zt own.zt_io l
set_io_type own IoType.default_io i l = use_io IoType.default_io (zt_or own.zt_io own.dummy_io) l
set_io_type own IoType.other i l = (l, failed)

-- `if (!p) p = default`
abbrev pub or_default : ℕ → ℕ → ℕ
or_default p default = if nonzero p then p else default

-- The callbacks that the user leaves out become the library's.
unfoldable pub fill_events : EventInterface → EventInterface → EventInterface
fill_events d e = record {
  on_call_init = or_default e.on_call_init d.on_call_init;
  on_call_proceed = or_default e.on_call_proceed d.on_call_proceed;
  on_call_offered = or_default e.on_call_offered d.on_call_offered;
  on_call_accepted = or_default e.on_call_accepted d.on_call_accepted;
  on_call_answered = or_default e.on_call_answered d.on_call_answered;
  on_call_disconnect = or_default e.on_call_disconnect d.on_call_disconnect;
  on_call_end = or_default e.on_call_end d.on_call_end;
  on_call_read = or_default e.on_call_read d.on_call_read;
  on_hardware_alarm = or_default e.on_hardware_alarm d.on_hardware_alarm;
  on_os_error = or_default e.on_os_error d.on_os_error;
  on_protocol_error = or_default e.on_protocol_error d.on_protocol_error;
  on_line_blocked = or_default e.on_line_blocked d.on_line_blocked;
  on_line_idle = or_default e.on_line_idle d.on_line_idle;
  on_context_log = or_default e.on_context_log d.on_context_log;
  on_dnis_digit_received = or_default e.on_dnis_digit_received d.on_dnis_digit_received;
  on_ani_digit_received = or_default e.on_ani_digit_received d.on_ani_digit_received;
  on_billing_pulse_received = or_default e.on_billing_pulse_received d.on_billing_pulse_received;
  on_call_log_created = or_default e.on_call_log_created d.on_call_log_created;
}

abbrev pub given_events : Defaults → Option EventInterface → EventInterface
given_events own none = own.evmanager
given_events own (some e) = fill_events own.evmanager e

-- What `openr2_context_new` comes to: a context, NULL, or the access through NULL that C does not
-- define.
pub data NewContext : Type 0 where
  made : Library → NewContext
  null : NewContext
  undefined : NewContext

-- The context, unless the I/O type could not be set.
abbrev pub io_is_set : Library × Rc → NewContext
io_is_set (l, done) = NewContext.made l
io_is_set (l, failed) = NewContext.null

-- The new context once its variant is configured; `set_io_type` ends it.
abbrev pub finish_new : Defaults → Option EventInterface → Option Context → NewContext
finish_new own evmanager none = NewContext.null
finish_new own evmanager (some r) = io_is_set (
    set_io_type own IoType.default_io none (record {
      context = r;
      evmanager = given_events own evmanager;
      mflib = own.mflib;
      transcoder = own.transcoder;
      dtmfeng = own.dtmfeng;
      io = none;
      io_type = IoType.default_io;
      last_error = none;
    }))

-- `openr2_context_new`: whether `calloc` gives memory, then its arguments.
unfoldable pub context_new : Defaults → Bool → Variant → Option EventInterface → ℤ → ℤ → NewContext
unfolding set_io_type fill_events configure_context
context_new own has_memory variant evmanager max_ani max_dnis =
    if has_memory
    then finish_new own evmanager
        (configure_context (zero_context variant) variant max_ani max_dnis)
    else NewContext.undefined
