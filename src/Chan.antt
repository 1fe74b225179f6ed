-- ===== src/Chan.antt =====
-- The channel, src/openr2/r2chan-pvt.h, and what surrounds it: the devices, the clock and the
-- user's callbacks, which are parameters (`Env`).
pub mod Client
pub mod Timers
pub mod Device
pub mod Listed
use openr.Prelude.{ℕ, ℤ, pos, Bool, Option, List}
use openr.Types.{
  CasSignal, CasState, CallState, MfState, MfGroup, Direction, CallMode, Cause, ProtocolError,
  Category,
}
use openr.Context.{Context}
use openr.Chan.Client.{ClientData}

-- `struct timeval`
pub record Time : Type 0 where
  pub tv_sec : ℕ
  pub tv_usec : ℕ

-- The functions that the library gives to `openr2_chan_add_timer`, by their names.
pub data TimerCallback : Type 0 where
  mf_fwd_safety_timeout_expired : TimerCallback
  mf_back_cycle_timeout_expired : TimerCallback
  mf_back_resume_cycle : TimerCallback
  seize_timeout_expired : TimerCallback
  r2_seize_persist_expired : TimerCallback
  r2_answer_timeout_expired : TimerCallback
  r2_metering_pulse : TimerCallback
  double_answer_handler : TimerCallback
  ready_to_answer : TimerCallback
  persistence_check_expired : TimerCallback
  start_dialing_dtmf : TimerCallback
  r2_set_call_down : TimerCallback

-- `openr2_sched_timer_t`, less the name, which only the log shows.
pub record SchedTimer : Type 0 where
  pub time : Time
  pub callback : TimerCallback
  pub id : ℕ

-- `openr2_chan_timer_ids_t`; 0 stands for no timer, -1 for one that could not be scheduled.
pub record TimerIds : Type 0 where
  pub mf_fwd_safety : ℤ
  pub r2_seize : ℤ
  pub r2_seize_persist : ℤ
  pub r2_answer : ℤ
  pub r2_metering_pulse : ℤ
  pub r2_double_answer : ℤ
  pub mf_back_resume_cycle : ℤ
  pub mf_back_cycle : ℤ
  pub r2_answer_delay : ℤ
  pub cas_persistence_check : ℤ
  pub dtmf_start_dial : ℤ

-- A call of the user's event interface, `openr2_event_interface_t`. The ANI and DNIS that
-- `on_call_offered` is given are the channel's own buffers, which its callback reads there.
pub data Event : Type 0 where
  on_call_init : Event
  on_call_proceed : Event
  on_call_offered : Category → Bool → Event
  on_call_accepted : CallMode → Event
  on_call_answered : Event
  on_call_disconnect : Cause → Event
  on_call_end : Event
  on_call_read : List ℕ → Event
  on_call_log_created : Event
  on_os_error : ℕ → Event
  on_hardware_alarm : Bool → Event
  on_protocol_error : ProtocolError → Event
  on_line_idle : Event
  on_line_blocked : Event
  on_dnis_digit_received : ℕ → Event
  on_ani_digit_received : ℕ → Event
  on_billing_pulse_received : Event

-- What the library has done to its surroundings, latest first. `fault` marks an access that C does
-- not define: one outside a digit buffer, or through a null pointer.
pub data Action : Type 0 where
  tx_cas : ℕ → Action
  select_tone : ℕ → Action
  init_mf_writer : Bool → Action
  init_mf_reader : Bool → Action
  dispose_mf_writer : Action
  dispose_mf_reader : Action
  init_dtmf_rx : Action
  init_dtmf_tx : Action
  put_dtmf : List ℕ → Action
  tx_audio : List ℕ → Action
  user : Event → Action
  fault : Action

-- OR2_LIBERR_CANNOT_SET_IDLE is the one library error that the protocol code sets.
pub data LibError : Type 0 where
  cannot_set_idle : LibError

-- `openr2_chan_t`. `sched_timers` holds the first `timers_count` entries of the array, `flags` is
-- its one bit OR2_CHAN_CALL_DNIS_CALLBACK, a pointer into the ANI buffer is an offset, and -1 in
-- `cas_persistence_check_signal` is `none`. The last two fields are not the channel's:
-- `r2context->last_error`, and the record of what was done.
pub record Chan : Type 0 where
  pub read_enabled : Bool
  pub direction : Direction
  pub sched_timers : List SchedTimer
  pub timer_id : ℕ
  pub timer_ids : TimerIds
  pub mf_state : MfState
  pub mf_group : MfGroup
  pub r2_state : CasState
  pub call_state : CallState
  pub cas_read : ℕ
  pub cas_write : ℕ
  pub cas_raw_read : ℕ
  pub cas_persistence_check_signal : Option ℕ
  pub cas_rx_signal : Option CasSignal
  pub cas_tx_signal : Option CasSignal
  pub inalarm : Bool
  pub ani : List ℕ
  pub ani_ptr : Option ℕ
  pub ani_len : ℕ
  pub dnis : List ℕ
  pub dnis_index : ℕ
  pub dnis_len : ℕ
  pub caller_ani_is_restricted : Bool
  pub caller_category : ℕ
  pub mf_write_handle : Option ℕ
  pub mf_read_handle : Option ℕ
  pub dialing_dtmf : Bool
  pub detecting_dtmf : Bool
  pub dtmf_silence_samples : ℕ
  pub mf_write_tone : ℕ
  pub mf_read_tone : ℕ
  pub mf_threshold_tone : ℕ
  pub mf_threshold_time : Time
  pub answered : Bool
  pub category_sent : Bool
  pub call_files : Bool
  pub call_count : ℕ
  pub logname : List ℕ
  pub logfile : Bool
  pub dnis_callback : Bool
  pub client_data : ClientData
  pub last_error : Option LibError
  pub trace : List Action

-- The code that is not the library's: the I/O, MF and DTMF interfaces (`…_fails` is a result other
-- than 0), the clock, the C library and the user's callbacks. `tells_io_errors` is whether the I/O
-- interface calls `on_os_error` where it fails, as the Zaptel one does and the dummy does not. A
-- callback is given the channel and leaves it as the library's operations that it calls leave it.
pub record Env : Type 0 where
  pub r2context : Context
  pub set_cas_fails : Chan → ℕ → Bool
  pub get_cas : Chan → Option ℕ
  pub flush_fails : Chan → Bool
  pub select_tone_fails : Chan → ℕ → Bool
  pub mf_write_init : Chan → Bool → Option ℕ
  pub mf_read_init : Chan → Bool → Option ℕ
  pub tells_io_errors : Bool
  pub has_write_dispose : Bool
  pub has_read_dispose : Bool
  pub dtmf_rx_init : Chan → Bool
  pub dtmf_tx_init : Chan → Bool
  pub dtmf_tx_put_fails : Chan → Bool
  pub gettimeofday : Chan → Option Time
  pub errno : Chan → ℕ
  pub time_fails : Chan → Bool
  pub localtime_fails : Chan → Bool
  pub log_name : Chan → Bool → List ℕ
  pub fopen_fails : Chan → Bool
  pub fclose_fails : Chan → Bool
  pub callback : Event → Chan → Chan
  pub dnis_callback : ℕ → Chan → Bool × Chan
