-- ===== src/Proto/Session.antt =====
-- A channel from its creation on: __openr2_chan_new of src/r2chan.c, and the calls that may come
-- to it, one by one, each in the surroundings of its moment.
use openr.Prelude.{
  ℕ, Bool, true, false, Option, none, some, List, [], ◌∷◌, replicate, if◌then◌else◌,
}
use openr.Types.{
  AnswerMode, CallMode, CallState, CasState, Category, Cause, Direction, MfGroup, MfState,
}
use openr.Context.{max_ani_size, max_dnis_size}
use openr.Chan.{Chan, Env, Time}
use openr.Chan.Client.{no_client_data}
use openr.Chan.Timers.{no_timer_ids}
use openr.Proto.Line.{set_idle, set_blocked, proto_destroy}
use openr.Proto.Incoming.{ack_call}
use openr.Proto.Cas.{handle_cas}
use openr.Proto.Calls.{
  accept_call, answer_call, answer_call_with_mode, disconnect_call, handle_dtmf_end,
}
use openr.Proto.Calls.Make.{make_call}
use openr.Proto.Tone.{handle_mf_tone}
use openr.Proto.Schedule.{handle_timers, handle_alarm_state, handle_alarm_event}

abbrev time_zero : Time
time_zero = record { tv_sec = 0; tv_usec = 0 }

-- The memory that `calloc` gives, with the fields that are set before the devices are opened.
unfoldable pub fresh_chan : ℕ → ℕ → Chan
fresh_chan write_handle read_handle = record {
  read_enabled = false;
  direction = Direction.stopped;
  sched_timers = [];
  timer_id = 1;
  timer_ids = no_timer_ids;
  mf_state = MfState.unset;
  mf_group = MfGroup.no_group;
  r2_state = CasState.init;
  call_state = CallState.idle;
  cas_read = 0;
  cas_write = 0;
  cas_raw_read = 0;
  cas_persistence_check_signal = none;
  cas_rx_signal = none;
  cas_tx_signal = none;
  inalarm = false;
  ani = replicate max_ani_size 0;
  ani_ptr = none;
  ani_len = 0;
  dnis = replicate max_dnis_size 0;
  dnis_index = 0;
  dnis_len = 0;
  caller_ani_is_restricted = false;
  caller_category = 0;
  mf_write_handle = some write_handle;
  mf_read_handle = some read_handle;
  dialing_dtmf = false;
  detecting_dtmf = false;
  dtmf_silence_samples = 0;
  mf_write_tone = 0;
  mf_read_tone = 0;
  mf_threshold_tone = 0;
  mf_threshold_time = time_zero;
  answered = false;
  category_sent = false;
  call_files = false;
  call_count = 0;
  logname = [];
  logfile = false;
  dnis_callback = false;
  client_data = no_client_data;
  last_error = none;
  trace = [];
}

-- The end of `__openr2_chan_new`: the alarm of the line, if there is one.
unfoldable pub chan_new : Env → Bool → ℕ → ℕ → Chan
chan_new env alarm write_handle read_handle =
    let c = fresh_chan write_handle read_handle in
    if alarm then handle_alarm_state env (record c { inalarm = true }) else c

-- What the main loop of src/r2chan.c and the user may call. A DTMF detector gives its digits by
-- another way, `on_dtmf_received`.
pub data Call : Type 0 where
  process_cas : Call
  process_tone : ℕ → Call
  process_timers : Call
  process_alarm : Bool → Call
  process_dtmf_end : Call
  user_make : Option (List ℕ) → List ℕ → Category → Bool → Call
  user_accept : CallMode → Call
  user_answer : Call
  user_answer_with_mode : AnswerMode → Call
  user_disconnect : Cause → Call
  user_ack : Call
  user_set_idle : Call
  user_set_blocked : Call
  user_delete : Call

unfoldable pub step : Env → Call → Chan → Chan
step env process_cas c = (handle_cas env c).0
step env (process_tone tone) c = handle_mf_tone env tone c
step env process_timers c = (handle_timers env c).0
step env (process_alarm on) c = handle_alarm_event env on c
step env process_dtmf_end c = handle_dtmf_end env c
step env (user_make ani dnis category restricted) c =
    (make_call env ani dnis category restricted c).0
step env (user_accept mode) c = (accept_call env mode c).0
step env user_answer c = (answer_call env c).0
step env (user_answer_with_mode mode) c = (answer_call_with_mode env mode c).0
step env (user_disconnect cause) c = (disconnect_call env cause c).0
step env user_ack c = (ack_call env c).0
step env user_set_idle c = (set_idle env c).0
step env user_set_blocked c = (set_blocked env c).0
step env user_delete c = proto_destroy env c

unfoldable pub run : List (Env × Call) → Chan → Chan
run [] c = c
run ((env, call) ∷ rest) c = run rest (step env call c)
