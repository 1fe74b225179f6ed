-- ===== src/Tests.antt =====
-- A line of the ITU variant for the examples: its context, its surroundings, and its channel.
pub mod Examples
pub mod Surroundings
pub mod Devices
pub mod Program
pub mod Talks
use openr.Prelude.{ℕ, ℤ, pos, Bool, true, false, Option, none, some, List, [], ◌∷◌}
use openr.Types.{CasSignal, CasState, CallState, Direction, Category, Variant, MfState, MfGroup}
use openr.Context.{Context, GcTones, TimerLengths}
use openr.Context.Variants.{
  standard_cas_signals, itu_ga_tones, itu_gb_tones, itu_gc_tones, itu_g1_tones, itu_g2_tones,
}
use openr.Chan.{Chan, Env, Event, Time}
use openr.Proto.Session.{
  Call, process_cas, process_tone, process_timers, user_make, user_disconnect, fresh_chan,
}

abbrev pub line_timers : TimerLengths
line_timers = record {
  mf_back_cycle = 2000;
  mf_back_resume_cycle = 150;
  mf_fwd_safety = 30000;
  r2_seize = 2000;
  r2_answer = 60000;
  r2_metering_pulse = 0;
  r2_double_answer = 400;
  r2_answer_delay = 150;
  cas_persistence_check = 0;
  dtmf_start_dial = 500;
  r2_set_call_down = 3000;
  r2_seize_persist = 150;
}

abbrev pub signal_bits : CasSignal → ℕ
signal_bits CasSignal.idle = 0x8
signal_bits CasSignal.block = 0xC
signal_bits CasSignal.seize = 0x0
signal_bits CasSignal.seize_ack = 0xC
signal_bits CasSignal.clear_back = 0xC
signal_bits CasSignal.forced_release = 0x0
signal_bits CasSignal.clear_forward = 0x8
signal_bits CasSignal.answer = 0x4

abbrev pub line_context : Context
line_context = record {
  has_io = true;
  variant = Variant.itu;
  cas_signals = signal_bits;
  cas_nonr2_bits = 0x1;
  cas_r2_bits = 0xC;
  mf_ga_tones = itu_ga_tones;
  mf_gb_tones = itu_gb_tones;
  mf_gc_tones = itu_gc_tones;
  mf_g1_tones = itu_g1_tones;
  mf_g2_tones = itu_g2_tones;
  timers = line_timers;
  max_dnis = pos 4;
  max_ani = pos 10;
  get_ani_first = false;
  skip_category = false;
  immediate_accept = false;
  double_answer = false;
  mf_threshold = 0;
  dial_with_dtmf = false;
  detect_dtmf = false;
  dtmf_on = 50;
  dtmf_off = 100;
  loglevel = 7;
  logdir = [];
  configured_from_file = false;
  ani_can_come_first = false;
  force_use_max_ani = false;
  auto_seize_ack = true;
}

abbrev pub noon : Time
noon = record { tv_sec = 43200; tv_usec = 400000 }

-- The devices obey, the clock stands at noon, the line shows `bits`, and the user only looks on.
abbrev pub line_env : ℕ → Env
line_env bits = record {
  r2context = line_context;
  set_cas_fails = λ c cas. false;
  get_cas = λ c. some bits;
  flush_fails = λ c. false;
  select_tone_fails = λ c tone. false;
  mf_write_init = λ c forward. some 1;
  mf_read_init = λ c forward. some 2;
  tells_io_errors = true;
  has_write_dispose = false;
  has_read_dispose = false;
  dtmf_rx_init = λ c. true;
  dtmf_tx_init = λ c. true;
  dtmf_tx_put_fails = λ c. false;
  gettimeofday = λ c. some noon;
  errno = λ c. 0;
  time_fails = λ c. false;
  localtime_fails = λ c. false;
  log_name = λ c backward. [];
  fopen_fails = λ c. false;
  fclose_fails = λ c. false;
  callback = λ e c. c;
  dnis_callback = λ d c. (true, c);
}

-- The line is idle.
abbrev pub idle_chan : Chan
idle_chan = record (fresh_chan 1 2) {
  r2_state = CasState.idle;
  mf_state = MfState.off_state;
  cas_read = 0x8;
}

abbrev pub number : List ℕ
number = b'5' ∷ b'5' ∷ b'1' ∷ b'2' ∷ []

-- A call that waits for its seize to be acknowledged.
abbrev pub seizing_chan : Chan
seizing_chan = record idle_chan {
  r2_state = CasState.seize_txd;
  call_state = CallState.dialing;
  direction = Direction.forward;
}
