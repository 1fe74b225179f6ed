-- ===== src/Proto/Line.antt =====
-- The parts of src/r2proto.c that put a channel to rest: the CAS transmitter, the MF engine's
-- switch, the call log, openr2_proto_init, set_idle, set_blocked, and the reports of a call's end.
pub mod Log
use openr.Prelude.{
  ℕ, ◌==◌, if◌then◌else◌, bit_or, Bool, true, false, ◌&&◌, Option, none, some, [], ◌∷◌, set,
}
use openr.Types.{
  CasSignal, CasState, CallState, MfState, MfGroup, Direction, Cause, ProtocolError, Rc, done,
  failed,
}
use openr.Chan.{Chan, Env, Event, Action, LibError}
use openr.Chan.Timers.{emit, cancel_timer, cancel_all_timers}
use openr.Chan.Device.{io_set_cas}
use Log.{close_logfile}

-- `R2(r2chan, signal)`
abbrev pub r2_bits : Env → CasSignal → ℕ
r2_bits env s = env.r2context.cas_signals s

-- `cas_rx_signal == signal`, for the two signals that are asked about.
abbrev pub is_clear_forward : Option CasSignal → Bool
is_clear_forward (some CasSignal.clear_forward) = true
is_clear_forward _ = false

abbrev pub is_off : MfState → Bool
is_off MfState.off_state = true
is_off _ = false

-- The part of `turn_off_mf_engine` after its early return.
unfoldable pub release_mf_engine : Env → Chan → Chan
release_mf_engine env c =
    let (c1, id) = cancel_timer c.timer_ids.mf_back_cycle c in
    let t1 = if env.has_read_dispose then Action.dispose_mf_reader ∷ c1.trace else c1.trace in
    let t2 = if env.has_write_dispose then Action.dispose_mf_writer ∷ t1 else t1 in
    record c1 {
      timer_ids = record (c1.timer_ids) { mf_back_cycle = id };
      dialing_dtmf = false;
      detecting_dtmf = false;
      mf_read_handle = if env.has_read_dispose then none else c1.mf_read_handle;
      mf_write_handle = if env.has_write_dispose then none else c1.mf_write_handle;
      mf_state = MfState.off_state;
      trace = t2;
    }

unfoldable pub turn_off_mf_engine : Env → Chan → Chan
turn_off_mf_engine env c = if is_off c.mf_state then c else release_mf_engine env c

-- `openr2_proto_destroy`
unfoldable pub proto_destroy : Env → Chan → Chan
proto_destroy env c = turn_off_mf_engine env c

unfoldable pub set_cas_signal : Env → Option CasSignal → Chan → Chan × Rc
set_cas_signal env none c = (c, failed)
set_cas_signal env (some signal) c =
    io_set_cas env (bit_or (r2_bits env signal) env.r2context.cas_nonr2_bits)
      (record c { cas_write = r2_bits env signal; cas_tx_signal = some signal })

unfoldable pub fix_rx_signal : Env → Chan → Chan
fix_rx_signal env c =
    if (r2_bits env CasSignal.clear_forward == r2_bits env CasSignal.idle)
      && is_clear_forward c.cas_rx_signal
    then record c { cas_rx_signal = some CasSignal.idle }
    else if c.cas_read == r2_bits env CasSignal.idle
    then record c { cas_rx_signal = some CasSignal.idle }
    else c

-- The assignments of `openr2_proto_init` up to its call of `turn_off_mf_engine`, whose callees
-- read none of them.
unfoldable pub clear_digits : Chan → Chan
clear_digits c = record c {
  read_enabled = false;
  ani = set c.ani 0 0;
  ani_len = 0;
  ani_ptr = none;
  dnis = set c.dnis 0 0;
  dnis_len = 0;
  dnis_index = 0;
  caller_ani_is_restricted = false;
  caller_category = 0;
  r2_state = CasState.idle;
}

-- Those after it.
unfoldable pub clear_call : Chan → Chan
clear_call c = record c {
  mf_group = MfGroup.no_group;
  call_state = CallState.idle;
  direction = Direction.stopped;
  answered = false;
  category_sent = false;
  mf_write_tone = 0;
  mf_read_tone = 0;
  logname = [];
  dnis_callback = true;
}

-- `openr2_proto_init`
unfoldable pub proto_init : Env → Chan → Chan
proto_init env c =
    close_logfile env
      (fix_rx_signal env (clear_call (turn_off_mf_engine env (clear_digits (cancel_all_timers c)))))

-- `openr2_proto_set_idle`
unfoldable pub set_idle : Env → Chan → Chan × Rc
set_idle env c =
    let (c1, rc) = set_cas_signal env (some CasSignal.idle) (proto_init env c) in
    (elim rc [ done ↦ c1 | failed ↦ record c1 { last_error = some LibError.cannot_set_idle } ], rc)

-- `openr2_proto_set_blocked`
unfoldable pub set_blocked : Env → Chan → Chan × Rc
set_blocked env c =
    set_cas_signal env (some CasSignal.block)
      (record (proto_init env c) { r2_state = CasState.blocked })

-- `MFI(r2chan)->mf_select_tone`, whose result the caller asks for by `select_tone_fails`.
unfoldable pub select_tone : ℕ → Chan → Chan
select_tone tone c = record c { trace = Action.select_tone tone ∷ c.trace }

unfoldable pub handle_protocol_error : Env → ProtocolError → Chan → Chan
handle_protocol_error env reason c =
    emit env (Event.on_protocol_error reason) (set_idle env (select_tone 0 c)).0

unfoldable pub report_call_disconnection : Env → Cause → Chan → Chan
report_call_disconnection env cause c =
    emit env (Event.on_call_disconnect cause) (record c { call_state = CallState.disconnected })

unfoldable pub report_call_end : Env → Chan → Chan
report_call_end env c = emit env Event.on_call_end (set_idle env c).0
