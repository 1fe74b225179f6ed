-- ===== src/Proto/Schedule.antt =====
-- What happens by itself: the timers that are due (openr2_chan_handle_timers of src/r2chan.c), an
-- alarm (openr2_proto_handle_alarm_state of src/r2proto.c), and the out-of-band events
-- (openr2_chan_handle_oob_event of src/r2chan.c).
use openr.Prelude.{if◌then◌else◌, Bool, true, false, none, some, List, [], ◌∷◌}
use openr.Types.{CasState, Cause, ProtocolError, Rc, done, failed}
use openr.Chan.{Chan, Env, Event, SchedTimer, TimerCallback}
use openr.Chan.Timers.{emit, due_timers, cancel_each}
use openr.Proto.Line.{handle_protocol_error, report_call_disconnection, set_idle, set_blocked}
use openr.Proto.Mf.{mf_back_resume_cycle, mf_fwd_safety_timeout_expired}
use openr.Proto.Backward.{ready_to_answer}
use openr.Proto.Backward.Request.{mf_back_cycle_timeout_expired}
use openr.Proto.Forward.Accept.{r2_answer_timeout_expired}
use openr.Proto.Clear.{r2_set_call_down, r2_seize_persist_expired, double_answer_handler}
use openr.Proto.Calls.{is_call_idle}
use openr.Proto.Calls.Make.{seize_timeout_expired, start_dialing_dtmf}
use openr.Proto.Cas.{handle_cas, persistence_check_expired}

-- The timer's callback.
unfoldable pub r2_metering_pulse : Env → Chan → Chan
r2_metering_pulse env c = elim c.r2_state [
  | CasState.forced_release_rxd ↦ report_call_disconnection env Cause.forced_release c
  | _ ↦ report_call_disconnection env Cause.normal_clearing c
]

-- `callback(r2chan)`
unfoldable pub run_callback : Env → TimerCallback → Chan → Chan
run_callback env TimerCallback.mf_fwd_safety_timeout_expired c = mf_fwd_safety_timeout_expired env c
run_callback env TimerCallback.mf_back_cycle_timeout_expired c = mf_back_cycle_timeout_expired env c
run_callback env TimerCallback.mf_back_resume_cycle c = mf_back_resume_cycle env c
run_callback env TimerCallback.seize_timeout_expired c = seize_timeout_expired env c
run_callback env TimerCallback.r2_seize_persist_expired c = r2_seize_persist_expired env c
run_callback env TimerCallback.r2_answer_timeout_expired c = r2_answer_timeout_expired env c
run_callback env TimerCallback.r2_metering_pulse c = r2_metering_pulse env c
run_callback env TimerCallback.double_answer_handler c = double_answer_handler env c
run_callback env TimerCallback.ready_to_answer c = ready_to_answer env c
run_callback env TimerCallback.persistence_check_expired c = persistence_check_expired env c
run_callback env TimerCallback.start_dialing_dtmf c = start_dialing_dtmf env c
run_callback env TimerCallback.r2_set_call_down c = r2_set_call_down env c

-- The third loop of `openr2_chan_handle_timers`, over its own copy of the timers.
unfoldable pub dispatch_timers : Env → List SchedTimer → Chan → Chan
dispatch_timers env [] c = c
dispatch_timers env (t ∷ ts) c = dispatch_timers env ts (run_callback env t.callback c)

unfoldable pub handle_timers : Env → Chan → Chan × Rc
handle_timers env c = elim (env.gettimeofday c) [
  | none ↦ (c, failed)
  | some now ↦
      (let due = due_timers now c.sched_timers in
        (dispatch_timers env due (cancel_each due c), done))
]

abbrev pub is_blocked : CasState → Bool
is_blocked CasState.blocked = true
is_blocked _ = false

-- The signals mean nothing while the alarm lasts.
unfoldable pub forget_signals : Chan → Chan
forget_signals c = record c {
  cas_read = 0;
  cas_raw_read = 0;
  cas_rx_signal = none;
  cas_write = 0;
  cas_tx_signal = none;
}

-- `openr2_proto_handle_alarm_state`
unfoldable pub handle_alarm_state : Env → Chan → Chan
handle_alarm_state env c =
    if c.inalarm
    then forget_signals (
        if is_call_idle c.call_state
        then c
        else handle_protocol_error env ProtocolError.alarm_raised c)
    else (handle_cas env (if is_blocked c.r2_state then set_blocked env c else set_idle env c).0).0

-- The OOB events for an alarm: the user sees the alarm before the call is dropped.
unfoldable pub handle_alarm_event : Env → Bool → Chan → Chan
handle_alarm_event env on c =
    handle_alarm_state env (emit env (Event.on_hardware_alarm on) (record c { inalarm = on }))
