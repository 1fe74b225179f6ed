-- ===== src/Proto/Forward/Accept.antt =====
-- The called side has accepted: handle_accept_tone of src/r2proto.c.
use openr.Prelude.{◌==◌, if◌then◌else◌, Bool, true, false, ◌&&◌}
use openr.Types.{
  CallMode, CallState, CasState, Cause, cas_state_code, mf_state_code, call_state_code,
}
use openr.Chan.{Chan, Env, Event, TimerCallback}
use openr.Chan.Timers.{emit, add_timer, cancel_timer}
use openr.Proto.Line.{turn_off_mf_engine, report_call_disconnection}

abbrev pub is_answer_pending : CasState → Bool
is_answer_pending CasState.answer_rxd_mf_pending = true
is_answer_pending _ = false

-- The timer's callback.
unfoldable pub r2_answer_timeout_expired : Env → Chan → Chan
r2_answer_timeout_expired env c = report_call_disconnection env Cause.no_answer c

-- `timer_ids.r2_answer = openr2_chan_add_timer(…)`
unfoldable pub start_r2_answer : Env → Chan → Chan
start_r2_answer env c =
    let (c1, id) =
      add_timer env env.r2context.timers.r2_answer TimerCallback.r2_answer_timeout_expired c in
    record c1 { timer_ids = record (c1.timer_ids) { r2_answer = id } }

-- `openr2_chan_cancel_timer(r2chan, &r2chan->timer_ids.r2_answer)`
unfoldable pub cancel_r2_answer : Chan → Chan
cancel_r2_answer c =
    let (c1, id) = cancel_timer c.timer_ids.r2_answer c in
    record c1 { timer_ids = record (c1.timer_ids) { r2_answer = id } }

-- The call is answered, with the MF engine turned off.
unfoldable pub answer_received : Env → Chan → Chan
answer_received env c =
    let c1 = turn_off_mf_engine env (record (cancel_r2_answer c) {
      r2_state = CasState.answer_rxd;
      call_state = CallState.answered;
    }) in
    emit env Event.on_call_answered (record c1 { answered = true })

-- The three tests by which the callback of the acceptance shows that it used the channel.
abbrev pub is_untouched : Chan → Chan → Bool
is_untouched c c1 =
    (cas_state_code c1.r2_state == cas_state_code CasState.accept_rxd)
    && (mf_state_code c1.mf_state == mf_state_code c.mf_state)
    && (call_state_code c1.call_state == call_state_code c.call_state)

unfoldable pub handle_accept_tone : Env → CallMode → Chan → Chan
handle_accept_tone env mode c =
    if is_answer_pending c.r2_state
    then (let c1 =
          emit env (Event.on_call_accepted mode) (record c { r2_state = CasState.accept_rxd }) in
        if is_untouched c c1 then answer_received env c1 else c1)
    else emit env (Event.on_call_accepted mode)
        (start_r2_answer env (record c { r2_state = CasState.accept_rxd }))
