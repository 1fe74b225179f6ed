-- ===== src/Proto/Clear.antt =====
-- The signals by which either side ends a call, and the double answer, of src/r2proto.c.
use openr.Prelude.{some}
use openr.Types.{CasSignal, CasState, Rc, done, failed}
use openr.Chan.{Chan, Env, TimerCallback}
use openr.Chan.Timers.{add_timer}
use openr.Proto.Line.{turn_off_mf_engine, set_cas_signal, report_call_end}

unfoldable pub send_clear_backward : Env → Chan → Chan × Rc
send_clear_backward env c =
    set_cas_signal env (some CasSignal.clear_back)
      (turn_off_mf_engine env (record c { r2_state = CasState.clear_back_txd }))

unfoldable pub send_forced_release : Env → Chan → Chan × Rc
send_forced_release env c =
    set_cas_signal env (some CasSignal.forced_release)
      (turn_off_mf_engine env (record c { r2_state = CasState.forced_release_txd }))

-- The id of the timer is not kept.
unfoldable pub send_clear_forward : Env → Chan → Chan × Rc
send_clear_forward env c =
    let c1 =
      (add_timer env env.r2context.timers.r2_set_call_down TimerCallback.r2_set_call_down c).0 in
    set_cas_signal env (some CasSignal.clear_forward)
      (turn_off_mf_engine env (record c1 { r2_state = CasState.clear_fwd_txd }))

-- The timer's callback.
unfoldable pub r2_set_call_down : Env → Chan → Chan
r2_set_call_down env c = report_call_end env c

-- The timer's callback.
unfoldable pub r2_seize_persist_expired : Env → Chan → Chan
r2_seize_persist_expired env c = (send_clear_forward env c).0

-- `timer_ids.r2_double_answer = openr2_chan_add_timer(…)`
unfoldable pub start_double_answer : Env → Chan → Chan
start_double_answer env c =
    let (c1, id) =
      add_timer env env.r2context.timers.r2_double_answer TimerCallback.double_answer_handler c in
    record c1 { timer_ids = record (c1.timer_ids) { r2_double_answer = id } }

-- The timer's callback: the answer is taken back, and then given again.
unfoldable pub double_answer_handler : Env → Chan → Chan
double_answer_handler env c = elim c.r2_state [
  | CasState.answer_txd ↦
      (let (c1, rc) = send_clear_backward env c in
        elim rc [
          | failed ↦ c1
          | done ↦
              start_double_answer env (record c1 { r2_state = CasState.executing_double_answer })
        ])
  | CasState.executing_double_answer ↦
      (let (c1, rc) = set_cas_signal env (some CasSignal.answer) c in
        elim rc [ failed ↦ c1 | done ↦ record c1 { r2_state = CasState.answer_txd } ])
  | _ ↦ c
]
