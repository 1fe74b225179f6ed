-- ===== src/Proto/Calls.antt =====
-- What the user asks of a channel: to accept, answer, make and disconnect a call, of src/r2proto.c
-- (the functions of src/r2chan.c of the same names take the channel's lock round them).
pub mod Make
use openr.Prelude.{ℕ, ◌==◌, nonzero, if◌then◌else◌, Bool, true, false, not, ◌&&◌, some}
use openr.Types.{
  AnswerMode, CallMode, CallState, CasSignal, CasState, Cause, Direction, MfState, Rc, done, failed,
}
use openr.Chan.{Chan, Env, Event, TimerCallback}
use openr.Chan.Timers.{emit, add_timer}
use openr.Proto.Line.{turn_off_mf_engine, set_cas_signal, report_call_end}
use openr.Proto.Mf.{is_backward, prepare_mf_tone, offer_call, get_tone_from_mode}
use openr.Proto.Clear.{
  send_clear_backward, send_forced_release, send_clear_forward, start_double_answer,
}
use openr.Proto.Cas.Dispatch.{is_dtmf_r2}

abbrev pub is_offered : CallState → Bool
is_offered CallState.offered = true
is_offered _ = false

abbrev pub is_accepted : CallState → Bool
is_accepted CallState.accepted = true
is_accepted _ = false

abbrev pub is_call_idle : CallState → Bool
is_call_idle CallState.idle = true
is_call_idle _ = false

abbrev pub is_clear_fwd_rxd : CasState → Bool
is_clear_fwd_rxd CasState.clear_fwd_rxd = true
is_clear_fwd_rxd _ = false

-- `openr2_proto_accept_call`
unfoldable pub accept_call : Env → CallMode → Chan → Chan × Rc
accept_call env mode c =
    if not (is_offered c.call_state)
    then (c, failed)
    else if env.r2context.detect_dtmf
    then (emit env (Event.on_call_accepted CallMode.unknown) c, done)
    else (
      prepare_mf_tone env (get_tone_from_mode env mode)
          (record c { mf_state = MfState.accepted_txd }),
      done,
    )

-- `openr2_proto_do_answer`
unfoldable pub do_answer : Env → Chan → Chan × Rc
do_answer env c =
    if not (is_dtmf_r2 env) && not (is_accepted c.call_state)
    then (c, failed)
    else (let (c1, rc) = set_cas_signal env (some CasSignal.answer) c in
        elim rc [
          | failed ↦ (c1, failed)
          | done ↦ (
            record c1 {
              call_state = CallState.answered;
              r2_state = CasState.answer_txd;
              answered = true;
            },
            done,
          )
        ])

-- `openr2_proto_answer_call`
unfoldable pub answer_call : Env → Chan → Chan × Rc
answer_call env c =
    let (c1, rc) = do_answer env c in
    elim rc [
      | failed ↦ (c1, failed)
      | done ↦ (if env.r2context.double_answer then start_double_answer env c1 else c1, done)
    ]

-- `openr2_proto_answer_call_with_mode`
unfoldable pub answer_call_with_mode : Env → AnswerMode → Chan → Chan × Rc
answer_call_with_mode env mode c =
    let (c1, rc) = do_answer env c in
    elim rc [
      | failed ↦ (c1, failed)
      | done ↦ (
        elim mode [ AnswerMode.double ↦ start_double_answer env c1 | AnswerMode.simple ↦ c1 ],
        done,
      )
    ]

-- `openr2_proto_handle_dtmf_end`
unfoldable pub handle_dtmf_end : Env → Chan → Chan
handle_dtmf_end env c =
    let c1 = turn_off_mf_engine env c in
    elim c1.direction [
      | Direction.forward ↦ emit env (Event.on_call_accepted CallMode.unknown) c1
      | _ ↦
          offer_call env
            (record c1 { caller_category = env.r2context.mf_g2_tones.national_subscriber })
    ]

-- The switch of `send_disconnect`.
unfoldable pub cause_tone : Env → Cause → ℕ
cause_tone env Cause.busy_number = env.r2context.mf_gb_tones.busy_number
cause_tone env Cause.network_congestion = env.r2context.mf_gb_tones.network_congestion
cause_tone env Cause.unallocated_number = env.r2context.mf_gb_tones.unallocated_number
cause_tone env Cause.number_changed =
    if nonzero env.r2context.mf_gb_tones.number_changed
    then env.r2context.mf_gb_tones.number_changed
    else env.r2context.mf_gb_tones.unallocated_number
cause_tone env Cause.out_of_order = env.r2context.mf_gb_tones.line_out_of_order
cause_tone env _ = env.r2context.mf_gb_tones.network_congestion

-- The tone that is sent: a cause with no tone is told as congestion.
unfoldable pub disconnect_tone : Env → Cause → ℕ
disconnect_tone env cause =
    let tone = cause_tone env cause in
    if tone == 0 then env.r2context.mf_gb_tones.network_congestion else tone

unfoldable pub send_disconnect : Env → Cause → Chan → Chan
send_disconnect env cause c =
    prepare_mf_tone env (disconnect_tone env cause) (record c { mf_state = MfState.disconnect_txd })

-- Its end by a CAS signal.
unfoldable pub release_call : Env → Cause → Chan → Chan × Rc
release_call env Cause.forced_release c = send_forced_release env c
release_call env _ c = send_clear_backward env c

-- `openr2_proto_disconnect_call` for a call that the other side made.
unfoldable pub disconnect_backward : Env → Cause → Chan → Chan × Rc
disconnect_backward env cause c =
    if env.r2context.detect_dtmf
    then (if is_clear_fwd_rxd c.r2_state
        then (report_call_end env c, done)
        else send_clear_backward env c)
    else if is_offered c.call_state
    then (send_disconnect env cause c, done)
    else if is_clear_fwd_rxd c.r2_state
    then (report_call_end env c, done)
    else release_call env cause c

-- `timer_ids.r2_seize_persist = openr2_chan_add_timer(…)`
unfoldable pub start_seize_persist : Env → Chan → Chan
start_seize_persist env c =
    let (c1, id) =
      add_timer env env.r2context.timers.r2_seize_persist TimerCallback.r2_seize_persist_expired
        c in
    record c1 { timer_ids = record (c1.timer_ids) { r2_seize_persist = id } }

-- `openr2_proto_disconnect_call` for a call that we made.
unfoldable pub disconnect_forward : Env → Chan → Chan × Rc
disconnect_forward env c = elim c.r2_state [
  | CasState.seize_txd ↦ (record c { r2_state = CasState.seize_txd_clear_fwd_pending }, done)
  | CasState.double_seizure ↦ (
    start_seize_persist env (record c { r2_state = CasState.double_seizure_clear_fwd_pending }),
    done,
  )
  | CasState.clear_fwd_rxd ↦ (report_call_end env c, done)
  | _ ↦ send_clear_forward env c
]

-- `openr2_proto_disconnect_call`
unfoldable pub disconnect_call : Env → Cause → Chan → Chan × Rc
disconnect_call env cause c =
    if is_call_idle c.call_state
    then (c, failed)
    else if is_backward c.direction
    then disconnect_backward env cause c
    else disconnect_forward env c
