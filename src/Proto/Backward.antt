-- ===== src/Proto/Backward.antt =====
-- The called side of src/r2proto.c: it asks for the digits and the category by its own tones, and
-- takes each forward tone as the answer to its last request.
pub mod Request
pub mod Receive
use openr.Prelude.{if◌then◌else◌, is_positive}
use openr.Types.{CallMode, CallState, MfGroup, MfState, ProtocolError}
use openr.Prelude.{ℕ}
use openr.Chan.{Chan, Env, Event, TimerCallback}
use openr.Chan.Timers.{emit, add_timer, cancel_timer, cancel_all_timers}
use openr.Proto.Line.{turn_off_mf_engine, handle_protocol_error}
use openr.Proto.Mf.{offer_call, set_silence}
use Request.{request_change_to_g2, try_change_to_g2}
use Receive.{mf_receive_expected_dnis, mf_receive_expected_ani, receive_first_digit}

-- The case of `handle_forward_mf_tone` for the answer to a category request. Group C never accepts
-- at once.
unfoldable pub receive_category : Env → MfGroup → ℕ → Chan → Chan
receive_category env group tone c =
    let c1 = record c { caller_category = tone } in
    if is_positive env.r2context.max_ani
    then mf_receive_expected_ani env 0 c1
    else elim group [ MfGroup.gc ↦ request_change_to_g2 env c1 | _ ↦ try_change_to_g2 env c1 ]

-- The two switches of `handle_forward_mf_tone`.
unfoldable pub forward_tone : Env → MfGroup → MfState → ℕ → Chan → Chan
forward_tone env MfGroup.back_init MfState.seize_ack_txd tone c = receive_first_digit env tone c
forward_tone env MfGroup.back_init _ tone c =
    handle_protocol_error env ProtocolError.invalid_mf_state c
forward_tone env MfGroup.ga MfState.dnis_rq_txd tone c = mf_receive_expected_dnis env tone c
forward_tone env MfGroup.ga MfState.category_rq_txd tone c = receive_category env MfGroup.ga tone c
forward_tone env MfGroup.ga MfState.ani_rq_txd tone c = mf_receive_expected_ani env tone c
forward_tone env MfGroup.ga _ tone c = handle_protocol_error env ProtocolError.invalid_mf_state c
forward_tone env MfGroup.gb MfState.chg_gii_txd tone c = offer_call env c
forward_tone env MfGroup.gb _ tone c = handle_protocol_error env ProtocolError.invalid_mf_state c
forward_tone env MfGroup.gc MfState.category_rq_txd tone c = receive_category env MfGroup.gc tone c
forward_tone env MfGroup.gc MfState.ani_rq_txd tone c = mf_receive_expected_ani env tone c
forward_tone env MfGroup.gc _ tone c = handle_protocol_error env ProtocolError.invalid_mf_state c
forward_tone env _ _ tone c = handle_protocol_error env ProtocolError.invalid_mf_group c

-- `openr2_chan_cancel_timer(r2chan, &r2chan->timer_ids.mf_back_cycle)`
unfoldable pub cancel_mf_back_cycle : Chan → Chan
cancel_mf_back_cycle c =
    let (c1, id) = cancel_timer c.timer_ids.mf_back_cycle c in
    record c1 { timer_ids = record (c1.timer_ids) { mf_back_cycle = id } }

unfoldable pub handle_forward_mf_tone : Env → ℕ → Chan → Chan
handle_forward_mf_tone env tone c =
    forward_tone env c.mf_group c.mf_state tone (cancel_mf_back_cycle c)

-- The timer's callback.
unfoldable pub ready_to_answer : Env → Chan → Chan
ready_to_answer env c = emit env (Event.on_call_accepted CallMode.unknown) c

-- The case of `handle_forward_mf_silence` that ends the MF exchange.
unfoldable pub finish_accept : Env → Chan → Chan
finish_accept env c =
    let c1 = record (turn_off_mf_engine env c) { call_state = CallState.accepted } in
    let (c2, id) =
      add_timer env env.r2context.timers.r2_answer_delay TimerCallback.ready_to_answer c1 in
    record c2 { timer_ids = record (c2.timer_ids) { r2_answer_delay = id } }

-- The two switches of `handle_forward_mf_silence`.
unfoldable pub forward_silence : Env → MfGroup → MfState → Chan → Chan
forward_silence env MfGroup.ga MfState.accepted_txd c = finish_accept env c
forward_silence env MfGroup.ga _ c = c
forward_silence env MfGroup.gb MfState.chg_gii_txd c = c
forward_silence env MfGroup.gb MfState.accepted_txd c = finish_accept env c
forward_silence env MfGroup.gb MfState.disconnect_txd c = cancel_all_timers c
forward_silence env MfGroup.gb _ c = handle_protocol_error env ProtocolError.invalid_mf_state c
forward_silence env MfGroup.gc _ c = c
forward_silence env _ _ c = handle_protocol_error env ProtocolError.invalid_mf_group c

unfoldable pub handle_forward_mf_silence : Env → Chan → Chan
handle_forward_mf_silence env c =
    let c1 = set_silence env c in forward_silence env c1.mf_group c1.mf_state c1
