-- ===== src/Proto/Forward.antt =====
-- The calling side of src/r2proto.c: it answers each backward tone, when that tone stops, by a
-- digit, its category, or the end of the exchange.
pub mod Send
pub mod Accept
use openr.Prelude.{
  ℕ, ◌==◌, nonzero, if◌then◌else◌, Bool, ◌&&◌, ◌||◌, pos, negsuc, Option, none, some,
}
use openr.Types.{CallMode, CasState, Cause, MfGroup, ProtocolError}
use openr.Chan.{Chan, Env}
use openr.Chan.Timers.{cancel_timer}
use openr.Proto.Line.{handle_protocol_error, report_call_disconnection}
use openr.Proto.Mf.{set_silence, get_mode_from_tone}
use Send.{mf_send_dnis, mf_send_ani, mf_send_category}
use Accept.{handle_accept_tone}

unfoldable pub handle_backward_mf_tone : Env → ℕ → Chan → Chan
handle_backward_mf_tone env tone c =
    let (c1, id) = cancel_timer c.timer_ids.mf_fwd_safety c in
    set_silence env (record c1 { timer_ids = record (c1.timer_ids) { mf_fwd_safety = id } })

-- The new channel if the tone is a request for DNIS: the result 1.
unfoldable pub handle_dnis_request : Env → ℕ → Chan → Option Chan
handle_dnis_request env tone c =
    if tone == request_next_dnis_digit
    then some (mf_send_dnis env (pos 1) c)
    else if tone == request_dnis_minus_1
    then some (mf_send_dnis env (negsuc 0) c)
    else if tone == request_dnis_minus_2
    then some (mf_send_dnis env (negsuc 1) c)
    else if tone == request_dnis_minus_3
    then some (mf_send_dnis env (negsuc 2) c)
    else if tone == request_all_dnis_again
    then some (mf_send_dnis env (pos 0) (record c { dnis_index = 0 }))
    else none
  where
    open env.r2context.mf_ga_tones use {
      request_next_dnis_digit, request_dnis_minus_1, request_dnis_minus_2, request_dnis_minus_3,
      request_all_dnis_again,
    }

-- The call is refused by a tone: the state, and the report to the user.
unfoldable pub clear_back_tone : Env → Cause → Chan → Chan
clear_back_tone env cause c =
    report_call_disconnection env cause (record c { r2_state = CasState.clear_back_tone_rxd })

-- The branches of `handle_group_a_request` after the DNIS requests.
unfoldable pub group_a_other : Env → ℕ → Chan → Chan
group_a_other env tone c =
    let plain = nonzero request_category in
    let category = if plain then request_category else request_category_and_change_to_gc in
    if c.category_sent && (tone == request_next_ani_digit)
    then mf_send_ani env c
    else if tone == category
    then mf_send_category env (
        if category == request_category_and_change_to_gc
        then record c { mf_group = MfGroup.giii }
        else c)
    else if tone == request_change_to_g2
    then mf_send_category env (record c { mf_group = MfGroup.gii })
    else if tone == address_complete_charge_setup
    then handle_accept_tone env CallMode.with_charge c
    else if tone == network_congestion
    then clear_back_tone env Cause.network_congestion c
    else handle_protocol_error env ProtocolError.invalid_mf_tone c
  where
    open env.r2context.mf_ga_tones use {
      request_category, request_category_and_change_to_gc, request_next_ani_digit,
      request_change_to_g2, address_complete_charge_setup, network_congestion,
    }

unfoldable pub handle_group_a_request : Env → ℕ → Chan → Chan
handle_group_a_request env tone c = elim (handle_dnis_request env tone c) [
  | some c1 ↦ c1
  | none ↦ group_a_other env tone c
]

unfoldable pub handle_group_c_request : Env → ℕ → Chan → Chan
handle_group_c_request env tone c =
    if tone == request_next_ani_digit
    then mf_send_ani env c
    else if tone == request_change_to_g2
    then mf_send_category env (record c { mf_group = MfGroup.gii })
    else if tone == request_next_dnis_digit_and_change_to_ga
    then mf_send_dnis env (pos 1) (record c { mf_group = MfGroup.gi })
    else if tone == network_congestion
    then clear_back_tone env Cause.network_congestion c
    else handle_protocol_error env ProtocolError.invalid_mf_tone c
  where
    open env.r2context.mf_gc_tones use {
      request_next_ani_digit, request_change_to_g2, request_next_dnis_digit_and_change_to_ga,
      network_congestion,
    }

unfoldable pub handle_group_b_request : Env → ℕ → Chan → Chan
handle_group_b_request env tone c =
    if (tone == accept_call_with_charge)
      || (tone == accept_call_no_charge)
      || (tone == special_info_tone)
    then handle_accept_tone env (get_mode_from_tone env tone) c
    else if tone == busy_number
    then clear_back_tone env Cause.busy_number c
    else if tone == network_congestion
    then clear_back_tone env Cause.network_congestion c
    else if tone == unallocated_number
    then clear_back_tone env Cause.unallocated_number c
    else if tone == number_changed
    then clear_back_tone env Cause.number_changed c
    else if tone == line_out_of_order
    then clear_back_tone env Cause.out_of_order c
    else handle_protocol_error env ProtocolError.invalid_mf_tone c
  where
    open env.r2context.mf_gb_tones use {
      accept_call_with_charge, accept_call_no_charge, special_info_tone, busy_number,
      network_congestion, unallocated_number, number_changed, line_out_of_order,
    }

-- The switch of `handle_backward_mf_silence`.
unfoldable pub backward_silence : Env → MfGroup → ℕ → Chan → Chan
backward_silence env MfGroup.gi tone c = handle_group_a_request env tone c
backward_silence env MfGroup.gii tone c = handle_group_b_request env tone c
backward_silence env MfGroup.giii tone c = handle_group_c_request env tone c
backward_silence env _ tone c = handle_protocol_error env ProtocolError.invalid_mf_group c

unfoldable pub handle_backward_mf_silence : Env → ℕ → Chan → Chan
handle_backward_mf_silence env tone c = backward_silence env c.mf_group tone c
