-- ===== src/Proto/Backward/Receive.antt =====
-- What the called side does with a digit, and with a tone that ends the digits.
use openr.Prelude.{
  ℕ, ◌-◌, ltb, leb, ◌==◌, nonzero, if◌then◌else◌, to_u32, Bool, true, not, ◌&&◌, ◌||◌,
}
use openr.Types.{MfState, ProtocolError}
use openr.Context.{max_dnis_size}
use openr.Chan.{Chan, Env, Event}
use openr.Chan.Timers.{emit}
use openr.Chan.Device.{append_dnis, append_ani}
use openr.Proto.Line.{handle_protocol_error}
use openr.Proto.Mf.{prepare_mf_tone, emit_dnis_digit}
use openr.Proto.Backward.Request.{
  try_change_to_g2, try_request_calling_party_category, request_next_dnis_digit,
}

-- `OR2_MF_TONE_10 <= tone && OR2_MF_TONE_9 >= tone`
abbrev pub is_digit_tone : ℕ → Bool
is_digit_tone tone = leb b'0' tone && leb tone b'9'

-- `DNIS_COMPLETE(r2chan)`
abbrev pub dnis_complete : Env → Chan → Bool
dnis_complete env c = leb (to_u32 env.r2context.max_dnis) c.dnis_len

-- A digit beyond `STR_LEN(r2chan->dnis)` is dropped.
unfoldable pub keep_dnis_digit : ℕ → Chan → Chan
keep_dnis_digit tone c = if c.dnis_len == max_dnis_size - 1 then c else append_dnis tone c

-- What `mf_receive_expected_dnis` does after the user has seen a digit and answered `rc`.
unfoldable pub after_dnis_digit : Env → Bool → Chan → Chan
after_dnis_digit env rc c =
    if dnis_complete env c || not rc
    then (if c.dnis_len == 1 || not env.r2context.get_ani_first
        then try_request_calling_party_category env c
        else try_change_to_g2 env c)
    else if c.dnis_len == 1 && env.r2context.get_ani_first
    then try_request_calling_party_category env c
    else request_next_dnis_digit env c

-- Its branch for the tone of no more DNIS.
unfoldable pub end_of_dnis : Env → Chan → Chan
end_of_dnis env c =
    if c.dnis_len == 0 || not env.r2context.get_ani_first
    then try_request_calling_party_category env c
    else try_change_to_g2 env c

unfoldable pub mf_receive_expected_dnis : Env → ℕ → Chan → Chan
mf_receive_expected_dnis env tone c =
    if is_digit_tone tone
    then (let (rc, c1) = emit_dnis_digit env tone (keep_dnis_digit tone c) in
        after_dnis_digit env rc c1)
    else if env.r2context.mf_g1_tones.no_more_dnis_available == tone
    then end_of_dnis env c
    else handle_protocol_error env ProtocolError.invalid_mf_tone c

-- After the last ANI digit: on to the decision, or back to the DNIS.
unfoldable pub end_of_ani : Env → Chan → Chan
end_of_ani env c =
    if not env.r2context.get_ani_first || dnis_complete env c
    then try_change_to_g2 env c
    else request_next_dnis_digit env c

unfoldable pub request_next_ani_digit : Env → Chan → Chan
request_next_ani_digit env c =
    prepare_mf_tone env
      (if nonzero env.r2context.mf_gc_tones.request_next_ani_digit
        then env.r2context.mf_gc_tones.request_next_ani_digit
        else env.r2context.mf_ga_tones.request_next_ani_digit)
      (record c { mf_state = MfState.ani_rq_txd })

-- The branch of `mf_receive_expected_ani` for an ANI digit.
unfoldable pub receive_ani_digit : Env → ℕ → Chan → Chan
receive_ani_digit env tone c =
    let c1 = emit env (Event.on_ani_digit_received tone) (append_ani tone c) in
    if not env.r2context.force_use_max_ani && ltb c1.ani_len (to_u32 env.r2context.max_ani)
    then request_next_ani_digit env c1
    else end_of_ani env c1

unfoldable pub mf_receive_expected_ani : Env → ℕ → Chan → Chan
mf_receive_expected_ani env tone c =
    if not (nonzero tone)
    then request_next_ani_digit env c
    else if is_digit_tone tone
    then receive_ani_digit env tone c
    else if tone == env.r2context.mf_g1_tones.caller_ani_is_restricted
    then end_of_ani env (record c { caller_ani_is_restricted = true })
    else if tone == env.r2context.mf_g1_tones.no_more_ani_available
    then end_of_ani env c
    else handle_protocol_error env ProtocolError.invalid_mf_tone c

-- The first tone after the seize acknowledgement.
unfoldable pub receive_first_digit : Env → ℕ → Chan → Chan
receive_first_digit env tone c =
    if env.r2context.get_ani_first && env.r2context.ani_can_come_first
    then mf_receive_expected_ani env tone c
    else mf_receive_expected_dnis env tone c
