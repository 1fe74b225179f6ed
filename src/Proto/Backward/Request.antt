-- ===== src/Proto/Backward/Request.antt =====
-- The requests of the called side.
use openr.Prelude.{◌==◌, nonzero, if◌then◌else◌, Bool, true, false, not, ◌&&◌}
use openr.Types.{MfGroup, MfState, ProtocolError}
use openr.Chan.{Chan, Env, TimerCallback}
use openr.Chan.Timers.{add_timer}
use openr.Proto.Line.{handle_protocol_error}
use openr.Proto.Mf.{prepare_mf_tone, offer_call}

abbrev pub is_gc : MfGroup → Bool
is_gc MfGroup.gc = true
is_gc _ = false

abbrev pub is_ga : MfGroup → Bool
is_ga MfGroup.ga = true
is_ga _ = false

-- `mf_state` is one of the two requests that a missing answer may end.
abbrev pub is_digit_request : MfState → Bool
is_digit_request MfState.dnis_rq_txd = true
is_digit_request MfState.ani_rq_txd = true
is_digit_request _ = false

unfoldable pub request_calling_party_category : Env → Chan → Chan
request_calling_party_category env c =
    let plain = nonzero env.r2context.mf_ga_tones.request_category in
    let tone =
      if plain
      then env.r2context.mf_ga_tones.request_category
      else env.r2context.mf_ga_tones.request_category_and_change_to_gc in
    prepare_mf_tone env tone (record c {
      mf_group = if plain then MfGroup.ga else MfGroup.gc;
      mf_state = MfState.category_rq_txd;
    })

unfoldable pub bypass_change_to_g2 : Env → Chan → Chan
bypass_change_to_g2 env c = offer_call env (
    prepare_mf_tone env env.r2context.mf_ga_tones.address_complete_charge_setup
      (record c { mf_state = MfState.accepted_txd }))

unfoldable pub request_change_to_g2 : Env → Chan → Chan
request_change_to_g2 env c =
    let tone =
      if is_gc c.mf_group
      then env.r2context.mf_gc_tones.request_change_to_g2
      else env.r2context.mf_ga_tones.request_change_to_g2 in
    prepare_mf_tone env tone (record c { mf_group = MfGroup.gb; mf_state = MfState.chg_gii_txd })

unfoldable pub try_change_to_g2 : Env → Chan → Chan
try_change_to_g2 env c =
    if env.r2context.immediate_accept then bypass_change_to_g2 env c else request_change_to_g2 env c

unfoldable pub try_request_calling_party_category : Env → Chan → Chan
try_request_calling_party_category env c =
    if env.r2context.skip_category
    then try_change_to_g2 env c
    else request_calling_party_category env c

unfoldable pub request_next_dnis_digit : Env → Chan → Chan
request_next_dnis_digit env c =
    let tone =
      if is_gc c.mf_group
      then env.r2context.mf_gc_tones.request_next_dnis_digit_and_change_to_ga
      else env.r2context.mf_ga_tones.request_next_dnis_digit in
    prepare_mf_tone env tone (record c { mf_group = MfGroup.ga; mf_state = MfState.dnis_rq_txd })

-- `timer_ids.mf_back_resume_cycle = openr2_chan_add_timer(…)`
unfoldable pub start_mf_back_resume_cycle : Env → Chan → Chan
start_mf_back_resume_cycle env c =
    let (c1, id) =
      add_timer env env.r2context.timers.mf_back_resume_cycle TimerCallback.mf_back_resume_cycle
        c in
    record c1 { timer_ids = record (c1.timer_ids) { mf_back_resume_cycle = id } }

-- The timer's callback.
unfoldable pub mf_back_cycle_timeout_expired : Env → Chan → Chan
mf_back_cycle_timeout_expired env c =
    if (env.r2context.mf_g1_tones.no_more_dnis_available == 0)
      && is_ga c.mf_group
      && is_digit_request c.mf_state
    then (if not env.r2context.ani_can_come_first && not env.r2context.get_ani_first
        then try_request_calling_party_category env (start_mf_back_resume_cycle env c)
        else try_change_to_g2 env (start_mf_back_resume_cycle env c))
    else handle_protocol_error env ProtocolError.back_mf_timeout c
