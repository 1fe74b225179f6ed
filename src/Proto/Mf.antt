-- ===== src/Proto/Mf.antt =====
-- The MF tones that both sides send: prepare_mf_tone, set_silence, the timers that guard a tone,
-- and the offer of a call, of src/r2proto.c.
use openr.Prelude.{ℕ, ◌==◌, nonzero, if◌then◌else◌, Bool, true, false, not, ◌&&◌, ◌∷◌}
use openr.Types.{CallState, Category, Direction, ProtocolError, CallMode, done, failed}
use openr.Chan.{Chan, Env, Event, Action, TimerCallback}
use openr.Chan.Timers.{emit, add_timer}
use openr.Chan.Device.{io_flush_write_buffers}
use openr.Proto.Line.{select_tone, handle_protocol_error}

abbrev pub is_backward : Direction → Bool
is_backward Direction.backward = true
is_backward _ = false

abbrev pub is_collecting : CallState → Bool
is_collecting CallState.collecting = true
is_collecting _ = false

-- `EMI(r2chan)->on_dnis_digit_received`, and whether the user wants more digits.
unfoldable pub emit_dnis_digit : Env → ℕ → Chan → Bool × Chan
emit_dnis_digit env digit c =
    env.dnis_callback digit
      (record c { trace = Action.user (Event.on_dnis_digit_received digit) ∷ c.trace })

-- `timer_ids.mf_back_cycle = openr2_chan_add_timer(…)`
unfoldable pub start_mf_back_cycle : Env → Chan → Chan
start_mf_back_cycle env c =
    let (c1, id) =
      add_timer env env.r2context.timers.mf_back_cycle TimerCallback.mf_back_cycle_timeout_expired
        c in
    record c1 { timer_ids = record (c1.timer_ids) { mf_back_cycle = id } }

-- `timer_ids.mf_fwd_safety = openr2_chan_add_timer(…)`
unfoldable pub start_mf_fwd_safety : Env → Chan → Chan
start_mf_fwd_safety env c =
    let (c1, id) =
      add_timer env env.r2context.timers.mf_fwd_safety TimerCallback.mf_fwd_safety_timeout_expired
        c in
    record c1 { timer_ids = record (c1.timer_ids) { mf_fwd_safety = id } }

-- The part of `prepare_mf_tone` after a tone other than silence was selected.
unfoldable pub start_tone : Env → ℕ → Chan → Chan
start_tone env tone c =
    let c1 = if is_backward c.direction then start_mf_back_cycle env c else c in
    let (c2, rc) = io_flush_write_buffers env c1 in
    elim rc [ failed ↦ c2 | done ↦ record c2 { mf_write_tone = tone } ]

-- Its part for a tone that differs from the last one.
unfoldable pub change_tone : Env → ℕ → Chan → Chan
change_tone env tone c =
    let c1 = select_tone tone c in
    if env.select_tone_fails c tone
    then handle_protocol_error env ProtocolError.internal_error c1
    else if nonzero tone
    then start_tone env tone c1
    else record c1 { mf_write_tone = tone }

-- The part of `prepare_mf_tone` after the flush.
unfoldable pub next_tone : Env → ℕ → Chan → Chan
next_tone env tone c = if c.mf_write_tone == tone then c else change_tone env tone c

unfoldable pub prepare_mf_tone : Env → ℕ → Chan → Chan
prepare_mf_tone env tone c =
    if not (nonzero tone) && nonzero c.mf_write_tone
    then (let (c1, rc) = io_flush_write_buffers env c in
        elim rc [ failed ↦ c1 | done ↦ next_tone env tone c1 ])
    else next_tone env tone c

unfoldable pub set_silence : Env → Chan → Chan
set_silence env c = record (prepare_mf_tone env 0 c) { mf_write_tone = 0 }

-- The timer's callback.
unfoldable pub mf_back_resume_cycle : Env → Chan → Chan
mf_back_resume_cycle env c = set_silence env c

-- The timer's callback.
unfoldable pub mf_fwd_safety_timeout_expired : Env → Chan → Chan
mf_fwd_safety_timeout_expired env c = handle_protocol_error env ProtocolError.fwd_safety_timeout c

unfoldable pub tone2category : Env → ℕ → Category
tone2category env tone =
    if national_subscriber == tone
    then Category.national_subscriber
    else if national_priority_subscriber == tone
    then Category.national_priority_subscriber
    else if international_subscriber == tone
    then Category.international_subscriber
    else if international_priority_subscriber == tone
    then Category.international_priority_subscriber
    else if collect_call == tone
    then Category.collect_call
    else if test_equipment == tone
    then Category.test_equipment
    else if pay_phone == tone
    then Category.pay_phone
    else Category.unknown
  where
    open env.r2context.mf_g2_tones use {
      national_subscriber, national_priority_subscriber, international_subscriber,
      international_priority_subscriber, collect_call, test_equipment, pay_phone,
    }

unfoldable pub category2tone : Env → Category → ℕ
category2tone env Category.national_subscriber = env.r2context.mf_g2_tones.national_subscriber
category2tone env Category.national_priority_subscriber =
    env.r2context.mf_g2_tones.national_priority_subscriber
category2tone env Category.international_subscriber =
    env.r2context.mf_g2_tones.international_subscriber
category2tone env Category.international_priority_subscriber =
    env.r2context.mf_g2_tones.international_priority_subscriber
category2tone env Category.collect_call = env.r2context.mf_g2_tones.collect_call
category2tone env Category.test_equipment = env.r2context.mf_g2_tones.test_equipment
category2tone env Category.pay_phone = env.r2context.mf_g2_tones.pay_phone
category2tone env Category.unknown = env.r2context.mf_g2_tones.national_subscriber

-- The macro `OFFER_CALL`.
unfoldable pub offer_call : Env → Chan → Chan
offer_call env c =
    if is_collecting c.call_state
    then emit env
        (Event.on_call_offered (tone2category env c.caller_category) c.caller_ani_is_restricted)
        (record c { call_state = CallState.offered })
    else handle_protocol_error env ProtocolError.invalid_r2_state c

-- `get_mode_from_tone`, which tests the two later tones and not whether they are the tone sent.
unfoldable pub get_mode_from_tone : Env → ℕ → CallMode
get_mode_from_tone env tone =
    if tone == accept_call_with_charge
    then CallMode.with_charge
    else if nonzero accept_call_no_charge
    then CallMode.no_charge
    else if nonzero special_info_tone
    then CallMode.special
    else CallMode.unknown
  where
    open env.r2context.mf_gb_tones use {
      accept_call_with_charge, accept_call_no_charge, special_info_tone,
    }

unfoldable pub get_tone_from_mode : Env → CallMode → ℕ
get_tone_from_mode env CallMode.with_charge = env.r2context.mf_gb_tones.accept_call_with_charge
get_tone_from_mode env CallMode.no_charge = env.r2context.mf_gb_tones.accept_call_no_charge
get_tone_from_mode env CallMode.special = env.r2context.mf_gb_tones.special_info_tone
get_tone_from_mode env CallMode.unknown = env.r2context.mf_gb_tones.accept_call_no_charge
