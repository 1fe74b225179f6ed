-- ===== src/Proto/Forward/Send.antt =====
-- The answers of the calling side: the next DNIS or ANI digit, the end of them, the category.
use openr.Prelude.{
  ℕ, ◌+◌, ◌-◌, ◌==◌, leb, nonzero, if◌then◌else◌, is_some, ℤ, pos, negsuc, zero, suc, Bool, true,
  false, not, ◌&&◌, ◌||◌, Option, none, some,
}
use openr.Types.{MfGroup, MfState, ProtocolError}
use openr.Chan.{Chan, Env}
use openr.Chan.Device.{fault, read_dnis, read_ani}
use openr.Proto.Line.{handle_protocol_error}
use openr.Proto.Mf.{prepare_mf_tone, start_mf_fwd_safety}

-- `mf_state` says that the end of the DNIS was told or is waited for.
abbrev pub is_dnis_over : MfState → Bool
is_dnis_over MfState.dnis_end_txd = true
is_dnis_over MfState.waiting_timeout = true
is_dnis_over _ = false

abbrev pub is_ani_end : MfState → Bool
is_ani_end MfState.ani_end_txd = true
is_ani_end _ = false

-- The first switch of `mf_send_dnis`; `none` is an offset that is not valid.
unfoldable pub move_dnis_index : ℤ → ℕ → Option ℕ
move_dnis_index (pos zero) i = some i
move_dnis_index (pos (suc zero)) i = some (i + 1)
move_dnis_index (pos (suc (suc n))) i = none
move_dnis_index (negsuc n) i =
    if leb (n + 1) 3 then some (if leb (n + 1) i then i - (n + 1) else 0) else none

-- The callee finds the end of the digits by its own timeout.
unfoldable pub wait_timeout : Env → Chan → Chan
wait_timeout env c = start_mf_fwd_safety env (record c { mf_state = MfState.waiting_timeout })

-- The part of `mf_send_dnis` after the index was moved.
unfoldable pub send_dnis_digit : Env → Chan → Chan
send_dnis_digit env c =
    let (c1, digit) = read_dnis c in
    if nonzero digit
    then prepare_mf_tone env digit (record c1 { mf_state = MfState.dnis_txd })
    else if nonzero env.r2context.mf_g1_tones.no_more_dnis_available
        && not (is_dnis_over c1.mf_state)
    then prepare_mf_tone env env.r2context.mf_g1_tones.no_more_dnis_available
        (record c1 { mf_state = MfState.dnis_end_txd })
    else wait_timeout env c1

unfoldable pub mf_send_dnis : Env → ℤ → Chan → Chan
mf_send_dnis env offset c = elim (move_dnis_index offset c.dnis_index) [
  | none ↦ handle_protocol_error env ProtocolError.library_bug c
  | some i ↦ send_dnis_digit env (record c { dnis_index = i })
]

unfoldable pub mf_send_category : Env → Chan → Chan
mf_send_category env c =
    prepare_mf_tone env c.caller_category
      (record c { mf_state = MfState.category_txd; category_sent = true })

-- The tone that ends the ANI.
unfoldable pub send_ani_end : Env → ℕ → Chan → Chan
send_ani_end env tone c = prepare_mf_tone env tone (record c { mf_state = MfState.ani_end_txd })

-- The digit at `ani_ptr`, which then moves on; where the tone could not be selected it is null.
unfoldable pub send_ani_digit : Env → ℕ → Chan → Chan
send_ani_digit env digit c =
    let c1 = prepare_mf_tone env digit (record c { mf_state = MfState.ani_txd }) in
    elim c1.ani_ptr [ none ↦ fault c1 | some p ↦ record c1 { ani_ptr = some (p + 1) } ]

-- The chain of tests of `mf_send_ani` where the ANI may still be asked for.
unfoldable pub send_ani : Env → Chan → Chan
send_ani env c =
    if nonzero caller_ani_is_restricted && not (is_some c.ani_ptr)
    then send_ani_end env caller_ani_is_restricted c
    else (let (c1, digit) = read_ani c in
        if nonzero digit
        then send_ani_digit env digit c1
        else if nonzero no_more_ani_available && not c1.caller_ani_is_restricted
        then send_ani_end env no_more_ani_available c1
        else if nonzero caller_ani_is_restricted && c1.caller_ani_is_restricted
        then send_ani_end env caller_ani_is_restricted c1
        else wait_timeout env c1)
  where
    open env.r2context.mf_g1_tones use {caller_ani_is_restricted, no_more_ani_available}

unfoldable pub mf_send_ani : Env → Chan → Chan
mf_send_ani env c =
    if is_ani_end c.mf_state
      && ((request_next_dnis_digit == request_next_ani_digit)
          || (request_next_dnis_digit == env.r2context.mf_gc_tones.request_next_ani_digit))
    then mf_send_dnis env (pos 1) (record c { mf_group = MfGroup.gi })
    else send_ani env c
  where
    open env.r2context.mf_ga_tones use {request_next_dnis_digit, request_next_ani_digit}
