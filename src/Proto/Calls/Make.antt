-- ===== src/Proto/Calls/Make.antt =====
-- A call that is made: openr2_proto_make_call of src/r2proto.c, and the callbacks of its timers. A
-- string is the list of its bytes, without the 0 at its end.
use openr.Prelude.{
  ℕ, zero, suc, ◌-◌, leb, ◌==◌, if◌then◌else◌, Bool, true, false, not, ◌&&◌, Option, none, some,
  List, [], ◌∷◌, set,
}
use openr.Types.{
  CallState, CasSignal, CasState, Category, Direction, MfGroup, MfState, ProtocolError, Rc, done,
  failed,
}
use openr.Context.{max_ani_size, max_dnis_size}
use openr.Chan.{Action, Chan, Env, TimerCallback}
use openr.Chan.Timers.{add_timer}
use openr.Proto.Line.{r2_bits, set_cas_signal, handle_protocol_error}
use openr.Proto.Line.Log.{open_logfile, close_logfile}
use openr.Proto.Mf.{category2tone}
use openr.Proto.Calls.{is_call_idle}

-- `isdigit`
abbrev pub is_digit : ℕ → Bool
is_digit d = leb b'0' d && leb d b'9'

-- The two loops that look for a character which is no digit.
unfoldable pub all_digits : List ℕ → Bool
all_digits [] = true
all_digits (d ∷ ds) = is_digit d && all_digits ds

-- `strncpy` into a buffer of `n + 1` bytes of which the last is set to 0: the text, and zeros.
unfoldable pub string_copy : ℕ → List ℕ → List ℕ
string_copy zero s = 0 ∷ []
string_copy (suc n) [] = 0 ∷ string_copy n []
string_copy (suc n) (d ∷ ds) = d ∷ string_copy n ds

-- The ANI that is sent; `none` restricts it.
unfoldable pub usable_ani : Option (List ℕ) → Option (List ℕ)
usable_ani none = none
usable_ani (some ani) = if all_digits ani then some ani else none

-- `timer_ids.r2_seize = openr2_chan_add_timer(…)`
unfoldable pub start_r2_seize : Env → Chan → Chan
start_r2_seize env c =
    let (c1, id) =
      add_timer env env.r2context.timers.r2_seize TimerCallback.seize_timeout_expired c in
    record c1 { timer_ids = record (c1.timer_ids) { r2_seize = id } }

-- The fields of the new call.
unfoldable pub store_call : Env → Option (List ℕ) → List ℕ → Category → Bool → Chan → Chan
store_call env ani dnis category restricted c = record c {
  ani = elim ani [ none ↦ set c.ani 0 0 | some a ↦ string_copy (max_ani_size - 1) a ];
  ani_ptr = elim ani [ none ↦ none | some _ ↦ some 0 ];
  caller_ani_is_restricted = restricted;
  dnis = if all_digits dnis then string_copy (max_dnis_size - 1) dnis else set c.dnis 0 0;
  dnis_index = 0;
  call_state = CallState.dialing;
  direction = Direction.forward;
  caller_category = category2tone env category;
}

-- The DTMF generator is given the digits.
unfoldable pub init_dtmf_dialing : Env → Chan → Chan × Rc
init_dtmf_dialing env c =
    let c1 = record c { trace = Action.init_dtmf_tx ∷ c.trace } in
    if not (env.dtmf_tx_init c)
    then (c1, failed)
    else (let c2 = record c1 { trace = Action.put_dtmf c1.dnis ∷ c1.trace } in
        if env.dtmf_tx_put_fails c1
        then (c2, failed)
        else (record c2 { mf_group = MfGroup.dtmf_fwd_init }, done))

-- The line was seized.
unfoldable pub begin_dialing : Env → Option (List ℕ) → List ℕ → Category → Bool → Chan → Chan × Rc
begin_dialing env ani dnis category restricted c =
    let c1 =
      store_call env ani dnis category restricted
        (start_r2_seize env (record c { r2_state = CasState.seize_txd })) in
    if env.r2context.dial_with_dtmf
    then init_dtmf_dialing env c1
    else (record c1 { mf_group = MfGroup.fwd_init }, done)

-- The checks before a call: no alarm, no call, and an idle line.
unfoldable pub can_dial : Env → Chan → Bool
can_dial env c =
    not c.inalarm && is_call_idle c.call_state && (c.cas_read == r2_bits env CasSignal.idle)

unfoldable pub make_call : Env → Option (List ℕ) → List ℕ → Category → Bool → Chan → Chan × Rc
make_call env ani dnis category restricted c =
    if not (can_dial env c)
    then (c, failed)
    else (let (c1, rc) = set_cas_signal env (some CasSignal.seize) (open_logfile env false c) in
        elim rc [
          | failed ↦ (close_logfile env c1, failed)
          | done ↦ begin_dialing env (usable_ani ani) dnis category restricted c1
        ])

-- The timer's callback.
unfoldable pub seize_timeout_expired : Env → Chan → Chan
seize_timeout_expired env c = handle_protocol_error env ProtocolError.seize_timeout c

-- The timer's callback.
unfoldable pub start_dialing_dtmf : Env → Chan → Chan
start_dialing_dtmf env c = record c { dialing_dtmf = true; mf_state = MfState.dialing_dtmf }
