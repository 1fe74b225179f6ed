-- ===== src/Rest.antt =====
-- The channel at rest: what set_idle, handle_protocol_error and report_call_end of src/r2proto.c
-- reach, and what the user's callback is then given.
use openr.Prelude.{
  true, false, ◌≡◌, refl, bit_or, Option, none, some, List, [], ◌∷◌, arith, ◌⊎◌, ℕ, if_ind,
}
use openr.Types.{
  CasSignal, CasState, CallState, MfState, MfGroup, Direction, ProtocolError, Rc, done, failed,
}
use openr.Chan.{Chan, Env, Event, Action, LibError}
use openr.Chan.Timers.{no_timer_ids, emit, cancel_timer, cancel_all_timers}
use openr.Chan.Device.{io_failure, io_set_cas}
use openr.Proto.Line.{
  r2_bits, is_off, release_mf_engine, turn_off_mf_engine, set_cas_signal, fix_rx_signal,
  clear_digits, clear_call, proto_init, set_idle, select_tone, handle_protocol_error,
  report_call_end,
}
use openr.Proto.Line.Log.{close_logfile, close_stream}

-- No call, no timer, no tone, no digit, and the MF engine off.
pub record IsAtRest (c : Chan) : Type 0 where
  pub call_state : c.call_state ≡ CallState.idle
  pub r2_state : c.r2_state ≡ CasState.idle
  pub direction : c.direction ≡ Direction.stopped
  pub mf_state : c.mf_state ≡ MfState.off_state
  pub mf_group : c.mf_group ≡ MfGroup.no_group
  pub sched_timers : c.sched_timers ≡ []
  pub timer_ids : c.timer_ids ≡ no_timer_ids
  pub mf_write_tone : c.mf_write_tone ≡ 0
  pub mf_read_tone : c.mf_read_tone ≡ 0
  pub ani_len : c.ani_len ≡ 0
  pub ani_ptr : c.ani_ptr ≡ none
  pub dnis_len : c.dnis_len ≡ 0
  pub dnis_index : c.dnis_index ≡ 0
  pub answered : c.answered ≡ false
  pub category_sent : c.category_sent ≡ false

-- What `turn_off_mf_engine` leaves, with the timers cancelled before it.
record IsSilent (c : Chan) : Type 0 where
  r2_state : c.r2_state ≡ CasState.idle
  mf_state : c.mf_state ≡ MfState.off_state
  sched_timers : c.sched_timers ≡ []
  timer_ids : c.timer_ids ≡ no_timer_ids
  ani_len : c.ani_len ≡ 0
  ani_ptr : c.ani_ptr ≡ none
  dnis_len : c.dnis_len ≡ 0
  dnis_index : c.dnis_index ≡ 0

pub is_off_lem : (s : MfState) → is_off s ≡ true → s ≡ MfState.off_state
is_off_lem s h = ground arith

turn_off_mf_engine-IsSilent :
    (env : Env) (c : Chan) → IsSilent (turn_off_mf_engine env (clear_digits (cancel_all_timers c)))
unfolding turn_off_mf_engine release_mf_engine clear_digits cancel_all_timers cancel_timer
turn_off_mf_engine-IsSilent env c = ground (arith, is_off_lem c.mf_state)

-- What is recorded does not matter.
trace-IsAtRest : (c : Chan) (t : List Action) → IsAtRest c → IsAtRest (record c { trace = t })
trace-IsAtRest c t v = ground arith

stream-IsAtRest : (c : Chan) → IsAtRest c → IsAtRest (record c { logfile = false })
stream-IsAtRest c v = ground arith

-- The user's callback for a system error leaves a channel at rest so.
abbrev pub KeepsRest : Env → Type 0
KeepsRest env =
    (errno : ℕ) (c : Chan) → IsAtRest c → IsAtRest (env.callback (Event.on_os_error errno) c)

os_error-IsAtRest :
    (env : Env) (errno : ℕ) (c : Chan)
    → KeepsRest env
    → IsAtRest c
    → IsAtRest (emit env (Event.on_os_error errno) c)
unfolding emit
os_error-IsAtRest env errno c keeps v = keeps errno _ (trace-IsAtRest c _ v)

close_logfile-IsAtRest :
    (env : Env) (c : Chan) → KeepsRest env → IsAtRest c → IsAtRest (close_logfile env c)
unfolding close_logfile close_stream
close_logfile-IsAtRest env c keeps v =
    let w = stream-IsAtRest c v in
    if_ind IsAtRest _ (if_ind IsAtRest _ (os_error-IsAtRest env (env.errno c) _ keeps w) w) v

io_failure-IsAtRest :
    (env : Env) (errno : ℕ) (c : Chan)
    → KeepsRest env
    → IsAtRest c
    → IsAtRest (io_failure env errno c)
unfolding io_failure
io_failure-IsAtRest env errno c keeps v =
    if_ind IsAtRest _ (os_error-IsAtRest env errno c keeps v) v

fix_rx_signal-IsAtRest : (env : Env) (c : Chan) → IsAtRest c → IsAtRest (fix_rx_signal env c)
unfolding fix_rx_signal
fix_rx_signal-IsAtRest env c v = ground arith

clear_call-IsAtRest : (c : Chan) → IsSilent c → IsAtRest (clear_call c)
unfolding clear_call
clear_call-IsAtRest c v = ground arith

proto_init-IsAtRest : (env : Env) (c : Chan) → KeepsRest env → IsAtRest (proto_init env c)
unfolding proto_init
proto_init-IsAtRest env c keeps =
    close_logfile-IsAtRest env _ keeps
      (fix_rx_signal-IsAtRest env _ (clear_call-IsAtRest _ (turn_off_mf_engine-IsSilent env c)))

-- The last thing that the library did.
abbrev pub last_action : List Action → Option Action
last_action [] = none
last_action (a ∷ older) = some a

-- The idle bits are the last thing done, or the library error says that they could not be sent.
abbrev pub IsIdleTold : Env → Chan × Rc → Type 0
IsIdleTold env r =
    ((r.1 ≡ done)
      × (last_action r.0.trace
          ≡ some
              (Action.tx_cas (bit_or (r2_bits env CasSignal.idle) env.r2context.cas_nonr2_bits))))
    ⊎ ((r.1 ≡ failed) × (r.0.last_error ≡ some LibError.cannot_set_idle))

set_cas_signal_told :
    (env : Env) (d : Chan)
    → KeepsRest env
    → IsAtRest d
    → let r = set_cas_signal env (some CasSignal.idle) d in
      let c' : Chan = elim r.1 [
        | done ↦ r.0
        | failed ↦ record (r.0) { last_error = some LibError.cannot_set_idle }
      ] in
      IsAtRest c' × IsIdleTold env (c', r.1)
unfolding set_cas_signal io_set_cas
set_cas_signal_told env d keeps v =
    let e = record d {
      cas_write = r2_bits env CasSignal.idle;
      cas_tx_signal = some CasSignal.idle;
    } in
    ground (arith, v, io_failure-IsAtRest env (env.errno e) e keeps)

-- If the user's on_os_error leaves a channel at rest so, set_idle leaves every channel at rest,
-- whatever it was doing: no call, no timer, no tone, no digit, and the MF engine off. It returns 0
-- with the idle bits sent as the last thing done, or -1 with the error OR2_LIBERR_CANNOT_SET_IDLE
-- set.
pub set_idle-IsAtRest :
    (env : Env) (c : Chan)
    → KeepsRest env
    → IsAtRest (set_idle env c).0 × IsIdleTold env (set_idle env c)
unfolding set_idle
set_idle-IsAtRest env c keeps =
    set_cas_signal_told env (proto_init env c) keeps (proto_init-IsAtRest env c keeps)

-- If the user's on_os_error leaves a channel at rest so, a protocol error ends in the user's
-- on_protocol_error for its reason, and the channel that the callback is given is at rest; the
-- library does nothing after it.
pub handle_protocol_error-IsAtRest :
    (env : Env) (reason : ProtocolError) (c : Chan)
    → KeepsRest env
    → (d : Chan) × IsAtRest d
      × (handle_protocol_error env reason c ≡ env.callback (Event.on_protocol_error reason) d)
unfolding handle_protocol_error emit
handle_protocol_error-IsAtRest env reason c keeps =
    (_, trace-IsAtRest _ _ (set_idle-IsAtRest env (select_tone 0 c) keeps).0, refl)

-- If the user's on_os_error leaves a channel at rest so, the end of a call is reported by
-- on_call_end for a channel at rest, after which the library does nothing.
pub report_call_end-IsAtRest :
    (env : Env) (c : Chan)
    → KeepsRest env
    → (d : Chan) × IsAtRest d × (report_call_end env c ≡ env.callback Event.on_call_end d)
unfolding report_call_end emit
report_call_end-IsAtRest env c keeps =
    (_, trace-IsAtRest _ _ (set_idle-IsAtRest env c keeps).0, refl)
