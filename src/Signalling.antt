-- ===== src/Signalling.antt =====
-- The line signalling as a state machine: where the CAS state may go on one event of the line, with
-- a user whose callbacks leave the channel alone.
pub mod Diagram
pub mod Moves
pub mod Events
pub mod Alarm
use openr.Prelude.{
  ℕ, ℤ, pos, negsuc, Bool, Bool-cases, ◌≡◌, refl, ◌⊎◌, inl, inr, ◌∙◌, Option, none, some,
  Option-cases, if◌then◌else◌, arith, ltb, ◌==◌, length,
}
use openr.Types.{
  CasSignal, CasState, CallState, MfState, MfGroup, Cause, ProtocolError, CallMode, Rc, done,
  failed, Direction,
}
use openr.Chan.{Chan, Env, Event, TimerCallback}
use openr.Chan.Timers.{emit, schedule, add_timer, cancel_timer, cancel_all_timers, max_sched_timers}
use openr.Chan.Device.{fault, io_failure, io_set_cas, io_get_cas, io_flush_write_buffers, read_dnis}
use openr.Proto.Line.{
  release_mf_engine, turn_off_mf_engine, set_cas_signal, fix_rx_signal, clear_digits, clear_call,
  proto_init, set_idle, select_tone, handle_protocol_error, report_call_disconnection,
  report_call_end,
}
use openr.Proto.Line.Log.{close_stream, close_logfile, open_stream, name_logfile, open_logfile}
use openr.Proto.Mf.{
  start_mf_back_cycle, start_mf_fwd_safety, start_tone, change_tone, next_tone, prepare_mf_tone,
}
use openr.Proto.Forward.Send.{wait_timeout, send_dnis_digit, mf_send_dnis}

-- The user's callbacks leave the channel as it is.
pub record IsQuiet (env : Env) : Type 0 where
  pub callback : (e : Event) (c : Chan) → env.callback e c ≡ c
  pub dnis_callback : (d : ℕ) (c : Chan) → (env.dnis_callback d c).1 ≡ c

-- The state stays, or a protocol error ends the call.
abbrev pub StaysOrIdles : CasState → CasState → Type 0
StaysOrIdles s s' = (s' ≡ s) ⊎ (s' ≡ CasState.idle)

pub r2_state-cancel_timer : (id : ℤ) (c : Chan) → (cancel_timer id c).0.r2_state ≡ c.r2_state
unfolding cancel_timer
r2_state-cancel_timer id c = ground arith

pub r2_state-turn_off_mf_engine :
    (env : Env) (c : Chan) → (turn_off_mf_engine env c).r2_state ≡ c.r2_state
unfolding turn_off_mf_engine release_mf_engine
r2_state-turn_off_mf_engine env c =
    ground (arith, r2_state-cancel_timer c.timer_ids.mf_back_cycle c)

module _ (env : Env) (quiet : IsQuiet env) where
  pub r2_state-emit : (e : Event) (c : Chan) → (emit env e c).r2_state ≡ c.r2_state
  unfolding emit
  r2_state-emit e c = rw (quiet.callback e _) refl

  r2_state-io_failure : (errno : ℕ) (c : Chan) → (io_failure env errno c).r2_state ≡ c.r2_state
  unfolding io_failure
  r2_state-io_failure errno c = grind (arith, r2_state-emit)

  r2_state-io_set_cas : (cas : ℕ) (c : Chan) → (io_set_cas env cas c).0.r2_state ≡ c.r2_state
  unfolding io_set_cas
  r2_state-io_set_cas cas c = grind (arith, r2_state-io_failure)

  pub r2_state-io_get_cas : (c : Chan) → (io_get_cas env c).0.r2_state ≡ c.r2_state
  unfolding io_get_cas
  r2_state-io_get_cas c = elim (Option-cases (env.get_cas c)) [
    | inl e ↦ grind (arith, r2_state-io_failure)
    | inr (cas, e) ↦ grind (arith, r2_state-io_failure)
  ]

  r2_state-io_flush_write_buffers :
      (c : Chan) → (io_flush_write_buffers env c).0.r2_state ≡ c.r2_state
  unfolding io_flush_write_buffers
  r2_state-io_flush_write_buffers c = grind (arith, r2_state-io_failure)

  pub r2_state-set_cas_signal :
      (s : Option CasSignal) (c : Chan) → (set_cas_signal env s c).0.r2_state ≡ c.r2_state
  unfolding set_cas_signal
  r2_state-set_cas_signal none c = refl
  r2_state-set_cas_signal (some s) c = r2_state-io_set_cas _ _

  pub r2_state-add_timer :
      (ms : ℕ) (f : TimerCallback) (c : Chan) → (add_timer env ms f c).0.r2_state ≡ c.r2_state
  unfolding add_timer schedule
  r2_state-add_timer ms f c = elim (Option-cases (env.gettimeofday c)) [
    | inl e ↦ rw (e, add_timer) (r2_state-emit _ c)
    | inr (tv, e) ↦ ground arith
  ]

  r2_state-close_stream : (c : Chan) → (close_stream env c).r2_state ≡ c.r2_state
  unfolding close_stream
  r2_state-close_stream c = grind (arith, r2_state-emit)

  r2_state-close_logfile : (c : Chan) → (close_logfile env c).r2_state ≡ c.r2_state
  unfolding close_logfile
  r2_state-close_logfile c = grind (arith, r2_state-close_stream)

  r2_state-open_logfile : (b : Bool) (c : Chan) → (open_logfile env b c).r2_state ≡ c.r2_state
  unfolding open_logfile name_logfile open_stream
  r2_state-open_logfile b c = grind (arith, r2_state-emit, r2_state-close_stream)

  r2_state-set_idle : (c : Chan) → (set_idle env c).0.r2_state ≡ CasState.idle
  unfolding set_idle proto_init fix_rx_signal clear_call clear_digits
  r2_state-set_idle c =
      grind (arith, r2_state-set_cas_signal, r2_state-close_logfile, r2_state-turn_off_mf_engine)

  pub r2_state-handle_protocol_error :
      (reason : ProtocolError) (c : Chan)
      → (handle_protocol_error env reason c).r2_state ≡ CasState.idle
  unfolding handle_protocol_error
  r2_state-handle_protocol_error reason c = r2_state-emit _ _ ∙ r2_state-set_idle _

  pub r2_state-report_call_end : (c : Chan) → (report_call_end env c).r2_state ≡ CasState.idle
  unfolding report_call_end
  r2_state-report_call_end c = r2_state-emit _ _ ∙ r2_state-set_idle _

  pub r2_state-report_call_disconnection :
      (cause : Cause) (c : Chan) → (report_call_disconnection env cause c).r2_state ≡ c.r2_state
  unfolding report_call_disconnection
  r2_state-report_call_disconnection cause c = r2_state-emit _ _

  r2_state-start_tone : (tone : ℕ) (c : Chan) → (start_tone env tone c).r2_state ≡ c.r2_state
  unfolding start_tone start_mf_back_cycle
  r2_state-start_tone tone c = grind (arith, r2_state-add_timer, r2_state-io_flush_write_buffers)

  r2_state-prepare_mf_tone :
      (tone : ℕ) (c : Chan) → StaysOrIdles c.r2_state (prepare_mf_tone env tone c).r2_state
  unfolding prepare_mf_tone next_tone change_tone select_tone
  r2_state-prepare_mf_tone tone c =
      grind (
        arith, r2_state-start_tone, r2_state-handle_protocol_error, r2_state-io_flush_write_buffers,
      )

  r2_state-wait_timeout : (c : Chan) → (wait_timeout env c).r2_state ≡ c.r2_state
  unfolding wait_timeout start_mf_fwd_safety
  r2_state-wait_timeout c = grind (arith, r2_state-add_timer)

  r2_state-send_dnis_digit : (c : Chan) → StaysOrIdles c.r2_state (send_dnis_digit env c).r2_state
  unfolding send_dnis_digit read_dnis fault
  r2_state-send_dnis_digit c = grind (arith, r2_state-wait_timeout, r2_state-prepare_mf_tone)

  pub r2_state-mf_send_dnis :
      (offset : ℤ) (c : Chan) → StaysOrIdles c.r2_state (mf_send_dnis env offset c).r2_state
  unfolding mf_send_dnis
  r2_state-mf_send_dnis offset c =
      grind (arith, r2_state-send_dnis_digit, r2_state-handle_protocol_error)
