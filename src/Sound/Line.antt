-- ===== src/Sound/Line.antt =====
-- Soundness of the operations of Proto/Line.
use openr.Prelude.{none, some, if_ind, Bool, Option, length-set, arith}
use openr.Types.{CasSignal, ProtocolError, Cause}
use openr.Chan.{Chan, Env}
use openr.Proto.Line.{
  turn_off_mf_engine, release_mf_engine, set_cas_signal, fix_rx_signal, clear_digits, clear_call,
  proto_init, set_idle, set_blocked, select_tone, handle_protocol_error, report_call_disconnection,
  report_call_end,
}
use openr.Proto.Line.Log.{close_stream, open_stream, name_logfile, close_logfile, open_logfile}
use openr.Sound.{
  IsSound, IsPolite, io_set_cas-IsSound, cancel_timer-IsSound, cancel_all_timers-IsSound,
  emit-IsSound,
}

module _ (env : Env) (polite : IsPolite env) where
  pub close_stream-IsSound : (c : Chan) → IsSound c → IsSound (close_stream env c)
  unfolding close_stream
  close_stream-IsSound c v = grind (arith, emit-IsSound)

  pub close_logfile-IsSound : (c : Chan) → IsSound c → IsSound (close_logfile env c)
  unfolding close_logfile
  close_logfile-IsSound c v = grind (arith, close_stream-IsSound)

  pub open_stream-IsSound : (c : Chan) → IsSound c → IsSound (open_stream env c)
  unfolding open_stream
  open_stream-IsSound c v =
      let closed = if_ind IsSound c.logfile (close_stream-IsSound c v) v in
      if_ind IsSound (env.fopen_fails _) (emit-IsSound env polite _ _ closed) (
        emit-IsSound env polite _ _ (record {
          scheduled = closed.scheduled;
          ani_size = closed.ani_size;
          dnis_size = closed.dnis_size;
          dnis_room = closed.dnis_room;
        }))

  pub name_logfile-IsSound :
      (backward : Bool) (c : Chan) → IsSound c → IsSound (name_logfile env backward c)
  unfolding name_logfile
  name_logfile-IsSound backward c v = grind (arith, open_stream-IsSound)

  pub open_logfile-IsSound :
      (backward : Bool) (c : Chan) → IsSound c → IsSound (open_logfile env backward c)
  unfolding open_logfile
  open_logfile-IsSound backward c v = grind (arith, emit-IsSound, name_logfile-IsSound)

  pub turn_off_mf_engine-IsSound : (c : Chan) → IsSound c → IsSound (turn_off_mf_engine env c)
  unfolding turn_off_mf_engine release_mf_engine
  turn_off_mf_engine-IsSound c v = grind (arith, cancel_timer-IsSound)

  pub set_cas_signal-IsSound :
      (s : Option CasSignal) (c : Chan) → IsSound c → IsSound ((set_cas_signal env s c).0)
  unfolding set_cas_signal
  set_cas_signal-IsSound none c v = v
  set_cas_signal-IsSound (some s) c v = grind (arith, io_set_cas-IsSound)

  pub fix_rx_signal-IsSound : (c : Chan) → IsSound c → IsSound (fix_rx_signal env c)
  unfolding fix_rx_signal
  fix_rx_signal-IsSound c v = grind (arith)

  pub clear_digits-IsSound : (c : Chan) → IsSound c → IsSound (clear_digits c)
  unfolding clear_digits
  clear_digits-IsSound c v = grind (arith, length-set)

  pub clear_call-IsSound : (c : Chan) → IsSound c → IsSound (clear_call c)
  unfolding clear_call
  clear_call-IsSound c v = grind arith

  pub proto_init-IsSound : (c : Chan) → IsSound c → IsSound (proto_init env c)
  unfolding proto_init
  proto_init-IsSound c v = close_logfile-IsSound _ (
      fix_rx_signal-IsSound _ (
        clear_call-IsSound _
          (turn_off_mf_engine-IsSound _ (clear_digits-IsSound _ (cancel_all_timers-IsSound c v)))))

  pub set_idle-IsSound : (c : Chan) → IsSound c → IsSound ((set_idle env c).0)
  unfolding set_idle
  set_idle-IsSound c v = grind (arith, set_cas_signal-IsSound, proto_init-IsSound)

  pub set_blocked-IsSound : (c : Chan) → IsSound c → IsSound ((set_blocked env c).0)
  unfolding set_blocked
  set_blocked-IsSound c v = grind (arith, set_cas_signal-IsSound, proto_init-IsSound)

  pub handle_protocol_error-IsSound :
      (reason : ProtocolError) (c : Chan) → IsSound c → IsSound (handle_protocol_error env reason c)
  unfolding handle_protocol_error select_tone
  handle_protocol_error-IsSound reason c v = grind (arith, set_idle-IsSound, emit-IsSound)

  pub report_call_disconnection-IsSound :
      (cause : Cause) (c : Chan) → IsSound c → IsSound (report_call_disconnection env cause c)
  unfolding report_call_disconnection
  report_call_disconnection-IsSound cause c v = grind (arith, emit-IsSound)

  pub report_call_end-IsSound : (c : Chan) → IsSound c → IsSound (report_call_end env c)
  unfolding report_call_end
  report_call_end-IsSound c v = grind (arith, set_idle-IsSound, emit-IsSound)
