-- ===== src/Proto/Incoming.antt =====
-- A call that arrives: handle_incoming_call, openr2_proto_ack_call and on_dtmf_received of
-- src/r2proto.c.
use openr.Prelude.{ℕ, ◌==◌, if◌then◌else◌, true, false, Option, none, some, List, [], ◌∷◌}
use openr.Types.{
  CallState, CasSignal, CasState, Direction, MfGroup, MfState, ProtocolError, Rc, done, failed,
}
use openr.Chan.{Chan, Env, Event, Action}
use openr.Chan.Timers.{emit}
use openr.Chan.Device.{append_dnis}
use openr.Proto.Line.{set_cas_signal, handle_protocol_error}
use openr.Proto.Line.Log.{open_logfile}
use openr.Proto.Mf.{emit_dnis_digit}

unfoldable pub ack_call : Env → Chan → Chan × Rc
ack_call env c =
    let (c1, rc) = set_cas_signal env (some CasSignal.seize_ack) c in
    elim rc [
      | done ↦ (c1, done)
      | failed ↦ (handle_protocol_error env ProtocolError.internal_error c1, failed)
    ]

-- The end of `handle_incoming_call`, once a detector works.
unfoldable pub begin_collecting : Env → Chan → Chan
begin_collecting env c =
    let c1 = emit env Event.on_call_init (record c {
      r2_state = CasState.seize_ack_txd;
      call_state = CallState.collecting;
      direction = Direction.backward;
    }) in
    if env.r2context.auto_seize_ack then (ack_call env c1).0 else c1

-- Its branch for MF. The handles are kept only if both could be made.
unfoldable pub init_mf_detector : Env → Chan → Chan
init_mf_detector env c =
    let c1 = record c { trace = Action.init_mf_writer false ∷ c.trace } in
    elim (env.mf_write_init c false) [
      | none ↦ handle_protocol_error env ProtocolError.internal_error c1
      | some w ↦
          (let c2 = record c1 { trace = Action.init_mf_reader true ∷ c1.trace } in
            elim (env.mf_read_init c1 true) [
              | none ↦ handle_protocol_error env ProtocolError.internal_error c2
              | some r ↦ begin_collecting env (record c2 {
                mf_write_handle = some w;
                mf_read_handle = some r;
                mf_state = MfState.seize_ack_txd;
                mf_group = MfGroup.back_init;
              })
            ])
    ]

-- Its branch for DTMF.
unfoldable pub init_dtmf_detector : Env → Chan → Chan
init_dtmf_detector env c =
    let c1 = record c { trace = Action.init_dtmf_rx ∷ c.trace } in
    if env.dtmf_rx_init c
    then begin_collecting env (record c1 {
      mf_group = MfGroup.dtmf_back_init;
      mf_state = MfState.detecting_dtmf;
      detecting_dtmf = true;
    })
    else handle_protocol_error env ProtocolError.internal_error c1

unfoldable pub handle_incoming_call : Env → Chan → Chan
handle_incoming_call env c =
    let c1 = open_logfile env true c in
    if env.r2context.detect_dtmf then init_dtmf_detector env c1 else init_mf_detector env c1

-- One round of the loop of `on_dtmf_received`. Nothing holds the length within the buffer.
unfoldable pub dtmf_digit : Env → ℕ → Chan → Chan
dtmf_digit env digit c =
    let (rc, c1) = emit_dnis_digit env digit (append_dnis digit c) in
    if rc then c1 else record c1 { dnis_callback = false }

-- The loop, over the `len` characters that the detector gives; it ends at a 0 among them.
unfoldable pub dtmf_digits : Env → List ℕ → Chan → Chan
dtmf_digits env [] c = c
dtmf_digits env (d ∷ ds) c =
    let rest = dtmf_digits env ds (dtmf_digit env d c) in if d == 0 then c else rest

-- `none` is a null pointer.
unfoldable pub on_dtmf_received : Env → Option (List ℕ) → Chan → Chan
on_dtmf_received env none c = c
on_dtmf_received env (some digits) c =
    let c1 = record c { dtmf_silence_samples = 0 } in
    if c.dnis_callback then dtmf_digits env digits c1 else c1
