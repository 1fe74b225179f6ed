-- ===== src/Proto/Tone.antt =====
-- A tone or silence that the MF detector reports: timediff, check_threshold and
-- openr2_proto_handle_mf_tone of src/r2proto.c.
use openr.Prelude.{
  ℕ, ◌+◌, ◌-◌, ◌/◌, ltb, ◌==◌, nonzero, if◌then◌else◌, ℤ, pos, negsuc, sub_ℕ, not, Bool, none, some,
}
use openr.Types.{Direction, ProtocolError, Rc, done, failed}
use openr.Chan.{Chan, Env, Time}
use openr.Proto.Line.{handle_protocol_error}
use openr.Proto.Backward.{handle_forward_mf_tone, handle_forward_mf_silence}
use openr.Proto.Forward.{handle_backward_mf_tone, handle_backward_mf_silence}

-- Milliseconds from `t2` to `t1`, whose seconds count as one apart when they differ.
unfoldable pub timediff : Time → Time → ℤ
timediff t1 t2 =
    if t1.tv_sec == t2.tv_sec
    then sub_ℕ ((t1.tv_usec - t2.tv_usec) / 1000) ((t2.tv_usec - t1.tv_usec) / 1000)
    else sub_ℕ (t1.tv_usec / 1000 + (if nonzero t2.tv_usec then 1000 else 0)) (t2.tv_usec / 1000)

abbrev pub is_below : ℤ → ℕ → Bool
is_below (pos n) m = ltb n m
is_below (negsuc n) m = Bool.true

-- The time since the tone began, against the threshold.
unfoldable pub check_length : Env → Chan → Rc
check_length env c = elim (env.gettimeofday c) [
  | none ↦ failed
  | some now ↦
      if is_below (timediff now c.mf_threshold_time) env.r2context.mf_threshold
      then failed
      else done
]

unfoldable pub check_threshold : Env → ℕ → Chan → Chan × Rc
check_threshold env tone c =
    if not (nonzero env.r2context.mf_threshold)
    then (c, done)
    else if c.mf_threshold_tone == tone
    then (c, check_length env c)
    else elim (env.gettimeofday c) [
      | none ↦ (c, failed)
      | some now ↦
          (let c1 = record c { mf_threshold_time = now; mf_threshold_tone = tone } in
            (c1, check_length env c1))
    ]

-- A tone that passed the threshold.
unfoldable pub handle_tone_on : Env → ℕ → Chan → Chan
handle_tone_on env tone c =
    let c1 = record c { mf_read_tone = tone } in
    elim c.direction [
      | Direction.backward ↦ handle_forward_mf_tone env tone c1
      | Direction.forward ↦ handle_backward_mf_tone env tone c1
      | Direction.stopped ↦ handle_protocol_error env ProtocolError.library_bug c1
    ]

-- A silence that passed the threshold.
unfoldable pub handle_tone_off : Env → Chan → Chan
handle_tone_off env c =
    let c1 : Chan = elim c.direction [
      | Direction.backward ↦ handle_forward_mf_silence env c
      | Direction.forward ↦ handle_backward_mf_silence env c.mf_read_tone c
      | Direction.stopped ↦ handle_protocol_error env ProtocolError.library_bug c
    ] in
    record c1 { mf_read_tone = 0 }

-- The branch of `openr2_proto_handle_mf_tone` for a tone.
unfoldable pub tone_on : Env → ℕ → Chan → Chan
tone_on env tone c =
    if c.mf_read_tone == tone
    then c
    else if nonzero c.mf_read_tone
    then handle_protocol_error env ProtocolError.broken_mf_sequence c
    else (let (c1, rc) = check_threshold env tone c in
        elim rc [ failed ↦ c1 | done ↦ handle_tone_on env tone c1 ])

-- Its branch for silence.
unfoldable pub tone_off : Env → Chan → Chan
tone_off env c =
    if c.mf_read_tone == 0
    then c
    else (let (c1, rc) = check_threshold env 0 c in
        elim rc [ failed ↦ c1 | done ↦ handle_tone_off env c1 ])

unfoldable pub handle_mf_tone : Env → ℕ → Chan → Chan
handle_mf_tone env tone c = if nonzero tone then tone_on env tone c else tone_off env c
