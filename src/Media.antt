-- ===== src/Media.antt =====
-- The main loop of src/r2chan.c, which reads the devices: openr2_chan_process and what it calls.
pub mod Ended
pub mod Write
use openr.Prelude.{
  ℕ, ◌+◌, ◌==◌, ◌&&◌, ◌||◌, not, if◌then◌else◌, Bool, true, false, ℤ, pos, negsuc, Option, none,
  some, List, [], ◌∷◌, take, pos_part,
}
use openr.Types.{MfState, Rc, done, failed, mf_state_code}
use openr.Chan.{Action, Chan, Env, Event}
use openr.Chan.Timers.{emit}
use openr.Proto.Cas.{handle_cas}
use openr.Proto.Calls.{handle_dtmf_end}
use openr.Proto.Incoming.{on_dtmf_received}
use openr.Proto.Tone.{handle_mf_tone}
use openr.Proto.Schedule.{handle_timers, handle_alarm_event}

-- The flags OR2_IO_OOB_EVENT, OR2_IO_READ and OR2_IO_WRITE.
pub record Events : Type 0 where
  pub oob : Bool
  pub read : Bool
  pub write : Bool

-- `openr2_oob_event_t`, but for OR2_OOB_EVENT_NONE.
pub data OobEvent : Type 0 where
  cas_change alarm_on alarm_off tone_change : OobEvent

-- `processing_mask`: OR2_CHAN_PROCESS_OOB and OR2_CHAN_PROCESS_MF.
pub record Mask : Type 0 where
  pub oob : Bool
  pub mf : Bool

-- The devices during one round of the loop. `wait`, `read` and `write` give the channel too, since a
-- backend may tell the user of a failure, whose callback acts on the channel; the other calls leave
-- it alone. `wait` and `read` are none for -1; `get_oob_event` is none for a failure or no event.
-- `dtmf_rx` gives the calls that the detector makes of `on_dtmf_received` for the samples, `dtmf_tx`
-- no samples where its result is not positive, and `mf_generate_tone` and `mf_detect_tone` are none
-- for -1. The transcoder is a pair of functions of samples.
pub record Devices : Type 0 where
  pub env : Env
  pub want_generate : Chan → Bool
  pub wait : Events → Chan → Chan × Option Events
  pub get_oob_event : Chan → Option OobEvent
  pub read : Chan → Chan × Option (List ℕ)
  pub write : List ℕ → Chan → Chan × ℤ
  pub alaw_to_linear : ℕ → ℤ
  pub linear_to_alaw : ℤ → ℕ
  pub dtmf_rx : List ℤ → Chan → List (Option (List ℕ))
  pub dtmf_rx_status : Chan → Bool
  pub dtmf_tx : Chan → List ℤ
  pub mf_detect_tone : List ℤ → Chan → Option ℕ
  pub mf_generate_tone : Chan → Option (List ℤ)

-- OR2_CHAN_READ_SIZE and OR2_DTMF_MAX_SILENCE_SAMPLES
abbrev pub read_size : ℕ
read_size = 160

abbrev pub max_silence_samples : ℕ
max_silence_samples = 4000

abbrev pub map {ℓ κ} : {A : Type ℓ} {B : Type κ} → (A → B) → List A → List B
map f [] = []
map f (x ∷ xs) = f x ∷ map f xs

-- `mf_state != OR2_MF_OFF_STATE`
abbrev pub is_mf_on : Chan → Bool
is_mf_on c = not (mf_state_code c.mf_state == mf_state_code MfState.off_state)

-- The detector's calls of `on_dtmf_received`.
unfoldable pub receive_dtmf : Env → List (Option (List ℕ)) → Chan → Chan
receive_dtmf env [] c = c
receive_dtmf env (digits ∷ more) c = receive_dtmf env more (on_dtmf_received env digits c)

-- After a chunk of silence the samples are counted, and at 4000 the digits are over.
unfoldable pub count_silence : Env → Bool → Chan → Chan
count_silence env sounds c =
    let silence = c.dtmf_silence_samples + read_size in
    let c' : Chan = record c { dtmf_silence_samples = silence } in
    if sounds then c else (if silence == max_silence_samples then handle_dtmf_end env c' else c')

unfoldable pub detect_tone : Env → Option ℕ → Chan → Chan
detect_tone env none c = c
detect_tone env (some tone) c = handle_mf_tone env tone c

-- `openr2_chan_handle_media`, for the bytes that were read, or for none.
unfoldable pub handle_media : Devices → List ℕ → Chan → Chan
unfolding receive_dtmf count_silence detect_tone
handle_media m bytes c =
    let samples = map m.alaw_to_linear bytes in
    let c1 = receive_dtmf m.env (m.dtmf_rx samples c) c in
    if is_mf_on c
    then (if c.detecting_dtmf
        then count_silence m.env (m.dtmf_rx_status c1) c1
        else detect_tone m.env (m.mf_detect_tone samples c) c)
    else (if c.answered then emit m.env (Event.on_call_read bytes) c else c)

-- `openr2_chan_handle_oob_event`
unfoldable pub handle_oob_event : Devices → OobEvent → Chan → Chan
unfolding handle_media
handle_oob_event m OobEvent.cas_change c = (handle_cas m.env c).0
handle_oob_event m OobEvent.alarm_on c = handle_alarm_event m.env true c
handle_oob_event m OobEvent.alarm_off c = handle_alarm_event m.env false c
handle_oob_event m OobEvent.tone_change c = handle_media m [] c

abbrev pub handle_oob : Devices → Option OobEvent → Chan → Chan
handle_oob m none c = c
handle_oob m (some e) c = handle_oob_event m e c

-- What the loop waits for.
unfoldable pub wanted_events : Devices → Mask → Chan → Events
wanted_events m mask c =
    if c.inalarm then record { oob = true; read = false; write = false } else record {
      oob = mask.oob;
      read = c.read_enabled && mask.mf;
      write = mask.mf && (c.dialing_dtmf || (is_mf_on c && m.want_generate c));
    }

-- How a round ends: with the result of the function, or with another round.
pub data Next : Type 0 where
  finished : Rc → Next
  try_again : Next

-- HANDLE_IO_WRITE_RESULT: only a write of nothing or of an error ends the loop.
abbrev pub after_write : ℤ → Next
after_write (pos n) = if n == 0 then finished done else try_again
after_write (negsuc n) = if n == 0 then finished failed else try_again

-- The trace keeps the bytes that the device took.
unfoldable pub write_samples : Devices → List ℤ → Chan → Chan × Next
write_samples m samples c =
    let bytes = map m.linear_to_alaw samples in
    let (c1, wrote) = m.write bytes c in
    (
      record c1 { trace = Action.tx_audio (take (pos_part wrote) bytes) ∷ c1.trace },
      after_write wrote,
    )

abbrev pub write_dtmf : Devices → List ℤ → Chan → Chan × Next
write_dtmf m [] c = (handle_dtmf_end m.env c, try_again)
write_dtmf m (s ∷ ss) c = write_samples m (s ∷ ss) c

abbrev pub write_tone : Devices → Option (List ℤ) → Chan → Chan × Next
write_tone m none c = (c, finished failed)
write_tone m (some []) c = (c, try_again)
write_tone m (some (s ∷ ss)) c = write_samples m (s ∷ ss) c

-- The part of a round that writes tones.
unfoldable pub write_round : Devices → Events → Chan → Chan × Next
unfolding write_samples
write_round m e c =
    if c.dialing_dtmf && e.write
    then write_dtmf m (m.dtmf_tx c) c
    else (if is_mf_on c && e.write then write_tone m (m.mf_generate_tone c) c else (c, try_again))

-- A read of nothing begins the next round.
abbrev pub after_read : Devices → Events → Chan × Option (List ℕ) → Chan × Next
after_read m e (c, none) = (c, finished failed)
after_read m e (c, some []) = (c, try_again)
after_read m e (c, some (b ∷ bs)) = write_round m e (handle_media m (b ∷ bs) c)

-- The rest of a round, for the events that have come.
unfoldable pub handle_events : Devices → Events → Chan → Chan × Next
unfolding handle_oob_event write_round handle_media
handle_events m e c =
    let c1 = if e.oob then handle_oob m (m.get_oob_event c) c else c in
    if c1.read_enabled && e.read then after_read m e (m.read c1) else write_round m e c1

-- No event, and a failure to wait, end the loop.
abbrev pub after_wait : Devices → Chan × Option Events → Chan × Next
after_wait m (c, none) = (c, finished failed)
after_wait m (c, some e) =
    if e.oob || (e.read || e.write) then handle_events m e c else (c, finished done)

-- One round, from `tryagain`; `openr2_io_wait` fails without an I/O interface.
unfoldable pub process_round : Devices → Mask → Chan → Chan × Next
unfolding wanted_events handle_events
process_round m mask c =
    after_wait m (if m.env.r2context.has_io then m.wait (wanted_events m mask c) c else (c, none))

-- The channel and the result after a round, given those of the rounds that may follow it.
abbrev pub after_round : Chan × Next → Chan × Option Rc → Chan × Option Rc
after_round (c, finished rc) later = (c, some rc)
after_round (c, try_again) later = later

-- The loop for as many rounds as there are devices given, and its result unless it still runs.
unfoldable pub process_rounds : List Devices → Mask → Chan → Chan × Option Rc
unfolding process_round
process_rounds [] mask c = (c, none)
process_rounds (m ∷ ms) mask c =
    let out = process_round m mask c in after_round out (process_rounds ms mask out.0)

-- `openr2_chan_process`: the timers, then the loop.
unfoldable pub process : Env → List Devices → Mask → Chan → Chan × Option Rc
unfolding process_rounds
process env ms mask c = process_rounds ms mask (handle_timers env c).0

unfoldable pub process_mf_signaling : Env → List Devices → Chan → Chan × Option Rc
unfolding process
process_mf_signaling env ms = process env ms (record { oob = false; mf = true })

unfoldable pub process_oob_events : Env → List Devices → Chan → Chan × Option Rc
unfolding process
process_oob_events env ms = process env ms (record { oob = true; mf = false })

unfoldable pub process_signaling : Env → List Devices → Chan → Chan × Option Rc
unfolding process
process_signaling env ms = process env ms (record { oob = true; mf = true })
