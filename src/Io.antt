-- ===== src/Io.antt =====
-- The Zaptel and DAHDI backend of src/r2ioabs.c. A system call is a parameter; what it gives is
-- `none`, or `true`, where it fails.
pub mod Waits
pub mod Ready
use openr.Prelude.{
  ℕ, ◌==◌, ◌||◌, ◌&&◌, not, if◌then◌else◌, Bool, true, false, ℤ, pos, negsuc, Option, none, some,
  List, [], ◌∷◌, ◌++◌,
}
use openr.Types.{Rc, done, failed}
use openr.Chan.{Chan, Env, Event}
use openr.Chan.Timers.{emit}
use openr.Media.{Events, OobEvent, read_size}

-- A system call on the channel: its failure is told to the user.
unfoldable pub zt_call : Env → (Chan → Bool) → Chan → Chan × Rc
unfolding emit
zt_call env fails c =
    if fails c then (emit env (Event.on_os_error (env.errno c)) c, failed) else (c, done)

unfoldable pub zt_close : Env → (Chan → Bool) → Chan → Chan × Rc
unfolding zt_call
zt_close env close c = zt_call env close c

-- The ioctl ZT_SETTXBITS
unfoldable pub zt_set_cas : Env → (ℕ → Chan → Bool) → ℕ → Chan → Chan × Rc
unfolding zt_call
zt_set_cas env ioctl cas c = zt_call env (ioctl cas) c

-- The ioctl ZT_FLUSH
unfoldable pub zt_flush_write_buffers : Env → (Chan → Bool) → Chan → Chan × Rc
unfolding zt_call
zt_flush_write_buffers env ioctl c = zt_call env ioctl c

-- The ioctl ZT_GETRXBITS
unfoldable pub zt_get_cas : Env → (Chan → Option ℕ) → Chan → Chan × Option ℕ
unfolding emit
zt_get_cas env ioctl c = elim (ioctl c) [
  | none ↦ (emit env (Event.on_os_error (env.errno c)) c, none)
  | some cas ↦ (c, some cas)
]

-- What a read or a write comes to when it fails; `elast` is the driver's ELAST, by which it says that
-- an event is to be handled first.
abbrev pub io_failed : ℕ → Env → Chan → Chan × ℤ
io_failed elast env c =
    if env.errno c == elast
    then (c, pos 0)
    else (emit env (Event.on_os_error (env.errno c)) c, negsuc 0)

-- The number of bytes that `read` gave; their values are in the buffer.
unfoldable pub zt_read : ℕ → Env → (ℕ → Chan → Option ℕ) → ℕ → Chan → Chan × ℤ
unfolding emit
zt_read elast env read size c = elim (read size c) [
  | none ↦ io_failed elast env c
  | some n ↦ (c, pos n)
]

unfoldable pub zt_write : ℕ → Env → (List ℕ → Chan → Option ℕ) → List ℕ → Chan → Chan × ℤ
unfolding emit
zt_write elast env write bytes c = elim (write bytes c) [
  | none ↦ io_failed elast env c
  | some n ↦ (c, pos n)
]

-- The flags of the ioctl ZT_IOMUX.
pub record ZapFlags : Type 0 where
  pub nowait : Bool
  pub read : Bool
  pub write : Bool
  pub sigevent : Bool

abbrev pub is_asked : Events → Bool
is_asked flags = flags.oob || (flags.read || flags.write)

abbrev pub zap_flags : Events → Bool → ZapFlags
zap_flags flags wait = record {
  nowait = not wait;
  read = flags.read;
  write = flags.write;
  sigevent = flags.oob;
}

-- Nothing to wait for is a failure, which is not told to the user.
unfoldable pub zt_wait :
    Env → (ZapFlags → Chan → Option ZapFlags) → Events → Bool → Chan → Chan × Option Events
unfolding emit
zt_wait env ioctl flags wait c =
    if is_asked flags
    then elim (ioctl (zap_flags flags wait) c) [
      | none ↦ (emit env (Event.on_os_error (env.errno c)) c, none)
      | some z ↦ (c, some (record { oob = z.sigevent; read = z.read; write = z.write }))
    ]
    else (c, none)

-- The events of Zaptel that the library knows, and the rest.
pub data ZapEvent : Type 0 where
  bits_changed alarm no_alarm other : ZapEvent

-- `none` is a failure, `some none` the event OR2_OOB_EVENT_NONE.
abbrev pub oob_of : ZapEvent → Option OobEvent
oob_of ZapEvent.bits_changed = some OobEvent.cas_change
oob_of ZapEvent.alarm = some OobEvent.alarm_on
oob_of ZapEvent.no_alarm = some OobEvent.alarm_off
oob_of ZapEvent.other = none

unfoldable pub zt_get_oob_event : Option ZapEvent → Option (Option OobEvent)
zt_get_oob_event none = none
zt_get_oob_event (some e) = some (oob_of e)

-- The ioctl calls by which a channel is opened and set up, with what they are given.
pub data Request : Type 0 where
  specify : ℕ → Request
  channo : Request
  get_params : Request
  get_bufinfo : Request
  set_bufinfo : ℕ → ℕ → Request
  setgains : (ℕ → ℕ) → Request
  setlaw_alaw : Request
  echocancel : ℕ → Request

-- The library errors of these functions.
pub data IoError : Type 0 where
  syscall_failed invalid_chan_signaling : IoError

-- The calls that were made, and how the function ends.
pub record Setup : Type 0 where
  pub made : List Request
  pub error : Option IoError

-- Calls one after the other, up to the first that fails.
abbrev pub request_each : (Request → Bool) → List Request → Setup
request_each fails [] = record { made = []; error = none }
request_each fails (q ∷ qs) =
    let later = request_each fails qs in
    if fails q
    then record { made = q ∷ []; error = some IoError.syscall_failed }
    else record { made = q ∷ later.made; error = later.error }

-- What is asked before the signaling is known, and after.
abbrev pub first_requests : List Request
first_requests = Request.channo ∷ (Request.get_params ∷ [])

-- Four buffers of the size that the loop reads, which are passed on at once; gains of 1; the A-law;
-- and no echo canceller.
abbrev pub later_requests : List Request
later_requests =
    Request.get_bufinfo
    ∷ Request.set_bufinfo 4 read_size
    ∷ Request.setgains (λ i. i)
    ∷ Request.setlaw_alaw
    ∷ Request.echocancel 0
    ∷ []

-- The second part follows the first if that did not fail.
abbrev pub made_then : Option IoError → List Request → List Request → List Request
made_then none first second = first ++ second
made_then (some e) first second = first

abbrev pub error_or : Option IoError → Option IoError → Option IoError
error_or none second = second
error_or (some e) second = some e

abbrev pub and_then : Setup → Setup → Setup
and_then first second = record {
  made = made_then first.error first.made second.made;
  error = error_or first.error second.error;
}

-- `zt_setup`, where `is_cas` is whether the parameters that ZT_GET_PARAMS gives show CAS signaling.
unfoldable pub zt_setup : (Request → Bool) → Bool → Setup
zt_setup fails is_cas = and_then (request_each fails first_requests) (
    if is_cas
    then request_each fails later_requests
    else record { made = []; error = some IoError.invalid_chan_signaling })

-- `zt_open`: the descriptor, if the device opens and takes the channel; else it is closed again.
pub data Opened : Type 0 where
  opened : ℕ → Opened
  not_opened : Opened
  closed : ℕ → Opened

unfoldable pub zt_open : Option ℕ → (Request → Bool) → ℕ → Opened
zt_open none fails number = Opened.not_opened
zt_open (some fd) fails number =
    if fails (Request.specify number) then Opened.closed fd else Opened.opened fd
