-- ===== src/Program/User.antt =====
-- The event interface of src/r2test.c, `g_event_iface`: what its callbacks do to a channel. What they
-- print is left out.
use openr.Prelude.{
  ℕ, zero, suc, ◌+◌, ◌==◌, ◌&&◌, ◌||◌, not, if◌then◌else◌, Bool, true, false, some, List, [], ◌∷◌,
}
use openr.Types.{Category, Cause, CallMode, Direction, Rc, done, failed}
use openr.Chan.{Chan, Env, Event}
use openr.Chan.Client.{ClientData}
use openr.Media.Write.{Written, chan_write}
use openr.Proto.Calls.{accept_call, answer_call, disconnect_call}
use openr.Proto.Calls.Make.{make_call}
use openr.Program.{Options}

-- What the audio file and the device answer: whether `fopen` opens the file; what `fread` gives, with
-- `ferror` and `feof` after it; and what openr2_io_write gives, turn by turn.
pub record AudioRead : Type 0 where
  pub bytes : List ℕ
  pub error : Bool
  pub eof : Bool

pub record Audio : Type 0 where
  pub opens : Chan → Bool
  pub fread : Chan → AudioRead
  pub writes : Chan → List Written

abbrev pub with_data : ClientData → Chan → Chan
with_data d c = record c { client_data = d }

-- `close_audiofp`
unfoldable pub close_audiofp : Chan → Chan
close_audiofp c =
    if c.client_data.audiofp
    then with_data (record (c.client_data) { audiofp = false; audio_stop = true }) c
    else c

-- `pthread_exit`, after which no thread runs on the channel.
abbrev pub exit_thread : Chan → Chan
exit_thread c = with_data (record (c.client_data) { exited = true }) c

-- What was read, with no bytes at the end of the file, where the file is closed.
abbrev pub take_audio : AudioRead → Chan → Chan × List ℕ
take_audio r c =
    if r.error then (c, r.bytes) else if r.eof then (close_audiofp c, []) else (c, r.bytes)

-- `get_audio`; where it fails, nothing is written either.
unfoldable pub get_audio : Audio → Chan → Chan × List ℕ
unfolding close_audiofp
get_audio a c =
    let opened = with_data (record (c.client_data) { audiofp = true }) c in
    if c.client_data.audiofp
    then take_audio (a.fread c) c
    else if a.opens c
    then take_audio (a.fread opened) opened
    else (with_data (record (c.client_data) { audio_stop = true }) c, [])

abbrev pub count_frame : ℕ → Chan → Chan
count_frame n c = with_data (record (c.client_data) { frame_counter = n }) c

-- `if (chandata->frame_counter == 400) chandata->frame_counter = 0`
abbrev pub wrap_frames : Chan → Chan
wrap_frames c = if c.client_data.frame_counter == 400 then count_frame 0 c else c

abbrev pub write_some : Env → Audio → List ℕ → Chan → Chan
write_some env a [] c = c
write_some env a (b ∷ bs) c = (chan_write env (a.writes c) (b ∷ bs) c).0

unfoldable pub on_call_read : Env → Audio → Options → List ℕ → Chan → Chan
unfolding get_audio chan_write
on_call_read env a o buf c =
    let counted = count_frame (c.client_data.frame_counter + 1) c in
    let (read, bytes) = get_audio a counted in
    wrap_frames (
      if not o.playaudio
      then (chan_write env (a.writes counted) buf counted).0
      else if c.client_data.audio_stop
      then counted
      else write_some env a bytes read)

abbrev pub is_collect : Category → Bool
is_collect Category.collect_call = true
is_collect category = false

unfoldable pub on_call_offered : Env → Options → Category → Chan → Chan
unfolding disconnect_call accept_call
on_call_offered env o category c =
    if not o.collect_calls && is_collect category
    then (disconnect_call env Cause.unallocated_number c).0
    else (accept_call env (if o.charge_calls then CallMode.with_charge else CallMode.no_charge) c).0

abbrev pub is_backward : Direction → Bool
is_backward Direction.backward = true
is_backward direction = false

unfoldable pub on_call_accepted : Env → Chan → Chan
unfolding answer_call
on_call_accepted env c = if is_backward c.direction then (answer_call env c).0 else c

-- The flag that the call was made.
abbrev pub after_call : Chan × Rc → Chan
after_call (c, failed) = c
after_call (c, done) = with_data (record (c.client_data) { called = true }) c

unfoldable pub on_line_idle : Env → Options → Chan → Chan
unfolding make_call
on_line_idle env o c =
    if c.client_data.called || not o.caller
    then c
    else after_call (make_call env (some o.cid) o.dnid o.category false c)

-- The callback of each event; one that the program lacks is the library's own, which only logs.
unfoldable pub user_callback : Env → Audio → Options → Event → Chan → Chan
unfolding on_call_offered on_call_accepted on_line_idle on_call_read close_audiofp disconnect_call
user_callback env a o (Event.on_call_offered category restricted) c =
    on_call_offered env o category c
user_callback env a o (Event.on_call_accepted mode) c = on_call_accepted env c
user_callback env a o (Event.on_call_disconnect cause) c =
    (disconnect_call env Cause.normal_clearing c).0
user_callback env a o Event.on_call_end c = close_audiofp c
user_callback env a o (Event.on_call_read buf) c = on_call_read env a o buf c
user_callback env a o (Event.on_os_error errno) c = exit_thread (close_audiofp c)
user_callback env a o (Event.on_protocol_error reason) c = exit_thread (close_audiofp c)
user_callback env a o Event.on_line_idle c = on_line_idle env o c
user_callback env a o Event.on_call_init c = c
user_callback env a o Event.on_call_proceed c = c
user_callback env a o Event.on_call_answered c = c
user_callback env a o Event.on_call_log_created c = c
user_callback env a o (Event.on_hardware_alarm alarm) c = c
user_callback env a o Event.on_line_blocked c = c
user_callback env a o (Event.on_dnis_digit_received digit) c = c
user_callback env a o (Event.on_ani_digit_received digit) c = c
user_callback env a o Event.on_billing_pulse_received c = c

-- The surroundings of a channel of the program, where callbacks nest at most so deep: a callback calls
-- the library, which may call another.
unfoldable pub user_env : Audio → Options → ℕ → Env → Env
unfolding user_callback
user_env a o zero base = record base { callback = λ e c. c; dnis_callback = λ d c. (true, c) }
user_env a o (suc n) base = record base {
  callback = user_callback (user_env a o n base) a o;
  dnis_callback = λ d c. (true, c);
}
