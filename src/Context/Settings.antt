-- ===== src/Context/Settings.antt =====
-- The setters of src/r2context.c. An `int` argument is a ℤ; one below 0 is ignored by most of them.
pub mod Kept
use openr.Prelude.{
  ℕ, suc, ◌-◌, ℤ, pos, negsuc, pos_part, is_positive, int_nonzero, leb, ltb, nonzero, if◌then◌else◌,
  Bool, true, false, List, [], ◌∷◌, length, take,
}
use openr.Types.{Rc, done, failed}
use openr.Context.{Context, TimerLengths, max_ani_size, max_dnis_size}

unfoldable pub set_ani_first : ℤ → Context → Context
set_ani_first (pos n) r = record r { get_ani_first = nonzero n }
set_ani_first (negsuc n) r = r

unfoldable pub set_skip_category_request : ℤ → Context → Context
set_skip_category_request (pos n) r = record r { skip_category = nonzero n }
set_skip_category_request (negsuc n) r = r

unfoldable pub set_immediate_accept : ℤ → Context → Context
set_immediate_accept (pos n) r = record r { immediate_accept = nonzero n }
set_immediate_accept (negsuc n) r = r

unfoldable pub set_log_level : ℕ → Context → Context
set_log_level level r = record r { loglevel = level }

-- `(max >= size) ? (size - 1) : max`
unfoldable pub below_size : ℤ → ℕ → ℤ
below_size (pos n) size = if leb size n then pos (size - 1) else pos n
below_size (negsuc n) size = negsuc n

unfoldable pub set_max_ani : ℤ → Context → Context
unfolding below_size
set_max_ani max_ani r = record r { max_ani = below_size max_ani max_ani_size }

unfoldable pub set_max_dnis : ℤ → Context → Context
unfolding below_size
set_max_dnis max_dnis r = record r { max_dnis = below_size max_dnis max_dnis_size }

unfoldable pub set_auto_seize_ack : ℤ → Context → Context
set_auto_seize_ack enable r = record r { auto_seize_ack = int_nonzero enable }

unfoldable pub set_mf_threshold : ℤ → Context → Context
set_mf_threshold threshold r = record r { mf_threshold = pos_part threshold }

unfoldable pub set_dtmf_detection : ℤ → Context → Context
set_dtmf_detection (pos n) r = record r { detect_dtmf = nonzero n }
set_dtmf_detection (negsuc n) r = r

-- OR2_DEFAULT_DTMF_ON and OR2_DEFAULT_DTMF_OFF
abbrev pub default_dtmf_on : ℕ
default_dtmf_on = 50

abbrev pub default_dtmf_off : ℕ
default_dtmf_off = 100

-- `ms > 0 ? ms : other`
abbrev pub positive_or : ℤ → ℕ → ℕ
positive_or ms other = if is_positive ms then pos_part ms else other

unfoldable pub set_dtmf_dialing : ℤ → ℤ → ℤ → Context → Context
set_dtmf_dialing (negsuc n) dtmf_on dtmf_off r = r
set_dtmf_dialing (pos n) dtmf_on dtmf_off r =
    let r' : Context = record r { dial_with_dtmf = nonzero n } in
    if nonzero n
    then record r' {
      dtmf_on = positive_or dtmf_on default_dtmf_on;
      dtmf_off = positive_or dtmf_off default_dtmf_off;
    }
    else r'

unfoldable pub set_mf_back_timeout : ℤ → Context → Context
set_mf_back_timeout (pos ms) r = record r { timers = record (r.timers) { mf_back_cycle = ms } }
set_mf_back_timeout (negsuc n) r = r

unfoldable pub set_metering_pulse_timeout : ℤ → Context → Context
set_metering_pulse_timeout (pos ms) r = record r {
  timers = record (r.timers) { r2_metering_pulse = ms };
}
set_metering_pulse_timeout (negsuc n) r = r

unfoldable pub set_double_answer : ℤ → Context → Context
set_double_answer (pos n) r = record r { double_answer = nonzero n }
set_double_answer (negsuc n) r = r

-- OR2_MAX_PATH, the size of `logdir`.
abbrev pub max_path : ℕ
max_path = 255

-- What the file system answers: `stat` succeeds, fails for ENOENT, or fails otherwise.
pub data Stat : Type 0 where
  exists missing unreadable : Stat

-- Whether the directory can be used: it is made if it is missing.
abbrev pub directory_rc : Stat → Rc → Rc
directory_rc Stat.exists made = done
directory_rc Stat.missing made = made
directory_rc Stat.unreadable made = failed

-- The context after `strncpy` to `logdir`, if the directory can be used.
abbrev pub keep_directory : Rc → List ℕ → Context → Context × Rc
keep_directory done directory r = (record r { logdir = take (max_path - 1) directory }, done)
keep_directory failed directory r = (r, failed)

-- `openr2_context_set_log_directory` for a directory that is not NULL; `mkdir` is
-- `openr2_mkdir_recursive`.
unfoldable pub set_log_directory : (List ℕ → Stat) → (List ℕ → Rc) → List ℕ → Context → Context × Rc
set_log_directory stat mkdir directory r =
    if leb max_path (length directory)
    then (r, failed)
    else keep_directory (directory_rc (stat directory) (mkdir directory)) directory r

-- `openr2_context_get_log_directory`: what `strncpy` and the 0 leave in a buffer of `len` bytes.
unfoldable pub get_log_directory : ℕ → Context → List ℕ
get_log_directory len r = take (len - 1) r.logdir
