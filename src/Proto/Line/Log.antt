-- ===== src/Proto/Line/Log.antt =====
-- The log file of a call: close_logfile and open_logfile of src/r2proto.c. What is written to it
-- is left out; its fields and the callbacks that they lead to are here. The branch of open_logfile
-- for `!r2context->logdir` is left out too: `logdir` is an array, and no array is null.
use openr.Prelude.{ℕ, ◌+◌, ◌-◌, leb, if◌then◌else◌, Bool, true, false, not, ◌&&◌, length, take}
use openr.Chan.{Chan, Env, Event}
use openr.Chan.Timers.{emit}

abbrev pub logname_size : ℕ
logname_size = 512

-- `fclose` with its error path.
unfoldable pub close_stream : Env → Chan → Chan
close_stream env c =
    let c1 = record c { logfile = false } in
    if env.fclose_fails c then emit env (Event.on_os_error (env.errno c)) c1 else c1

unfoldable pub close_logfile : Env → Chan → Chan
close_logfile env c = if c.call_files && c.logfile then close_stream env c else c

-- The rest of `open_logfile`, with the file name made.
unfoldable pub open_stream : Env → Chan → Chan
open_stream env c =
    let c1 = if c.logfile then close_stream env c else c in
    if env.fopen_fails c1
    then emit env (Event.on_os_error (env.errno c1)) c1
    else emit env Event.on_call_log_created (record c1 { logfile = true })

-- `snprintf` into `logname`: the text is cut to the buffer, and a longer one ends the function.
unfoldable pub name_logfile : Env → Bool → Chan → Chan
name_logfile env backward c =
    let name = env.log_name c backward in
    let c1 = record c { logname = take (logname_size - 1) name; call_count = c.call_count + 1 } in
    if leb logname_size (length name) then c1 else open_stream env c1

unfoldable pub open_logfile : Env → Bool → Chan → Chan
open_logfile env backward c =
    if not c.call_files
    then c
    else if env.time_fails c
    then emit env (Event.on_os_error (env.errno c)) c
    else if env.localtime_fails c
    then c
    else name_logfile env backward c
