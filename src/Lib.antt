-- ===== src/Lib.antt =====
-- OpenR2: the MFC/R2 and DTMF/R2 call signalling of src/r2proto.c, on the channels and timers of
-- src/r2chan.c.
--
-- The program. A channel (`openr2_chan_t`) is one line. Two kinds of signal pass on it: the line
-- signals, which are two of the four CAS bits, and the MF tones, by which the called side asks for
-- the digits and the category of a call and then accepts or refuses it. The library is driven by
-- events: new bits, a tone or silence, a timer, an alarm, and what the user asks for. It answers by
-- sending bits and tones, by timers, and by calls of the user's event interface, whose callbacks may
-- call the library again.
--
-- The modules.
--   Prelude: Boolean tests, lists over native numbers, signed numbers.
--   Types: the enumerations of src/openr2/r2proto.h and src/openr2/r2proto-pvt.h.
--   Context: `openr2_context_t` of src/r2context.c; Context.Variants is
--     openr2_proto_configure_context, Context.Settings the setters, Context.Interfaces the checks of
--     the user's interfaces and openr2_context_new, Context.File the reader of advanced configuration
--     files, Context.Directory openr2_mkdir_recursive of src/r2utils.c.
--   Chan: `openr2_chan_t`, and `Env`, which holds all that the library does not define. Chan.Timers
--     is the scheduler of src/r2chan.c, Chan.Device the wrappers of src/r2ioabs.c and the accesses
--     to the digit buffers, Chan.Listed the list of a context's channels.
--   Names: the names of the protocol's values in src/r2proto.c and src/r2log.c, and the functions that
--     read them; Names.Compare is openr2_strncasecmp of src/r2utils.c.
--   Program: the test program, src/r2test.c. Parse is its parse_config, with the options in Rows and
--     what the C library reads in Scan; Contexts is how main makes contexts and channels; User holds
--     the callbacks of its event interface, which call the library again.
--   Media: the main loop of src/r2chan.c, which reads the devices, and Media.Write, openr2_chan_write.
--   Io: the Zaptel backend of src/r2ioabs.c.
--   Proto: src/r2proto.c. Line puts a channel to rest and reports errors; Mf sends tones; Backward
--     and Forward are the two sides of the MF exchange; Clear and Incoming end and begin calls; Cas
--     is openr2_proto_handle_cas, Cas.Dispatch its switch; Calls is what the user asks; Tone is
--     openr2_proto_handle_mf_tone; Schedule holds the timers' callbacks and the alarms; Session is a
--     channel's life as a list of calls, Creation is openr2_chan_new of src/r2chan.c, and
--     Deletion openr2_chan_delete and openr2_context_delete.
--   Chan.Timers.Order, Chan.Timers.Due, Chan.Timers.Cancel, Chan.Timers.Waited, Chan.Listed.Next,
--   Context.Bounds, Context.Settings.Kept, Context.Interfaces.Checked, Context.File.Loaded,
--   Context.File.Buffers, Names.Lookup.Found, Media.Ended, Io.Waits, Io.Ready,
--   Program.Fits, Program.Stored, Program.SetUp, Program.Opened, Program.Polite, Sound, Rest,
--   Digits, Signalling, Dialing, Ending, Exchange: the proofs, by what they are about; Exchange.Cycle
--   lets two channels hear each other, tone by tone. Tests: examples.
--
-- How the code is read. A function that changes a channel takes a channel and gives the new one; an
-- `int` result of 0 or -1 is `Rc`. A function of the model carries the C function's name, less the
-- prefix openr2_proto_ or openr2_chan_; a piece of a long function has a name of its own and a
-- comment. `sched_timers` is the used part of the array. The devices, the clock, the C library, the
-- tone detectors and generators and the user's callbacks are fields of `Env`, any functions of the
-- channel; a callback that calls the library is one that returns what the library's functions make
-- of the channel. What is sent and reported is kept in `trace`. An access outside a digit buffer or
-- through a null pointer is the action `fault`, and the run goes on without it. Numbers are natural
-- numbers, and characters are their codes. The milliseconds to a timer, which the code keeps in an
-- int, wrap round beyond 2^31 (`to_i32`). Other int variables do not wrap round: the ids of timers,
-- the counters of calls and digits, and the channel number of a group that main counts up, which in
-- C must not go past INT_MAX. `tells_io_errors` of `Env` says whether a failure of the I/O
-- interface calls on_os_error, as it does in the Zaptel backend. Each loop of the code is a
-- recursion over a list, so no fuel is needed; the main loop and openr2_chan_write, which go on for
-- as long as the devices let them, are recursions over the list of the devices' answers, one for
-- each round, and show whether they have ended. A C string is the list of its bytes without the 0.
-- An interface is a record of addresses where it is checked, and 0 is NULL; where it is used it is
-- the functions of `Env` and of `Media.Devices`. `io_members` holds the functions of an I/O
-- interface that openr2_context_set_io_type checks, so without get_alarm_state. A negative limit of
-- digits stays as it is; the code compares it as an unsigned number.
--
-- Not modelled: log messages, and what the test program prints; the locks, under which each
-- operation runs alone; the getters and setters of single fields of a channel; the wrappers of the
-- C library's time functions (src/r2utils.c); the signal processing (src/r2engine.c and the files
-- round it), the queue and the threads, which come from other projects. Of the test program the
-- command line, the threads and the MF interface of DAHDI are left out: it is the build without
-- them. A callback of the test program that ends its thread marks that in `client_data`; the run of
-- the model goes on, as no thread then does. The callbacks of the test program and the library call
-- one another: `user_env` is given how deep. The branch of open_logfile for a null `logdir` is left
-- out, since `logdir` is an array, and so is the code under OR2_MF_DEBUG.
pub mod Prelude
pub mod Types
pub mod Context
pub mod Chan
pub mod Proto
pub mod Names
pub mod Media
pub mod Io
pub mod Sound
pub mod Rest
pub mod Digits
pub mod Signalling
pub mod Dialing
pub mod Ending
pub mod Exchange
pub mod Program
pub mod Tests
