-- ===== src/Tests/Program.antt =====
-- The theorems on the test program and on the end of channels at concrete inputs.
use openr.Prelude.{
  ℕ, pos, true, false, ◌&&◌, none, some, List, [], ◌∷◌, ◌≡◌, ◌⊎◌, ◌↔◌, ◌≤◌, refl, length, arith,
}
use openr.Types.{Rc, Cause}
use openr.Context.Directory.{
  Made, mkdir_recursive, is_done, none_refused, parents, last_made, ends_named,
  mkdir_recursive-parents,
}
use openr.Names.Compare.{codes, tolower}
use openr.Chan.{Chan, Env, SchedTimer, TimerCallback}
use openr.Chan.Timers.{time_to_next_event, ms_until, due_timers}
use openr.Chan.Timers.Waited.{time_to_next_event-due}
use openr.Proto.Session.{Call}
use openr.Proto.Deletion.{
  Owned, nothing_freed, context_delete, any_freed, freed_after, context_delete-any_freed,
}
use openr.Program.{Options, Group, max_chans, first_options}
use openr.Program.Parse.{parse_config}
use openr.Program.Stored.{IsStored, parse_config-IsStored}
use openr.Program.Contexts.{make_contexts, Channels, open_channels, channel_numbers}
use openr.Program.SetUp.{IsDecided, make_contexts-IsDecided}
use openr.Program.Opened.{AllCreated, open_channels-opened}
use openr.Program.User.{Audio}
use openr.Media.Write.{Written}
use openr.Tests.{line_env, idle_chan, noon}
use openr.Tests.Surroundings.{own, own-AreComplete, user_events}

-- A caller's group, and one that waits for calls.
abbrev config : List ℕ
config =
    codes
      "# test\nvariant=BR\nmaxani=10\ncid=5551\ndnid=234\ncaller=yes\nchannel=1-15\ncaller=no\nloglevel=error,debug\nchannel=17-31\n"

parse_config-IsStored_example : IsStored (parse_config config)
parse_config-IsStored_example = parse_config-IsStored config

two_groups : length (parse_config config).groups ≡ 2
unfolding parse_config tolower
two_groups = refl

make_contexts-IsDecided_example :
    IsDecided
      (parse_config config).groups
      (make_contexts own user_events (λ name. none) (λ c. true) 0 (parse_config config).groups)
unfolding parse_config tolower
make_contexts-IsDecided_example =
    make_contexts-IsDecided own own-AreComplete user_events (λ name. none) (λ c. true) 0
      (parse_config config).groups (λ c. refl) ((tt, tt), ((tt, tt), tt))

abbrev three_channels : Group
three_channels = record { lowchan = pos 1; highchan = pos 3; options = first_options }

open_channels-opened_example :
    (open_channels (λ i. true) 0 (channel_numbers three_channels) ≡ Channels.opened) ↔ (
      (length (channel_numbers three_channels) ≤ max_chans)
      × AllCreated (λ i. true) (channel_numbers three_channels))
open_channels-opened_example = open_channels-opened (λ i. true) three_channels

abbrev silent : Audio
silent = record {
  opens = λ c. true;
  fread = λ c. record { bytes = 1 ∷ 2 ∷ []; error = false; eof = false };
  writes = λ c. Written.bytes 2 ∷ [];
}

-- A call that the program makes once the line is idle, and that ends.
abbrev calling : List (ℕ × Env × Call)
calling =
    (3, line_env 8, Call.process_cas)
    ∷ (3, line_env 12, Call.process_cas)
    ∷ (3, line_env 12, Call.user_disconnect Cause.normal_clearing)
    ∷ (3, line_env 12, Call.process_timers)
    ∷ []

abbrev caller : Options
caller = record first_options { caller = true; cid = codes "5551"; dnid = codes "234" }

abbrev one_timer : SchedTimer
one_timer = record {
  time = record { tv_sec = 43201; tv_usec = 500 };
  callback = TimerCallback.ready_to_answer;
  id = 2;
}

time_to_next_event-due_example :
    let c : Chan = record idle_chan { sched_timers = one_timer ∷ [] } in
    (due_timers (record { tv_sec = 43201; tv_usec = 9000 }) c.sched_timers
      ≡ one_timer ∷ due_timers (record { tv_sec = 43201; tv_usec = 9000 }) [])
    ⊎ (ms_until one_timer.time (record { tv_sec = 43201; tv_usec = 9000 }) ≡ pos 1)
unfolding time_to_next_event ms_until
time_to_next_event-due_example =
    time_to_next_event-due (line_env 8) (record idle_chan { sched_timers = one_timer ∷ [] })
      one_timer [] noon (record { tv_sec = 43201; tv_usec = 9000 }) refl refl (omega arith)
      (omega arith) (omega arith) (omega arith, omega arith) (omega arith, omega arith)
      (omega arith)

abbrev two_owned : List Owned
two_owned =
    record { address = 1000; fd_created = true; chan = idle_chan }
    ∷ record { address = 2000; fd_created = false; chan = idle_chan }
    ∷ []

context_delete-any_freed_example :
    ((context_delete (line_env 8) two_owned nothing_freed).fault ≡ any_freed two_owned [])
    × ((any_freed two_owned [] ≡ true)
        ⊎ ((context_delete (line_env 8) two_owned nothing_freed).freed ≡ freed_after two_owned []))
context_delete-any_freed_example =
    context_delete-any_freed (line_env 8) two_owned nothing_freed ((ground arith, tt), (tt, tt))
      refl

-- The path `/a/b`, of which nothing exists.
mkdir_recursive-parents_example :
    let mkdir = λ (p : List ℕ). Made.made in
    (rc : Rc) × (mkdir_recursive mkdir (codes "/a/b") ≡ some rc)
    × (is_done rc ≡ (
        none_refused mkdir (codes "/") (parents (codes "a/b"))
        && last_made mkdir (codes "/a/b") (ends_named false (codes "a/b"))))
mkdir_recursive-parents_example = mkdir_recursive-parents (λ p. Made.made) b'/' (codes "a/b")
