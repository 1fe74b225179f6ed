-- ===== src/Tests/Devices.antt =====
-- The theorems on the main loop, the devices and a file at concrete inputs.
use openr.Prelude.{
  ℕ, pos, true, false, some, [], ◌∷◌, ◌++◌, ◌≡◌, refl, inl, ◌+◌, ◌-◌, ◌%◌, if◌then◌else◌, arith,
  replicate,
}
use openr.Types.{Rc, failed}
use openr.Context.Variants.{tone_invalid}
use openr.Context.File.{is_tone, load_line, Reader, configure_from_advanced_file}
use openr.Context.File.Rows.{Row, Kind}
use openr.Context.File.Loaded.{load_line-tone}
use openr.Context.File.Buffers.{buffer_fields, configure_from_advanced_file-buffers}
use openr.Chan.{Chan, Env, Time, TimerCallback}
use openr.Chan.Listed.{context_time_to_next_event, wait_until}
use openr.Chan.Listed.Next.{IsTimeOf, NoTimersBefore, context_time_to_next_event-earliest}
use openr.Media.{OobEvent, Devices, Mask, process, process_rounds}
use openr.Media.Ended.{process_ends}
use openr.Media.Write.{busy_told, Written, chan_write, sent_twice, chan_write_twice}
use openr.Io.{zt_wait}
use openr.Io.Waits.{mf_only, process_rounds_idle}
use openr.Proto.Creation.{new_numbered}
use openr.Sound.Creation.{zt_answers, is_given, is_creatable, IsListed, new_numbered-creatable}
use openr.Names.Compare.{codes}
use openr.Sound.{IsPolite}
use openr.Proto.Session.{fresh_chan}
use openr.Tests.{line_context, noon, line_env, idle_chan, number}

polite : (bits : ℕ) → IsPolite (line_env bits)
polite bits = record { callback = λ e c v. v; dnis_callback = λ d c v. v }

-- Two channels that have a timer each.
abbrev timed : ℕ → Chan
timed sec = record idle_chan {
  sched_timers =
      record {
        time = record { tv_sec = sec; tv_usec = 5 };
        callback = TimerCallback.ready_to_answer;
        id = 2;
      }
      ∷ [];
}

context_time_to_next_event-earliest_example :
    (t : Time) × (context_time_to_next_event (some noon) (timed 43300 ∷ (timed 43250 ∷ []))
      ≡ wait_until t noon)
    × IsTimeOf t (timed 43300 ∷ (timed 43250 ∷ []))
    × NoTimersBefore t (timed 43300 ∷ (timed 43250 ∷ []))
unfolding fresh_chan
context_time_to_next_event-earliest_example =
    context_time_to_next_event-earliest noon (timed 43300) (timed 43250 ∷ []) (refl, (refl, tt))
      (tt, (tt, tt))

-- The reader after a line that gave a timer 300 milliseconds.
abbrev after_timer : Reader
after_timer = record { intvalue = 300; context = line_context }

abbrev first_row : Row
first_row = record {
  format = codes "mf_ga_tones.request_next_ani_digit=";
  kind = Kind.tone;
  assign = λ v r. record r { mf_ga_tones = record (r.mf_ga_tones) { request_next_ani_digit = v } };
}

load_line-tone_example : load_line (first_row.format ++ (b'5' ∷ [])) after_timer ≡ record {
  intvalue = 300 - 300 % 256 + b'5';
  context =
      first_row.assign (if is_tone b'5' then 300 - 300 % 256 + b'5' else tone_invalid) line_context;
}
load_line-tone_example =
    load_line-tone first_row b'5' [] after_timer (inl refl) refl (omega arith) (omega arith)

configure_from_advanced_file-buffers_example :
    buffer_fields (configure_from_advanced_file (some (codes "cas_r2_bits=12")) line_context).0
    ≡ buffer_fields line_context
configure_from_advanced_file-buffers_example =
    configure_from_advanced_file-buffers (some (codes "cas_r2_bits=12")) line_context

-- Devices that show an event of the line, hear the digit 5, and are then still.
abbrev busy_devices : Devices
busy_devices = record {
  env = line_env 0;
  want_generate = λ c. true;
  wait = λ e c. (c, some (record { oob = true; read = true; write = true }));
  get_oob_event = λ c. some OobEvent.cas_change;
  read = λ c. (c, some (1 ∷ (2 ∷ [])));
  write = λ bytes c. (c, pos 2);
  alaw_to_linear = λ b. pos b;
  linear_to_alaw = λ s. 0;
  dtmf_rx = λ samples c. [];
  dtmf_rx_status = λ c. false;
  dtmf_tx = λ c. [];
  mf_detect_tone = λ samples c. some b'5';
  mf_generate_tone = λ c. some (pos 1 ∷ (pos 2 ∷ []));
}

abbrev still_devices : Devices
still_devices = record busy_devices {
  wait = λ e c. (c, some (record { oob = false; read = false; write = false }));
}

abbrev both : Mask
both = record { oob = true; mf = true }

process_ends_example :
    (rc : Rc) × ((process
        (line_env 0)
        ((busy_devices ∷ []) ++ (still_devices ∷ []))
        both
        idle_chan).1
      ≡ some rc)
    × (process
          (line_env 0)
          ((busy_devices ∷ []) ++ (still_devices ∷ (busy_devices ∷ [])))
          both
          idle_chan
        ≡ process (line_env 0) ((busy_devices ∷ []) ++ (still_devices ∷ [])) both idle_chan)
process_ends_example =
    process_ends (line_env 0) (busy_devices ∷ []) still_devices (busy_devices ∷ []) both idle_chan
      (record { nothing = λ e c. refl })

chan_write_twice_example :
    chan_write
      (line_env 0)
      (replicate 2 Written.again ++ (Written.bytes 3 ∷ (Written.bytes 4 ∷ [])))
      number
      idle_chan
    ≡ (sent_twice 3 4 number (busy_told (line_env 0) 2 idle_chan), some (3 + 4))
chan_write_twice_example =
    chan_write_twice (line_env 0) 2 3 4 number idle_chan (omega arith) (omega arith)

-- The Zaptel backend, whose ioctl gives back its flags.
abbrev zap_devices : Devices
zap_devices = record busy_devices { wait = λ e c. (zt_wait (line_env 0) (λ z d. some z) e false c) }

process_rounds_idle_example :
    process_rounds (zap_devices ∷ []) mf_only idle_chan ≡ (idle_chan, some failed)
unfolding fresh_chan
process_rounds_idle_example =
    process_rounds_idle (λ z d. some z) zap_devices (λ e d. refl) [] idle_chan
      (record { alarm = refl; reading = refl; dialing = refl; off = refl })

new_numbered-creatable_example :
    let new =
      new_numbered
        (line_env 8)
        (zt_answers (some 1000) (some 7) (λ q. false) true false)
        1
        2
        true
        (pos 3)
        []
        [] in
    (is_given new.outcome
      ≡ is_creatable (line_env 8) (some 1000) (some 7) (λ q. false) true (pos 3))
    × IsListed new.outcome (some 1000) [] new.chanlist
new_numbered-creatable_example =
    new_numbered-creatable (line_env 8) (some 1000) (some 7) (λ q. false) true false 1 2 (pos 3) []
      [] (polite 8)

-- The clock of the moment at which the call is over.
abbrev later_env : Env
later_env = record (line_env 8) {
  gettimeofday = λ c. some (record { tv_sec = 43203; tv_usec = 400000 });
}
