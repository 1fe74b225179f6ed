-- ===== src/Tests/Examples.antt =====
-- Each theorem at a concrete line of the ITU variant.
use openr.Prelude.{
  ℕ, pos, true, false, none, some, List, [], ◌∷◌, ◌++◌, ◌≡◌, refl, ◌≢◌, ◌⊎◌, inr, ◌<◌, ◌+◌, bit_and,
  ◌*◌, ◌-◌, arith,
}
use openr.Types.{CasSignal, CasState, CallMode, Category, Cause, ProtocolError, Variant, done}
use openr.Context.{max_dnis_size}
use openr.Context.Variants.{configure_context}
use openr.Context.Bounds.{IsConfigured, configure_context-IsConfigured}
use openr.Chan.{Chan, Env, Time, SchedTimer, TimerCallback}
use openr.Chan.Timers.{due_timers, cancel_each}
use openr.Chan.Timers.{schedule, cancel_timer}
use openr.Chan.Timers.Cancel.{cancel_timer-schedule}
use openr.Digits.Collected.{keep_each, dnis_text-keep_each}
use openr.Signalling.Alarm.{handle_cas_inalarm}
use openr.Chan.Device.{io_get_cas}
use openr.Prelude.{replicate, take}
use openr.Chan.Timers.Order.{IsScheduled}
use openr.Chan.Timers.Due.{micros, later_timers, cancel_each-due_timers}
use openr.Proto.Line.{set_idle, handle_protocol_error, r2_bits}
use openr.Proto.Mf.{category2tone, tone2category, get_mode_from_tone, get_tone_from_mode}
use openr.Proto.Cas.{handle_cas}
use openr.Proto.Cas.Dispatch.{dispatch_cas}
use openr.Proto.Calls.{disconnect_call, disconnect_tone}
use openr.Proto.Session.{
  Call, process_cas, process_timers, user_make, user_disconnect, fresh_chan, chan_new, run,
}
use openr.Sound.{IsSound, IsPolite}
use openr.Sound.Session.{fresh_chan-IsSound, run-IsSound}
use openr.Rest.{IsAtRest, IsIdleTold, set_idle-IsAtRest, handle_protocol_error-IsAtRest}
use openr.Digits.{dnis_text}
use openr.Signalling.{IsQuiet}
use openr.Signalling.Diagram.{MovesOrStays}
use openr.Signalling.Events.{handle_cas-CasMoves}
use openr.Ending.{IsClearing, disconnect_call_pending, disconnect_tone_valid}
use openr.Exchange.Threshold.{timediff_close}
use openr.Proto.Tone.{timediff}
use openr.Prelude.{pos_part, neg_part, inr}
use openr.Exchange.{
  HasDistinctTones, tone2category-category2tone, get_mode_from_tone-get_tone_from_mode,
}
use openr.Tests.{line_context, noon, line_env, idle_chan, number, seizing_chan}

line-IsPolite : (bits : ℕ) → IsPolite (line_env bits)
line-IsPolite bits = record { callback = λ e c v. v; dnis_callback = λ d c v. v }

line-IsQuiet : (bits : ℕ) → IsQuiet (line_env bits)
line-IsQuiet bits = record { callback = λ e c. refl; dnis_callback = λ d c. refl }

-- The line turns idle, a call is made and then dropped, and its timers run.
abbrev dropped_call : List (Env × Call)
dropped_call =
    (line_env 8, process_cas)
    ∷ (line_env 8, user_make none number Category.national_subscriber false)
    ∷ (line_env 12, user_disconnect Cause.normal_clearing)
    ∷ (line_env 12, process_cas)
    ∷ (line_env 12, process_timers)
    ∷ []

run-IsSound_example : IsSound (run dropped_call (chan_new (line_env 8) false 1 2))
run-IsSound_example = run-IsSound (line_env 8) false 1 2 dropped_call (line-IsPolite 8) (
  line-IsPolite 8,
  (line-IsPolite 8, (line-IsPolite 12, (line-IsPolite 12, (line-IsPolite 12, tt)))),
)

handle_cas-CasMoves_example : MovesOrStays CasState.idle (handle_cas (line_env 0) idle_chan).0
handle_cas-CasMoves_example = handle_cas-CasMoves (line_env 0) (line-IsQuiet 0) idle_chan

set_idle-IsAtRest_example :
    IsAtRest (set_idle (line_env 8) seizing_chan).0
    × IsIdleTold (line_env 8) (set_idle (line_env 8) seizing_chan)
set_idle-IsAtRest_example = set_idle-IsAtRest (line_env 8) seizing_chan (λ e d v. v)

handle_protocol_error-IsAtRest_example :
    (d : Chan) × IsAtRest d
    × (handle_protocol_error (line_env 8) ProtocolError.seize_timeout seizing_chan ≡ d)
handle_protocol_error-IsAtRest_example =
    handle_protocol_error-IsAtRest (line_env 8) ProtocolError.seize_timeout seizing_chan
      (λ e d v. v)

-- One timer that was due before noon and one that is due after it.
abbrev two_timers : List SchedTimer
two_timers =
    record {
      time = record { tv_sec = 43199; tv_usec = 0 };
      callback = TimerCallback.r2_set_call_down;
      id = 3;
    }
    ∷ record {
      time = record { tv_sec = 43201; tv_usec = 0 };
      callback = TimerCallback.ready_to_answer;
      id = 2;
    }
    ∷ []

abbrev timed_chan : Chan
timed_chan = record idle_chan { timer_id = 3; sched_timers = two_timers }

timed-IsScheduled : IsScheduled 3 two_timers
timed-IsScheduled = ground arith

cancel_each-due_timers_example :
    (cancel_each (due_timers noon two_timers) timed_chan).sched_timers
    ≡ later_timers noon two_timers
cancel_each-due_timers_example = cancel_each-due_timers noon timed_chan timed-IsScheduled

abbrev past_noon : Time
past_noon = record { tv_sec = 43200; tv_usec = 401500 }

configure_context-IsConfigured_example :
    (r' : _) × (configure_context line_context Variant.mexico (pos 90) (pos 90) ≡ some r')
    × IsConfigured r'
configure_context-IsConfigured_example =
    configure_context-IsConfigured line_context (pos 90) (pos 90) tt tt Variant.mexico
      (ground arith)

disconnect_call_pending_example :
    let out = disconnect_call (line_env 12) Cause.normal_clearing seizing_chan in
    (out ≡ (record seizing_chan { r2_state = CasState.seize_txd_clear_fwd_pending }, done))
    × IsClearing (line_env 12) (
        dispatch_cas (line_env 12) out.0.r2_state (r2_bits (line_env 12) CasSignal.seize_ack) out.0)
disconnect_call_pending_example =
    disconnect_call_pending (line_env 12) Cause.normal_clearing seizing_chan
      (disconnect_call (line_env 12) Cause.normal_clearing seizing_chan).0 (refl, λ c cas. refl)
      refl refl refl

pub line-IsConfigured : IsConfigured line_context
line-IsConfigured = record {
  dnis_fits = omega arith;
  ani_fits = omega arith;
  r2_bits_alone = within_bits;
  other_bits_apart = refl;
  tones = (omega arith, omega arith, omega arith, omega arith);
}
  where
    within_bits :
        (s : CasSignal) → bit_and (line_context.cas_signals s) 12 ≡ line_context.cas_signals s
    within_bits CasSignal.idle = refl
    within_bits CasSignal.block = refl
    within_bits CasSignal.seize = refl
    within_bits CasSignal.seize_ack = refl
    within_bits CasSignal.clear_back = refl
    within_bits CasSignal.forced_release = refl
    within_bits CasSignal.clear_forward = refl
    within_bits CasSignal.answer = refl

disconnect_tone_valid_example : 0 < disconnect_tone (line_env 8) Cause.no_answer
disconnect_tone_valid_example =
    disconnect_tone_valid (line_env 8) Cause.no_answer line-IsConfigured.tones

line-HasDistinctTones : HasDistinctTones line_context.mf_g2_tones
line-HasDistinctTones = ground arith

tone2category-category2tone_example :
    tone2category (line_env 8) (category2tone (line_env 8) Category.test_equipment)
    ≡ Category.test_equipment
unfolding category2tone
tone2category-category2tone_example =
    tone2category-category2tone (line_env 8) Category.test_equipment line-HasDistinctTones
      (inr refl) (ground arith) (omega arith)

-- Tone 3 was heard, and no silence since.
abbrev hearing_chan : Chan
hearing_chan = record idle_chan { mf_read_tone = b'3' }

get_mode_from_tone-get_tone_from_mode_example :
    let mode = get_mode_from_tone (line_env 8) (get_tone_from_mode (line_env 8) CallMode.special) in
    ((CallMode.special ≡ CallMode.with_charge) × (mode ≡ CallMode.with_charge))
    ⊎ ((CallMode.special ≢ CallMode.with_charge) × (mode ≡ CallMode.no_charge))
get_mode_from_tone-get_tone_from_mode_example =
    get_mode_from_tone-get_tone_from_mode (line_env 8) CallMode.special (omega arith) (omega arith)
      (omega arith)

-- Ninety digits come to a channel that has none.
dnis_text-keep_each_example :
    dnis_text (keep_each (replicate 90 b'7') (fresh_chan 1 2))
    ≡ take (max_dnis_size - 1) (dnis_text (fresh_chan 1 2) ++ replicate 90 b'7')
dnis_text-keep_each_example =
    dnis_text-keep_each (replicate 90 b'7') (fresh_chan 1 2) (fresh_chan-IsSound 1 2)

cancel_timer-schedule_example :
    let out = schedule noon TimerCallback.ready_to_answer timed_chan in
    let back = cancel_timer out.1 out.0 in (back.0.sched_timers ≡ two_timers) × (back.1 ≡ pos 0)
cancel_timer-schedule_example =
    cancel_timer-schedule noon TimerCallback.ready_to_answer timed_chan timed-IsScheduled

handle_cas_inalarm_example :
    (handle_cas (line_env 0) (record seizing_chan { inalarm = true })).0
    ≡ (io_get_cas (line_env 0) (record seizing_chan { inalarm = true })).0
unfolding fresh_chan
handle_cas_inalarm_example =
    handle_cas_inalarm (line_env 0) (record seizing_chan { inalarm = true }) refl refl refl refl

-- A tone that began just before the full second.
abbrev before_second : Time
before_second = record { tv_sec = 43199; tv_usec = 990000 }

timediff_close_example :
    (neg_part (timediff noon before_second) ≡ 0)
    × (micros before_second + pos_part (timediff noon before_second) * 1000 < micros noon + 1000)
    × (micros noon < micros before_second + pos_part (timediff noon before_second) * 1000 + 1000)
timediff_close_example =
    timediff_close noon before_second (omega arith) (omega arith) (omega arith)
      (inr (omega arith, omega arith))
