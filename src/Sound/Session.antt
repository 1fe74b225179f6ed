-- ===== src/Sound/Session.antt =====
-- Soundness of a channel's whole life.
use openr.Prelude.{ℕ, Bool, List, [], ◌∷◌, arith}
use openr.Chan.{Chan, Env}
use openr.Proto.Session.{
  Call, process_cas, process_tone, process_timers, process_alarm, process_dtmf_end, user_make,
  user_accept, user_answer, user_answer_with_mode, user_disconnect, user_ack, user_set_idle,
  user_set_blocked, user_delete, fresh_chan, chan_new, step, run,
}
use openr.Proto.Line.{proto_destroy}
use openr.Sound.{IsSound, IsPolite}
use openr.Sound.Line.{turn_off_mf_engine-IsSound, set_idle-IsSound, set_blocked-IsSound}
use openr.Sound.Cas.{ack_call-IsSound, handle_cas-IsSound}
use openr.Sound.Calls.{
  make_call-IsSound, accept_call-IsSound, answer_call-IsSound, answer_call_with_mode-IsSound,
  disconnect_call-IsSound, handle_dtmf_end-IsSound,
}
use openr.Sound.Events.{
  handle_mf_tone-IsSound, handle_timers-IsSound, handle_alarm_state-IsSound,
  handle_alarm_event-IsSound,
}

step-IsSound :
    (env : Env) → IsPolite env → (call : Call) (c : Chan) → IsSound c → IsSound (step env call c)
unfolding step proto_destroy
step-IsSound env p process_cas c v = handle_cas-IsSound env p c v
step-IsSound env p (process_tone tone) c v = handle_mf_tone-IsSound env p tone c v
step-IsSound env p process_timers c v = handle_timers-IsSound env p c v
step-IsSound env p (process_alarm on) c v = handle_alarm_event-IsSound env p on c v
step-IsSound env p process_dtmf_end c v = handle_dtmf_end-IsSound env p c v
step-IsSound env p (user_make ani dnis category restricted) c v =
    make_call-IsSound env p ani dnis category restricted c v
step-IsSound env p (user_accept mode) c v = accept_call-IsSound env p mode c v
step-IsSound env p user_answer c v = answer_call-IsSound env p c v
step-IsSound env p (user_answer_with_mode mode) c v = answer_call_with_mode-IsSound env p mode c v
step-IsSound env p (user_disconnect cause) c v = disconnect_call-IsSound env p cause c v
step-IsSound env p user_ack c v = ack_call-IsSound env p c v
step-IsSound env p user_set_idle c v = set_idle-IsSound env p c v
step-IsSound env p user_set_blocked c v = set_blocked-IsSound env p c v
step-IsSound env p user_delete c v = turn_off_mf_engine-IsSound env p c v

pub fresh_chan-IsSound : (w r : ℕ) → IsSound (fresh_chan w r)
unfolding fresh_chan
fresh_chan-IsSound w r = ground arith

-- Every moment of the session has polite callbacks.
abbrev pub AllPolite : List (Env × Call) → Type 0
AllPolite [] = Unit {0}
AllPolite ((env, call) ∷ rest) = IsPolite env × AllPolite rest

run_from-IsSound :
    (calls : List (Env × Call)) (c : Chan) → AllPolite calls → IsSound c → IsSound (run calls c)
unfolding run
run_from-IsSound [] c p v = v
run_from-IsSound ((env, call) ∷ rest) c p v =
    run_from-IsSound rest (step env call c) p.1 (step-IsSound env p.0 call c v)

pub chan_new-IsSound :
    (env : Env) → IsPolite env → (alarm : Bool) (w r : ℕ) → IsSound (chan_new env alarm w r)
unfolding chan_new
chan_new-IsSound env p Bool.true w r =
    handle_alarm_state-IsSound env p _ (ground (arith, fresh_chan-IsSound w r))
chan_new-IsSound env p Bool.false w r = fresh_chan-IsSound w r

-- After any sequence of the calls of `Call` on a new channel, whatever the line, the detectors,
-- the clock and the devices do at each of them, and if the user's callbacks keep a sound channel
-- sound, the channel is sound: at most ten timers are scheduled, in the order of their times, with
-- distinct ids that are not 0 and not above the last one given; the digit buffers have their size;
-- and the length of the DNIS leaves room in its buffer for a 0.
pub run-IsSound :
    (env : Env) (alarm : Bool) (w r : ℕ) (calls : List (Env × Call))
    → IsPolite env
    → AllPolite calls
    → IsSound (run calls (chan_new env alarm w r))
run-IsSound env alarm w r calls p ps =
    run_from-IsSound calls _ ps (chan_new-IsSound env p alarm w r)
