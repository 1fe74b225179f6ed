-- ===== src/Media/Ended.antt =====
-- The main loop ends.
use openr.Prelude.{
  ◌≡◌, refl, if_ind, if_false_ind, false, Option, none, some, List, [], ◌∷◌, ◌++◌, ◌||◌,
}
use openr.Types.{Rc, done, failed}
use openr.Chan.{Chan, Env}
use openr.Proto.Schedule.{handle_timers}
use openr.Media.{
  Devices, Events, Mask, Next, finished, try_again, wanted_events, after_wait, process_round,
  process_rounds, process, after_round,
}

-- The round has no event for the channel, whatever the channel waits for: the wait fails, or gives
-- none of the flags.
abbrev pub IsNothing : Option Events → Type 0
IsNothing none = Unit {0}
IsNothing (some e) = (e.oob || (e.read || e.write)) ≡ false

pub record IsQuiet (m : Devices) : Type 0 where
  pub nothing : (e : Events) (c : Chan) → IsNothing (m.wait e c).1

IsFinished : Next → Type 0
IsFinished n = (rc : Rc) × (n ≡ finished rc)

after_wait-IsFinished :
    (m : Devices) (got : Chan × Option Events) → IsNothing got.1 → IsFinished (after_wait m got).1
unfolding IsFinished
after_wait-IsFinished m (c, none) quiet = (failed, refl)
after_wait-IsFinished m (c, some e) quiet = (
  done,
  if_false_ind (λ (x : Chan × Next). x.1 ≡ finished done) _ _ (c, finished done) quiet refl,
)

process_round-IsFinished :
    (m : Devices) (mask : Mask) (c : Chan) → IsQuiet m → IsFinished (process_round m mask c).1
unfolding process_round
process_round-IsFinished m mask c quiet = after_wait-IsFinished m _ (
    if_ind (λ (x : Chan × Option Events). IsNothing x.1) m.env.r2context.has_io
      (quiet.nothing (wanted_events m mask c) c) tt)

not_again : (rc : Rc) → try_again ≡ finished rc → ⊥
not_again rc h = cc

last_round :
    (out : Chan × Next) (later : Chan × Option Rc)
    → IsFinished out.1
    → (rc : Rc) × ((after_round out (out.0, none)).1 ≡ some rc)
      × (after_round out later ≡ after_round out (out.0, none))
unfolding IsFinished
last_round (c, finished rc) later h = (rc, refl, refl)
last_round (c, try_again) later h = elim (not_again h.0 h.1) [ ]

further_round :
    (out : Chan × Next) (more none_more : Chan × Option Rc)
    → (rc : Rc) × (none_more.1 ≡ some rc) × (more ≡ none_more)
    → (rc : Rc) × ((after_round out none_more).1 ≡ some rc)
      × (after_round out more ≡ after_round out none_more)
further_round (c, finished rc) more none_more h = (rc, refl, refl)
further_round (c, try_again) more none_more h = h

-- The loop with a quiet round has ended there at the latest.
process_rounds_end :
    (ms : List Devices) (m : Devices) (more : List Devices) (mask : Mask) (c : Chan)
    → IsQuiet m
    → (rc : Rc) × ((process_rounds (ms ++ (m ∷ [])) mask c).1 ≡ some rc)
      × (process_rounds (ms ++ (m ∷ more)) mask c ≡ process_rounds (ms ++ (m ∷ [])) mask c)
unfolding process_rounds
process_rounds_end [] m more mask c quiet =
    last_round (process_round m mask c) _ (process_round-IsFinished m mask c quiet)
process_rounds_end (n ∷ ms) m more mask c quiet =
    further_round (process_round n mask c) _ _ (process_rounds_end ms m more mask _ quiet)

-- openr2_chan_process returns: with any rounds `ms` and then one in which the wait fails or gives no
-- event, the loop has ended with a result by that round, and what the devices would do after it does
-- not matter.
pub process_ends :
    (env : Env) (ms : List Devices) (m : Devices) (more : List Devices) (mask : Mask) (c : Chan)
    → IsQuiet m
    → (rc : Rc) × ((process env (ms ++ (m ∷ [])) mask c).1 ≡ some rc)
      × (process env (ms ++ (m ∷ more)) mask c ≡ process env (ms ++ (m ∷ [])) mask c)
unfolding process
process_ends env ms m more mask c quiet =
    process_rounds_end ms m more mask (handle_timers env c).0 quiet
