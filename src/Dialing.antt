-- ===== src/Dialing.antt =====
-- What openr2_proto_make_call does to the channel, on each of its ways out.
use openr.Prelude.{
  ℕ, Bool, true, false, ◌≡◌, ◌⊎◌, ◌-◌, some, List, if◌then◌else◌, bit_or, ◌∷◌, ◌&&◌, ltb, get_or,
  not,
}
use openr.Types.{CasSignal, CasState, CallState, Direction, MfGroup, Category, Rc, done, failed}
use openr.Context.{max_dnis_size}
use openr.Chan.{Chan, Env, Event, Action}
use openr.Proto.Line.{r2_bits}
use openr.Proto.Mf.{category2tone}

-- The channel dials the number: its digits can be read in order, and 0 behind the 79th.
pub record IsDialing (env : Env) (dnis : List ℕ) (category : Category) (c : Chan) : Type 0 where
  pub call_state : c.call_state ≡ CallState.dialing
  pub direction : c.direction ≡ Direction.forward
  pub cas_write : c.cas_write ≡ r2_bits env CasSignal.seize
  pub cas_tx_signal : c.cas_tx_signal ≡ some CasSignal.seize
  pub caller_category : c.caller_category ≡ category2tone env category
  pub dnis_index : c.dnis_index ≡ 0
  pub digits :
      (i : ℕ) → get_or c.dnis i 0 ≡ (if ltb i (max_dnis_size - 1) then get_or dnis i 0 else 0)

-- The line was seized, the channel dials, and its timer runs if there was room for it.
abbrev pub IsSeizing : Env → List ℕ → Category → Chan → Type 0
IsSeizing env dnis category c =
    IsDialing env dnis category c
    × (c.r2_state ≡ CasState.seize_txd)
    × (c.mf_group ≡ MfGroup.fwd_init)

-- The user's callback for a system error leaves the channel as it is.
abbrev pub IgnoresErrors : Env → Type 0
IgnoresErrors env = (errno : ℕ) (c : Chan) → env.callback (Event.on_os_error errno) c ≡ c

-- The channel with the seize about to be sent, and the bits for it.
abbrev pub trying : Env → Chan → Chan
trying env c = record c {
  cas_write = r2_bits env CasSignal.seize;
  cas_tx_signal = some CasSignal.seize;
}

abbrev pub seize_bits : Env → ℕ
seize_bits env = bit_or (r2_bits env CasSignal.seize) env.r2context.cas_nonr2_bits

abbrev told : Env → Chan → Chan
told env d = record d { trace = Action.user (Event.on_os_error (env.errno d)) ∷ d.trace }

-- The line takes the bits of the seize.
abbrev pub takes_seize : Env → Chan → Bool
takes_seize env c = env.r2context.has_io && not (env.set_cas_fails (trying env c) (seize_bits env))

-- The line was given the bits exactly if it takes them.
abbrev IsTried : Env → Chan → Chan × Rc → Type 0
IsTried env c out =
    ((out.1 ≡ failed) × (takes_seize env c ≡ false))
    ⊎ ((out.1 ≡ done)
        × (takes_seize env c ≡ true)
        × (out.0.trace ≡ Action.tx_cas (seize_bits env) ∷ c.trace))

-- What sending the seize may give.
abbrev IsSeizeOutcome : Env → Chan → Chan × Rc → Type 0
IsSeizeOutcome env c out =
    (out.0.call_state ≡ c.call_state)
    × (out.0.r2_state ≡ c.r2_state)
    × (out.0.sched_timers ≡ c.sched_timers)
    × (out.0.call_files ≡ c.call_files)
    × (out.0.cas_write ≡ r2_bits env CasSignal.seize)
    × (out.0.cas_tx_signal ≡ some CasSignal.seize)
    × IsTried env c out

-- No call was begun.
abbrev pub IsLeftIdle : Chan → Chan → Type 0
IsLeftIdle c out =
    (out.call_state ≡ CallState.idle)
    × (out.r2_state ≡ c.r2_state)
    × (out.sched_timers ≡ c.sched_timers)

-- The two ways out once the seize was tried.
abbrev IsSent : Env → List ℕ → Category → Chan → Chan × Rc → Type 0
IsSent env dnis category c out =
    ((out.1 ≡ failed) × (takes_seize env c ≡ false) × IsLeftIdle c out.0)
    ⊎ ((out.1 ≡ done)
        × (takes_seize env c ≡ true)
        × (out.0.trace ≡ Action.tx_cas (seize_bits env) ∷ c.trace)
        × IsSeizing env dnis category out.0)
