-- ===== src/Signalling/Events.antt =====
-- One event of the line against the diagram: what openr2_proto_handle_cas does with the bits.
use mathlib.Core.Path.{subst}
use openr.Prelude.{
  ℕ, ◌≡◌, refl, if_ind, nonzero, int_nonzero, bit_and, inl, inr, ◌∙◌, Option, none, some,
  if◌then◌else◌, arith, ◌==◌,
}
use openr.Types.{CasState, Rc}
use openr.Chan.{Chan, Env}
use openr.Proto.Cas.{
  handle_bits, new_bits, bits_unchanged, start_persistence_check, cancel_persistence_check,
  read_bits, handle_cas,
}
use openr.Chan.Device.{io_get_cas}
use openr.Signalling.{IsQuiet, r2_state-cancel_timer, r2_state-add_timer, r2_state-io_get_cas}
use openr.Signalling.Diagram.{MovesOrStays}
use openr.Signalling.Moves.{dispatch_cas-CasMoves}

module _ (env : Env) (quiet : IsQuiet env) where
  handle_bits-CasMoves : (cas : ℕ) (c : Chan) → MovesOrStays c.r2_state (handle_bits env cas c)
  unfolding handle_bits
  handle_bits-CasMoves cas c =
      if_ind (MovesOrStays c.r2_state) c.inalarm (inl refl)
        (inr (dispatch_cas-CasMoves env quiet c.r2_state cas _ refl))

  r2_state-bits_unchanged : (c : Chan) → (bits_unchanged c).r2_state ≡ c.r2_state
  unfolding bits_unchanged cancel_persistence_check
  r2_state-bits_unchanged c =
      ground (arith, r2_state-cancel_timer c.timer_ids.cas_persistence_check c)

  r2_state-persistence_check :
      (cas : ℕ) (c : Chan)
      → (start_persistence_check env cas (cancel_persistence_check c)).r2_state ≡ c.r2_state
  unfolding start_persistence_check cancel_persistence_check
  r2_state-persistence_check cas c =
      r2_state-add_timer env quiet _ _ _ ∙ r2_state-cancel_timer c.timer_ids.cas_persistence_check c

  new_bits-CasMoves : (cas : ℕ) (c : Chan) → MovesOrStays c.r2_state (new_bits env cas c)
  unfolding new_bits
  new_bits-CasMoves cas c =
      if_ind (MovesOrStays c.r2_state) (c.cas_read == cas) (inl (r2_state-bits_unchanged c)) (
        if_ind (MovesOrStays c.r2_state) (nonzero env.r2context.timers.cas_persistence_check)
          (inl (r2_state-persistence_check cas c)) (handle_bits-CasMoves cas c))

  bits_got-CasMoves :
      (got : Option ℕ) (c : Chan)
      → let r : Chan × Rc = elim got [
        | none ↦ (c, Rc.failed)
        | some raw ↦ (new_bits env (bit_and raw env.r2context.cas_r2_bits) c, Rc.done)
      ] in
        MovesOrStays c.r2_state r.0
  bits_got-CasMoves none c = inl refl
  bits_got-CasMoves (some raw) c = new_bits-CasMoves _ c

  read_bits-CasMoves : (c : Chan) → MovesOrStays c.r2_state (read_bits env c).0
  unfolding read_bits
  read_bits-CasMoves c =
      subst (λ (s : CasState). MovesOrStays s (read_bits env c).0) (r2_state-io_get_cas env quiet c)
        (bits_got-CasMoves (io_get_cas env c).1 (io_get_cas env c).0)

  handle_checked-CasMoves :
      (checked : Option ℕ) (c : Chan)
      → let r : Chan × Rc = elim checked [
        | none ↦ read_bits env c
        | some cas ↦
            if int_nonzero c.timer_ids.cas_persistence_check
            then read_bits env c
            else (handle_bits env cas (record c { cas_persistence_check_signal = none }), Rc.done)
      ] in
        MovesOrStays c.r2_state r.0
  handle_checked-CasMoves none c = read_bits-CasMoves c
  handle_checked-CasMoves (some cas) c =
      if_ind (λ (r : Chan × Rc). MovesOrStays c.r2_state r.0)
        (int_nonzero c.timer_ids.cas_persistence_check) (read_bits-CasMoves c)
        (handle_bits-CasMoves cas (record c { cas_persistence_check_signal = none }))

  -- With callbacks that leave the channel alone, one event of the line moves the CAS state along
  -- an arrow of the diagram CasMoves, or not at all: whatever the bits, the timers and the devices,
  -- and whether the bits are handled at once or after their persistence check.
  pub handle_cas-CasMoves : (c : Chan) → MovesOrStays c.r2_state (handle_cas env c).0
  unfolding handle_cas
  handle_cas-CasMoves c = handle_checked-CasMoves c.cas_persistence_check_signal c
