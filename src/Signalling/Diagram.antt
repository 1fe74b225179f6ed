-- ===== src/Signalling/Diagram.antt =====
-- The diagram of the CAS states that the switch of openr2_proto_handle_cas follows.
use openr.Prelude.{◌≡◌, ◌⊎◌}
use openr.Types.{CasState}
use openr.Chan.{Chan}

-- The diagram: where each state may go in one event of the line, a protocol error and the end of
-- a call both leading to `idle`.
abbrev pub CasMoves : CasState → CasState → Type 0
CasMoves CasState.idle s' = (s' ≡ CasState.idle) ⊎ (s' ≡ CasState.seize_ack_txd)
CasMoves CasState.seize_ack_txd s' = (s' ≡ CasState.idle) ⊎ (s' ≡ CasState.clear_fwd_rxd)
CasMoves CasState.answer_txd s' = (s' ≡ CasState.idle) ⊎ (s' ≡ CasState.clear_fwd_rxd)
CasMoves CasState.executing_double_answer s' = (s' ≡ CasState.idle) ⊎ (s' ≡ CasState.clear_fwd_rxd)
CasMoves CasState.seize_txd s' =
    (s' ≡ CasState.idle) ⊎ (s' ≡ CasState.seize_ack_rxd) ⊎ (s' ≡ CasState.double_seizure)
CasMoves CasState.seize_txd_clear_fwd_pending s' =
    (s' ≡ CasState.idle) ⊎ (s' ≡ CasState.clear_fwd_txd) ⊎ (s' ≡ CasState.double_seizure)
CasMoves CasState.double_seizure s' = (s' ≡ CasState.idle) ⊎ (s' ≡ CasState.clear_fwd_rxd)
CasMoves CasState.double_seizure_clear_fwd_pending s' = (s' ≡ CasState.idle)
CasMoves CasState.clear_back_txd s' = (s' ≡ CasState.idle)
CasMoves CasState.forced_release_txd s' = (s' ≡ CasState.idle)
CasMoves CasState.accept_rxd s' =
    (s' ≡ CasState.idle)
    ⊎ (s' ≡ CasState.answer_rxd)
    ⊎ (s' ≡ CasState.clear_back_rxd)
    ⊎ (s' ≡ CasState.forced_release_rxd)
CasMoves CasState.seize_ack_rxd s' =
    (s' ≡ CasState.idle)
    ⊎ (s' ≡ CasState.answer_rxd_mf_pending)
    ⊎ (s' ≡ CasState.answer_rxd)
    ⊎ (s' ≡ CasState.clear_back_rxd)
    ⊎ (s' ≡ CasState.forced_release_rxd)
CasMoves CasState.answer_rxd_mf_pending s' =
    (s' ≡ CasState.idle)
    ⊎ (s' ≡ CasState.clear_back_rxd)
    ⊎ (s' ≡ CasState.clear_fwd_rxd)
    ⊎ (s' ≡ CasState.forced_release_rxd)
CasMoves CasState.answer_rxd s' =
    (s' ≡ CasState.idle)
    ⊎ (s' ≡ CasState.clear_back_rxd)
    ⊎ (s' ≡ CasState.clear_fwd_rxd)
    ⊎ (s' ≡ CasState.forced_release_rxd)
CasMoves CasState.clear_back_tone_rxd s' = (s' ≡ CasState.idle)
CasMoves CasState.clear_fwd_txd s' =
    (s' ≡ CasState.idle) ⊎ (s' ≡ CasState.clear_back_after_clear_fwd_rxd)
CasMoves CasState.clear_back_after_clear_fwd_rxd s' = (s' ≡ CasState.idle)
CasMoves CasState.clear_back_rxd s' = (s' ≡ CasState.idle) ⊎ (s' ≡ CasState.answer_rxd)
CasMoves CasState.forced_release_rxd s' = (s' ≡ CasState.idle) ⊎ (s' ≡ CasState.answer_rxd)
CasMoves CasState.blocked s' = (s' ≡ CasState.blocked)
CasMoves CasState.init s' = (s' ≡ CasState.init) ⊎ (s' ≡ CasState.idle)
CasMoves CasState.invalid_state s' = (s' ≡ CasState.idle)
CasMoves CasState.clear_fwd_rxd s' = (s' ≡ CasState.idle)

-- The channel's state is `s` still, or one step on from it.
abbrev pub MovesOrStays : CasState → Chan → Type 0
MovesOrStays s c = (c.r2_state ≡ s) ⊎ CasMoves s c.r2_state
