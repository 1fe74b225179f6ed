-- ===== src/Types.antt =====
-- The enumerations of src/openr2/r2proto.h and src/openr2/r2proto-pvt.h. Where the code compares
-- two values of one type, `…_code` gives the C value of each (but 999 for the -1 of
-- OR2_INVALID_STATE, no other state having it).
use openr.Prelude.{ℕ}

-- `openr2_cas_signal_t`; the value OR2_CAS_INVALID is the `none` of `Option CasSignal`.
pub data CasSignal : Type 0 where
  idle block seize seize_ack clear_back forced_release clear_forward answer : CasSignal

-- `openr2_cas_state_t`
pub data CasState : Type 0 where
  invalid_state : CasState
  init : CasState
  idle : CasState
  seize_ack_txd : CasState
  answer_txd : CasState
  clear_back_txd : CasState
  clear_fwd_rxd : CasState
  executing_double_answer : CasState
  forced_release_txd : CasState
  seize_txd : CasState
  seize_ack_rxd : CasState
  clear_back_tone_rxd : CasState
  accept_rxd : CasState
  answer_rxd : CasState
  clear_back_rxd : CasState
  answer_rxd_mf_pending : CasState
  clear_fwd_txd : CasState
  forced_release_rxd : CasState
  clear_back_after_clear_fwd_rxd : CasState
  seize_txd_clear_fwd_pending : CasState
  double_seizure_clear_fwd_pending : CasState
  blocked : CasState
  double_seizure : CasState

-- `openr2_call_state_t`
pub data CallState : Type 0 where
  idle collecting dialing offered accepted answered disconnected : CallState

-- `openr2_mf_state_t`; `unset` is the 0 of a channel's new memory, which the enumeration lacks.
pub data MfState : Type 0 where
  unset : MfState
  off_state : MfState
  seize_ack_txd : MfState
  category_rq_txd : MfState
  dnis_rq_txd : MfState
  ani_rq_txd : MfState
  chg_gii_txd : MfState
  accepted_txd : MfState
  disconnect_txd : MfState
  category_txd : MfState
  dnis_txd : MfState
  dnis_end_txd : MfState
  ani_txd : MfState
  ani_end_txd : MfState
  waiting_timeout : MfState
  dialing_dtmf : MfState
  detecting_dtmf : MfState

-- `openr2_mf_group_t`
pub data MfGroup : Type 0 where
  no_group back_init ga gb gc fwd_init gi gii giii dtmf_fwd_init dtmf_back_init : MfGroup

-- `openr2_direction_t`
pub data Direction : Type 0 where
  stopped forward backward : Direction

-- `openr2_call_mode_t`
pub data CallMode : Type 0 where
  with_charge no_charge special unknown : CallMode

-- `openr2_answer_mode_t`
pub data AnswerMode : Type 0 where
  simple double : AnswerMode

-- `openr2_call_disconnect_cause_t`
pub data Cause : Type 0 where
  busy_number : Cause
  network_congestion : Cause
  unallocated_number : Cause
  out_of_order : Cause
  unspecified : Cause
  no_answer : Cause
  normal_clearing : Cause
  forced_release : Cause
  number_changed : Cause
  glare : Cause

-- `openr2_protocol_error_t`
pub data ProtocolError : Type 0 where
  invalid_cas_bits : ProtocolError
  invalid_mf_tone : ProtocolError
  back_mf_timeout : ProtocolError
  seize_timeout : ProtocolError
  fwd_safety_timeout : ProtocolError
  broken_mf_sequence : ProtocolError
  answer_timeout : ProtocolError
  invalid_r2_state : ProtocolError
  invalid_mf_state : ProtocolError
  invalid_mf_group : ProtocolError
  library_bug : ProtocolError
  internal_error : ProtocolError
  alarm_raised : ProtocolError

-- `openr2_calling_party_category_t`
pub data Category : Type 0 where
  national_subscriber : Category
  national_priority_subscriber : Category
  international_subscriber : Category
  international_priority_subscriber : Category
  collect_call : Category
  test_equipment : Category
  pay_phone : Category
  unknown : Category

-- `openr2_variant_t`
pub data Variant : Type 0 where
  argentina brazil china czech colombia ecuador itu mexico philippines venezuela unknown : Variant

-- The result of a C function: 0, or -1.
pub data Rc : Type 0 where
  done failed : Rc

abbrev pub cas_state_code : CasState → ℕ
cas_state_code CasState.invalid_state = 999
cas_state_code CasState.init = 0
cas_state_code CasState.idle = 100
cas_state_code CasState.seize_ack_txd = 200
cas_state_code CasState.answer_txd = 201
cas_state_code CasState.clear_back_txd = 202
cas_state_code CasState.clear_fwd_rxd = 203
cas_state_code CasState.executing_double_answer = 204
cas_state_code CasState.forced_release_txd = 205
cas_state_code CasState.seize_txd = 300
cas_state_code CasState.seize_ack_rxd = 301
cas_state_code CasState.clear_back_tone_rxd = 302
cas_state_code CasState.accept_rxd = 303
cas_state_code CasState.answer_rxd = 304
cas_state_code CasState.clear_back_rxd = 305
cas_state_code CasState.answer_rxd_mf_pending = 306
cas_state_code CasState.clear_fwd_txd = 307
cas_state_code CasState.forced_release_rxd = 308
cas_state_code CasState.clear_back_after_clear_fwd_rxd = 309
cas_state_code CasState.seize_txd_clear_fwd_pending = 310
cas_state_code CasState.double_seizure_clear_fwd_pending = 311
cas_state_code CasState.blocked = 400
cas_state_code CasState.double_seizure = 500

abbrev pub mf_state_code : MfState → ℕ
mf_state_code MfState.unset = 0
mf_state_code MfState.off_state = 100
mf_state_code MfState.seize_ack_txd = 200
mf_state_code MfState.category_rq_txd = 201
mf_state_code MfState.dnis_rq_txd = 202
mf_state_code MfState.ani_rq_txd = 203
mf_state_code MfState.chg_gii_txd = 204
mf_state_code MfState.accepted_txd = 205
mf_state_code MfState.disconnect_txd = 206
mf_state_code MfState.category_txd = 300
mf_state_code MfState.dnis_txd = 301
mf_state_code MfState.dnis_end_txd = 302
mf_state_code MfState.ani_txd = 303
mf_state_code MfState.ani_end_txd = 304
mf_state_code MfState.waiting_timeout = 305
mf_state_code MfState.dialing_dtmf = 500
mf_state_code MfState.detecting_dtmf = 501

abbrev pub call_state_code : CallState → ℕ
call_state_code CallState.idle = 0
call_state_code CallState.collecting = 1
call_state_code CallState.dialing = 2
call_state_code CallState.offered = 3
call_state_code CallState.accepted = 4
call_state_code CallState.answered = 5
call_state_code CallState.disconnected = 6
