-- ===== src/Names.antt =====
-- The names that the library gives its values, src/r2proto.c.
pub mod Compare
pub mod Lookup
use Prim.Native.String.{String}
use openr.Prelude.{
  ℕ, zero, suc, ◌+◌, ◌-◌, ◌/◌, ◌%◌, ltb, ◌==◌, ◌||◌, if◌then◌else◌, Option, none, some, List, [],
  ◌∷◌, ◌++◌, take, length,
}
use openr.Types.{
  CasSignal, CasState, MfState, ProtocolError, MfGroup, CallState, Cause, CallMode, Category,
}
use openr.Chan.{Chan}
use openr.Names.Compare.{codes}

-- `r2state2str`
unfoldable pub r2state2str : CasState → String
r2state2str CasState.init = "Init"
r2state2str CasState.idle = "Idle"
r2state2str CasState.seize_ack_txd = "Seize ACK Transmitted"
r2state2str CasState.answer_txd = "Answer Transmitted"
r2state2str CasState.clear_back_txd = "Clear Back Transmitted"
r2state2str CasState.forced_release_txd = "Forced Release Transmitted"
r2state2str CasState.clear_fwd_rxd = "Clear Forward Received"
r2state2str CasState.seize_txd = "Seize Transmitted"
r2state2str CasState.seize_ack_rxd = "Seize ACK Received"
r2state2str CasState.clear_back_tone_rxd = "Clear Back Tone Received"
r2state2str CasState.accept_rxd = "Accept Received"
r2state2str CasState.answer_rxd = "Answer Received"
r2state2str CasState.clear_back_rxd = "Clear Back Received"
r2state2str CasState.forced_release_rxd = "Forced Release Received"
r2state2str CasState.answer_rxd_mf_pending = "Answer Received with MF Pending"
r2state2str CasState.clear_fwd_txd = "Clear Forward Transmitted"
r2state2str CasState.seize_txd_clear_fwd_pending = "Seize Transmitted with Clear Forward Pending"
r2state2str CasState.double_seizure_clear_fwd_pending = "Double Seizure with Clear Forward Pending"
r2state2str CasState.clear_back_after_clear_fwd_rxd = "Clear Back After Clear Forward Received"
r2state2str CasState.executing_double_answer = "Executing Double Answer"
r2state2str CasState.blocked = "Blocked"
r2state2str CasState.double_seizure = "Double Seizure"
r2state2str CasState.invalid_state = "Invalid"

-- `mfstate2str`
unfoldable pub mfstate2str : MfState → String
mfstate2str MfState.off_state = "MF Engine Off"
mfstate2str MfState.seize_ack_txd = "Seize ACK Transmitted"
mfstate2str MfState.category_rq_txd = "Category Request Transmitted"
mfstate2str MfState.dnis_rq_txd = "DNIS Request Transmitted"
mfstate2str MfState.ani_rq_txd = "ANI Request Transmitted"
mfstate2str MfState.chg_gii_txd = "Change To Group II Request Transmitted"
mfstate2str MfState.accepted_txd = "Accepted Call Transmitted"
mfstate2str MfState.disconnect_txd = "Disconnect Tone Transmitted"
mfstate2str MfState.category_txd = "Category Transmitted"
mfstate2str MfState.dnis_txd = "DNIS Digit Transmitted"
mfstate2str MfState.dnis_end_txd = "End of DNIS Transmitted"
mfstate2str MfState.ani_txd = "ANI Digit Transmitted"
mfstate2str MfState.ani_end_txd = "End of ANI Transmitted"
mfstate2str MfState.waiting_timeout = "Waiting Far End Timeout"
mfstate2str MfState.dialing_dtmf = "Dialing DTMF"
mfstate2str MfState.detecting_dtmf = "Detecting DTMF"
mfstate2str MfState.unset = "*Unknown*"

-- `openr2_proto_get_error`
unfoldable pub get_error : ProtocolError → String
get_error ProtocolError.invalid_cas_bits = "Invalid CAS"
get_error ProtocolError.invalid_mf_tone = "Invalid Multi Frequency Tone"
get_error ProtocolError.back_mf_timeout = "Multi Frequency Cycle Timeout"
get_error ProtocolError.seize_timeout = "Seize Timeout"
get_error ProtocolError.answer_timeout = "Answer Timeout"
get_error ProtocolError.invalid_r2_state = "Invalid R2 state"
get_error ProtocolError.invalid_mf_state = "Invalid Multy Frequency State"
get_error ProtocolError.invalid_mf_group = "Invalid R2 Group"
get_error ProtocolError.fwd_safety_timeout = "Forward Safety Timeout"
get_error ProtocolError.broken_mf_sequence = "Broken MF Sequence"
get_error ProtocolError.library_bug = "OpenR2 Library BUG"
get_error ProtocolError.internal_error = "OpenR2 Internal Error"
get_error ProtocolError.alarm_raised = "Alarm Raised"

-- `mfgroup2str`
unfoldable pub mfgroup2str : MfGroup → String
mfgroup2str MfGroup.no_group = "No Group"
mfgroup2str MfGroup.back_init = "Backward MF init"
mfgroup2str MfGroup.ga = "Backward Group A"
mfgroup2str MfGroup.gb = "Backward Group B"
mfgroup2str MfGroup.gc = "Backward Group C"
mfgroup2str MfGroup.fwd_init = "Forward MF init"
mfgroup2str MfGroup.gi = "Forward Group I"
mfgroup2str MfGroup.gii = "Forward Group II"
mfgroup2str MfGroup.giii = "Forward Group III"
mfgroup2str MfGroup.dtmf_fwd_init = "Forward DTMF init"
mfgroup2str MfGroup.dtmf_back_init = "Backward DTMF init"

-- `callstate2str`
unfoldable pub callstate2str : CallState → String
callstate2str CallState.idle = "Idle"
callstate2str CallState.collecting = "Collecting"
callstate2str CallState.dialing = "Dialing"
callstate2str CallState.offered = "Offered"
callstate2str CallState.accepted = "Accepted"
callstate2str CallState.answered = "Answered"
callstate2str CallState.disconnected = "Disconnected"

-- `openr2_proto_get_disconnect_string`
unfoldable pub get_disconnect_string : Cause → String
get_disconnect_string Cause.busy_number = "Busy Number"
get_disconnect_string Cause.network_congestion = "Network Congestion"
get_disconnect_string Cause.unallocated_number = "Unallocated Number"
get_disconnect_string Cause.number_changed = "Number Changed"
get_disconnect_string Cause.out_of_order = "Line Out Of Order"
get_disconnect_string Cause.unspecified = "Not Specified"
get_disconnect_string Cause.normal_clearing = "Normal Clearing"
get_disconnect_string Cause.no_answer = "No Answer"
get_disconnect_string Cause.forced_release = "Forced Release"
get_disconnect_string Cause.glare = "Double Seizure (Glare)"

-- `get_string_from_mode`
unfoldable pub get_string_from_mode : CallMode → String
get_string_from_mode CallMode.with_charge = "Call With Charge"
get_string_from_mode CallMode.no_charge = "Call With No Charge"
get_string_from_mode CallMode.special = "Special Call"
get_string_from_mode CallMode.unknown = "*UNKNOWN*"

-- `openr2_proto_get_category_string`
unfoldable pub get_category_string : Category → String
get_category_string Category.national_subscriber = "National Subscriber"
get_category_string Category.national_priority_subscriber = "National Priority Subscriber"
get_category_string Category.international_subscriber = "International Subscriber"
get_category_string Category.international_priority_subscriber = "International Priority Subscriber"
get_category_string Category.collect_call = "Collect Call"
get_category_string Category.test_equipment = "Test Equipment"
get_category_string Category.pay_phone = "Pay Phone"
get_category_string Category.unknown = "*Not known*"

unfoldable pub cas_names : CasSignal → String
cas_names CasSignal.idle = "IDLE"
cas_names CasSignal.block = "BLOCK"
cas_names CasSignal.seize = "SEIZE"
cas_names CasSignal.seize_ack = "SEIZE ACK"
cas_names CasSignal.clear_back = "CLEAR BACK"
cas_names CasSignal.forced_release = "FORCED RELEASE"
cas_names CasSignal.clear_forward = "CLEAR FORWARD"
cas_names CasSignal.answer = "ANSWER"

-- One digit of "%X".
abbrev pub hex_digit : ℕ → ℕ
hex_digit d = if ltb d 10 then b'0' + d else b'A' + (d - 10)

-- The digits of a 32-bit number by "%X": eight are enough.
unfoldable pub hex_digits : ℕ → ℕ → List ℕ
hex_digits zero v = []
hex_digits (suc room) v =
    let higher = hex_digits room (v / 16) in
    (if v / 16 == 0 then [] else higher) ++ (hex_digit (v % 16) ∷ [])

-- `snprintf(buff, sizeof(buff), "0x%02X", bits)`, with the 10 bytes of `cas_rx_buff`.
unfoldable pub print_bits : ℕ → List ℕ
unfolding hex_digits
print_bits bits =
    let digits = hex_digits 8 bits in
    take 9 (codes "0x" ++ (if ltb (length digits) 2 then b'0' ∷ digits else digits))

-- `openr2_proto_get_rx_cas_string`; the text also stays in `cas_rx_buff`, which nothing else reads.
unfoldable pub get_rx_cas_string : Chan → List ℕ
unfolding cas_names print_bits
get_rx_cas_string c = elim c.cas_rx_signal [
  | none ↦ print_bits c.cas_read
  | some signal ↦ if c.inalarm then print_bits c.cas_read else codes (cas_names signal)
]

unfoldable pub get_tx_cas_string : Chan → List ℕ
unfolding cas_names print_bits
get_tx_cas_string c = elim c.cas_tx_signal [
  | none ↦ print_bits c.cas_write
  | some signal ↦ if c.inalarm then print_bits c.cas_write else codes (cas_names signal)
]

abbrev pub get_call_state_string : Chan → String
get_call_state_string c = callstate2str c.call_state

abbrev pub get_r2_state_string : Chan → String
get_r2_state_string c = r2state2str c.r2_state

abbrev pub get_mf_state_string : Chan → String
get_mf_state_string c = mfstate2str c.mf_state

abbrev pub get_mf_group_string : Chan → String
get_mf_group_string c = mfgroup2str c.mf_group

abbrev pub get_call_mode_string : CallMode → String
get_call_mode_string mode = get_string_from_mode mode
