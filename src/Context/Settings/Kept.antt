-- ===== src/Context/Settings/Kept.antt =====
-- What the setters keep of a configured context.
use openr.Prelude.{
  ℕ, ◌<◌, ℤ, pos, negsuc, ◌≡◌, refl, List, [], ◌∷◌, nonzero, arith, length, take, take_whole, suc,
  ◌+◌, ap, bit_and, ◌⊎◌, inl, inr, ◌-◌, Bool-cases, if_true_ind, if_false_ind, ◌∙◌, leb, if_ind,
}
use mathlib.Core.Path.{subst}
use openr.Types.{CasSignal, Rc, done, failed}
use openr.Context.{Context, GaTones, GbTones, max_ani_size, max_dnis_size}
use openr.Context.Bounds.{IsConfigured, FitsBuffer, IsLimit}
use openr.Context.Settings.{
  set_ani_first, set_skip_category_request, set_immediate_accept, set_log_level, set_max_ani,
  below_size, set_max_dnis, set_auto_seize_ack, set_mf_threshold, set_dtmf_detection,
  set_dtmf_dialing, set_mf_back_timeout, set_metering_pulse_timeout, set_double_answer, Stat,
  set_log_directory, get_log_directory, max_path, directory_rc, keep_directory,
}

-- A call of one of the setters, by its name.
pub data Setting : Type 0 where
  ani_first skip_category_request immediate_accept max_ani max_dnis : ℤ → Setting
  auto_seize_ack mf_threshold dtmf_detection double_answer : ℤ → Setting
  mf_back_timeout metering_pulse_timeout : ℤ → Setting
  log_level : ℕ → Setting
  dtmf_dialing : ℤ → ℤ → ℤ → Setting

unfoldable pub apply : Setting → Context → Context
apply (Setting.ani_first n) = set_ani_first n
apply (Setting.skip_category_request n) = set_skip_category_request n
apply (Setting.immediate_accept n) = set_immediate_accept n
apply (Setting.max_ani n) = set_max_ani n
apply (Setting.max_dnis n) = set_max_dnis n
apply (Setting.auto_seize_ack n) = set_auto_seize_ack n
apply (Setting.mf_threshold n) = set_mf_threshold n
apply (Setting.dtmf_detection n) = set_dtmf_detection n
apply (Setting.double_answer n) = set_double_answer n
apply (Setting.mf_back_timeout n) = set_mf_back_timeout n
apply (Setting.metering_pulse_timeout n) = set_metering_pulse_timeout n
apply (Setting.log_level n) = set_log_level n
apply (Setting.dtmf_dialing n on off) = set_dtmf_dialing n on off

unfoldable pub apply_all : List Setting → Context → Context
unfolding apply
apply_all [] r = r
apply_all (x ∷ xs) r = apply_all xs (apply x r)

below_size-FitsBuffer :
    (m : ℤ) (size : ℕ) → 0 < size → IsLimit m → FitsBuffer (below_size m size) size
unfolding below_size
below_size-FitsBuffer (pos n) size h l = ground arith
below_size-FitsBuffer (negsuc n) size h l = elim l [ ]

FitsBuffer-wider : (m : ℤ) (size : ℕ) → FitsBuffer m size → FitsBuffer m (suc size)
FitsBuffer-wider (pos n) size h = omega arith
FitsBuffer-wider (negsuc n) size h = elim h [ ]

-- What `IsConfigured` reads of a context.
abbrev Bounded : (CasSignal → ℕ) × ℕ × ℕ × ℤ × ℤ × GaTones × GbTones → Type 0
Bounded (signals, nonr2, r2, dnis, ani, ga, gb) =
    FitsBuffer dnis max_dnis_size
    × FitsBuffer ani (max_ani_size + 1)
    × ((s : CasSignal) → bit_and (signals s) r2 ≡ signals s)
    × (bit_and nonr2 r2 ≡ 0)
    × ((0 < gb.network_congestion)
        × (0 < gb.busy_number)
        × (0 < ga.request_next_dnis_digit)
        × (0 < gb.accept_call_with_charge))

abbrev pub bounds : Context → (CasSignal → ℕ) × ℕ × ℕ × ℤ × ℤ × GaTones × GbTones
bounds r = (
  r.cas_signals, r.cas_nonr2_bits, r.cas_r2_bits, r.max_dnis, r.max_ani, r.mf_ga_tones,
  r.mf_gb_tones,
)

IsConfigured-Bounded : (r : Context) → IsConfigured r → Bounded (bounds r)
IsConfigured-Bounded r h = (h.dnis_fits, h.ani_fits, h.r2_bits_alone, h.other_bits_apart, h.tones)

Bounded-IsConfigured : (r : Context) → Bounded (bounds r) → IsConfigured r
Bounded-IsConfigured r h = record {
  dnis_fits = h.0;
  ani_fits = h.1;
  r2_bits_alone = h.2;
  other_bits_apart = h.3;
  tones = h.4;
}

pub same_bounds : (r r' : Context) → bounds r ≡ bounds r' → IsConfigured r → IsConfigured r'
same_bounds r r' same h = Bounded-IsConfigured r' (subst Bounded same (IsConfigured-Bounded r h))

-- A setter is not given a negative limit of digits.
abbrev pub IsSensible : Setting → Type 0
IsSensible (Setting.max_ani n) = IsLimit n
IsSensible (Setting.max_dnis n) = IsLimit n
IsSensible _ = Unit {0}

abbrev pub AllSensible : List Setting → Type 0
AllSensible [] = Unit {0}
AllSensible (x ∷ xs) = IsSensible x × AllSensible xs

apply-IsConfigured :
    (x : Setting) (r : Context) → IsSensible x → IsConfigured r → IsConfigured (apply x r)
unfolding apply set_ani_first set_skip_category_request set_immediate_accept set_log_level
    set_max_ani set_max_dnis set_auto_seize_ack set_mf_threshold set_dtmf_detection
    set_mf_back_timeout set_metering_pulse_timeout set_double_answer set_dtmf_dialing
apply-IsConfigured (Setting.ani_first (pos n)) r ok h = same_bounds r _ refl h
apply-IsConfigured (Setting.ani_first (negsuc n)) r ok h = h
apply-IsConfigured (Setting.skip_category_request (pos n)) r ok h = same_bounds r _ refl h
apply-IsConfigured (Setting.skip_category_request (negsuc n)) r ok h = h
apply-IsConfigured (Setting.immediate_accept (pos n)) r ok h = same_bounds r _ refl h
apply-IsConfigured (Setting.immediate_accept (negsuc n)) r ok h = h
apply-IsConfigured (Setting.max_ani n) r ok h =
    let b = IsConfigured-Bounded r h in
    Bounded-IsConfigured _ (
      b.0,
      FitsBuffer-wider (below_size n max_ani_size) max_ani_size
          (below_size-FitsBuffer n max_ani_size (omega arith) ok),
      b.2,
      b.3,
      b.4,
    )
apply-IsConfigured (Setting.max_dnis n) r ok h =
    let b = IsConfigured-Bounded r h in
    Bounded-IsConfigured _
      (below_size-FitsBuffer n max_dnis_size (omega arith) ok, b.1, b.2, b.3, b.4)
apply-IsConfigured (Setting.auto_seize_ack n) r ok h = same_bounds r _ refl h
apply-IsConfigured (Setting.mf_threshold n) r ok h = same_bounds r _ refl h
apply-IsConfigured (Setting.dtmf_detection (pos n)) r ok h = same_bounds r _ refl h
apply-IsConfigured (Setting.dtmf_detection (negsuc n)) r ok h = h
apply-IsConfigured (Setting.double_answer (pos n)) r ok h = same_bounds r _ refl h
apply-IsConfigured (Setting.double_answer (negsuc n)) r ok h = h
apply-IsConfigured (Setting.mf_back_timeout (pos n)) r ok h = same_bounds r _ refl h
apply-IsConfigured (Setting.mf_back_timeout (negsuc n)) r ok h = h
apply-IsConfigured (Setting.metering_pulse_timeout (pos n)) r ok h = same_bounds r _ refl h
apply-IsConfigured (Setting.metering_pulse_timeout (negsuc n)) r ok h = h
apply-IsConfigured (Setting.log_level n) r ok h = same_bounds r _ refl h
apply-IsConfigured (Setting.dtmf_dialing (pos n) on off) r ok h =
    if_ind IsConfigured (nonzero n) (same_bounds r _ refl h) (same_bounds r _ refl h)
apply-IsConfigured (Setting.dtmf_dialing (negsuc n) on off) r ok h = h

-- Any sequence of the setters, with any values but a negative limit of digits, leaves a configured
-- context configured: the digits asked for still fit their buffers, and the signals and tones stay
-- valid.
pub apply_all-IsConfigured :
    (xs : List Setting) (r : Context)
    → AllSensible xs
    → IsConfigured r
    → IsConfigured (apply_all xs r)
unfolding apply_all
apply_all-IsConfigured [] r ok h = h
apply_all-IsConfigured (x ∷ xs) r ok h =
    apply_all-IsConfigured xs (apply x r) ok.1 (apply-IsConfigured x r ok.0 h)

-- What the directory set and a result tell: it is taken whole, or nothing changes.
abbrev pub IsTaken : ℕ → List ℕ → Context → Context × Rc → Type 0
IsTaken len directory r out =
    ((out.1 ≡ done) × (get_log_directory len out.0 ≡ directory)) ⊎ (out ≡ (r, failed))

keep_directory-IsTaken :
    (rc : Rc) (len : ℕ) (directory : List ℕ) (r : Context)
    → length directory < len
    → length directory < max_path
    → IsTaken len directory r (keep_directory rc directory r)
unfolding get_log_directory
keep_directory-IsTaken done len directory r h short = inl (
  refl,
  ap (take (len - 1)) (take_whole (max_path - 1) directory (omega arith))
      ∙ take_whole (len - 1) directory (omega arith),
)
keep_directory-IsTaken failed len directory r h short = inr refl

-- A log directory that openr2_context_set_log_directory takes, whatever the file system answers, is
-- the one that openr2_context_get_log_directory gives, in a buffer that has room for it; one that it
-- does not take leaves the context as it was.
pub get_log_directory-set_log_directory :
    (stat : List ℕ → Stat) (mkdir : List ℕ → Rc) (directory : List ℕ) (len : ℕ) (r : Context)
    → length directory < len
    → IsTaken len directory r (set_log_directory stat mkdir directory r)
unfolding set_log_directory
get_log_directory-set_log_directory stat mkdir directory len r h =
    elim (Bool-cases (leb max_path (length directory))) [
      | inl long ↦
          if_true_ind (IsTaken len directory r) (leb max_path (length directory)) _ _ long
            (inr refl)
      | inr short ↦
          if_false_ind (IsTaken len directory r) (leb max_path (length directory)) _ _ short (
            keep_directory-IsTaken (directory_rc (stat directory) (mkdir directory)) len directory r
              h (ground arith))
    ]
