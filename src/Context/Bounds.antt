-- ===== src/Context/Bounds.antt =====
-- A configured context: its bounds, its bits and its tones.
use openr.Prelude.{ℕ, ◌+◌, ◌<◌, ◌≡◌, refl, ℤ, pos, negsuc, bit_and, some, arith, ◌≢◌}
use openr.Types.{CasSignal, Variant}
use openr.Context.{Context, max_ani_size, max_dnis_size}
use openr.Context.Variants.{
  r2config_argentina, r2config_brazil, r2config_china, r2config_itu, r2config_mexico,
  r2config_venezuela, r2config_colombia, variant_config, standard_cas_signals, clamp_digits,
  itu_defaults, configure_context,
}

-- `m` digits, where the code takes the limit as a `uint32_t`, and the 0 after them fit a buffer of
-- `size` bytes; a negative limit fits none.
abbrev pub FitsBuffer : ℤ → ℕ → Type 0
FitsBuffer (pos n) size = n < size
FitsBuffer (negsuc n) size = ⊥

-- A limit that is not negative.
abbrev pub IsLimit : ℤ → Type 0
IsLimit (pos n) = Unit {0}
IsLimit (negsuc n) = ⊥

clamp_digits-FitsBuffer :
    (m : ℤ) (size : ℕ) → 0 < size → IsLimit m → FitsBuffer (clamp_digits m size) size
unfolding clamp_digits
clamp_digits-FitsBuffer (pos n) size h l = ground arith
clamp_digits-FitsBuffer (negsuc n) size h l = elim l [ ]

FitsBuffer-suc : (m : ℤ) (size : ℕ) → FitsBuffer m size → FitsBuffer m (size + 1)
FitsBuffer-suc (pos n) size h = omega arith
FitsBuffer-suc (negsuc n) size h = elim h [ ]

-- The tones that a call cannot do without are valid.
abbrev pub HasTones : Context → Type 0
HasTones r =
    (0 < r.mf_gb_tones.network_congestion)
    × (0 < r.mf_gb_tones.busy_number)
    × (0 < r.mf_ga_tones.request_next_dnis_digit)
    × (0 < r.mf_gb_tones.accept_call_with_charge)

-- What the rest of the library takes for granted of a configured context.
pub record IsConfigured (r : Context) : Type 0 where
  pub dnis_fits : FitsBuffer r.max_dnis max_dnis_size
  pub ani_fits : FitsBuffer r.max_ani (max_ani_size + 1)
  pub r2_bits_alone : (s : CasSignal) → bit_and (r.cas_signals s) r.cas_r2_bits ≡ r.cas_signals s
  pub other_bits_apart : bit_and r.cas_nonr2_bits r.cas_r2_bits ≡ 0
  pub tones : HasTones r

standard_bits : (s : CasSignal) → bit_and (standard_cas_signals s) 12 ≡ standard_cas_signals s
unfolding standard_cas_signals
standard_bits CasSignal.idle = refl
standard_bits CasSignal.block = refl
standard_bits CasSignal.seize = refl
standard_bits CasSignal.seize_ack = refl
standard_bits CasSignal.clear_back = refl
standard_bits CasSignal.forced_release = refl
standard_bits CasSignal.clear_forward = refl
standard_bits CasSignal.answer = refl

module _ (r : Context) (max_ani max_dnis : ℤ) (ani : IsLimit max_ani)
    (dnis : IsLimit max_dnis) where
  abbrev fresh : Context
  fresh = itu_defaults r max_ani max_dnis

  dnis_clamped : FitsBuffer (clamp_digits max_dnis max_dnis_size) max_dnis_size
  dnis_clamped = clamp_digits-FitsBuffer max_dnis max_dnis_size (omega arith) dnis

  ani_clamped : FitsBuffer (clamp_digits max_ani max_ani_size) (max_ani_size + 1)
  ani_clamped =
      FitsBuffer-suc (clamp_digits max_ani max_ani_size) max_ani_size
        (clamp_digits-FitsBuffer max_ani max_ani_size (omega arith) ani)

  itu-IsConfigured : IsConfigured (r2config_itu fresh)
  unfolding r2config_itu itu_defaults
  itu-IsConfigured = record {
    dnis_fits = dnis_clamped;
    ani_fits = ani_clamped;
    r2_bits_alone = standard_bits;
    other_bits_apart = refl;
    tones = (omega arith, omega arith, omega arith, omega arith);
  }

  argentina-IsConfigured : IsConfigured (r2config_argentina fresh)
  unfolding r2config_argentina itu_defaults
  argentina-IsConfigured = record {
    dnis_fits = dnis_clamped;
    ani_fits = ani_clamped;
    r2_bits_alone = standard_bits;
    other_bits_apart = refl;
    tones = (omega arith, omega arith, omega arith, omega arith);
  }

  brazil-IsConfigured : IsConfigured (r2config_brazil fresh)
  unfolding r2config_brazil itu_defaults
  brazil-IsConfigured = record {
    dnis_fits = dnis_clamped;
    ani_fits = ani_clamped;
    r2_bits_alone = standard_bits;
    other_bits_apart = refl;
    tones = (omega arith, omega arith, omega arith, omega arith);
  }

  china-IsConfigured : IsConfigured (r2config_china fresh)
  unfolding r2config_china itu_defaults
  china-IsConfigured = record {
    dnis_fits = dnis_clamped;
    ani_fits = omega arith;
    r2_bits_alone = standard_bits;
    other_bits_apart = refl;
    tones = (omega arith, omega arith, omega arith, omega arith);
  }

  mexico-IsConfigured : IsConfigured (r2config_mexico fresh)
  unfolding r2config_mexico itu_defaults
  mexico-IsConfigured = record {
    dnis_fits = dnis_clamped;
    ani_fits = ani_clamped;
    r2_bits_alone = standard_bits;
    other_bits_apart = refl;
    tones = (omega arith, omega arith, omega arith, omega arith);
  }

  venezuela-IsConfigured : IsConfigured (r2config_venezuela fresh)
  unfolding r2config_venezuela itu_defaults
  venezuela-IsConfigured = record {
    dnis_fits = dnis_clamped;
    ani_fits = ani_clamped;
    r2_bits_alone = standard_bits;
    other_bits_apart = refl;
    tones = (omega arith, omega arith, omega arith, omega arith);
  }

  colombia-IsConfigured : IsConfigured (r2config_colombia fresh)
  unfolding r2config_colombia itu_defaults
  colombia-IsConfigured = record {
    dnis_fits = dnis_clamped;
    ani_fits = ani_clamped;
    r2_bits_alone = standard_bits;
    other_bits_apart = refl;
    tones = (omega arith, omega arith, omega arith, omega arith);
  }

  -- Every variant but `unknown` has a configuration, whatever limits of digits are asked for that are
  -- not negative: the DNIS with the 0 after it fits its buffer, and so does the ANI but for that 0;
  -- the CAS patterns lie within the two R2 bits, and the other bits outside them; and the tones by
  -- which a call is asked for digits, accepted, or refused as busy or for congestion are valid.
  pub configure_context-IsConfigured :
      (v : Variant)
      → v ≢ Variant.unknown
      → (r' : Context) × (configure_context r v max_ani max_dnis ≡ some r') × IsConfigured r'
  unfolding configure_context variant_config
  configure_context-IsConfigured Variant.argentina h = (_, refl, argentina-IsConfigured)
  configure_context-IsConfigured Variant.brazil h = (_, refl, brazil-IsConfigured)
  configure_context-IsConfigured Variant.china h = (_, refl, china-IsConfigured)
  configure_context-IsConfigured Variant.czech h = (_, refl, itu-IsConfigured)
  configure_context-IsConfigured Variant.colombia h = (_, refl, colombia-IsConfigured)
  configure_context-IsConfigured Variant.ecuador h = (_, refl, itu-IsConfigured)
  configure_context-IsConfigured Variant.itu h = (_, refl, itu-IsConfigured)
  configure_context-IsConfigured Variant.mexico h = (_, refl, mexico-IsConfigured)
  configure_context-IsConfigured Variant.philippines h = (_, refl, itu-IsConfigured)
  configure_context-IsConfigured Variant.venezuela h = (_, refl, venezuela-IsConfigured)
  configure_context-IsConfigured Variant.unknown h = elim (h refl) [ ]
