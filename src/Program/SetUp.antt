-- ===== src/Program/SetUp.antt =====
-- The contexts that the test program has made.
use mathlib.Core.Path.{subst}
use openr.Prelude.{
  ℕ, ℤ, ◌+◌, ◌≡◌, refl, ◌∙◌, sym, ap, true, Bool, arith, List, [], ◌∷◌, Option, some, if_ind, ◌⊎◌,
  ◌≢◌, inl, inr,
}
use openr.Types.{CasSignal, Variant}
use openr.Context.{Context, max_ani_size, max_dnis_size}
use openr.Context.Bounds.{FitsBuffer, IsLimit}
use openr.Context.Interfaces.{
  EventInterface, Library, Defaults, NewContext, context_new, zero_context, finish_new,
}
use openr.Context.Interfaces.Checked.{AreComplete, IsCallable, context_new-IsCallable}
use openr.Context.Variants.{configure_context, variant_config}
use openr.Context.Settings.{
  set_ani_first, set_skip_category_request, set_immediate_accept, set_log_level, set_mf_threshold,
  set_mf_back_timeout, set_metering_pulse_timeout, set_double_answer,
}
use openr.Context.Settings.Kept.{apply, apply_all}
use openr.Context.File.Buffers.{buffer_fields, configure_from_advanced_file-buffers}
use openr.Program.{Options, Group}
use openr.Program.Parse.{is_empty}
use openr.Program.Contexts.{
  Contexts, make_context, make_contexts, add_context, group_settings, configure_group,
}

-- The fields that a file keeps, with those of the options.
abbrev fields_of : Options → Context → ℤ × ℤ × (CasSignal → ℕ) × Bool × Bool × Bool × Bool × ℕ
fields_of o r = (
  r.max_dnis, r.max_ani, r.cas_signals, o.getanifirst, o.skipcategory, o.immediateaccept,
  o.double_answer, o.loglevel,
)

settings_kept :
    (o : Options) (r : Context) → buffer_fields (apply_all (group_settings o) r) ≡ fields_of o r
unfolding apply_all apply set_ani_first set_skip_category_request set_immediate_accept set_log_level
    set_mf_threshold set_mf_back_timeout set_metering_pulse_timeout set_double_answer
settings_kept o r = ground arith

-- What the options ask for, and where it is set.
abbrev pub asked : Options → Bool × Bool × Bool × Bool × ℕ
asked o = (o.getanifirst, o.skipcategory, o.immediateaccept, o.double_answer, o.loglevel)

abbrev pub set_fields : Context → Bool × Bool × Bool × Bool × ℕ
set_fields r = (r.get_ani_first, r.skip_category, r.immediate_accept, r.double_answer, r.loglevel)

-- A context of these options: it has the functions of its interfaces that the setters ask for, the
-- digits that it asks for fit their buffers, and what the options ask for is set.
pub record IsSetUp (o : Options) (l : Library) : Type 0 where
  pub callable : IsCallable l
  pub dnis_fits : FitsBuffer l.context.max_dnis max_dnis_size
  pub ani_fits : FitsBuffer l.context.max_ani (max_ani_size + 1)
  pub settings : set_fields l.context ≡ asked o

abbrev pub AllSetUp : List Group → List Library → Type 0
AllSetUp [] [] = Unit {0}
AllSetUp [] (l ∷ ls) = ⊥
AllSetUp (g ∷ gs) [] = ⊥
AllSetUp (g ∷ gs) (l ∷ ls) = IsSetUp g.options l × AllSetUp gs ls

-- The options ask for no negative number of digits.
abbrev pub HasLimits : Options → Type 0
HasLimits o = IsLimit o.max_ani × IsLimit o.max_dnis

abbrev pub AllLimited : List Group → Type 0
AllLimited [] = Unit {0}
AllLimited (g ∷ gs) = HasLimits g.options × AllLimited gs

-- One of the groups has no variant that is known.
abbrev pub LacksVariant : List Group → Type 0
LacksVariant [] = ⊥
LacksVariant (g ∷ gs) = (g.options.variant ≡ Variant.unknown) ⊎ LacksVariant gs

Variant-cases : (v : Variant) → (v ≡ Variant.unknown) ⊎ (v ≢ Variant.unknown)
Variant-cases Variant.unknown = inl refl
Variant-cases Variant.argentina = inr (λ e. cc)
Variant-cases Variant.brazil = inr (λ e. cc)
Variant-cases Variant.china = inr (λ e. cc)
Variant-cases Variant.czech = inr (λ e. cc)
Variant-cases Variant.colombia = inr (λ e. cc)
Variant-cases Variant.ecuador = inr (λ e. cc)
Variant-cases Variant.itu = inr (λ e. cc)
Variant-cases Variant.mexico = inr (λ e. cc)
Variant-cases Variant.philippines = inr (λ e. cc)
Variant-cases Variant.venezuela = inr (λ e. cc)

-- What the groups' contexts come to: all are set up, or one group has no known variant.
abbrev pub IsDecided : List Group → Contexts → Type 0
IsDecided gs r =
    ((ls : List Library) × (r ≡ Contexts.ready ls) × AllSetUp gs ls)
    ⊎ ((r ≡ Contexts.aborted) × LacksVariant gs)

module _ (own : Defaults) (complete : AreComplete own) (iface : EventInterface)
    (files : List ℕ → Option (List ℕ)) where
  configured : Options → Context → Context
  configured = configure_group own iface files

  configured-fields : (o : Options) (r : Context) → buffer_fields (configured o r) ≡ fields_of o r
  unfolding configured configure_group
  configured-fields o r =
      if_ind (λ x. buffer_fields x ≡ fields_of o r) (is_empty o.r2file) (settings_kept o r)
        (configure_from_advanced_file-buffers (files o.r2file) (apply_all (group_settings o) r)
          ∙ settings_kept o r)

  configured-IsSetUp :
      (o : Options) (l : Library)
      → IsCallable l
      → FitsBuffer l.context.max_dnis max_dnis_size
      → FitsBuffer l.context.max_ani (max_ani_size + 1)
      → IsSetUp o (record l { context = configured o l.context })
  configured-IsSetUp o l callable dnis ani =
      let kept = configured-fields o l.context in
      record {
        callable = record {
          evmanager = callable.evmanager;
          mflib = callable.mflib;
          transcoder = callable.transcoder;
          dtmfeng = callable.dtmfeng;
          io = callable.io;
        };
        dnis_fits = subst (λ (n : ℤ). FitsBuffer n max_dnis_size) (sym (ap (λ p. p.0) kept)) dnis;
        ani_fits =
            subst (λ (n : ℤ). FitsBuffer n (max_ani_size + 1)) (sym (ap (λ p. p.1) kept)) ani;
        settings = ap (λ p. (p.3, p.4, p.5, p.6, p.7)) kept;
      }

  make_context-IsSetUp :
      (o : Options)
      → o.variant ≢ Variant.unknown
      → HasLimits o
      → (l : Library) × (make_context own iface files true o ≡ NewContext.made l) × IsSetUp o l
  unfolding make_context configured
  make_context-IsSetUp o known limits =
      let (l, made, callable, good) =
        context_new-IsCallable own complete o.variant (some iface) o.max_ani o.max_dnis known
          limits.0 limits.1 in
      (
        record l { context = configure_group own iface files o l.context },
        ap
            (λ x. elim x [
              | NewContext.made m ↦
                  NewContext.made
                    (record m { context = configure_group own iface files o m.context })
              | y ↦ y
            ])
            made,
        configured-IsSetUp o l callable good.dnis_fits good.ani_fits,
      )

  make_context-unknown :
      (o : Options)
      → o.variant ≡ Variant.unknown
      → make_context own iface files true o ≡ NewContext.null
  unfolding make_context context_new variant_config
  make_context-unknown o e =
      ap
        (λ v.
          elim (finish_new own (some iface)
            (configure_context (zero_context v) v o.max_ani o.max_dnis)) [
              | NewContext.made m ↦
                  NewContext.made
                    (record m { context = configure_group own iface files o m.context })
              | y ↦ y
            ])
        e

  make_contexts-head :
      (memory : ℕ → Bool) (c : ℕ) (g : Group) (gs : List Group)
      → ((k : ℕ) → memory k ≡ true)
      → HasLimits g.options
      → IsDecided gs (make_contexts own iface files memory (c + 1) gs)
      → IsDecided (g ∷ gs) (make_contexts own iface files memory c (g ∷ gs))
  unfolding make_contexts
  make_contexts-head memory c g gs enough limits later =
      rw (enough c, make_contexts)
        (elim (Variant-cases g.options.variant) [
          | inl lacks ↦ inr (
            ap (after (make_contexts own iface files memory (c + 1) gs))
                (make_context-unknown g.options lacks),
            inl lacks,
          )
          | inr known ↦
              let (l, made, good) = make_context-IsSetUp g.options known limits in
              let first = ap (after (make_contexts own iface files memory (c + 1) gs)) made in
              elim later [
                | inl (ls, rest, all) ↦ inl (l ∷ ls, first ∙ ap (add_context l) rest, (good, all))
                | inr (rest, lacks) ↦ inr (first ∙ ap (add_context l) rest, inr lacks)
              ]
        ])
    where
      after : Contexts → NewContext → Contexts
      after later x = elim x [
        | NewContext.made l ↦ add_context l later
        | NewContext.null ↦ Contexts.aborted
        | NewContext.undefined ↦ Contexts.undefined
      ]

  -- If there is memory for the contexts, the library's own interfaces have the functions that the
  -- setters ask for, and no group has a negative limit of digits, main makes a context for each group,
  -- in order, or stops because a group has no known variant. Whatever the advanced files hold, each
  -- context has the functions that the setters ask for, which get_alarm_state is not among; it asks
  -- for no more digits than fit its buffers, and has the log level and the four switches of its
  -- group's options.
  pub make_contexts-IsDecided :
      (memory : ℕ → Bool) (c : ℕ) (gs : List Group)
      → ((k : ℕ) → memory k ≡ true)
      → AllLimited gs
      → IsDecided gs (make_contexts own iface files memory c gs)
  unfolding make_contexts
  make_contexts-IsDecided memory c [] enough limits = inl ([], refl, tt)
  make_contexts-IsDecided memory c (g ∷ gs) enough limits =
      make_contexts-head memory c g gs enough limits.0
        (make_contexts-IsDecided memory (c + 1) gs enough limits.1)
