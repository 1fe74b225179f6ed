-- ===== src/Context/Interfaces/Checked.antt =====
-- The interfaces of a context are complete.
use openr.Prelude.{ℕ, ℤ, ◌≡◌, ◌≢◌, ap, refl, true, Option, none, some, List, [], ◌∷◌, arith}
use openr.Types.{Rc, Variant}
use openr.Context.Bounds.{IsConfigured, IsLimit, configure_context-IsConfigured}
use openr.Context.Settings.Kept.{same_bounds}
use openr.Context.Interfaces.{
  EventInterface, MflibInterface, TranscoderInterface, DtmfInterface, IoInterface, IoType, Library,
  Defaults, all_given, mflib_members, transcoder_members, dtmf_members, io_members, event_members,
  set_mflib_interface, set_transcoder_interface, set_dtmf_interface, set_io_type, fill_events,
  given_events, zero_context, NewContext, zt_or, or_default, finish_new, context_new,
}

-- Each interface of the library itself has the functions that the checks ask for.
pub record AreComplete (own : Defaults) : Type 0 where
  pub evmanager : all_given (event_members own.evmanager) ≡ true
  pub mflib : all_given (mflib_members own.mflib) ≡ true
  pub transcoder : all_given (transcoder_members own.transcoder) ≡ true
  pub dtmfeng : all_given (dtmf_members own.dtmfeng) ≡ true
  pub dummy_io : all_given (io_members own.dummy_io) ≡ true
  pub zt_io : (z : IoInterface) → own.zt_io ≡ some z → all_given (io_members z) ≡ true

-- A context can call every function of its interfaces that the setters ask for: all but the two that
-- dispose of the MF engine, which the callers test for NULL, and `get_alarm_state`, which no caller
-- tests, no setter asks for, and the dummy interface lacks.
pub record IsCallable (l : Library) : Type 0 where
  pub evmanager : all_given (event_members l.evmanager) ≡ true
  pub mflib : all_given (mflib_members l.mflib) ≡ true
  pub transcoder : all_given (transcoder_members l.transcoder) ≡ true
  pub dtmfeng : all_given (dtmf_members l.dtmfeng) ≡ true
  pub io : (i : IoInterface) × (l.io ≡ some i) × (all_given (io_members i) ≡ true)

-- A call that gives the context an interface.
pub data Install : Type 0 where
  mflib : Option MflibInterface → Install
  transcoder : Option TranscoderInterface → Install
  dtmf : Option DtmfInterface → Install
  io : IoType → Option IoInterface → Install

unfoldable pub install : Defaults → Install → Library → Library × Rc
install own (Install.mflib m) = set_mflib_interface m
install own (Install.transcoder t) = set_transcoder_interface t
install own (Install.dtmf d) = set_dtmf_interface own d
install own (Install.io t i) = set_io_type own t i

-- Each callback of the first list, or that of the second where it is NULL.
abbrev fill_each : List ℕ → List ℕ → List ℕ
fill_each (e ∷ es) (d ∷ ds) = or_default e d ∷ fill_each es ds
fill_each [] ds = []
fill_each (e ∷ es) [] = []

all_given-fill_each : (es ds : List ℕ) → all_given ds ≡ true → all_given (fill_each es ds) ≡ true
all_given-fill_each [] ds h = refl
all_given-fill_each (e ∷ es) [] h = refl
all_given-fill_each (e ∷ es) (d ∷ ds) h = ground (arith, all_given-fill_each es ds)

given_events_all :
    (own : Defaults) (e : Option EventInterface)
    → all_given (event_members own.evmanager) ≡ true
    → all_given (event_members (given_events own e)) ≡ true
unfolding fill_events
given_events_all own none h = h
given_events_all own (some e) h =
    all_given-fill_each (event_members e) (event_members own.evmanager) h

module _ (own : Defaults) (complete : AreComplete own) where
  zt_or_all :
      (o : Option IoInterface)
      → ((z : IoInterface) → o ≡ some z → all_given (io_members z) ≡ true)
      → all_given (io_members (zt_or o own.dummy_io)) ≡ true
  zt_or_all none h = complete.dummy_io
  zt_or_all (some z) h = h z refl

  pub context_new-IsCallable :
      (v : Variant) (e : Option EventInterface) (max_ani max_dnis : ℤ)
      → v ≢ Variant.unknown
      → IsLimit max_ani
      → IsLimit max_dnis
      → (l : Library) × (context_new own true v e max_ani max_dnis ≡ NewContext.made l)
        × IsCallable l
        × IsConfigured l.context
  unfolding context_new set_io_type
  context_new-IsCallable v e max_ani max_dnis known ani dnis =
      let r = configure_context-IsConfigured (zero_context v) max_ani max_dnis ani dnis v known in
      (
        _,
        ap (finish_new own e) r.1,
        record {
          evmanager = given_events_all own e complete.evmanager;
          mflib = complete.mflib;
          transcoder = complete.transcoder;
          dtmfeng = complete.dtmfeng;
          io = (zt_or own.zt_io own.dummy_io, refl, zt_or_all own.zt_io complete.zt_io);
        },
        same_bounds r.0 _ refl r.2,
      )
