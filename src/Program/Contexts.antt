-- ===== src/Program/Contexts.antt =====
-- How main of src/r2test.c makes a context for each group, and a channel for each number of its
-- range.
use openr.Prelude.{
  ℕ, zero, suc, ◌+◌, ℤ, pos, negsuc, pos_part, neg_part, ◌-◌, leb, if◌then◌else◌, Bool, true, false,
  Option, some, List, [], ◌∷◌,
}
use openr.Context.{Context}
use openr.Context.Settings.Kept.{Setting, apply_all}
use openr.Context.Interfaces.{EventInterface, Library, Defaults, NewContext, context_new}
use openr.Context.File.{configure_from_advanced_file}
use openr.Program.{Options, Group, max_chans}
use openr.Program.Parse.{is_empty}

abbrev pub flag : Bool → ℤ
flag false = pos 0
flag true = pos 1

-- The setters that main calls, in its order.
abbrev pub group_settings : Options → List Setting
group_settings o =
    Setting.log_level o.loglevel
    ∷ Setting.ani_first (flag o.getanifirst)
    ∷ Setting.mf_threshold o.mf_threshold
    ∷ Setting.mf_back_timeout o.mf_backtimeout
    ∷ Setting.metering_pulse_timeout o.meteringpulse_timeout
    ∷ Setting.double_answer (flag o.double_answer)
    ∷ Setting.immediate_accept (flag o.immediateaccept)
    ∷ Setting.skip_category_request (flag o.skipcategory)
    ∷ []

-- What main comes to with the contexts; when one cannot be made, those before it are deleted.
pub data Contexts : Type 0 where
  ready : List Library → Contexts
  aborted : Contexts
  undefined : Contexts

abbrev pub add_context : Library → Contexts → Contexts
add_context l (Contexts.ready ls) = Contexts.ready (l ∷ ls)
add_context l Contexts.aborted = Contexts.aborted
add_context l Contexts.undefined = Contexts.undefined

-- The library's interfaces, the program's `g_event_iface`, the bytes of the file of a name, and
-- whether there is memory for the context of a group.
module _ (own : Defaults) (iface : EventInterface) (files : List ℕ → Option (List ℕ)) where
  unfoldable pub configure_group : Options → Context → Context
  unfolding apply_all configure_from_advanced_file
  configure_group o r =
      let r' = apply_all (group_settings o) r in
      if is_empty o.r2file then r' else (configure_from_advanced_file (files o.r2file) r').0

  -- openr2_context_set_mflib_interface is given NULL, which leaves the context as it is.
  unfoldable pub make_context : Bool → Options → NewContext
  unfolding context_new configure_group
  make_context memory o =
      elim (context_new own memory o.variant (some iface) o.max_ani o.max_dnis) [
        | NewContext.made l ↦ NewContext.made (record l { context = configure_group o l.context })
        | x ↦ x
      ]

  -- The loop over the groups, from a number on.
  unfoldable pub make_contexts : (ℕ → Bool) → ℕ → List Group → Contexts
  unfolding make_context
  make_contexts memory c [] = Contexts.ready []
  make_contexts memory c (g ∷ gs) = elim (make_context (memory c) g.options) [
    | NewContext.made l ↦ add_context l (make_contexts memory (c + 1) gs)
    | NewContext.null ↦ Contexts.aborted
    | NewContext.undefined ↦ Contexts.undefined
  ]

-- The numbers of a range of channels: so many from the first on.
abbrev next : ℤ → ℤ
next (pos n) = pos (n + 1)
next (negsuc zero) = pos 0
next (negsuc (suc n)) = negsuc n

abbrev numbers_from : ℤ → ℕ → List ℤ
numbers_from i zero = []
numbers_from i (suc n) = i ∷ numbers_from (next i) n

-- `for (i = lowchan; i <= highchan; i++)`, for a `highchan` below INT_MAX.
abbrev pub channel_numbers : Group → List ℤ
channel_numbers g =
    numbers_from g.lowchan
      (pos_part g.highchan + neg_part g.lowchan + 1 - (pos_part g.lowchan + neg_part g.highchan))

-- All channels of a group are opened, or C leaves undefined what was done.
pub data Channels : Type 0 where
  opened undefined : Channels

-- The loop, with `cnt` channels so far, where `create` is whether openr2_chan_new gives a channel. It
-- writes the entry `cnt` of `channels`, and openr2_chan_set_mflib_handles then takes the lock of the
-- channel, before main looks whether there is one.
unfoldable pub open_channels : (ℤ → Bool) → ℕ → List ℤ → Channels
open_channels create cnt [] = Channels.opened
open_channels create cnt (i ∷ is) =
    let later = open_channels create (cnt + 1) is in
    if leb max_chans cnt then Channels.undefined else if create i then later else Channels.undefined
