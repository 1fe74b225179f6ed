-- ===== src/Program/Opened.antt =====
-- The channels that the test program opens.
use openr.Prelude.{
  ℕ, ℤ, ◌+◌, ◌≡◌, refl, ◌↔◌, ◌≤◌, leb, if◌then◌else◌, Bool, true, false, List, [], ◌∷◌, length,
  arith,
}
use openr.Program.{Group, max_chans}
use openr.Program.Contexts.{Channels, open_channels, channel_numbers}

-- Each number of the list has a channel.
abbrev pub AllCreated : (ℤ → Bool) → List ℤ → Type 0
AllCreated create [] = Unit {0}
AllCreated create (i ∷ is) = (create i ≡ true) × AllCreated create is

one_channel :
    (full created : Bool) (later : Channels)
    → ((if full then Channels.undefined else if created then later else Channels.undefined)
        ≡ Channels.opened)
      ↔ ((full ≡ false) × (created ≡ true) × (later ≡ Channels.opened))
one_channel true created later = (λ h. cc, λ h. cc)
one_channel false true later = (λ h. (refl, refl, h), λ h. h.2)
one_channel false false later = (λ h. cc, λ h. cc)

open_channels_from :
    (create : ℤ → Bool) (cnt : ℕ) (is : List ℤ)
    → cnt ≤ max_chans
    → (open_channels create cnt is ≡ Channels.opened)
      ↔ ((cnt + length is ≤ max_chans) × AllCreated create is)
unfolding open_channels
open_channels_from create cnt [] room = (λ h. (omega arith, tt), λ h. refl)
open_channels_from create cnt (i ∷ is) room =
    let one = one_channel (leb max_chans cnt) (create i) (open_channels create (cnt + 1) is) in
    (
      λ h.
          let x = one.0 h in
          let free : cnt + 1 ≤ max_chans = ground arith in
          let y = (open_channels_from create (cnt + 1) is free).0 x.2 in
          (omega (arith, y.0), (x.1, y.1)),
      λ h.
          let free : cnt + 1 ≤ max_chans = omega (arith, h.0) in
          one.1 (
            ground arith,
            h.1.0,
            (open_channels_from create (cnt + 1) is free).1 (omega (arith, h.0), h.1.1),
          ),
    )

-- main opens the channels of a group, without an access that C does not define, if and only if the
-- range has at most 30 numbers and openr2_chan_new gives a channel for each.
pub open_channels-opened :
    (create : ℤ → Bool) (g : Group)
    → (open_channels create 0 (channel_numbers g) ≡ Channels.opened)
      ↔ ((length (channel_numbers g) ≤ max_chans) × AllCreated create (channel_numbers g))
open_channels-opened create g =
    let whole = open_channels_from create 0 (channel_numbers g) (omega arith) in
    (λ h. let x = whole.0 h in (omega (arith, x.0), x.1), λ h. whole.1 (omega (arith, h.0), h.1))
