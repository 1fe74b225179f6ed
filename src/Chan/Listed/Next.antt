-- ===== src/Chan/Listed/Next.antt =====
-- The time to the next event of a context whose channels all have timers.
use openr.Prelude.{
  ℤ, negsuc, ◌≡◌, refl, ◌∙◌, ap, ◌⊎◌, inl, inr, ◌&&◌, if◌then◌else◌, Bool, true, false, Option,
  none, some, List, [], ◌∷◌, arith, Bool-cases, if_true_ind, if_false_ind,
}
use openr.Chan.{Chan, Time, SchedTimer}
use openr.Chan.Timers.Order.{IsBefore, IsSorted}
use openr.Chan.Timers.{timercmp_lt}
use openr.Chan.Listed.{
  first_time, has_timers, is_last, next_winner, wait_until, next_event, context_time_to_next_event,
}

-- The first time is not before the second.
abbrev pub NotBefore : Time → Time → Type 0
NotBefore a b = timercmp_lt a b ≡ false

NotBefore-refl : (a : Time) → NotBefore a a
unfolding timercmp_lt
NotBefore-refl a = ground arith

NotBefore-trans : (a b c : Time) → NotBefore a b → NotBefore b c → NotBefore a c
unfolding timercmp_lt
NotBefore-trans a b c h k = ground arith

NotBefore-total : (a b : Time) → timercmp_lt a b ≡ true → NotBefore b a
unfolding timercmp_lt
NotBefore-total a b h = ground arith

-- Every channel has a timer.
abbrev pub AllHaveTimers : List Chan → Type 0
AllHaveTimers [] = Unit {0}
AllHaveTimers (c ∷ cs) = (has_timers c ≡ true) × AllHaveTimers cs

-- The time of the first timer of one of the channels.
abbrev pub IsTimeOf : Time → List Chan → Type 0
IsTimeOf t [] = ⊥
IsTimeOf t (c ∷ cs) = (t ≡ first_time c) ⊎ IsTimeOf t cs

-- No channel has a timer before the time.
abbrev pub NoneBefore : Time → List Chan → Type 0
NoneBefore t [] = Unit {0}
NoneBefore t (c ∷ cs) = NotBefore (first_time c) t × NoneBefore t cs

-- What the winner of the next comparison is.
next_winner-cases :
    (w d : Chan) (ds : List Chan)
    → ((next_winner w (d ∷ ds) ≡ d) × NotBefore (first_time w) (first_time d))
      ⊎ ((next_winner w (d ∷ ds) ≡ w) × NotBefore (first_time d) (first_time w))
unfolding next_winner
next_winner-cases w d ds = elim (Bool-cases (timercmp_lt (first_time d) (first_time w))) [
  | inl before ↦ inl (
    if_true_ind (λ x. x ≡ d) _ d w before refl,
    NotBefore-total (first_time d) (first_time w) before,
  )
  | inr after ↦ inr (if_false_ind (λ x. x ≡ w) _ d w after refl, after)
]

-- One round of the loop at a channel that has timers, which is not the last, or is.
round :
    (b : Bool) (x : ℤ) (F : Option Chan → ℤ) (o : Option Chan) (y : Chan)
    → b ≡ true
    → (if b && false then x else F (if b then some y else o)) ≡ F (some y)
round true x F o y h = refl
round false x F o y h = cc

last_round : (b : Bool) (x y : ℤ) → b ≡ true → (if b && true then x else y) ≡ x
last_round true x y h = refl
last_round false x y h = cc

no_winner_yet :
    (b l : Bool) (x : ℤ) (F : Option Chan → ℤ) (y : Chan) (o p : Option Chan)
    → b ≡ true
    → (if b && l then x else F (if b then some y else o))
      ≡ (if b && l then x else F (if b then some y else p))
no_winner_yet true l x F y o p h = refl
no_winner_yet false l x F y o p h = cc

module _ (now : Time) where
  -- The value found from a winner that is not after the channel at hand.
  Found : Chan → Chan → List Chan → Type 0
  Found w c cs =
      (t : Time) × (next_event (some w) now (c ∷ cs) ≡ wait_until t now)
      × ((t ≡ first_time w) ⊎ IsTimeOf t cs)
      × NotBefore (first_time w) t
      × NoneBefore t (c ∷ cs)

  one_more :
      (w c d : Chan) (ds : List Chan)
      → has_timers c ≡ true
      → next_event (some w) now (c ∷ d ∷ ds)
        ≡ next_event (some (next_winner w (d ∷ ds))) now (d ∷ ds)
  unfolding next_event
  one_more w c d ds h = round (has_timers c) _ (λ o. next_event o now (d ∷ ds)) (some w) _ h

  at_last :
      (w c : Chan)
      → has_timers c ≡ true
      → next_event (some w) now (c ∷ []) ≡ wait_until (first_time w) now
  unfolding next_event
  at_last w c h = last_round (has_timers c) (wait_until (first_time w) now) (negsuc 0) h

  later_of :
      {t u v : Time} (cs : List Chan)
      → (t ≡ u) ⊎ IsTimeOf t cs
      → (t ≡ u) ⊎ ((t ≡ v) ⊎ IsTimeOf t cs)
  later_of cs (inl same) = inl same
  later_of cs (inr among) = inr (inr among)

  first_winner :
      (c : Chan) (cs : List Chan)
      → has_timers c ≡ true
      → next_event none now (c ∷ cs) ≡ next_event (some c) now (c ∷ cs)
  unfolding next_event
  first_winner c cs h =
      no_winner_yet (has_timers c) (is_last cs) (wait_until (first_time c) now)
        (λ o. next_event o now cs) (next_winner c cs) none (some c) h

  found :
      (cs : List Chan) (w c : Chan)
      → AllHaveTimers (c ∷ cs)
      → NotBefore (first_time c) (first_time w)
      → Found w c cs
  unfolding Found
  found [] w c all h =
      (first_time w, at_last w c all.0, inl refl, NotBefore-refl (first_time w), (h, tt))
  found (d ∷ ds) w c all h = elim (next_winner-cases w d ds) [
    | inl r ↦
        let f = found ds d d all.1 (NotBefore-refl (first_time d)) in
        let low = NotBefore-trans (first_time w) (first_time d) f.0 r.1 f.3 in
        (
          f.0,
          one_more w c d ds all.0 ∙ ap (λ v. next_event (some v) now (d ∷ ds)) r.0 ∙ f.1,
          inr f.2,
          low,
          (NotBefore-trans (first_time c) (first_time w) f.0 h low, f.4),
        )
    | inr r ↦
        let f = found ds w d all.1 r.1 in
        (
          f.0,
          one_more w c d ds all.0 ∙ ap (λ v. next_event (some v) now (d ∷ ds)) r.0 ∙ f.1,
          later_of ds f.2,
          f.3,
          (NotBefore-trans (first_time c) (first_time w) f.0 h f.3, f.4),
        )
  ]

-- The schedules of the channels are in the order of time.
abbrev pub AllSorted : List Chan → Type 0
AllSorted [] = Unit {0}
AllSorted (c ∷ cs) = IsSorted c.sched_timers × AllSorted cs

-- No timer of the schedule comes before the time.
abbrev pub NoTimerBefore : Time → List SchedTimer → Type 0
NoTimerBefore t [] = Unit {0}
NoTimerBefore t (u ∷ us) = NotBefore u.time t × NoTimerBefore t us

abbrev pub NoTimersBefore : Time → List Chan → Type 0
NoTimersBefore t [] = Unit {0}
NoTimersBefore t (c ∷ cs) = NoTimerBefore t c.sched_timers × NoTimersBefore t cs

NotBefore-later : (t u v : Time) → NotBefore u t → IsBefore u v → NotBefore v t
unfolding timercmp_lt
NotBefore-later t u v h k = ground arith

sorted-NoTimerBefore :
    (t : Time) (u : SchedTimer) (us : List SchedTimer)
    → NotBefore u.time t
    → IsSorted (u ∷ us)
    → NoTimerBefore t (u ∷ us)
sorted-NoTimerBefore t u [] h s = (h, tt)
sorted-NoTimerBefore t u (v ∷ vs) h s =
    (h, sorted-NoTimerBefore t v vs (NotBefore-later t u.time v.time h s.0) s.1)

schedule-NoTimerBefore :
    (t : Time) (ts : List SchedTimer) (c : Chan)
    → c.sched_timers ≡ ts
    → NotBefore (first_time c) t
    → IsSorted ts
    → NoTimerBefore t ts
schedule-NoTimerBefore t [] c e h s = tt
schedule-NoTimerBefore t (u ∷ us) c e h s = sorted-NoTimerBefore t u us (ground (arith, e, h)) s

NoneBefore-NoTimersBefore :
    (t : Time) (cs : List Chan) → NoneBefore t cs → AllSorted cs → NoTimersBefore t cs
NoneBefore-NoTimersBefore t [] h s = tt
NoneBefore-NoTimersBefore t (c ∷ cs) h s =
    (schedule-NoTimerBefore t c.sched_timers c refl h.0 s.0, NoneBefore-NoTimersBefore t cs h.1 s.1)

-- In a context whose channels all have timers, each in the order of time, the time to the next event
-- is that to the timer which no timer of any channel comes before, and it is the first timer of a
-- channel; where it is 2^31 milliseconds away or more, the wait wraps round as an int.
pub context_time_to_next_event-earliest :
    (now : Time) (c : Chan) (cs : List Chan)
    → AllHaveTimers (c ∷ cs)
    → AllSorted (c ∷ cs)
    → (t : Time) × (context_time_to_next_event (some now) (c ∷ cs) ≡ wait_until t now)
      × IsTimeOf t (c ∷ cs)
      × NoTimersBefore t (c ∷ cs)
unfolding context_time_to_next_event Found
context_time_to_next_event-earliest now c cs all sorted =
    let f = found now cs c c all (NotBefore-refl (first_time c)) in
    (f.0, first_winner now c cs all.0 ∙ f.1, f.2, NoneBefore-NoTimersBefore f.0 (c ∷ cs) f.4 sorted)
