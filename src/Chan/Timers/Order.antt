-- ===== src/Chan/Timers/Order.antt =====
-- The schedule of src/r2chan.c as an ordered list with distinct ids.
use openr.Prelude.{ℕ, suc, sym, ◌≤◌, ◌<◌, ◌≡◌, refl, ◌≢◌, ◌⊎◌, List, [], ◌∷◌, length, arith}
use openr.Chan.{Time, TimerCallback, SchedTimer, Chan}
use openr.Chan.Timers.{max_sched_timers, timercmp_lt, insert_timer, remove_timer, schedule}

-- `a` is not after `b`.
abbrev pub IsBefore : Time → Time → Type 0
IsBefore a b = (a.tv_sec < b.tv_sec) ⊎ ((a.tv_sec ≡ b.tv_sec) × (a.tv_usec ≤ b.tv_usec))

abbrev pub IsSorted : List SchedTimer → Type 0
IsSorted [] = Unit {0}
IsSorted (t ∷ []) = Unit {0}
IsSorted (t ∷ u ∷ us) = IsBefore t.time u.time × IsSorted (u ∷ us)

-- Every id lies between 1 and `n`.
abbrev pub HasIdsBelow : ℕ → List SchedTimer → Type 0
HasIdsBelow n [] = Unit {0}
HasIdsBelow n (t ∷ ts) = (0 < t.id) × (t.id ≤ n) × HasIdsBelow n ts

-- No timer of the list has this id.
abbrev pub LacksId : ℕ → List SchedTimer → Type 0
LacksId n [] = Unit {0}
LacksId n (t ∷ ts) = (t.id ≢ n) × LacksId n ts

abbrev pub HasDistinctIds : List SchedTimer → Type 0
HasDistinctIds [] = Unit {0}
HasDistinctIds (t ∷ ts) = LacksId t.id ts × HasDistinctIds ts

-- What holds of a channel's schedule `l` with `n` the last id, between two calls.
pub record IsScheduled (n : ℕ) (l : List SchedTimer) : Type 0 where
  pub fits : length l ≤ max_sched_timers
  pub sorted : IsSorted l
  pub ids_below : HasIdsBelow n l
  pub distinct : HasDistinctIds l

insert_timer-IsSorted :
    (t : SchedTimer) (l : List SchedTimer) → IsSorted l → IsSorted (insert_timer t l)
unfolding insert_timer timercmp_lt
insert_timer-IsSorted t [] s = tt
insert_timer-IsSorted t (u ∷ []) s = ground arith
insert_timer-IsSorted t (u ∷ v ∷ vs) s = ground (arith, insert_timer-IsSorted t (v ∷ vs) s.1)

length-insert_timer :
    (t : SchedTimer) (l : List SchedTimer) → length (insert_timer t l) ≡ suc (length l)
unfolding insert_timer
length-insert_timer t [] = refl
length-insert_timer t (u ∷ us) = ground (arith, length-insert_timer t us)

insert_timer-HasIdsBelow :
    (n : ℕ) (t : SchedTimer) (l : List SchedTimer)
    → 0 < t.id
    → t.id ≤ suc n
    → HasIdsBelow n l
    → HasIdsBelow (suc n) (insert_timer t l)
unfolding insert_timer
insert_timer-HasIdsBelow n t [] p q h = (p, q, tt)
insert_timer-HasIdsBelow n t (u ∷ us) p q h =
    ground (arith, insert_timer-HasIdsBelow n t us, below_suc us)
  where
    below_suc : (l : List SchedTimer) → HasIdsBelow n l → HasIdsBelow (suc n) l
    below_suc [] b = tt
    below_suc (v ∷ vs) b = (b.0, omega arith, below_suc vs b.2)

insert_timer-LacksId :
    (n : ℕ) (t : SchedTimer) (l : List SchedTimer)
    → t.id ≢ n
    → LacksId n l
    → LacksId n (insert_timer t l)
unfolding insert_timer
insert_timer-LacksId n t [] p h = (p, tt)
insert_timer-LacksId n t (u ∷ us) p h = ground (arith, insert_timer-LacksId n t us)

-- An id above all those in use is not there.
pub HasIdsBelow-LacksId : (n : ℕ) (l : List SchedTimer) → HasIdsBelow n l → LacksId (suc n) l
HasIdsBelow-LacksId n [] b = tt
HasIdsBelow-LacksId n (t ∷ ts) b = (omega arith, HasIdsBelow-LacksId n ts b.2)

insert_timer-HasDistinctIds :
    (t : SchedTimer) (l : List SchedTimer)
    → LacksId t.id l
    → HasDistinctIds l
    → HasDistinctIds (insert_timer t l)
unfolding insert_timer
insert_timer-HasDistinctIds t [] f d = (tt, tt)
insert_timer-HasDistinctIds t (u ∷ us) f d =
    ground (
      arith,
      insert_timer-HasDistinctIds t us f.1,
      insert_timer-LacksId u.id t us (λ e. f.0 (sym e)),
    )

pub schedule-IsScheduled :
    (time : Time) (callback : TimerCallback) (c : Chan)
    → length c.sched_timers < max_sched_timers
    → IsScheduled c.timer_id c.sched_timers
    → let c' = (schedule time callback c).0 in IsScheduled c'.timer_id c'.sched_timers
unfolding schedule
schedule-IsScheduled time callback c room v =
    let t : SchedTimer = record { time = time; callback = callback; id = suc c.timer_id } in
    record {
      fits = omega (arith, length-insert_timer t c.sched_timers);
      sorted = insert_timer-IsSorted t c.sched_timers v.sorted;
      ids_below =
          insert_timer-HasIdsBelow c.timer_id t c.sched_timers (omega arith) (omega arith)
            v.ids_below;
      distinct =
          insert_timer-HasDistinctIds t c.sched_timers
            (HasIdsBelow-LacksId c.timer_id c.sched_timers v.ids_below) v.distinct;
    }

remove_timer-HasIdsBelow :
    (n m : ℕ) (l : List SchedTimer) → HasIdsBelow m l → HasIdsBelow m (remove_timer n l).0
unfolding remove_timer
remove_timer-HasIdsBelow n m [] b = tt
remove_timer-HasIdsBelow n m (t ∷ ts) b = ground (arith, remove_timer-HasIdsBelow n m ts b.2)

remove_timer-LacksId :
    (n m : ℕ) (l : List SchedTimer) → LacksId m l → LacksId m (remove_timer n l).0
unfolding remove_timer
remove_timer-LacksId n m [] b = tt
remove_timer-LacksId n m (t ∷ ts) b = ground (arith, remove_timer-LacksId n m ts b.1)

remove_timer-HasDistinctIds :
    (n : ℕ) (l : List SchedTimer) → HasDistinctIds l → HasDistinctIds (remove_timer n l).0
unfolding remove_timer
remove_timer-HasDistinctIds n [] d = tt
remove_timer-HasDistinctIds n (t ∷ ts) d =
    ground (arith, remove_timer-HasDistinctIds n ts d.1, remove_timer-LacksId n t.id ts d.0)

length-remove_timer : (n : ℕ) (l : List SchedTimer) → length (remove_timer n l).0 ≤ length l
unfolding remove_timer
length-remove_timer n [] = omega arith
length-remove_timer n (t ∷ ts) = ground (arith, length-remove_timer n ts)

-- No timer of the list is before `a`.
abbrev IsBeforeAll : Time → List SchedTimer → Type 0
IsBeforeAll a [] = Unit {0}
IsBeforeAll a (t ∷ ts) = IsBefore a t.time × IsBeforeAll a ts

IsSorted-IsBeforeAll :
    (a : Time) (t : SchedTimer) (l : List SchedTimer)
    → IsBefore a t.time
    → IsSorted (t ∷ l)
    → IsBeforeAll a (t ∷ l)
IsSorted-IsBeforeAll a t [] h s = (h, tt)
IsSorted-IsBeforeAll a t (u ∷ us) h s = (h, IsSorted-IsBeforeAll a u us (grind arith) s.1)

remove_timer-IsBeforeAll :
    (n : ℕ) (a : Time) (l : List SchedTimer) → IsBeforeAll a l → IsBeforeAll a (remove_timer n l).0
unfolding remove_timer
remove_timer-IsBeforeAll n a [] h = tt
remove_timer-IsBeforeAll n a (t ∷ ts) h = ground (arith, remove_timer-IsBeforeAll n a ts h.1)

IsSorted-cons :
    (t : SchedTimer) (l : List SchedTimer) → IsBeforeAll t.time l → IsSorted l → IsSorted (t ∷ l)
IsSorted-cons t [] h s = tt
IsSorted-cons t (u ∷ us) h s = (h.0, s)

IsSorted-tail : (t : SchedTimer) (l : List SchedTimer) → IsSorted (t ∷ l) → IsSorted l
IsSorted-tail t [] s = tt
IsSorted-tail t (u ∷ us) s = s.1

IsBeforeAll-tail : (t : SchedTimer) (l : List SchedTimer) → IsSorted (t ∷ l) → IsBeforeAll t.time l
IsBeforeAll-tail t [] s = tt
IsBeforeAll-tail t (u ∷ us) s = IsSorted-IsBeforeAll t.time u us s.0 s.1

remove_timer-IsSorted : (n : ℕ) (l : List SchedTimer) → IsSorted l → IsSorted (remove_timer n l).0
unfolding remove_timer
remove_timer-IsSorted n [] s = tt
remove_timer-IsSorted n (t ∷ ts) s = ground (
  arith,
  IsSorted-tail t ts s,
  IsSorted-cons t (remove_timer n ts).0
      (remove_timer-IsBeforeAll n t.time ts (IsBeforeAll-tail t ts s))
      (remove_timer-IsSorted n ts (IsSorted-tail t ts s)),
)

pub remove_timer-IsScheduled :
    (id n : ℕ) (l : List SchedTimer) → IsScheduled n l → IsScheduled n (remove_timer id l).0
remove_timer-IsScheduled id n l v = record {
  fits = omega (arith, length-remove_timer id l, v.fits);
  sorted = remove_timer-IsSorted id l v.sorted;
  ids_below = remove_timer-HasIdsBelow id n l v.ids_below;
  distinct = remove_timer-HasDistinctIds id l v.distinct;
}

pub nil-IsScheduled : (n : ℕ) → IsScheduled n []
nil-IsScheduled n = ground arith
