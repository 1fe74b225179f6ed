-- ===== src/Proto/Deletion.antt =====
-- The end of channels: openr2_chan_delete of src/r2chan.c, and openr2_context_delete of
-- src/r2context.c, which goes through the list of the context's channels.
use openr.Prelude.{
  ℕ, ◌==◌, ◌||◌, ◌≡◌, ◌≢◌, refl, ◌∙◌, ap, sym, ◌⊎◌, inl, inr, Bool-cases, if◌then◌else◌, Bool, true,
  false, List, [], ◌∷◌, arith,
}
use openr.Chan.{Chan, Env}
use openr.Proto.Line.{proto_destroy}

-- A channel in memory: its address, and whether the library has opened its descriptor.
pub record Owned : Type 0 where
  pub address : ℕ
  pub fd_created : Bool
  pub chan : Chan

-- The addresses that were freed and the channels whose descriptor was closed, latest first; what the
-- protocol left in the channels; and whether freed memory was read.
pub record Freed : Type 0 where
  pub freed : List ℕ
  pub closed : List ℕ
  pub left : List Chan
  pub fault : Bool

abbrev pub nothing_freed : Freed
nothing_freed = record { freed = []; closed = []; left = []; fault = false }

abbrev pub has_address : ℕ → List ℕ → Bool
has_address a [] = false
has_address a (b ∷ bs) = a == b || has_address a bs

-- `openr2_chan_delete`; the channel stays in the context's list.
unfoldable pub chan_delete : Env → Owned → Freed → Freed
unfolding proto_destroy
chan_delete env o m =
    if has_address o.address m.freed then record m { fault = true } else record m {
      freed = o.address ∷ m.freed;
      closed = if o.fd_created then o.address ∷ m.closed else m.closed;
      left = record (proto_destroy env o.chan) { logfile = false } ∷ m.left;
    }

-- The loop of `openr2_context_delete` over `chanlist`.
unfoldable pub context_delete : Env → List Owned → Freed → Freed
unfolding chan_delete
context_delete env [] m = m
context_delete env (o ∷ os) m = context_delete env os (chan_delete env o m)

-- One of the channels was freed before.
abbrev pub any_freed : List Owned → List ℕ → Bool
any_freed [] freed = false
any_freed (o ∷ os) freed = has_address o.address freed || any_freed os freed

-- The address is that of none of the channels.
abbrev IsNew : ℕ → List Owned → Type 0
IsNew a [] = Unit {0}
IsNew a (o ∷ os) = (o.address ≢ a) × IsNew a os

-- The channels have addresses of their own.
abbrev pub AreApart : List Owned → Type 0
AreApart [] = Unit {0}
AreApart (o ∷ os) = IsNew o.address os × AreApart os

-- The addresses of the list, the last one first, before others.
abbrev pub freed_after : List Owned → List ℕ → List ℕ
freed_after [] freed = freed
freed_after (o ∷ os) freed = freed_after os (o.address ∷ freed)

any_freed-new :
    (a : ℕ) (os : List Owned) (freed : List ℕ)
    → IsNew a os
    → any_freed os (a ∷ freed) ≡ any_freed os freed
any_freed-new a [] freed h = refl
any_freed-new a (o ∷ os) freed h = ground (arith, any_freed-new a os freed h.1, h.0)

-- Once there was a fault there is one.
context_delete_fault :
    (env : Env) (os : List Owned) (m : Freed)
    → m.fault ≡ true
    → (context_delete env os m).fault ≡ true
unfolding context_delete chan_delete
context_delete_fault env [] m h = h
context_delete_fault env (o ∷ os) m h =
    context_delete_fault env os (chan_delete env o m) (ground (arith, h))

deleted_again :
    (env : Env) (o : Owned) (m : Freed)
    → has_address o.address m.freed ≡ true
    → (chan_delete env o m).fault ≡ true
unfolding chan_delete
deleted_again env o m h = ground (arith, h)

deleted_once :
    (env : Env) (o : Owned) (m : Freed)
    → has_address o.address m.freed ≡ false
    → ((chan_delete env o m).freed ≡ o.address ∷ m.freed) × ((chan_delete env o m).fault ≡ m.fault)
unfolding chan_delete
deleted_once env o m h = ground (arith, h)

or_true : (b c : Bool) → b ≡ true → (b || c) ≡ true
or_true true c h = refl
or_true false c h = cc

or_false : (b c : Bool) → b ≡ false → (b || c) ≡ c
or_false true c h = cc
or_false false c h = refl

-- openr2_context_delete reads freed memory if and only if one of the context's channels was deleted by
-- openr2_chan_delete before. If none was, it frees each channel, once.
pub context_delete-any_freed :
    (env : Env) (os : List Owned) (m : Freed)
    → AreApart os
    → m.fault ≡ false
    → ((context_delete env os m).fault ≡ any_freed os m.freed)
      × ((any_freed os m.freed ≡ true) ⊎ ((context_delete env os m).freed ≡ freed_after os m.freed))
unfolding context_delete
context_delete-any_freed env [] m apart h = (h, inr refl)
context_delete-any_freed env (o ∷ os) m apart h =
    elim (Bool-cases (has_address o.address m.freed)) [
      | inl again ↦
          let some_freed = or_true (has_address o.address m.freed) (any_freed os m.freed) again in
          (
            context_delete_fault env os (chan_delete env o m) (deleted_again env o m again)
                ∙ sym some_freed,
            inl some_freed,
          )
      | inr once ↦
          let (freed, fault) = deleted_once env o m once in
          let (later, kept) =
            context_delete-any_freed env os (chan_delete env o m) apart.1 (fault ∙ h) in
          let same = ap (any_freed os) freed ∙ any_freed-new o.address os m.freed apart.0 in
          let head = or_false (has_address o.address m.freed) (any_freed os m.freed) once in
          (
            later ∙ same ∙ sym head,
            elim kept [
              | inl bad ↦ inl (head ∙ sym same ∙ bad)
              | inr all ↦ inr (all ∙ ap (freed_after os) freed)
            ],
          )
    ]
