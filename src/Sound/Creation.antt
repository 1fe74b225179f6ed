-- ===== src/Sound/Creation.antt =====
-- A channel that the Zaptel backend opens: when the caller has it, and what it then has.
use openr.Prelude.{
  ℕ, ℤ, pos, pos_part, negsuc, zero, suc, nonzero, is_positive, is_some, ◌≡◌, refl, ◌&&◌, not, ◌∙◌,
  ◌↔◌, if_ind, Bool, true, false, Option, none, some, List, ◌∷◌, arith,
}
use openr.Chan.{Env}
use openr.Sound.{IsSound, IsPolite}
use openr.Sound.Session.{chan_new-IsSound}
use openr.Proto.Creation.{
  Outcome, NewChan, Answers, new_numbered, create_chan, open_chan, io_open, list_chan,
  delete_unfinished,
}
use openr.Io.{Request, IoError, Opened, zt_open, zt_setup, first_requests, later_requests}
use openr.Io.Ready.{all_succeed, zt_setup_succeeds}

-- The pointer that `zt_open` returns.
abbrev zt_pointer : Opened → ℕ
zt_pointer (Opened.opened fd) = fd
zt_pointer Opened.not_opened = 0
zt_pointer (Opened.closed fd) = 0

-- The answers of a driver, which gives the descriptor `device` or none, fails some requests, and
-- shows CAS signaling or not.
abbrev pub zt_answers : Option ℕ → Option ℕ → (Request → Bool) → Bool → Bool → Answers
zt_answers calloc device fails is_cas alarm = record {
  calloc = calloc;
  open_fd = λ n. zt_pointer (zt_open device fails n);
  setup_fails = λ fd. is_some (zt_setup fails is_cas).error;
  alarm = alarm;
}

abbrev pub is_given : Outcome → Bool
is_given Outcome.never = false
is_given (Outcome.deleted c) = false
is_given (Outcome.given c) = true

-- A channel that is given is sound, and the address that calloc gave it is at the head of the list;
-- else the list is as before.
abbrev pub IsListed : Outcome → Option ℕ → List ℕ → List ℕ → Type 0
IsListed Outcome.never calloc before after = after ≡ before
IsListed (Outcome.deleted c) calloc before after = after ≡ before
IsListed (Outcome.given c) calloc before after =
    IsSound c × ((address : ℕ) × (calloc ≡ some address) × (after ≡ address ∷ before))

-- The device opens, and its descriptor is not 0, which is the pointer NULL.
abbrev pub has_descriptor : Option ℕ → Bool
has_descriptor none = false
has_descriptor (some fd) = nonzero fd

-- Each request succeeds, and the signaling is CAS.
abbrev pub sets_up : (Request → Bool) → Bool → Bool
sets_up fails is_cas =
    all_succeed fails first_requests && (is_cas && all_succeed fails later_requests)

ready :
    (b1 b2 b3 : Bool)
    → b1 ≡ true
    → b2 ≡ true
    → b3 ≡ true
    → is_some {A = IoError} none ≡ not (b1 && (b2 && b3))
ready b1 b2 b3 h1 h2 h3 = ground arith

error_or_ready :
    (e : Option IoError) (b1 b2 b3 : Bool)
    → (e ≡ none) ↔ ((b1 ≡ true) × ((b2 ≡ true) × (b3 ≡ true)))
    → is_some e ≡ not (b1 && (b2 && b3))
error_or_ready none b1 b2 b3 h = let x = h.0 refl in ready b1 b2 b3 x.0 x.1.0 x.1.1
error_or_ready (some e) true true true h = let x = h.1 (refl, (refl, refl)) in cc
error_or_ready (some e) true true false h = refl
error_or_ready (some e) true false b3 h = refl
error_or_ready (some e) false b2 b3 h = refl

zt_setup-sets_up :
    (fails : Request → Bool) (is_cas : Bool)
    → is_some (zt_setup fails is_cas).error ≡ not (sets_up fails is_cas)
zt_setup-sets_up fails is_cas =
    error_or_ready _ (all_succeed fails first_requests) is_cas (all_succeed fails later_requests)
      (zt_setup_succeeds fails is_cas)

zt_open-has_descriptor :
    (device : Option ℕ) (fails : Request → Bool) (n : ℕ)
    → nonzero (zt_pointer (zt_open device fails n))
      ≡ (has_descriptor device && not (fails (Request.specify n)))
unfolding zt_open
zt_open-has_descriptor none fails n = refl
zt_open-has_descriptor (some fd) fails n = ground arith

-- With an I/O interface the two tests of the opening are those of the driver.
opens :
    (env : Env) (device : Option ℕ) (fails : Request → Bool) (is_cas : Bool) (n : ℕ)
    → (nonzero (io_open env (λ m. zt_pointer (zt_open device fails m)) n)
        && not (is_some (zt_setup fails is_cas).error))
      ≡ (env.r2context.has_io
          && (has_descriptor device && (not (fails (Request.specify n)) && sets_up fails is_cas)))
unfolding io_open
opens env device fails is_cas n =
    ground (arith, zt_open-has_descriptor device fails n, zt_setup-sets_up fails is_cas)

module _ (env : Env) (answers : Answers) (w r : ℕ) where
  open_chan-is_given :
      (number address : ℕ) (chanlist fds : List ℕ)
      → is_given (open_chan env answers w r number address chanlist fds).outcome ≡ (
          nonzero (io_open env answers.open_fd number)
          && not (answers.setup_fails (io_open env answers.open_fd number)))
  unfolding open_chan list_chan delete_unfinished
  open_chan-is_given number address chanlist fds = ground arith

  Listed : ℕ → List ℕ → NewChan → Type 0
  Listed address before c = IsListed c.outcome (some address) before c.chanlist

  open_chan-Listed :
      (polite : IsPolite env) (number address : ℕ) (chanlist fds : List ℕ)
      → Listed address chanlist (open_chan env answers w r number address chanlist fds)
  unfolding open_chan list_chan delete_unfinished Listed
  open_chan-Listed p number address chanlist fds =
      if_ind (Listed address chanlist) (nonzero (io_open env answers.open_fd number))
        (if_ind (Listed address chanlist) (answers.setup_fails (io_open env answers.open_fd number))
          refl (chan_new-IsSound env p _ w r, (address, refl, refl)))
        refl

-- What openr2_chan_new needs in order to give a channel.
abbrev pub is_creatable : Env → Option ℕ → Option ℕ → (Request → Bool) → Bool → ℤ → Bool
is_creatable env calloc device fails is_cas number =
    is_positive number
    && (is_some calloc
        && (env.r2context.has_io
            && (has_descriptor device
                && (not (fails (Request.specify (pos_part number))) && sets_up fails is_cas))))

after_check :
    (env : Env) (device : Option ℕ) (fails : Request → Bool) (is_cas : Bool) (n a : ℕ)
    → (env.r2context.has_io
        && (has_descriptor device
            && (not (fails (Request.specify (suc n))) && sets_up fails is_cas)))
      ≡ is_creatable env (some a) device fails is_cas (pos (suc n))
after_check env device fails is_cas n a = ground arith

-- With the Zaptel backend, openr2_chan_new gives a channel if and only if the number is positive,
-- there are memory and an I/O interface, the device opens with a descriptor that is not 0 and takes
-- the number, the signaling is CAS and each request of the setup succeeds. A channel that is given is
-- sound, if the callbacks keep a sound channel sound, and the address that calloc gave it is put
-- before the context's list; without one the list is as before.
pub new_numbered-creatable :
    (env : Env) (calloc device : Option ℕ) (fails : Request → Bool) (is_cas alarm : Bool) (w r : ℕ)
    (number : ℤ) (chanlist fds : List ℕ)
    → IsPolite env
    → let new =
        new_numbered env
          (zt_answers calloc device fails is_cas alarm)
          w
          r
          true
          number
          chanlist
          fds in
      (is_given new.outcome ≡ is_creatable env calloc device fails is_cas number)
      × IsListed new.outcome calloc chanlist new.chanlist
unfolding new_numbered create_chan Listed
new_numbered-creatable env calloc device fails is_cas alarm w r (pos zero) l fds p = (refl, refl)
new_numbered-creatable env calloc device fails is_cas alarm w r (negsuc n) l fds p = (refl, refl)
new_numbered-creatable env none device fails is_cas alarm w r (pos (suc n)) l fds p =
    (ground arith, refl)
new_numbered-creatable env (some a) device fails is_cas alarm w r (pos (suc n)) l fds p =
    let k = zt_answers (some a) device fails is_cas alarm in
    (
      open_chan-is_given env k w r (suc n) a l fds
          ∙ opens env device fails is_cas (suc n)
          ∙ after_check env device fails is_cas n a,
      open_chan-Listed env k w r p (suc n) a l fds,
    )
