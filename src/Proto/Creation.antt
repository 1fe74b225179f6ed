-- ===== src/Proto/Creation.antt =====
-- How a channel comes to be: openr2_chan_new, openr2_chan_new_from_fd and __openr2_chan_new of
-- src/r2chan.c, with openr2_io_open of src/r2ioabs.c, up to its place in the context's list. The
-- build is the one without OR2_MF_DEBUG.
use openr.Prelude.{
  ℕ, ℤ, pos, negsuc, zero, suc, nonzero, if◌then◌else◌, Bool, false, Option, none, some, List, ◌∷◌,
}
use openr.Chan.{Chan, Env}
use openr.Chan.Listed.{add_channel}
use openr.Proto.Line.{proto_destroy}
use openr.Proto.Session.{fresh_chan, chan_new}

-- The library errors that these functions set themselves.
pub data CreationError : Type 0 where
  syscall_failed invalid_chan_number : CreationError

-- What becomes of the memory of the channel: it is never had, it is freed again with what the
-- protocol leaves in it, or the caller has the channel.
pub data Outcome : Type 0 where
  never : Outcome
  deleted : Chan → Outcome
  given : Chan → Outcome

-- The outcome, the list of the context's channels, the descriptors that the library has opened and
-- not closed, and the error that is set, if there is one.
pub record NewChan : Type 0 where
  pub outcome : Outcome
  pub chanlist : List ℕ
  pub open_fds : List ℕ
  pub error : Option CreationError

-- What the surroundings answer: `calloc` an address, the `open` of the I/O interface a descriptor,
-- with 0 for NULL, its `setup` whether it fails, and `get_alarm_state` whether there is an alarm.
pub record Answers : Type 0 where
  pub calloc : Option ℕ
  pub open_fd : ℕ → ℕ
  pub setup_fails : ℕ → Bool
  pub alarm : Bool

-- `openr2_io_open`
unfoldable pub io_open : Env → (ℕ → ℕ) → ℕ → ℕ
io_open env open_fd number = if env.r2context.has_io then open_fd number else 0

module _ (env : Env) (answers : Answers) (write_handle read_handle : ℕ) where
  -- `openr2_chan_delete` before `fd_created` is set: it closes no descriptor.
  unfoldable pub delete_unfinished : List ℕ → List ℕ → NewChan
  delete_unfinished chanlist fds = record {
    outcome = Outcome.deleted (proto_destroy env (fresh_chan write_handle read_handle));
    chanlist = chanlist;
    open_fds = fds;
    error = none;
  }

  -- The end, which is also the way of a channel whose descriptor the caller brings. Without an I/O
  -- interface there is no alarm.
  unfoldable pub list_chan : ℕ → List ℕ → List ℕ → NewChan
  list_chan address chanlist fds = record {
    outcome = Outcome.given (
        chan_new env (if env.r2context.has_io then answers.alarm else false) write_handle
          read_handle);
    chanlist = add_channel address chanlist;
    open_fds = fds;
    error = none;
  }

  -- The branch `if (openchan)`.
  unfoldable pub open_chan : ℕ → ℕ → List ℕ → List ℕ → NewChan
  unfolding io_open delete_unfinished list_chan
  open_chan number address chanlist fds =
      let fd = io_open env answers.open_fd number in
      if nonzero fd
      then if answers.setup_fails fd
        then delete_unfinished chanlist (fd ∷ fds)
        else list_chan address chanlist (fd ∷ fds)
      else delete_unfinished chanlist fds

  -- `__openr2_chan_new`
  unfoldable pub create_chan : Bool → ℕ → List ℕ → List ℕ → NewChan
  unfolding open_chan list_chan
  create_chan openchan number chanlist fds = elim answers.calloc [
    | none ↦ record {
      outcome = Outcome.never;
      chanlist = chanlist;
      open_fds = fds;
      error = some CreationError.syscall_failed;
    }
    | some address ↦
        if openchan then open_chan number address chanlist fds else list_chan address chanlist fds
  ]

  abbrev refuse_number : List ℕ → List ℕ → NewChan
  refuse_number chanlist fds = record {
    outcome = Outcome.never;
    chanlist = chanlist;
    open_fds = fds;
    error = some CreationError.invalid_chan_number;
  }

  -- `openr2_chan_new` where `openchan` holds, and else `openr2_chan_new_from_fd`.
  unfoldable pub new_numbered : Bool → ℤ → List ℕ → List ℕ → NewChan
  unfolding create_chan
  new_numbered openchan (pos zero) chanlist fds = refuse_number chanlist fds
  new_numbered openchan (pos (suc n)) chanlist fds = create_chan openchan (suc n) chanlist fds
  new_numbered openchan (negsuc n) chanlist fds = refuse_number chanlist fds
