-- ===== src/Chan/Client.antt =====
-- What the test program, src/r2test.c, keeps of a channel: `r2chan_data_t`, behind the pointer
-- `client_data`. The library neither reads nor writes it.
use openr.Prelude.{ℕ, Bool, false}

-- `audiofp` is whether a file is open; the last field is whether a callback has ended the thread.
pub record ClientData : Type 0 where
  pub audiofp : Bool
  pub audio_stop : Bool
  pub frame_counter : ℕ
  pub called : Bool
  pub exited : Bool

-- The memory before anything is written to it, which main has set to 0.
abbrev pub no_client_data : ClientData
no_client_data = record {
  audiofp = false;
  audio_stop = false;
  frame_counter = 0;
  called = false;
  exited = false;
}
