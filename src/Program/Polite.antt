-- ===== src/Program/Polite.antt =====
-- The callbacks of src/r2test.c keep a sound channel sound, and so the program's channels are sound.
use openr.Prelude.{ℕ, List, [], ◌∷◌}
use openr.Chan.{Chan, Env}
use openr.Proto.Session.{Call}
use openr.Program.{Options}
use openr.Program.User.{Audio, user_env}

-- The moments of a channel's life, each in its surroundings, with the program's callbacks.
abbrev pub program_calls : Audio → Options → List (ℕ × Env × Call) → List (Env × Call)
program_calls a o [] = []
program_calls a o ((depth, base, call) ∷ rest) =
    (user_env a o depth base, call) ∷ program_calls a o rest
