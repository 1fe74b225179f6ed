-- ===== src/Chan/Device.antt =====
-- The wrappers of src/r2ioabs.c round the I/O interface, and the fields that hold a digit buffer.
use openr.Prelude.{ℕ, ◌+◌, ◌&&◌, ltb, if◌then◌else◌, Option, none, some, ◌∷◌, length, set, get_or}
use openr.Types.{Rc, done, failed}
use openr.Chan.{Action, Chan, Env, Event}
use openr.Chan.Timers.{emit}

unfoldable pub fault : Chan → Chan
fault c = record c { trace = Action.fault ∷ c.trace }

-- What a function of the I/O interface does to the channel where it fails with `errno`: that of
-- Zaptel tells the user. Without an interface nothing is told.
unfoldable pub io_failure : Env → ℕ → Chan → Chan
unfolding emit
io_failure env errno c =
    if env.r2context.has_io && env.tells_io_errors then emit env (Event.on_os_error errno) c else c

-- `openr2_io_set_cas`: the bits reach the line if the interface takes them.
unfoldable pub io_set_cas : Env → ℕ → Chan → Chan × Rc
io_set_cas env cas c =
    if env.r2context.has_io
    then (if env.set_cas_fails c cas
        then (io_failure env (env.errno c) c, failed)
        else (record c { trace = Action.tx_cas cas ∷ c.trace }, done))
    else (c, failed)

-- `openr2_io_get_cas`: the bits, if the call succeeds, are kept in `cas_raw_read`.
unfoldable pub io_get_cas : Env → Chan → Chan × Option ℕ
io_get_cas env c =
    if env.r2context.has_io
    then elim (env.get_cas c) [
      | none ↦ (io_failure env (env.errno c) c, none)
      | some cas ↦ (record c { cas_raw_read = cas }, some cas)
    ]
    else (c, none)

-- `openr2_io_flush_write_buffers`
unfoldable pub io_flush_write_buffers : Env → Chan → Chan × Rc
io_flush_write_buffers env c =
    if env.r2context.has_io
    then (if env.flush_fails c then (io_failure env (env.errno c) c, failed) else (c, done))
    else (c, failed)

-- `r2chan->dnis[i] = v`
unfoldable pub put_dnis : ℕ → ℕ → Chan → Chan
unfolding fault
put_dnis i v c = if ltb i (length c.dnis) then record c { dnis = set c.dnis i v } else fault c

-- `r2chan->ani[i] = v`
unfoldable pub put_ani : ℕ → ℕ → Chan → Chan
unfolding fault
put_ani i v c = if ltb i (length c.ani) then record c { ani = set c.ani i v } else fault c

-- `dnis[dnis_len++] = digit; dnis[dnis_len] = '\0'`
unfoldable pub append_dnis : ℕ → Chan → Chan
append_dnis digit c =
    let c' = put_dnis c.dnis_len digit c in
    put_dnis (c.dnis_len + 1) 0 (record c' { dnis_len = c.dnis_len + 1 })

-- `ani[ani_len++] = tone; ani[ani_len] = '\0'`
unfoldable pub append_ani : ℕ → Chan → Chan
append_ani digit c =
    let c' = put_ani c.ani_len digit c in
    put_ani (c.ani_len + 1) 0 (record c' { ani_len = c.ani_len + 1 })

-- A read of `r2chan->dnis[r2chan->dnis_index]`, with the channel after it.
unfoldable pub read_dnis : Chan → Chan × ℕ
unfolding fault
read_dnis c =
    if ltb c.dnis_index (length c.dnis) then (c, get_or c.dnis c.dnis_index 0) else (fault c, 0)

-- A read of `*r2chan->ani_ptr`.
unfoldable pub read_ani : Chan → Chan × ℕ
unfolding fault
read_ani c = elim c.ani_ptr [
  | none ↦ (fault c, 0)
  | some p ↦ if ltb p (length c.ani) then (c, get_or c.ani p 0) else (fault c, 0)
]
