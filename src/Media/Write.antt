-- ===== src/Media/Write.antt =====
-- openr2_chan_write of src/r2chan.c.
use openr.Prelude.{
  ℕ, zero, suc, ◌+◌, ◌<◌, ◌≤◌, ◌≡◌, refl, ap, ◌∙◌, ◌∙◌, ltb, if◌then◌else◌, if_true_ind,
  if_false_ind, Option, none, some, List, [], ◌∷◌, ◌++◌, length, take, replicate, arith,
}
use openr.Chan.{Action, Chan, Env, Event}
use openr.Chan.Timers.{emit}
use openr.Chan.Device.{io_failure}

-- What `openr2_io_write` gives: how many bytes the device took, -1 with EAGAIN, or -1 with another
-- `errno`.
pub data Written : Type 0 where
  bytes : ℕ → Written
  again : Written
  broken : ℕ → Written

-- EAGAIN
abbrev pub eagain : ℕ
eagain = 11

-- The loop over the device's answers, with the bytes counted so far: the channel, and the result
-- unless the loop still runs. Each turn offers the device the whole buffer.
unfoldable pub write_loop : Env → List Written → List ℕ → ℕ → Chan → Chan × Option ℕ
write_loop env [] buf wrote c = (c, if ltb wrote (length buf) then none else some wrote)
write_loop env (Written.bytes n ∷ more) buf wrote c =
    let sent : Chan = record c { trace = Action.tx_audio (take n buf) ∷ c.trace } in
    let later = write_loop env more buf (wrote + n) sent in
    if ltb wrote (length buf) then later else (c, some wrote)
write_loop env (Written.again ∷ more) buf wrote c =
    let later = write_loop env more buf wrote (io_failure env eagain c) in
    if ltb wrote (length buf) then later else (c, some wrote)
write_loop env (Written.broken errno ∷ more) buf wrote c =
    if ltb wrote (length buf)
    then (emit env (Event.on_os_error errno) (io_failure env errno c), some wrote)
    else (c, some wrote)

unfoldable pub chan_write : Env → List Written → List ℕ → Chan → Chan × Option ℕ
unfolding write_loop
chan_write env answers buf c = write_loop env answers buf 0 c

-- The channel after the device took two prefixes of the buffer.
abbrev pub sent_twice : ℕ → ℕ → List ℕ → Chan → Chan
sent_twice n k buf c = record c {
  trace = Action.tx_audio (take k buf) ∷ (Action.tx_audio (take n buf) ∷ c.trace);
}

-- A turn of the loop, while bytes are left.
turn :
    (size wrote : ℕ) (later stop out : Chan × Option ℕ)
    → wrote < size
    → later ≡ out
    → (if ltb wrote size then later else stop) ≡ out
turn size wrote later stop out h same =
    if_true_ind (λ x. x ≡ out) (ltb wrote size) later stop (ground arith) same

taken_last :
    (env : Env) (k wrote : ℕ) (buf : List ℕ) (c : Chan)
    → wrote < length buf
    → length buf ≤ wrote + k
    → write_loop env (Written.bytes k ∷ []) buf wrote c
      ≡ (record c { trace = Action.tx_audio (take k buf) ∷ c.trace }, some (wrote + k))
unfolding write_loop
taken_last env k wrote buf c less enough =
    turn (length buf) wrote _ (c, some wrote) _ less
      (ap (λ (x : Option ℕ). (record c { trace = Action.tx_audio (take k buf) ∷ c.trace }, x))
        (if_false_ind (λ x. x ≡ some (wrote + k)) (ltb (wrote + k) (length buf)) none _
          (ground arith) refl))

taken_twice :
    (env : Env) (n k wrote : ℕ) (buf : List ℕ) (c : Chan)
    → wrote + n < length buf
    → length buf ≤ wrote + n + k
    → write_loop env (Written.bytes n ∷ (Written.bytes k ∷ [])) buf wrote c
      ≡ (sent_twice n k buf c, some (wrote + n + k))
unfolding write_loop
taken_twice env n k wrote buf c less enough =
    turn (length buf) wrote _ (c, some wrote) _ (omega arith)
      (taken_last env k (wrote + n) buf _ less enough)

zero_add : {n : ℕ} → 0 + n ≡ n
zero_add = omega arith

-- The channel after the device was busy so many times, each of which the I/O interface may tell.
abbrev pub busy_told : Env → ℕ → Chan → Chan
busy_told env zero c = c
busy_told env (suc busy) c = busy_told env busy (io_failure env eagain c)

-- A device that is busy any number of times, then takes a part of the buffer and then enough bytes:
-- the two parts on the line are both from the start of the buffer, not the second from where the
-- first ended, and the result is their sum, which may be more than the buffer holds. Each time that
-- the device is busy, an I/O interface that tells its errors calls on_os_error for it.
pub chan_write_twice :
    (env : Env) (busy n k : ℕ) (buf : List ℕ) (c : Chan)
    → n < length buf
    → length buf ≤ n + k
    → chan_write env
        (replicate busy Written.again ++ (Written.bytes n ∷ (Written.bytes k ∷ [])))
        buf
        c
      ≡ (sent_twice n k buf (busy_told env busy c), some (n + k))
unfolding chan_write write_loop
chan_write_twice env zero n k buf c less enough =
    taken_twice env n k 0 buf c (omega arith) (omega arith)
    ∙ ap (λ (x : ℕ). (sent_twice n k buf c, some (x + k))) zero_add
chan_write_twice env (suc busy) n k buf c less enough =
    turn (length buf) 0 _ (c, some 0) _ (omega arith)
      (chan_write_twice env busy n k buf (io_failure env eagain c) less enough)
