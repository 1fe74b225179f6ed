-- ===== src/Exchange/Threshold.antt =====
-- The time that check_threshold takes a tone to have lasted.
use openr.Prelude.{◌+◌, ◌*◌, ◌<◌, ◌≤◌, ◌≡◌, ◌⊎◌, pos_part, neg_part, arith}
use openr.Chan.{Time}
use openr.Chan.Timers.Due.{micros}
use openr.Proto.Tone.{timediff}

-- For two times of the same second, or of two that follow each other where the earlier has
-- microseconds beside its seconds, timediff gives the milliseconds between them, less than one
-- millisecond off.
pub timediff_close :
    (t1 t2 : Time)
    → t1.tv_usec < 1000000
    → t2.tv_usec < 1000000
    → micros t2 ≤ micros t1
    → (t1.tv_sec ≡ t2.tv_sec) ⊎ ((t1.tv_sec ≡ t2.tv_sec + 1) × (0 < t2.tv_usec))
    → (neg_part (timediff t1 t2) ≡ 0)
      × (micros t2 + pos_part (timediff t1 t2) * 1000 < micros t1 + 1000)
      × (micros t1 < micros t2 + pos_part (timediff t1 t2) * 1000 + 1000)
unfolding timediff
timediff_close t1 t2 h k le d = ground (arith, d)
