-- ===== src/Parse/Dates/Units.antt =====
-- `normalize_epoch` on one instant in the units that panels use.
use sub_hub.Common.{ℕ, ◌*◌, ◌/◌, ◌^◌, ◌≤◌, ◌<◌, ◌≡◌, arith}
use sub_hub.Parse.Dates.{normalize_epoch}

-- An instant between September 2001 and the year 33658, in milliseconds: given in milliseconds or
-- microseconds, or in nanoseconds as far as these fit in 64 bits, it is read as these milliseconds,
-- and given in seconds, as its last full second.
normalize_epoch_units :
    (t : ℕ)
    → 10 ^ 12 ≤ t
    → t < 10 ^ 15
    → (normalize_epoch t ≡ t)
      × (normalize_epoch (t * 1000) ≡ t)
      × (t * 1000000 < 2 ^ 64 → normalize_epoch (t * 1000000) ≡ t)
      × (normalize_epoch (t / 1000) ≡ t / 1000 * 1000)
unfolding normalize_epoch
normalize_epoch_units t h k = ground arith
