-- ===== src/Base/Time/RoundTrip.antt =====
-- The conversions between nanoseconds and `timeval` of windz/base/Timestamp.h.
use windz.Prelude.{ℕ, ◌<◌, ◌≡◌, ap₂, arith}
use windz.Prelude.Int.{ℤ, pos, negsuc, *ℤ_ℕ, quot_ℕ, rem_ℕ, ◌+ℤ◌}
use windz.Base.Time.{TimeVal, nanoseconds_of, time_val, microsecond}

abbrev of_parts : ℤ → ℤ → TimeVal
of_parts sec usec = record { tv_sec = sec; tv_usec = usec }

-- A `timeval` of a time after 1970 is the same again after it was taken to nanoseconds and back.
time_val-nanoseconds_of :
    (sec usec : ℕ)
    → usec < 1_000_000
    → time_val (nanoseconds_of (of_parts (pos sec) (pos usec))) ≡ of_parts (pos sec) (pos usec)
unfolding time_val nanoseconds_of quot_ℕ rem_ℕ *ℤ_ℕ ◌+ℤ◌
time_val-nanoseconds_of sec usec h = ap₂ of_parts (ground arith) (ground arith)

-- Nanoseconds that are taken to a `timeval` and back are cut to whole microseconds, towards 1970.
nanoseconds_of-time_val :
    (n : ℤ) → nanoseconds_of (time_val n) ≡ *ℤ_ℕ (quot_ℕ n microsecond) microsecond
unfolding time_val nanoseconds_of quot_ℕ rem_ℕ *ℤ_ℕ ◌+ℤ◌
nanoseconds_of-time_val (pos n) = ground arith
nanoseconds_of-time_val (negsuc n) = ground arith
