-- ===== src/Base/Time.antt =====
-- windz/base/Duration.h and windz/base/Timestamp.h: spans and points of time as signed counts of
-- nanoseconds. A sum that leaves `int64_t` is undefined in the source, so the counts are integers
-- here. The `double` views of a duration
-- are left out.
pub mod RoundTrip
use windz.Prelude.{ℕ, ◌*◌, Bool}
use windz.Prelude.Int.{ℤ, pos, ◌+ℤ◌, ◌-ℤ◌, ltb_ℤ, leb_ℤ, eqb_ℤ, *ℤ_ℕ, quot_ℕ, rem_ℕ}

abbrev pub microsecond : ℕ
microsecond = 1000

abbrev pub millisecond : ℕ
millisecond = 1000 * microsecond

abbrev pub second : ℕ
second = 1000 * millisecond

pub record TimeVal : Type 0 where
  pub tv_sec : ℤ
  pub tv_usec : ℤ

pub record Duration : Type 0 where
  pub nanosecond : ℤ

pub record Timestamp : Type 0 where
  pub nanosecond : ℤ

-- `Duration(const struct timeval &)` and `Timestamp(const struct timeval &)`
pub nanoseconds_of : TimeVal → ℤ
nanoseconds_of t = *ℤ_ℕ t.tv_sec second +ℤ *ℤ_ℕ t.tv_usec microsecond

-- `TimeVal()`, the same in both classes: C's `/` and `%` cut towards zero.
pub time_val : ℤ → TimeVal
time_val n = record { tv_sec = quot_ℕ n second; tv_usec = quot_ℕ (rem_ℕ n second) microsecond }

pub is_zero : Duration → Bool
is_zero d = eqb_ℤ d.nanosecond (pos 0)

pub scale : Duration → ℕ → Duration
scale d n = record { nanosecond = *ℤ_ℕ d.nanosecond n }

pub add : Timestamp → Duration → Timestamp
add t d = record { nanosecond = t.nanosecond +ℤ d.nanosecond }

pub sub : Timestamp → Duration → Timestamp
sub t d = record { nanosecond = t.nanosecond -ℤ d.nanosecond }

pub diff : Timestamp → Timestamp → Duration
diff t u = record { nanosecond = t.nanosecond -ℤ u.nanosecond }

pub lt : Timestamp → Timestamp → Bool
lt t u = ltb_ℤ t.nanosecond u.nanosecond

pub le : Timestamp → Timestamp → Bool
le t u = leb_ℤ t.nanosecond u.nanosecond
