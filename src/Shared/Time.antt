-- ===== src/Shared/Time.antt =====
-- Dates, times and weekdays: the parts of Python's `datetime` that the domain uses, and
-- app/domain/shared/weekday.py.
-- An instant is a number of microseconds, the resolution of `datetime`, since 0001-01-01 00:00 UTC;
-- a wall-clock reading is such a number with the zone's offset added. 0001-01-01 is a Monday.
mod Weeks
unfoldable pub use Weeks.*
use venue_backend.Common.{ℕ, ◌+◌, ◌*◌, ◌/◌, ◌%◌, String, Bool, true, false, ltb}

abbrev pub minute_us : ℕ
minute_us = 60_000_000

abbrev pub hour_us : ℕ
hour_us = 3_600_000_000

abbrev pub day_us : ℕ
day_us = 86_400_000_000

-- An integer, for offsets and for numbers that come from outside. `negsuc n` is -(n + 1).
pub data ℤ : Type 0 where
  pos : ℕ → ℤ
  negsuc : ℕ → ℤ

-- `tzinfo`: absent, or present with its `utcoffset()` in microseconds.
pub data TzInfo : Type 0 where
  naive : TzInfo
  aware : ℤ → TzInfo

-- A `datetime`: what its wall clock reads, and its zone.
pub record DateTime : Type 0 where
  pub wall : ℕ
  pub tzinfo : TzInfo

-- `dt.tzinfo is None`
abbrev pub is_naive : TzInfo → Bool
is_naive naive = true
is_naive (aware offset) = false

-- `dt.utcoffset() != timedelta(0)`, of an aware `dt`.
abbrev pub is_offset : TzInfo → Bool
is_offset naive = false
is_offset (aware (pos n)) = ltb 0 n
is_offset (aware (negsuc n)) = true

-- What `datetime.now(timezone.utc)` returns at an instant.
abbrev pub utc : ℕ → DateTime
utc t = record { wall = t; tzinfo = aware (pos 0) }

-- A `time` is a number of microseconds since midnight, below `day_us`.
abbrev pub hour : ℕ → ℕ
hour t = t / hour_us

abbrev pub minute : ℕ → ℕ
minute t = t / minute_us % 60

-- `t.hour * 60 + t.minute`
abbrev pub minutes_of_day : ℕ → ℕ
minutes_of_day t = hour t * 60 + minute t

-- `dt.time()` and `dt.isoweekday()` of a wall-clock reading.
abbrev pub time_of : ℕ → ℕ
time_of wall = wall % day_us

abbrev pub isoweekday : ℕ → ℕ
isoweekday wall = wall / day_us % 7 + 1

-- `ZoneInfo(name)`: the time-zone data are not part of the program. `local name t` is the wall
-- clock of the zone at the instant `t`: `cursor.astimezone(tz)`.
pub record ZoneData : Type 0 where
  pub local : String → ℕ → ℕ
