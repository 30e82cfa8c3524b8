-- ===== src/Shared/Values.antt =====
-- The value objects that bookings, resources and ratings are made of
-- (app/domain/shared/value_objects).
pub mod Stored
use venue_backend.Common.{
  ℕ, ◌-◌, ◌/◌, String, Bool, ◌&&◌, ◌||◌, none, ltb, leb, ◌==◌, if◌then◌else◌,
}
use venue_backend.Shared.Result.{failure, Result, success, failed}
use venue_backend.Shared.Time.{
  ℤ, pos, negsuc, DateTime, is_naive, is_offset, minutes_of_day, minute_us,
}
use venue_backend.Shared.Text.{size, strip}

-- An untyped argument of a `create`: `None`, a `bool`, an `int`, a `str`, or anything else.
pub data Raw : Type 0 where
  null : Raw
  boolean : Bool → Raw
  integer : ℤ → Raw
  text : String → Raw
  other : Raw

-- An argument that the `create` tests by `isinstance` for one class.
pub data Typed (A : Type 0) : Type 0 where
  typed : A → Typed A
  mistyped : Typed A

-- `Result.failure(code)`
abbrev pub fail_with : {A : Type 0} → String → Result A
fail_with code = failed (failure code none)

-- money.py
pub record Money : Type 0 where
  pub cents : ℕ

abbrev pub max_cents : ℕ
max_cents = 10_000_000_000

unfoldable pub create_money : Raw → Result Money
create_money (integer (pos n)) =
    if ltb max_cents n then fail_with "MoneyExceedsMax" else success (record { cents = n })
create_money (integer (negsuc n)) = fail_with "MoneyCannotBeNegative"
create_money _ = fail_with "MoneyInvalidType"

-- slot_duration.py
pub record SlotDuration : Type 0 where
  pub minutes : ℕ

abbrev pub allowed_duration : ℕ → Bool
allowed_duration n = n == 30 || n == 45 || n == 60 || n == 90 || n == 120

unfoldable pub create_duration : Raw → Result SlotDuration
create_duration (integer (pos n)) =
    if allowed_duration n
    then success (record { minutes = n })
    else fail_with "SlotDurationNotAllowed"
create_duration (integer (negsuc n)) = fail_with "SlotDurationNotAllowed"
create_duration _ = fail_with "SlotDurationInvalidType"

-- cancellation_cutoff.py
pub record CancellationCutoff : Type 0 where
  pub hours : ℕ

unfoldable pub create_cutoff : Raw → Result CancellationCutoff
create_cutoff (integer (pos n)) =
    if leb n 168 then success (record { hours = n }) else fail_with "CancellationCutoffOutOfRange"
create_cutoff (integer (negsuc n)) = fail_with "CancellationCutoffOutOfRange"
create_cutoff _ = fail_with "CancellationCutoffInvalidType"

-- rating_score.py
pub record RatingScore : Type 0 where
  pub score : ℕ

unfoldable pub create_score : Raw → Result RatingScore
create_score (integer (pos n)) =
    if leb 1 n && leb n 5 then success (record { score = n }) else fail_with "RatingScoreOutOfRange"
create_score (integer (negsuc n)) = fail_with "RatingScoreOutOfRange"
create_score _ = fail_with "RatingScoreInvalidType"

-- short_description.py
pub record ShortDescription : Type 0 where
  pub content : String

unfoldable pub create_description : Raw → Result ShortDescription
create_description (text s) =
    if ltb 500 (size (strip s))
    then fail_with "ShortDescriptionCannotBeGreaterThanMaxLength"
    else success (record { content = strip s })
create_description _ = fail_with "ShortDescriptionInvalidType"

-- time_window.py: times of day, the end excluded.
pub record TimeWindow : Type 0 where
  pub start : ℕ
  pub end : ℕ

unfoldable pub create_window : Typed ℕ → Typed ℕ → Result TimeWindow
create_window (typed start) (typed end) =
    if leb end start
    then fail_with "TimeWindowStartMustBeBeforeEnd"
    else success (record { start = start; end = end })
create_window _ _ = fail_with "TimeWindowInvalidType"

-- `(end.hour - start.hour) * 60 + (end.minute - start.minute)`, which is not negative where the
-- window starts before it ends.
abbrev pub window_minutes : TimeWindow → ℕ
window_minutes w = minutes_of_day w.end - minutes_of_day w.start

-- `w.start <= tod < w.end`
abbrev pub in_window : ℕ → TimeWindow → Bool
in_window tod w = leb w.start tod && ltb tod w.end

-- date_time_range.py. Both ends are UTC by `create`, so the record holds their instants.
pub record DateTimeRange : Type 0 where
  pub start_at : ℕ
  pub end_at : ℕ

unfoldable pub create_range : Typed DateTime → Typed DateTime → Result DateTimeRange
create_range (typed s) (typed e) =
    if is_naive s.tzinfo || is_naive e.tzinfo
    then fail_with "DateTimeRangeNotTzAware"
    else if is_offset s.tzinfo || is_offset e.tzinfo
    then fail_with "DateTimeRangeNotUtc"
    else if leb e.wall s.wall
    then fail_with "DateTimeRangeStartMustBeBeforeEnd"
    else success (record { start_at = s.wall; end_at = e.wall })
create_range _ _ = fail_with "DateTimeRangeInvalidType"

-- `int(delta.total_seconds() // 60)`
abbrev pub duration_minutes : DateTimeRange → ℕ
duration_minutes r = (r.end_at - r.start_at) / minute_us

abbrev pub overlaps : DateTimeRange → DateTimeRange → Bool
overlaps a b = ltb a.start_at b.end_at && ltb b.start_at a.end_at
