-- ===== src/Resources/Schedule.antt =====
-- weekly_schedule.py
pub mod Exact
use venue_backend.Common.{
  ℕ, zero, suc, ◌+◌, ◌-◌, ◌*◌, ◌%◌, ◌≤◌, ◌<◌, ◌≡◌, refl, String, Bool, true, false, ◌&&◌, Option,
  none, some, List, [], ◌∷◌, ◌++◌, arith, ltb, leb, ◌==◌, if◌then◌else◌, is_empty, All,
}
use venue_backend.Shared.Result.{Field, indexed, FieldError, failure_many, Result, success, failed}
use venue_backend.Shared.Time.{
  minutes_of_day, Weekday, monday, tuesday, wednesday, thursday, friday, saturday, sunday, weekdays,
}
use venue_backend.Shared.Values.{TimeWindow, window_minutes}

pub record WeeklySchedule : Type 0 where
  pub on_monday : List TimeWindow
  pub on_tuesday : List TimeWindow
  pub on_wednesday : List TimeWindow
  pub on_thursday : List TimeWindow
  pub on_friday : List TimeWindow
  pub on_saturday : List TimeWindow
  pub on_sunday : List TimeWindow

-- `for_weekday`
abbrev pub for_weekday : WeeklySchedule → Weekday → List TimeWindow
for_weekday s monday = s.on_monday
for_weekday s tuesday = s.on_tuesday
for_weekday s wednesday = s.on_wednesday
for_weekday s thursday = s.on_thursday
for_weekday s friday = s.on_friday
for_weekday s saturday = s.on_saturday
for_weekday s sunday = s.on_sunday

-- `f"days.{wd.value.lower()}"`
day_field : Weekday → String
day_field monday = "days.monday"
day_field tuesday = "days.tuesday"
day_field wednesday = "days.wednesday"
day_field thursday = "days.thursday"
day_field friday = "days.friday"
day_field saturday = "days.saturday"
day_field sunday = "days.sunday"

-- Whether a window starts and lasts on the grid of the slots. A slot of 0 minutes is a
-- `ZeroDivisionError`, which no `SlotDuration` can cause.
abbrev pub is_aligned : ℕ → TimeWindow → Bool
is_aligned slot w = minutes_of_day w.start % slot == 0 && window_minutes w % slot == 0

abbrev error_at : String → String → ℕ → List FieldError
error_at code field idx = record { code = code; field = indexed field idx } ∷ []

-- The alignment check of one window.
abbrev alignment_errors : ℕ → String → ℕ → TimeWindow → List FieldError
alignment_errors slot field idx w =
    if is_aligned slot w then [] else error_at "WeeklyScheduleWindowNotAlignedToSlotGrid" field idx

-- The comparison of a window with the one before it.
abbrev order_errors : String → ℕ → Option TimeWindow → TimeWindow → List FieldError
order_errors field idx none w = []
order_errors field idx (some prev) w =
    if ltb w.start prev.start
    then error_at "WeeklyScheduleWindowsNotOrdered" field idx
    else if ltb w.start prev.end
    then error_at "WeeklyScheduleWindowsOverlap" field idx
    else []

-- The loop over the windows of a day: `prev` is `windows[idx - 1]`, where there is one.
unfoldable pub window_errors :
    ℕ → String → ℕ → Option TimeWindow → List TimeWindow → List FieldError
window_errors slot field idx prev [] = []
window_errors slot field idx prev (w ∷ ws) =
    alignment_errors slot field idx w
    ++ (order_errors field idx prev w ++ window_errors slot field (idx + 1) (some w) ws)

-- The loop over the days. `days.get(wd, [])` is `days wd`.
schedule_errors : ℕ → (Weekday → List TimeWindow) → List Weekday → List FieldError
unfolding window_errors day_field
schedule_errors slot days [] = []
schedule_errors slot days (wd ∷ rest) =
    window_errors slot (day_field wd) 0 none (days wd) ++ schedule_errors slot days rest

abbrev pub schedule_of : (Weekday → List TimeWindow) → WeeklySchedule
schedule_of days = record {
  on_monday = days monday;
  on_tuesday = days tuesday;
  on_wednesday = days wednesday;
  on_thursday = days thursday;
  on_friday = days friday;
  on_saturday = days saturday;
  on_sunday = days sunday;
}

-- `WeeklySchedule.create`
unfoldable pub create_schedule : ℕ → (Weekday → List TimeWindow) → Result WeeklySchedule
unfolding schedule_errors
create_schedule slot days =
    let errors = schedule_errors slot days weekdays in
    if is_empty errors then success (schedule_of days) else failed (failure_many errors none)
