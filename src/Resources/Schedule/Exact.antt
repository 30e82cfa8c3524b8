-- ===== src/Resources/Schedule/Exact.antt =====
-- `WeeklySchedule.create` accepts exactly the days whose windows are aligned, ordered and disjoint.
use mathlib.Core.List.{cons≢nil}
use venue_backend.Common.{
  ℕ, ◌+◌, ◌≤◌, ◌<◌, ◌≡◌, refl, String, true, Option, none, some, List, [], ◌∷◌, ◌++◌, arith, All,
  ap, ◌∙◌, ◌↔◌,
}
use venue_backend.Shared.Result.{success}
use venue_backend.Shared.Time.{
  Weekday, monday, tuesday, wednesday, thursday, friday, saturday, sunday, weekdays,
}
use venue_backend.Shared.Values.{TimeWindow}
use venue_backend.Resources.Schedule.{
  WeeklySchedule, for_weekday, is_aligned, window_errors, schedule_errors, schedule_of,
  create_schedule, day_field,
}

-- What `TimeWindow.create` guarantees.
abbrev pub IsWindow : TimeWindow → Type 0
IsWindow w = w.start < w.end

-- Every window ends before every later one starts.
abbrev pub IsOrdered : List TimeWindow → Type 0
IsOrdered [] = Unit
IsOrdered (w ∷ ws) = All (λ v. w.end ≤ v.start) ws × IsOrdered ws

-- What a day's windows must satisfy.
abbrev pub IsDay : ℕ → List TimeWindow → Type 0
IsDay slot ws = All (λ w. is_aligned slot w ≡ true) ws × IsOrdered ws

-- The same, with the windows compared to a bound that the first must respect.
abbrev From : ℕ → ℕ → List TimeWindow → Type 0
From slot bound [] = Unit
From slot bound (w ∷ ws) = (is_aligned slot w ≡ true) × (bound ≤ w.start) × From slot w.end ws

after_bound :
    (slot low bound : ℕ) (ws : List TimeWindow)
    → low ≤ bound
    → All IsWindow ws
    → From slot bound ws
    → All (λ v. low ≤ v.start) ws
after_bound slot low bound [] h ok f = tt
after_bound slot low bound (w ∷ ws) h ok f =
    (omega arith, after_bound slot low w.end ws (omega arith) ok.1 f.2)

From-IsDay :
    (slot bound : ℕ) (ws : List TimeWindow) → All IsWindow ws → From slot bound ws → IsDay slot ws
From-IsDay slot bound [] ok f = (tt, tt)
From-IsDay slot bound (w ∷ ws) ok f =
    let rest = From-IsDay slot w.end ws ok.1 f.2 in
    ((f.0, rest.0), (after_bound slot w.end w.end ws (omega arith) ok.1 f.2, rest.1))

IsDay-From :
    (slot bound : ℕ) (ws : List TimeWindow)
    → All (λ v. bound ≤ v.start) ws
    → IsDay slot ws
    → From slot bound ws
IsDay-From slot bound [] b d = tt
IsDay-From slot bound (w ∷ ws) b d = (d.0.0, b.0, IsDay-From slot w.end ws d.1.0 (d.0.1, d.1.1))

abbrev bound_of : Option TimeWindow → ℕ
bound_of none = 0
bound_of (some prev) = prev.end

-- A previous window, if there is one, is a window.
abbrev IsPrevious : Option TimeWindow → Type 0
IsPrevious none = Unit
IsPrevious (some prev) = IsWindow prev

no_errors-From :
    (slot : ℕ) (field : String) (idx : ℕ) (prev : Option TimeWindow) (ws : List TimeWindow)
    → window_errors slot field idx prev ws ≡ []
    → From slot (bound_of prev) ws
unfolding window_errors
no_errors-From slot field idx prev [] h = tt
no_errors-From slot field idx none (w ∷ ws) h =
    ground (arith, no_errors-From slot field (idx + 1) (some w) ws)
no_errors-From slot field idx (some prev) (w ∷ ws) h =
    ground (arith, no_errors-From slot field (idx + 1) (some w) ws)

From-no_errors :
    (slot : ℕ) (field : String) (idx : ℕ) (prev : Option TimeWindow) (ws : List TimeWindow)
    → IsPrevious prev
    → All IsWindow ws
    → From slot (bound_of prev) ws
    → window_errors slot field idx prev ws ≡ []
unfolding window_errors
From-no_errors slot field idx prev [] p ok f = refl
From-no_errors slot field idx none (w ∷ ws) p ok f =
    ground (arith, From-no_errors slot field (idx + 1) (some w) ws ok.0 ok.1 f.2)
From-no_errors slot field idx (some prev) (w ∷ ws) p ok f =
    ground (arith, From-no_errors slot field (idx + 1) (some w) ws ok.0 ok.1 f.2)

from_zero : (ws : List TimeWindow) → All (λ v. 0 ≤ v.start) ws
from_zero [] = tt
from_zero (w ∷ ws) = (omega arith, from_zero ws)

append-nil_iff {ℓ} : {A : Type ℓ} (xs ys : List A) → xs ++ ys ≡ [] → (xs ≡ []) × (ys ≡ [])
append-nil_iff [] ys h = (refl, h)
append-nil_iff (x ∷ xs) ys h = absurd (cons≢nil h)

every_day : (P : Weekday → Type 0) → All P weekdays → (wd : Weekday) → P wd
every_day P h monday = h.0
every_day P h tuesday = h.1.0
every_day P h wednesday = h.1.1.0
every_day P h thursday = h.1.1.1.0
every_day P h friday = h.1.1.1.1.0
every_day P h saturday = h.1.1.1.1.1.0
every_day P h sunday = h.1.1.1.1.1.1.0

All-days : (P : Weekday → Type 0) → ((wd : Weekday) → P wd) → All P weekdays
All-days P h =
    (h monday, (h tuesday, (h wednesday, (h thursday, (h friday, (h saturday, (h sunday, tt)))))))

for_weekday-schedule_of :
    (days : Weekday → List TimeWindow) (wd : Weekday) → for_weekday (schedule_of days) wd ≡ days wd
for_weekday-schedule_of days monday = refl
for_weekday-schedule_of days tuesday = refl
for_weekday-schedule_of days wednesday = refl
for_weekday-schedule_of days thursday = refl
for_weekday-schedule_of days friday = refl
for_weekday-schedule_of days saturday = refl
for_weekday-schedule_of days sunday = refl

module _ (slot : ℕ) (days : Weekday → List TimeWindow) where
  DayErrors : List Weekday → Type 0
  DayErrors wds = All (λ wd. window_errors slot (day_field wd) 0 none (days wd) ≡ []) wds

  schedule_errors-days : (wds : List Weekday) → schedule_errors slot days wds ≡ [] → DayErrors wds
  unfolding schedule_errors DayErrors
  schedule_errors-days [] h = tt
  schedule_errors-days (wd ∷ wds) h =
      let (e, rest) = append-nil_iff (window_errors slot (day_field wd) 0 none (days wd)) _ h in
      (e, schedule_errors-days wds rest)

  days-schedule_errors : (wds : List Weekday) → DayErrors wds → schedule_errors slot days wds ≡ []
  unfolding schedule_errors DayErrors
  days-schedule_errors [] h = refl
  days-schedule_errors (wd ∷ wds) h = rw (h.0, days-schedule_errors wds h.1)

  accepted_errors :
      {s : WeeklySchedule}
      → create_schedule slot days ≡ success s
      → (schedule_errors slot days weekdays ≡ []) × (s ≡ schedule_of days)
  unfolding create_schedule
  accepted_errors h = ground arith

  pub accepted_days :
      {s : WeeklySchedule}
      → ((wd : Weekday) → All IsWindow (days wd))
      → create_schedule slot days ≡ success s
      → (wd : Weekday) → IsDay slot (for_weekday s wd) × (for_weekday s wd ≡ days wd)
  unfolding DayErrors
  accepted_days ok h wd =
      let (e, same) = accepted_errors h in
      let at_day =
        every_day (λ d. window_errors slot (day_field d) 0 none (days d) ≡ [])
          (schedule_errors-days weekdays e) wd in
      let f = no_errors-From slot (day_field wd) 0 none (days wd) at_day in
      let here = ap (λ t. for_weekday t wd) same ∙ for_weekday-schedule_of days wd in
      (rw here (From-IsDay slot 0 (days wd) (ok wd) f), here)

  pub days_accepted :
      ((wd : Weekday) → All IsWindow (days wd))
      → ((wd : Weekday) → IsDay slot (days wd))
      → create_schedule slot days ≡ success (schedule_of days)
  unfolding create_schedule DayErrors
  days_accepted ok h = rw (
      days-schedule_errors weekdays (
        All-days (λ d. window_errors slot (day_field d) 0 none (days d) ≡ [])
          (λ wd.
            From-no_errors slot (day_field wd) 0 none (days wd) tt (ok wd)
              (IsDay-From slot 0 (days wd) (from_zero (days wd)) (h wd)))))

-- `WeeklySchedule.create` returns the schedule with the given windows exactly when, on every day,
-- each window is aligned to the slot grid and ends before every later one starts. The windows are
-- those of `TimeWindow.create`, which start before they end.
pub create_schedule_exact :
    (slot : ℕ) (days : Weekday → List TimeWindow)
    → ((wd : Weekday) → All IsWindow (days wd))
    → (create_schedule slot days ≡ success (schedule_of days))
      ↔ ((wd : Weekday) → IsDay slot (days wd))
create_schedule_exact slot days ok = (
  λ h wd. rw (← for_weekday-schedule_of days wd) (accepted_days slot days ok h wd).0,
  days_accepted slot days ok,
)
