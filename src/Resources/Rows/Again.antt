-- ===== src/Resources/Rows/Again.antt =====
-- A resource that is written to its row and read again is the resource, up to the order in which its
-- pricing rules list their weekdays.
use venue_backend.Common.{
  ℕ, ◌+◌, ◌%◌, ◌<◌, ◌≡◌, refl, ap, ◌∙◌, Bool, true, false, ◌&&◌, Option, none, some, List, [], ◌∷◌,
  map, select, any, All, arith, inl, inr, Bool-cases,
}
use venue_backend.Shared.Time.{
  DateTime, is_naive, day_us, minute_us, Weekday, monday, tuesday, wednesday, thursday, friday,
  saturday, sunday, same_day, same_day_eq,
}
use venue_backend.Shared.Values.{TimeWindow}
use venue_backend.Shared.Clock.Written.{str_to_time-time_to_str}
use venue_backend.Resources.Schedule.{WeeklySchedule, for_weekday}
use venue_backend.Resources.Rules.{PricingRule, covers_day}
use venue_backend.Resources.Entity.{CustomAttribute, Resource}
use venue_backend.Resources.Rows.{
  value_of, by_value, weekday_at, write_window, write_rule, write_custom, read_custom, traverse,
  serialize_schedule, read_window, read_rule, deserialize_schedule, ensure_utc, ensure_utc_or_none,
  to_row, of_row,
}

-- Both ends are times of day on a whole minute, as `_parse_time_window` makes them.
pub record IsWhole (w : TimeWindow) : Type 0 where
  pub start_in_day : w.start < day_us
  pub start_whole : w.start % minute_us ≡ 0
  pub end_in_day : w.end < day_us
  pub end_whole : w.end % minute_us ≡ 0

-- A rule with its weekdays in the order of their values.
abbrev pub sorted_rule : PricingRule → PricingRule
sorted_rule r = record r { weekdays = select (λ wd. covers_day wd r.weekdays) by_value }

any-select :
    (p : Weekday → Bool) (wd : Weekday) (days : List Weekday)
    → any (same_day wd) (select p days) ≡ (p wd && any (same_day wd) days)
any-select p wd [] = ground arith
any-select p wd (d ∷ days) = elim (Bool-cases (same_day wd d)) [
  | inl same ↦
      let e = same_day_eq wd d same in
      elim (Bool-cases (p d)) [
        | inl hit ↦ rw (e, hit, same_day_refl d) refl
        | inr miss ↦ rw (e, miss) (rw (e, miss) at (any-select p wd days))
      ]
  | inr apart ↦ elim (Bool-cases (p d)) [
    | inl hit ↦ rw (hit, apart) (any-select p wd days)
    | inr miss ↦ rw (miss, apart) (any-select p wd days)
  ]
]
  where
    same_day_refl : (wd : Weekday) → same_day wd wd ≡ true
    same_day_refl wd = ground arith

-- Sorting the weekdays of a rule changes none of the weekdays that it covers.
pub covers_day-sorted_rule :
    (r : PricingRule) (wd : Weekday)
    → covers_day wd (sorted_rule r).weekdays ≡ covers_day wd r.weekdays
covers_day-sorted_rule r wd = any-select (λ d. covers_day d r.weekdays) wd by_value ∙ listed wd
  where
    listed :
        (wd : Weekday)
        → (covers_day wd r.weekdays && any (same_day wd) by_value) ≡ covers_day wd r.weekdays
    listed monday = ground arith
    listed tuesday = ground arith
    listed wednesday = ground arith
    listed thursday = ground arith
    listed friday = ground arith
    listed saturday = ground arith
    listed sunday = ground arith

weekday_at-value_of : (wd : Weekday) → weekday_at (value_of wd) ≡ some wd
weekday_at-value_of monday = refl
weekday_at-value_of tuesday = refl
weekday_at-value_of wednesday = refl
weekday_at-value_of thursday = refl
weekday_at-value_of friday = refl
weekday_at-value_of saturday = refl
weekday_at-value_of sunday = refl

-- A comprehension that reads what another wrote.
traverse-map :
    {A B : Type 0} (write : A → B) (read : B → Option A) (again : A → A) (xs : List A)
    → All (λ x. read (write x) ≡ some (again x)) xs
    → traverse read (map write xs) ≡ some (map again xs)
traverse-map write read again [] h = refl
traverse-map write read again (x ∷ xs) h = rw (h.0, traverse-map write read again xs h.1) refl

All-map-id : {A : Type 0} (xs : List A) → map (λ x. x) xs ≡ xs
All-map-id [] = refl
All-map-id (x ∷ xs) = ap (λ ys. x ∷ ys) (All-map-id xs)

custom_again : (xs : List CustomAttribute) → map read_custom (map write_custom xs) ≡ xs
custom_again [] = refl
custom_again (x ∷ xs) = ap (λ ys. x ∷ ys) (custom_again xs)

All-of {ℓ} :
    {A : Type ℓ} {P Q : A → Type 0} (xs : List A) → ((x : A) → P x → Q x) → All P xs → All Q xs
All-of [] f h = tt
All-of (x ∷ xs) f h = (f x h.0, All-of xs f h.1)

All-each {ℓ} : {A : Type ℓ} {P : A → Type 0} (xs : List A) → ((x : A) → P x) → All P xs
All-each [] f = tt
All-each (x ∷ xs) f = (f x, All-each xs f)

ensure_utc_aware : (t : DateTime) → is_naive t.tzinfo ≡ false → ensure_utc t ≡ t
ensure_utc_aware t h = rw h refl

-- A time that is present has a zone.
abbrev pub IsAwareEnd : Option DateTime → Type 0
IsAwareEnd none = Unit
IsAwareEnd (some t) = is_naive t.tzinfo ≡ false

ensure_utc_or_none_aware : (t : Option DateTime) → IsAwareEnd t → ensure_utc_or_none t ≡ t
ensure_utc_or_none_aware none h = refl
ensure_utc_or_none_aware (some t) h = ap some (ensure_utc_aware t h)

module _ (digit : ℕ → Option ℕ) (ascii : (d : ℕ) → d < 10 → digit (48 + d) ≡ some d) where
  window_again : (w : TimeWindow) → IsWhole w → read_window digit (write_window w) ≡ some w
  window_again w i =
      rw
        (
          str_to_time-time_to_str digit ascii w.start i.start_in_day i.start_whole,
          str_to_time-time_to_str digit ascii w.end i.end_in_day i.end_whole,
        )
        refl

  day_again :
      (ws : List TimeWindow)
      → All IsWhole ws
      → traverse (read_window digit) (map write_window ws) ≡ some ws
  day_again ws h =
      traverse-map write_window (read_window digit) (λ w. w) ws (All-of ws window_again h)
      ∙ ap some (All-map-id ws)

  schedule_again :
      (hours : WeeklySchedule)
      → ((wd : Weekday) → All IsWhole (for_weekday hours wd))
      → deserialize_schedule digit (serialize_schedule hours) ≡ some hours
  unfolding deserialize_schedule serialize_schedule
  schedule_again hours h =
      rw
        (
          day_again hours.on_monday (h monday),
          day_again hours.on_tuesday (h tuesday),
          day_again hours.on_wednesday (h wednesday),
          day_again hours.on_thursday (h thursday),
          day_again hours.on_friday (h friday),
          day_again hours.on_saturday (h saturday),
          day_again hours.on_sunday (h sunday),
        )
        refl

  rule_again :
      (r : PricingRule) → IsWhole r.window → read_rule digit (write_rule r) ≡ some (sorted_rule r)
  rule_again r i =
      let days = select (λ wd. covers_day wd r.weekdays) by_value in
      rw
        (
          traverse-map value_of weekday_at (λ wd. wd) days (All-each days weekday_at-value_of),
          All-map-id days,
          window_again r.window i,
        )
        refl

  -- Where the table has the digits of ASCII: a resource whose windows lie on whole minutes of a day and
  -- whose times have a zone, written to its row and read again, is the same resource, but that its
  -- pricing rules list their weekdays in the order of their names.
  pub of_row-to_row :
      (r : Resource)
      → ((wd : Weekday) → All IsWhole (for_weekday r.operating_hours wd))
      → All (λ rule. IsWhole rule.window) r.pricing_rules
      → is_naive r.created_at.tzinfo ≡ false
      → is_naive r.updated_at.tzinfo ≡ false
      → IsAwareEnd r.deleted_at
      → of_row digit (to_row r)
        ≡ some (record r { pricing_rules = map sorted_rule r.pricing_rules })
  unfolding of_row to_row
  of_row-to_row r hours rules created updated deleted =
      rw
        (
          schedule_again r.operating_hours hours,
          traverse-map write_rule (read_rule digit) sorted_rule r.pricing_rules
              (All-of r.pricing_rules rule_again rules),
          custom_again r.custom_attributes,
          created,
          updated,
          ensure_utc_or_none_aware r.deleted_at deleted,
        )
        refl
