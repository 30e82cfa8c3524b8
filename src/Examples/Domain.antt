-- ===== src/Examples/Domain.antt =====
-- The theorems about the entities and the value objects, at concrete values.
use venue_backend.Common.{
  ℕ, ◌≡◌, ◌↔◌, refl, none, some, List, [], ◌∷◌, arith, length, is_some, ltb, if◌then◌else◌, All,
}
use venue_backend.Shared.Result.{success}
use venue_backend.Shared.Time.{utc, weekday_of, Weekday, monday}
use venue_backend.Shared.Values.{create_money, max_cents, TimeWindow}
use venue_backend.Bookings.{
  Booking, owner, approved, cancelled, create_pending, is_valid_transition,
}
use venue_backend.Bookings.Lifecycle.{IsRecorded, moved, transition_succeeds}
use venue_backend.Bookings.Life.{
  ChangesAllowed, SameRequest, Life, approved_by, cancelled_by, here, next, request_history,
}
use venue_backend.Resources.Schedule.{create_schedule, schedule_of, for_weekday}
use venue_backend.Resources.Schedule.Exact.{IsWindow, IsDay, create_schedule_exact}
use venue_backend.Resources.Rules.{validate_pricing_rules}
use venue_backend.Resources.Rules.Exact.{AreRules, validate_pricing_rules_exact}
use venue_backend.Resources.Entity.Invariant.{IsResource}
use venue_backend.Resources.Pricing.{compute_price, sum_slots, slot_price}
use venue_backend.Resources.Pricing.Sum.{
  Slots, price_sum, compute_price_exact, HasPrice, slot_price_exact,
}
use venue_backend.Subscriptions.{post_init, create_trialing, transition_to, is_trialing, active}
use venue_backend.Subscriptions.Consistency.{start, then_to, Changes-post_init}
use venue_backend.Examples.{
  utc_zones, at_hour, range_from, schedule, late_rule, hall, first_request,
}

-- A request that is approved and then cancelled by its customer.
abbrev request : Booking
request = first_request

abbrev accepted : Booking
accepted = moved request approved 9 owner (utc 1) none

abbrev dropped : Booking
dropped = moved accepted cancelled 7 owner (utc 2) (some "ill")

created-Life :
    Life
      (create_pending 1 5 7 (range_from 10 12) (some (record { cents = 3500 })) none (utc 0))
      dropped
unfolding create_pending is_valid_transition
created-Life =
    next
      (next here
        (approved_by 9 (utc 1) (transition_succeeds request approved 9 owner 1 none refl refl)))
      (cancelled_by 7 owner (utc 2) (some "ill")
        (transition_succeeds accepted cancelled 7 owner 2 (some "ill") refl refl))

request_history_example :
    IsRecorded dropped
    × ChangesAllowed cancelled (length dropped.status_history)
    × SameRequest
        (create_pending 1 5 7 (range_from 10 12) (some (record { cents = 3500 })) none (utc 0))
        dropped
request_history_example =
    request_history 1 5 7 (range_from 10 12) (some (record { cents = 3500 })) none (utc 0)
      {c = dropped} created-Life

days_of : Weekday → List TimeWindow
days_of = for_weekday schedule

schedule_windows : (wd : Weekday) → All IsWindow (for_weekday schedule wd)
schedule_windows monday = (omega arith, tt)
schedule_windows Weekday.tuesday = tt
schedule_windows Weekday.wednesday = tt
schedule_windows Weekday.thursday = tt
schedule_windows Weekday.friday = tt
schedule_windows Weekday.saturday = tt
schedule_windows Weekday.sunday = tt

create_schedule_exact_example :
    (create_schedule 60 (for_weekday schedule) ≡ success (schedule_of (for_weekday schedule)))
    ↔ ((wd : Weekday) → IsDay 60 (for_weekday schedule wd))
create_schedule_exact_example = create_schedule_exact 60 (for_weekday schedule) schedule_windows

validate_pricing_rules_exact_example :
    (validate_pricing_rules 60 schedule (late_rule ∷ []) ≡ [])
    ↔ AreRules 60 schedule (late_rule ∷ [])
validate_pricing_rules_exact_example = validate_pricing_rules_exact 60 schedule (late_rule ∷ [])

hall_days : (wd : Weekday) → IsDay 60 (for_weekday schedule wd)
hall_days monday = ((refl, tt), (tt, tt))
hall_days Weekday.tuesday = (tt, tt)
hall_days Weekday.wednesday = (tt, tt)
hall_days Weekday.thursday = (tt, tt)
hall_days Weekday.friday = (tt, tt)
hall_days Weekday.saturday = (tt, tt)
hall_days Weekday.sunday = (tt, tt)

pub hall-IsResource : IsResource hall
hall-IsResource = record {
  windows = schedule_windows;
  days = hall_days;
  rules = (((refl, (refl, tt)), tt), (tt, tt));
  keys = tt;
}

compute_price_exact_example :
    (n : ℕ) × Slots utc_zones hall n (at_hour 10) (at_hour 12)
    × (compute_price utc_zones hall (range_from 10 12) ≡ (
        if ltb max_cents (price_sum utc_zones hall n (at_hour 10))
        then none
        else some (record { cents = price_sum utc_zones hall n (at_hour 10) })))
compute_price_exact_example = compute_price_exact utc_zones hall (range_from 10 12) (omega arith)

compute_price_test :
    compute_price utc_zones hall (range_from 10 12) ≡ some (record { cents = 3500 })
unfolding compute_price sum_slots slot_price weekday_of create_money
compute_price_test = refl

slot_price_exact_example :
    HasPrice utc_zones hall (at_hour 11) (slot_price utc_zones hall (at_hour 11))
slot_price_exact_example = slot_price_exact utc_zones hall (at_hour 11) hall-IsResource

Changes-post_init_example :
    (post_init (transition_to (create_trialing 1 9 14 (utc 0) (utc 0)) active (utc 5) 14) ≡ none)
    × (is_some
          (transition_to (create_trialing 1 9 14 (utc 0) (utc 0)) active (utc 5) 14).trial_ends_at
        ≡ is_trialing
            (transition_to (create_trialing 1 9 14 (utc 0) (utc 0)) active (utc 5) 14).status)
Changes-post_init_example =
    Changes-post_init 1 9 14 (utc 0) (utc 0) refl (then_to active (utc 5) 14 refl start)
