-- ===== src/Examples.antt =====
-- A resource, bookings and tables on which the theorems are tried.
mod Domain
mod Handlers
mod Sweeps
mod Owners
mod Raters
mod Texts
mod Members
mod Types
mod Notices
mod Creations
mod Agendas
use venue_backend.Common.{
  ℕ, ◌+◌, ◌*◌, String, Bool, true, Option, none, some, List, [], ◌∷◌, ◌-◌, leb, ◌&&◌, if◌then◌else◌,
}
use venue_backend.Shared.Time.{
  pos, aware, DateTime, utc, hour_us, day_us, ZoneData, Weekday, monday, tuesday,
}
use venue_backend.Shared.Values.{
  Typed, typed, DateTimeRange, TimeWindow, Money, SlotDuration, CancellationCutoff,
  ShortDescription,
}
use venue_backend.Bookings.{Booking, BookingStatus, pending, approved}
use venue_backend.Resources.Schedule.{WeeklySchedule}
use venue_backend.Resources.Rules.{PricingRule}
use venue_backend.Resources.Entity.{Resource}
use venue_backend.Subscriptions.{OwnerSubscription, active}
use venue_backend.Store.{World}

-- A zone whose clock reads UTC.
abbrev pub utc_zones : ZoneData
utc_zones = record { local = λ name t. t }

abbrev pub at_hour : ℕ → ℕ
at_hour h = 14 * day_us + h * hour_us

abbrev pub hours_from : ℕ → ℕ → TimeWindow
hours_from from to = record { start = from * hour_us; end = to * hour_us }

abbrev pub range_from : ℕ → ℕ → DateTimeRange
range_from from to = record { start_at = at_hour from; end_at = at_hour to }

-- 10:00 to 13:00 on Mondays.
abbrev pub schedule : WeeklySchedule
schedule = record {
  on_monday = hours_from 10 13 ∷ [];
  on_tuesday = [];
  on_wednesday = [];
  on_thursday = [];
  on_friday = [];
  on_saturday = [];
  on_sunday = [];
}

-- The hour from 11:00 costs 2500.
abbrev pub late_rule : PricingRule
late_rule = record {
  weekdays = monday ∷ [];
  window = hours_from 11 12;
  price = record { cents = 2500 };
}

abbrev pub hall : Resource
hall = record {
  id = 5;
  owner_id = 9;
  resource_type_id = 1;
  slug = "hall";
  name = "Hall";
  description = record { content = "A hall" };
  city = "Recife";
  region = "PE";
  timezone = "America/Recife";
  slot_duration_minutes = record { minutes = 60 };
  operating_hours = schedule;
  base_price_cents = record { cents = 1000 };
  customer_cancellation_cutoff_hours = record { hours = 24 };
  base_attributes = [];
  is_published = true;
  deleted_at = none;
  pricing_rules = late_rule ∷ [];
  custom_attributes = [];
  created_at = utc 0;
  updated_at = utc 0;
}

abbrev pub subscription : OwnerSubscription
subscription = record {
  id = 1;
  owner_id = 9;
  status = active;
  status_changed_at = utc 0;
  trial_ends_at = none;
  created_at = utc 0;
  updated_at = utc 0;
}

abbrev pub booking_of : ℕ → ℕ → DateTimeRange → Booking
booking_of id customer_id range = record {
  id = id;
  resource_id = 5;
  customer_id = customer_id;
  slot_range = range;
  status = pending;
  total_price_cents = some (record { cents = 3500 });
  customer_note = none;
  status_history = [];
  created_at = utc 0;
  updated_at = utc 0;
}

-- Two pending bookings that overlap.
abbrev pub first_request : Booking
first_request = booking_of 1 7 (range_from 10 12)

abbrev pub second_request : Booking
second_request = booking_of 2 8 (range_from 11 13)

abbrev pub world_of : List Booking → World
world_of bookings = record {
  bookings = bookings;
  resources = hall ∷ [];
  subscriptions = subscription ∷ [];
  notices = [];
  ratings = [];
  resource_types = [];
  users = [];
}

abbrev pub two_requests : World
two_requests = world_of (first_request ∷ second_request ∷ [])

-- The second request as an approved booking.
abbrev pub taken : Booking
taken = record second_request { status = approved }

abbrev pub one_taken : World
one_taken = world_of (first_request ∷ taken ∷ [])

-- The decimal digits of ASCII.
abbrev pub ascii_digit : ℕ → Option ℕ
ascii_digit c = if leb 48 c && leb c 57 then some (c - 48) else none

-- No other transaction runs meanwhile.
abbrev pub alone : World → World
alone w = w
