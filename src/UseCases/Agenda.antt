-- ===== src/UseCases/Agenda.antt =====
-- get_agenda.py, and what it uses of the repositories.
pub mod Matches
pub mod Slots
pub mod Told
use venue_backend.Common.{
  ℕ, zero, suc, ◌+◌, ◌-◌, ◌*◌, ◌/◌, ◌==◌, String, Bool, true, false, not, ◌&&◌, Option, none, some,
  List, [], ◌∷◌, any, find, select, ltb, leb, if◌then◌else◌,
}
use venue_backend.Shared.Result.{value}
use venue_backend.Shared.Time.{utc, day_us, time_of, weekday_of, ZoneData}
use text.Mathlib.Text.{◌==◌ as str_eq}
use venue_backend.Shared.Values.{
  typed, DateTimeRange, create_range, overlaps, Money, TimeWindow, in_window,
}
use venue_backend.Bookings.{Booking, is_approved, is_pending}
use venue_backend.Resources.Schedule.{for_weekday}
use venue_backend.Resources.Entity.{Resource, is_deleted}
use venue_backend.Resources.Pricing.{slot_us, compute_price}
use venue_backend.Store.{
  World, Outcome, done, raised, Action, pure, ◌>>=◌, ◌>>◌, ask, error, some_or, ensure, in_range,
  has_slug, get_resource,
}

pub data SlotStatus : Type 0 where
  slot_available slot_pending slot_approved : SlotStatus

pub record AgendaSlot : Type 0 where
  pub slot_start_at : ℕ
  pub slot_end_at : ℕ
  pub status : SlotStatus
  pub price_cents : ℕ
  pub booking_id : Option ℕ
  pub customer_id : Option ℕ

pub record GetAgendaQuery : Type 0 where
  pub range_start : ℕ
  pub range_end : ℕ
  pub resource_id : Option ℕ
  pub owner_slug : Option String
  pub resource_slug : Option String
  pub actor_id : Option ℕ

-- `ORDER BY slot_start_at`
abbrev pub insert_by_start : Booking → List Booking → List Booking
insert_by_start b [] = b ∷ []
insert_by_start b (y ∷ ys) =
    let rest = insert_by_start b ys in
    if leb b.slot_range.start_at y.slot_range.start_at then b ∷ y ∷ ys else y ∷ rest

abbrev pub sort_by_start : List Booking → List Booking
sort_by_start [] = []
sort_by_start (b ∷ bs) = insert_by_start b (sort_by_start bs)

-- `list_in_range_for_resource`
abbrev pub is_in_range : ℕ → DateTimeRange → Booking → Bool
is_in_range resource_id range b = b.resource_id == resource_id && in_range range b

unfoldable pub list_in_range_for_resource : ℕ → DateTimeRange → World → List Booking
list_in_range_for_resource resource_id range w =
    sort_by_start (select (is_in_range resource_id range) w.bookings)

-- `get_by_owner_slug_and_resource_slug`
unfoldable pub get_by_slugs : String → String → World → Option Resource
get_by_slugs owner_slug resource_slug w =
    find
      (λ r.
        any (λ u. u.id == r.owner_id && has_slug owner_slug u.public_slug) w.users
        && str_eq r.slug resource_slug)
      w.resources

-- `query.owner_slug or ""`
abbrev pub slug_or_empty : Option String → String
slug_or_empty none = ""
slug_or_empty (some s) = s

-- The resource that a query is about.
abbrev pub resource_by : Option ℕ → Option String → Option String → World → Option Resource
resource_by (some id) owner_slug resource_slug w = get_resource id w
resource_by none owner_slug (some slug) w = get_by_slugs (slug_or_empty owner_slug) slug w
resource_by none owner_slug none w = none

-- `query.actor_id is not None and resource.owner_id == query.actor_id`
abbrev pub is_owner_view : Option ℕ → Resource → Bool
is_owner_view none resource = false
is_owner_view (some actor_id) resource = resource.owner_id == actor_id

abbrev pub shown : Bool → ℕ → Option ℕ
shown detail id = if detail then some id else none

-- The slot of a range: the first approved match decides, then the first pending one.
abbrev pub slot_of : Bool → DateTimeRange → ℕ → Option Booking → Option Booking → AgendaSlot
slot_of detail range price (some b) p = record {
  slot_start_at = range.start_at;
  slot_end_at = range.end_at;
  status = slot_approved;
  price_cents = price;
  booking_id = shown detail b.id;
  customer_id = shown detail b.customer_id;
}
slot_of detail range price none (some b) = record {
  slot_start_at = range.start_at;
  slot_end_at = range.end_at;
  status = slot_pending;
  price_cents = price;
  booking_id = shown detail b.id;
  customer_id = shown detail b.customer_id;
}
slot_of detail range price none none = record {
  slot_start_at = range.start_at;
  slot_end_at = range.end_at;
  status = slot_available;
  price_cents = price;
  booking_id = none;
  customer_id = none;
}

-- What one turn of the loop does, and what the loop comes to.
pub data Look : Type 0 where
  skipped raising : Look
  listed : AgendaSlot → Look

pub data Walk : Type 0 where
  out_of_fuel exception : Walk
  slots : List AgendaSlot → Walk

abbrev pub prepend : AgendaSlot → Walk → Walk
prepend s (slots rest) = slots (s ∷ rest)
prepend s other = other

abbrev pub followed : Look → Walk → Walk
followed skipped rest = rest
followed raising rest = exception
followed (listed s) rest = prepend s rest

-- `instant_of` is what `astimezone(_UTC)` makes of a reading of a zone's clock, the first of the two
-- where the clock was set back, as for a sum of a `datetime` and a `timedelta`.
module _ (zones : ZoneData) (instant_of : String → ℕ → ℕ) (resource : Resource)
    (bookings : List Booking) (detail : Bool) where
  abbrev pub match_of : (Booking → Bool) → DateTimeRange → Option Booking
  match_of p range = find (λ b. overlaps b.slot_range range) (select p bookings)

  -- `.cents` of no amount is an exception.
  abbrev pub priced : DateTimeRange → Option Money → Look
  priced range none = raising
  priced range (some price) = listed (
      slot_of detail range price.cents (match_of (λ b. is_approved b.status) range)
        (match_of (λ b. is_pending b.status) range))

  -- A range that does not end after its start is None, which is an exception.
  abbrev pub ranged : Option DateTimeRange → Look
  ranged none = raising
  ranged (some range) = priced range (compute_price zones resource range)

  abbrev pub window_at : ℕ → Option TimeWindow
  window_at cursor =
      find (in_window (time_of cursor)) (for_weekday resource.operating_hours (weekday_of cursor))

  -- `slot_end.time() > window.end and slot_end.date() == cursor.date()`
  abbrev pub is_cut : TimeWindow → ℕ → ℕ → Bool
  is_cut window cursor slot_end =
      ltb window.end (time_of slot_end) && (slot_end / day_us == cursor / day_us)

  -- One turn at a reading of the clock, of the instant `start_at`.
  abbrev pub look : Option TimeWindow → ℕ → ℕ → Look
  look none cursor start_at = skipped
  look (some window) cursor start_at =
      let slot_end = cursor + slot_us resource in
      if is_cut window cursor slot_end
      then skipped
      else ranged (
          value (
            create_range (typed (utc start_at))
              (typed (utc (instant_of resource.timezone slot_end)))))

  unfoldable pub walk : ℕ → ℕ → ℕ → ℕ → Walk
  walk zero cursor start_at local_end = out_of_fuel
  walk (suc fuel) cursor start_at local_end =
      let slot_end = cursor + slot_us resource in
      let rest = walk fuel slot_end (instant_of resource.timezone slot_end) local_end in
      if ltb cursor local_end
      then followed (look (window_at cursor) cursor start_at) rest
      else slots []

  -- `_generate_slots`. The cursor moves by at least a microsecond, so the fuel is enough: see `Told`.
  unfoldable pub generate_slots : ℕ → ℕ → Walk
  unfolding walk
  generate_slots range_start range_end =
      let local_start = zones.local resource.timezone range_start in
      let local_end = zones.local resource.timezone range_end in
      walk (suc (local_end - local_start)) local_start range_start local_end

-- The slots of a loop that comes to its end.
unfoldable pub slots_or_raise : Walk → Action (List AgendaSlot)
slots_or_raise (slots l) = pure l
slots_or_raise _ = λ w. raised

-- `GetAgendaHandler.handle`
unfoldable pub get_agenda : ZoneData → (String → ℕ → ℕ) → GetAgendaQuery → Action (List AgendaSlot)
get_agenda zones instant_of query = do
  ensure (not (ltb (31 * day_us) (query.range_end - query.range_start)))
      (error "AgendaRangeTooWide" 422)
  resource ←
      some_or (error "ResourceNotFound" 404)
        (← ask (resource_by query.resource_id query.owner_slug query.resource_slug))
  ensure (not (is_deleted resource)) (error "ResourceNotFound" 404)
  bookings ← ask (
      list_in_range_for_resource resource.id
        (record { start_at = query.range_start; end_at = query.range_end }))
  slots_or_raise (
      generate_slots zones instant_of resource bookings (is_owner_view query.actor_id resource)
        query.range_start query.range_end)
