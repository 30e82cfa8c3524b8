-- ===== src/UseCases/Request.antt =====
-- request_booking.py
pub mod Grid
pub mod Accepts
use venue_backend.Common.{
  ℕ, zero, suc, ◌+◌, ◌-◌, ◌%◌, ◌==◌, leb, ltb, String, Bool, true, false, not, ◌&&◌, ◌||◌, Option,
  none, some, List, [], ◌∷◌, ◌++◌, if◌then◌else◌, is_empty, any,
}
use venue_backend.Shared.Result.{
  Failure, failure_many, Result, success, failed, field_errors, Field, plain,
}
use venue_backend.Shared.Time.{utc, DateTime, minutes_of_day, time_of, weekday_of, ZoneData}
use venue_backend.Shared.Text.{size}
use venue_backend.Shared.Values.{
  Typed, text, DateTimeRange, create_range, duration_minutes, ShortDescription, create_description,
  in_window,
}
use venue_backend.Bookings.{Booking, create_pending}
use venue_backend.Resources.Schedule.{for_weekday}
use venue_backend.Resources.Entity.{Resource, is_deleted}
use venue_backend.Resources.Pricing.{slot_us, compute_price}
use venue_backend.Store.{
  Action, booking_requested, ident, moment, get_resource, get_subscription,
  list_active_by_customer_for_resource, pure, ◌>>=◌, ◌>>◌, ask, error, some_or, ensure, lift,
  add_booking, notify,
}
use venue_backend.UseCases.Approve.{operates}

pub record RequestBookingCommand : Type 0 where
  pub actor_id : ℕ
  pub resource_id : ℕ
  pub slot_start_at : Typed DateTime
  pub slot_end_at : Typed DateTime
  pub customer_note : Option String

abbrev pub noted : Result ShortDescription → Result (Option ShortDescription)
noted (success d) = success (some d)
noted (failed e) = failed e

-- `None` and the empty text are no note.
unfoldable pub create_note : Option String → Result (Option ShortDescription)
create_note none = success none
create_note (some s) = if size s == 0 then success none else noted (create_description (text s))

-- The errors of the range and of the note, reported together.
unfoldable pub validate_inputs :
    Result DateTimeRange
    → Result (Option ShortDescription)
    → Result (DateTimeRange × Option ShortDescription)
validate_inputs (success range) (success customer_note) = success (range, customer_note)
validate_inputs slot_r note_r = failed (
    failure_many
      (field_errors (plain "slot_range") slot_r ++ field_errors (plain "customer_note") note_r)
      (some 422))

module _ (zones : ZoneData) (resource : Resource) where
  -- `any(w.start <= tod < w.end for w in windows)`, of the weekday of a local reading.
  abbrev pub is_open : ℕ → Bool
  is_open wall =
      any (in_window (time_of wall)) (for_weekday resource.operating_hours (weekday_of wall))

  -- The walk over the slots in local time; `none` means that the fuel ran out.
  unfoldable pub all_open : ℕ → ℕ → ℕ → Option Bool
  all_open zero cursor local_end = none
  all_open (suc fuel) cursor local_end =
      let rest = all_open fuel (cursor + slot_us resource) local_end in
      if ltb cursor local_end then (if is_open cursor then rest else some false) else some true

  abbrev walk_result : Option Bool → Result (Unit {0})
  walk_result (some true) = success tt
  walk_result _ = failed (error "BookingOutsideOperatingHours" 422)

  -- `_validate_alignment_and_hours`. The fuel is enough: see `Grid`.
  unfoldable pub validate_alignment_and_hours : DateTimeRange → Result (Unit {0})
  unfolding all_open
  validate_alignment_and_hours range =
      let local_start = zones.local resource.timezone range.start_at in
      let local_end = zones.local resource.timezone range.end_at in
      let slot = resource.slot_duration_minutes.minutes in
      let walk = walk_result (all_open (suc (local_end - local_start)) local_start local_end) in
      if minutes_of_day (time_of local_start) % slot == 0 && duration_minutes range % slot == 0
      then walk
      else failed (error "BookingSlotNotAligned" 422)

-- The part of the handler after the reading of the resource; `checked` and `now` are the two
-- readings of the clock, and `id` is what `uuid4()` returns.
unfoldable pub request_resource :
    ZoneData
    → ℕ
    → RequestBookingCommand
    → ℕ
    → ℕ
    → DateTimeRange
    → Option ShortDescription
    → Resource
    → Action Booking
request_resource zones id cmd checked now range customer_note resource = do
  ensure (not (is_deleted resource)) (error "ResourceNotFound" 404)
  ensure resource.is_published (error "ResourceNotPublished" 404)
  sub ← ask (get_subscription resource.owner_id)
  ensure (operates sub) (error "ResourceNotPublished" 404)
  ensure (ltb checked range.start_at) (error "BookingSlotInPast" 422)
  lift (validate_alignment_and_hours zones resource range)
  actives ← ask (list_active_by_customer_for_resource cmd.actor_id resource.id range)
  ensure (is_empty actives) (error "BookingAlreadyExists" 409)
  let booking =
      create_pending id resource.id cmd.actor_id range (compute_price zones resource range)
        customer_note (utc now)
  add_booking booking
  notify resource.owner_id booking_requested (
      ("booking_id", ident booking.id)
      ∷ ("resource_id", ident resource.id)
      ∷ ("customer_id", ident cmd.actor_id)
      ∷ ("slot_start_at", moment range.start_at)
      ∷ ("slot_end_at", moment range.end_at)
      ∷ [])
  pure booking

-- `RequestBookingHandler.handle`
unfoldable pub request_booking : ZoneData → ℕ → RequestBookingCommand → ℕ → ℕ → Action Booking
request_booking zones id cmd checked now = do
  inputs ← lift (
      validate_inputs (create_range cmd.slot_start_at cmd.slot_end_at)
        (create_note cmd.customer_note))
  resource ← some_or (error "ResourceNotFound" 404) (← ask (get_resource cmd.resource_id))
  request_resource zones id cmd checked now inputs.0 inputs.1 resource
