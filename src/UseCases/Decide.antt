-- ===== src/UseCases/Decide.antt =====
-- reject_booking.py and cancel_booking.py
pub mod Rejects
pub mod Cancels
use venue_backend.Common.{
  ℕ, ◌+◌, ◌*◌, ◌==◌, leb, String, Bool, not, ◌&&◌, ◌||◌, Option, none, some, [], ◌∷◌, if◌then◌else◌,
}
use venue_backend.Shared.Time.{utc, hour_us}
use venue_backend.Shared.Text.{size}
use venue_backend.Bookings.{Role, owner, customer, Booking, reject, cancel}
use venue_backend.Resources.Entity.{Resource}
use venue_backend.Store.{
  Action, World, booking_rejected, booking_cancelled, ident, words, get_booking, get_resource, pure,
  ◌>>=◌, ◌>>◌, ask, error, some_or, ensure, success_or, meanwhile, update_booking, notify,
}
use venue_backend.UseCases.Approve.{not_found, invalid_transition}

pub record RejectBookingCommand : Type 0 where
  pub actor_id : ℕ
  pub booking_id : ℕ
  pub reason : Option String

-- `cmd.reason or "owner_rejected"`
abbrev pub reason_or : Option String → String
reason_or none = "owner_rejected"
reason_or (some s) = if size s == 0 then "owner_rejected" else s

-- `RejectBookingHandler.handle`; `wait` is what other transactions do between the first read of the
-- booking and its update.
unfoldable pub reject_booking : (World → World) → RejectBookingCommand → ℕ → Action Booking
reject_booking wait cmd now = do
  booking ← some_or not_found (← ask (get_booking cmd.booking_id))
  resource ← some_or not_found (← ask (get_resource booking.resource_id))
  ensure (resource.owner_id == cmd.actor_id) not_found
  rejected ← success_or invalid_transition (reject booking cmd.actor_id (utc now) cmd.reason)
  meanwhile wait
  update_booking rejected
  notify rejected.customer_id booking_rejected (
      ("booking_id", ident rejected.id)
      ∷ ("resource_id", ident resource.id)
      ∷ ("reason", words (reason_or cmd.reason))
      ∷ [])
  pure rejected

pub record CancelBookingCommand : Type 0 where
  pub actor_id : ℕ
  pub booking_id : ℕ
  pub reason : Option String

-- `self._clock() >= start_at - timedelta(hours=cutoff_hours)`, with the hours on the other side.
abbrev pub past_cutoff : Resource → Booking → ℕ → Bool
past_cutoff resource booking now =
    leb booking.slot_range.start_at
      (now + resource.customer_cancellation_cutoff_hours.hours * hour_us)

abbrev pub role_of : Bool → Role
role_of is_owner = if is_owner then owner else customer

-- `actor_role.value`
abbrev pub role_words : Bool → String
role_words is_owner = if is_owner then "owner" else "customer"

-- `CancelBookingHandler.handle`; `checked` and `now` are the two readings of the clock.
unfoldable pub cancel_booking : (World → World) → CancelBookingCommand → ℕ → ℕ → Action Booking
cancel_booking wait cmd checked now = do
  booking ← some_or not_found (← ask (get_booking cmd.booking_id))
  resource ← some_or not_found (← ask (get_resource booking.resource_id))
  let is_customer = booking.customer_id == cmd.actor_id
  let is_owner = resource.owner_id == cmd.actor_id
  ensure (is_customer || is_owner) not_found
  ensure (not (is_customer && (not is_owner && past_cutoff resource booking checked)))
      (error "BookingCancellationPastCutoff" 403)
  cancelled ←
      success_or invalid_transition
        (cancel booking cmd.actor_id (role_of is_owner) (utc now) cmd.reason)
  meanwhile wait
  update_booking cancelled
  notify (if is_customer then resource.owner_id else booking.customer_id) booking_cancelled (
      ("booking_id", ident cancelled.id)
      ∷ ("resource_id", ident resource.id)
      ∷ ("cancelled_by", words (role_words is_owner))
      ∷ [])
  pure cancelled
