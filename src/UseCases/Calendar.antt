-- ===== src/UseCases/Calendar.antt =====
-- The calendar that the booking handlers keep, which says whether a booking holds a resource at an
-- instant, and the change of the calendar that each handler stands for. It forgets the requests, the
-- histories, the prices and the order of the rows.
pub mod Rows
pub mod Returns
pub mod Refined
use venue_backend.Common.{
  ℕ, ◌==◌, ◌≡◌, Bool, true, false, ◌&&◌, some, List, any, ltb, leb, if◌then◌else◌,
}
use venue_backend.Shared.Values.{DateTimeRange}
use venue_backend.Shared.Time.{ZoneData}
use venue_backend.Bookings.{Booking, is_approved}
use venue_backend.Store.{World, done, get_booking}
use venue_backend.UseCases.Request.{RequestBookingCommand, request_booking}
use venue_backend.UseCases.Approve.{ApproveBookingCommand, approve_booking}
use venue_backend.UseCases.Decide.{
  RejectBookingCommand, reject_booking, CancelBookingCommand, cancel_booking,
}
use venue_backend.UseCases.Expire.{expire_pending_bookings}
use venue_backend.UseCases.SoftDelete.{SoftDeleteResourceCommand, soft_delete_resource}

-- Whether a booking, the last argument, holds a resource at an instant.
abbrev pub Calendar : Type 0
Calendar = ℕ → ℕ → ℕ → Bool

abbrev pub is_within : DateTimeRange → ℕ → Bool
is_within range t = leb range.start_at t && ltb t range.end_at

abbrev pub holds : ℕ → ℕ → ℕ → Booking → Bool
holds room t id b =
    (is_approved b.status && ((b.resource_id == room) && is_within b.slot_range t)) && (b.id == id)

-- The calendar of the approved rows.
abbrev pub calendar_of : List Booking → Calendar
calendar_of rows room t id = any (holds room t id) rows

-- Nothing changes.
abbrev pub IsSame : Calendar → Calendar → Type 0
IsSame c c' = (room t id : ℕ) → c' room t id ≡ c room t id

-- The booking `b` gives up what it holds, and nothing else changes.
abbrev pub IsReleased : ℕ → Calendar → Calendar → Type 0
IsReleased b c c' = (room t id : ℕ) → c' room t id ≡ (if id == b then false else c room t id)

-- The booking `b` comes to hold the range of the room, no instant of which another booking held; it
-- holds nothing else, and nothing else changes.
pub record IsReserved (b room : ℕ) (range : DateTimeRange) (c c' : Calendar) : Type 0 where
  pub free : (t id : ℕ) → is_within range t ≡ true → (id == b) ≡ false → c room t id ≡ false
  pub taken :
      (r t id : ℕ) → c' r t id ≡ (if id == b then (r == room) && is_within range t else c r t id)

-- The calls of the booking handlers, with what they take from outside.
pub data BookingCall : Type 0 where
  requests : ZoneData → ℕ → RequestBookingCommand → ℕ → ℕ → BookingCall
  approves : (World → World) → ApproveBookingCommand → ℕ → BookingCall
  rejects : (World → World) → RejectBookingCommand → ℕ → BookingCall
  cancels : (World → World) → CancelBookingCommand → ℕ → ℕ → BookingCall
  expires : ℕ → BookingCall
  deletes : SoftDeleteResourceCommand → ℕ → BookingCall

-- The world in which a call begins to write: the one that it started in, or what the other
-- transactions made of it while the call waited.
abbrev pub written_in : BookingCall → World → World
written_in (approves wait cmd now) w = wait w
written_in (rejects wait cmd now) w = wait w
written_in (cancels wait cmd checked now) w = wait w
written_in _ w = w

-- The call returns, and leaves `w'`.
abbrev pub Returns : BookingCall → World → World → Type 0
Returns (requests zones id cmd checked now) w w' =
    (b : Booking) × (request_booking zones id cmd checked now w ≡ done b w')
Returns (approves wait cmd now) w w' = (b : Booking) × (approve_booking wait cmd now w ≡ done b w')
Returns (rejects wait cmd now) w w' = (b : Booking) × (reject_booking wait cmd now w ≡ done b w')
Returns (cancels wait cmd checked now) w w' =
    (b : Booking) × (cancel_booking wait cmd checked now w ≡ done b w')
Returns (expires now) w w' = (count : ℕ) × (expire_pending_bookings now w ≡ done count w')
Returns (deletes cmd now) w w' = soft_delete_resource cmd now w ≡ done tt w'

-- What a call that returns does to the calendar. A request, an expiry and a deletion of a resource
-- leave it as it is; a rejection and a cancellation release the booking that they name; an approval
-- reserves the range of the booking that it names, as it stands under the lock.
abbrev pub Effect : BookingCall → World → Calendar → Calendar → Type 0
Effect (approves wait cmd now) v c c' =
    (b : Booking) × (get_booking cmd.booking_id v ≡ some b)
    × IsReserved cmd.booking_id b.resource_id b.slot_range c c'
Effect (rejects wait cmd now) v c c' = IsReleased cmd.booking_id c c'
Effect (cancels wait cmd checked now) v c c' = IsReleased cmd.booking_id c c'
Effect _ v c c' = IsSame c c'
