-- ===== src/UseCases/Consistent.antt =====
-- Every booking handler keeps the tables consistent; so no run of handlers double-books.
mod Queries
mod Decisions
mod Sweeps
use venue_backend.Common.{ℕ, ◌≡◌, ◌≢◌, refl, [], In, inl, inr}
use venue_backend.Shared.Result.{Failure}
use venue_backend.Shared.Time.{ZoneData}
use venue_backend.Bookings.{Booking}
use venue_backend.Store.{World, Outcome, done, fail, raised}
use venue_backend.Store.Keeps.{Keeps, Left}
use venue_backend.Store.Updates.{Apart, IsConsistent}
use venue_backend.UseCases.Request.{RequestBookingCommand, request_booking}
use venue_backend.UseCases.Approve.{ApproveBookingCommand, approve_booking}
use venue_backend.UseCases.Decide.{
  RejectBookingCommand, reject_booking, CancelBookingCommand, cancel_booking,
}
use venue_backend.UseCases.Expire.{expire_pending_bookings}
use venue_backend.UseCases.SoftDelete.{SoftDeleteResourceCommand, soft_delete_resource}
use Decisions.{
  request_booking-Keeps, approve_booking-Keeps, reject_booking-Keeps, cancel_booking-Keeps,
}
use Sweeps.{expire_pending_bookings-Keeps, soft_delete_resource-Keeps}
use venue_backend.UseCases.Steps.{
  Left-of, Step, requested, approved_by, rejected_by, cancelled_by, expired_at, deleted_by, Reach,
  here, next,
}

Step-IsConsistent : {w w' : World} → IsConsistent w → Step IsConsistent w w' → IsConsistent w'
Step-IsConsistent {w} i (requested zones id cmd checked now l) =
    Left-of IsConsistent l ((request_booking-Keeps zones id cmd checked now).at w i)
Step-IsConsistent {w} i (approved_by wait cmd now k l) =
    Left-of IsConsistent l ((approve_booking-Keeps wait k cmd now).at w i)
Step-IsConsistent {w} i (rejected_by wait cmd now k l) =
    Left-of IsConsistent l ((reject_booking-Keeps wait k cmd now).at w i)
Step-IsConsistent {w} i (cancelled_by wait cmd checked now k l) =
    Left-of IsConsistent l ((cancel_booking-Keeps wait k cmd checked now).at w i)
Step-IsConsistent {w} i (expired_at now l) =
    Left-of IsConsistent l ((expire_pending_bookings-Keeps now).at w i)
Step-IsConsistent {w} i (deleted_by cmd now l) =
    Left-of IsConsistent l ((soft_delete_resource-Keeps cmd now).at w i)

-- Whatever handlers have run, in whatever order and with whatever commands, and whatever consistent
-- transactions have run while they waited: no two approved bookings of one resource overlap, and
-- the history of every booking leads from PENDING to its status by transitions of the table, if
-- this held at the start.
pub no_double_booking : {w w' : World} → IsConsistent w → Reach IsConsistent w w' → IsConsistent w'
no_double_booking i here = i
no_double_booking i (next r s) = Step-IsConsistent (no_double_booking i r) s
