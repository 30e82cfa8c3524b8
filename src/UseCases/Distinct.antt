-- ===== src/UseCases/Distinct.antt =====
-- No customer holds two active bookings of one resource that overlap, whatever handlers run.
pub mod Rows
mod Decisions
mod Sweeps
use venue_backend.Store.{World}
use venue_backend.UseCases.Steps.{
  Left-of, Step, requested, approved_by, rejected_by, cancelled_by, expired_at, deleted_by, Reach,
  here, next,
}
use Rows.{AreDistinct}
use Decisions.{
  request_booking-AreDistinct, approve_booking-AreDistinct, reject_booking-AreDistinct,
  cancel_booking-AreDistinct,
}
use Sweeps.{expire_pending_bookings-AreDistinct, soft_delete_resource-AreDistinct}

Step-AreDistinct : {w w' : World} → AreDistinct w → Step AreDistinct w w' → AreDistinct w'
Step-AreDistinct {w} i (requested zones id cmd checked now l) =
    Left-of AreDistinct l ((request_booking-AreDistinct zones id cmd checked now).at w i)
Step-AreDistinct {w} i (approved_by wait cmd now k l) =
    Left-of AreDistinct l ((approve_booking-AreDistinct wait k cmd now).at w i)
Step-AreDistinct {w} i (rejected_by wait cmd now k l) =
    Left-of AreDistinct l ((reject_booking-AreDistinct wait k cmd now).at w i)
Step-AreDistinct {w} i (cancelled_by wait cmd checked now k l) =
    Left-of AreDistinct l ((cancel_booking-AreDistinct wait k cmd checked now).at w i)
Step-AreDistinct {w} i (expired_at now l) =
    Left-of AreDistinct l ((expire_pending_bookings-AreDistinct now).at w i)
Step-AreDistinct {w} i (deleted_by cmd now l) =
    Left-of AreDistinct l ((soft_delete_resource-AreDistinct cmd now).at w i)

-- Whatever booking handlers run, one after another and with whatever commands, and whatever other
-- transactions run while a decision waits that keep this too: no customer holds two active bookings of
-- one resource that overlap, if this held at the start. A request reads and inserts in one step here.
pub no_duplicate_requests : {w w' : World} → AreDistinct w → Reach AreDistinct w w' → AreDistinct w'
no_duplicate_requests i here = i
no_duplicate_requests i (next r s) = Step-AreDistinct (no_duplicate_requests i r) s
