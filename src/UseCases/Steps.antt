-- ===== src/UseCases/Steps.antt =====
-- Runs of the booking handlers, one after another.
use venue_backend.Common.{ℕ, ◌≡◌}
use venue_backend.Shared.Result.{Failure}
use venue_backend.Shared.Time.{ZoneData}
use venue_backend.Store.{World, Outcome, done, fail}
use venue_backend.Store.Keeps.{Left}
use venue_backend.UseCases.Request.{RequestBookingCommand, request_booking}
use venue_backend.UseCases.Approve.{ApproveBookingCommand, approve_booking}
use venue_backend.UseCases.Decide.{
  RejectBookingCommand, reject_booking, CancelBookingCommand, cancel_booking,
}
use venue_backend.UseCases.Expire.{expire_pending_bookings}
use venue_backend.UseCases.SoftDelete.{SoftDeleteResourceCommand, soft_delete_resource}

-- A run that returned, or that failed and whose writes were committed all the same.
pub data Leaves {A : Type 0} (o : Outcome A) (w' : World) : Type 0 where
  returned : (a : A) → o ≡ done a w' → Leaves o w'
  failing : (e : Failure) → o ≡ fail e w' → Leaves o w'

-- What other transactions do while a handler waits keeps an invariant.
abbrev pub IsKept : (World → Type 0) → (World → World) → Type 0
IsKept P wait = (w : World) → P w → P (wait w)

-- One run of a booking handler, at any time and with any command, while other transactions keep `P`.
pub data Step (P : World → Type 0) (w w' : World) : Type 0 where
  requested :
      (zones : ZoneData) (id : ℕ) (cmd : RequestBookingCommand) (checked now : ℕ)
      → Leaves (request_booking zones id cmd checked now w) w'
      → Step P w w'
  approved_by :
      (wait : World → World) (cmd : ApproveBookingCommand) (now : ℕ)
      → IsKept P wait
      → Leaves (approve_booking wait cmd now w) w'
      → Step P w w'
  rejected_by :
      (wait : World → World) (cmd : RejectBookingCommand) (now : ℕ)
      → IsKept P wait
      → Leaves (reject_booking wait cmd now w) w'
      → Step P w w'
  cancelled_by :
      (wait : World → World) (cmd : CancelBookingCommand) (checked now : ℕ)
      → IsKept P wait
      → Leaves (cancel_booking wait cmd checked now w) w'
      → Step P w w'
  expired_at : (now : ℕ) → Leaves (expire_pending_bookings now w) w' → Step P w w'
  deleted_by :
      (cmd : SoftDeleteResourceCommand) (now : ℕ)
      → Leaves (soft_delete_resource cmd now w) w'
      → Step P w w'

pub data Reach (P : World → Type 0) (w : World) : World → Type 0 where
  here : Reach P w w
  next : {u v : World} → Reach P w u → Step P u v → Reach P w v

pub Left-of :
    {A : Type 0} (P : World → Type 0) {o : Outcome A} {w' : World} → Leaves o w' → Left P o → P w'
Left-of P (returned a e) l = rw e at l
Left-of P (failing f e) l = rw e at l
