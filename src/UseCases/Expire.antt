-- ===== src/UseCases/Expire.antt =====
-- expire_pending_bookings.py
pub mod Clears
use venue_backend.Common.{ℕ, ◌+◌, List, [], ◌∷◌}
use venue_backend.Shared.Result.{Result, success, failed}
use venue_backend.Shared.Time.{utc}
use venue_backend.Bookings.{Booking, expire}
use venue_backend.Store.{
  Action, booking_rejected, ident, words, list_pending_with_start_before, pure, ◌>>=◌, ◌>>◌, ask,
  try_or, update_booking, notify,
}

-- The update and the notification of an expired booking: 1 if it is counted, 0 if the update failed.
unfoldable pub save_expired : Booking → Action ℕ
save_expired b = try_or (update_booking b) 0 λ _.
    notify b.customer_id booking_rejected (
      ("booking_id", ident b.id)
      ∷ ("resource_id", ident b.resource_id)
      ∷ ("reason", words "slot_start_passed_with_no_decision")
      ∷ [])
    >> pure 1

-- `if transition.is_failure: continue`
abbrev pub expired_or_skipped : Result Booking → Action ℕ
expired_or_skipped (success b) = save_expired b
expired_or_skipped (failed e) = pure 0

-- The body of the loop.
abbrev pub expire_one : ℕ → Booking → Action ℕ
expire_one now b = expired_or_skipped (expire b (utc now))

unfoldable pub expire_all : ℕ → ℕ → List Booking → Action ℕ
expire_all now count [] = pure count
expire_all now count (b ∷ rest) = expire_one now b >>= λ n. expire_all now (count + n) rest

-- `ExpirePendingBookingsHandler.handle`: how many bookings it has expired.
unfoldable pub expire_pending_bookings : ℕ → Action ℕ
expire_pending_bookings now = do
  stale ← ask (list_pending_with_start_before now)
  expire_all now 0 stale
