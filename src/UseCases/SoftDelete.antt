-- ===== src/UseCases/SoftDelete.antt =====
-- soft_delete_resource.py, and `load_owned_resource` of app/use_cases/resources/_common.py
pub mod Withdrawn
pub mod Clears
use venue_backend.Common.{ℕ, ◌==◌, not, ◌&&◌, some, List, [], ◌∷◌, ◌++◌, is_empty}
use venue_backend.Shared.Result.{with_status, from_failure, Result, success, failed}
use venue_backend.Shared.Time.{utc}
use venue_backend.Bookings.{owner, Booking, cancel}
use venue_backend.Resources.Entity.{Resource, is_deleted, soft_delete}
use venue_backend.Store.{
  Action, booking_cancelled, ident, words, get_resource, list_approved_with_start_after,
  list_pending_for_resource, pure, ◌>>=◌, ◌>>◌, ask, error, some_or, ensure, lift, update_booking,
  update_resource, notify,
}

pub record SoftDeleteResourceCommand : Type 0 where
  pub actor_id : ℕ
  pub resource_id : ℕ

-- `load_owned_resource`
unfoldable pub load_owned_resource : ℕ → ℕ → Action Resource
load_owned_resource resource_id actor_id = do
  res ← some_or (error "ResourceNotFound" 404) (← ask (get_resource resource_id))
  ensure (res.owner_id == actor_id && not (is_deleted res)) (error "ResourceNotFound" 404)
  pure res

abbrev pub cancelled_or_skipped :
    (Booking → Action (List Booking)) → Result Booking → Action (List Booking)
cancelled_or_skipped save (success b) = save b
cancelled_or_skipped save (failed e) = pure []

-- The update of one cancelled booking, which is then one of `cancelled_targets`.
unfoldable pub save_cancelled : Booking → Action (List Booking)
save_cancelled b = do update_booking b; pure (b ∷ [])

-- The loop over the pending bookings: those that it has cancelled.
unfoldable pub cancel_all : ℕ → ℕ → List Booking → Action (List Booking)
cancel_all actor_id now [] = pure []
cancel_all actor_id now (b ∷ rest) = do
  saved ←
      cancelled_or_skipped save_cancelled
        (cancel b actor_id owner (utc now) (some "resource_deleted"))
  others ← cancel_all actor_id now rest
  pure (saved ++ others)

unfoldable pub notify_cancelled : ℕ → List Booking → Action (Unit {0})
notify_cancelled resource_id [] = pure tt
notify_cancelled resource_id (b ∷ rest) = do
  notify b.customer_id booking_cancelled (
      ("booking_id", ident b.id)
      ∷ ("resource_id", ident resource_id)
      ∷ ("cancelled_by", words "owner")
      ∷ ("reason", words "resource_deleted")
      ∷ [])
  notify_cancelled resource_id rest

-- `SoftDeleteResourceHandler.handle`
unfoldable pub soft_delete_resource : SoftDeleteResourceCommand → ℕ → Action (Unit {0})
soft_delete_resource cmd now = do
  res ← load_owned_resource cmd.resource_id cmd.actor_id
  approved_future ← ask (list_approved_with_start_after res.id now)
  ensure (is_empty approved_future) (error "ResourceHasFutureApprovedBookings" 409)
  stale ← ask (list_pending_for_resource res.id)
  targets ← cancel_all cmd.actor_id now stale
  deleted ← lift (with_status 400 (soft_delete res (utc now)))
  update_resource deleted
  notify_cancelled res.id targets
