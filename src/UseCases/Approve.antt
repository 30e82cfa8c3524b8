-- ===== src/UseCases/Approve.antt =====
-- approve_booking.py
pub mod Settles
pub mod Outcome
pub mod Conflict
use venue_backend.Common.{ℕ, ◌==◌, Bool, false, not, Option, none, some, List, [], ◌∷◌}
use venue_backend.Shared.Result.{Failure, Result, success, failed}
use venue_backend.Shared.Time.{utc}
use venue_backend.Bookings.{Booking, is_pending, approve, reject}
use venue_backend.Resources.Entity.{Resource, is_deleted}
use venue_backend.Subscriptions.{OwnerSubscription, is_operational}
use venue_backend.Store.{
  Action, World, booking_approved, booking_rejected, ident, words, get_booking, get_resource,
  get_subscription, list_pending_overlapping, pure, ◌>>=◌, ◌>>◌, ask, error, some_or, ensure,
  success_or, meanwhile, update_booking, notify,
}

pub record ApproveBookingCommand : Type 0 where
  pub actor_id : ℕ
  pub booking_id : ℕ

abbrev pub not_found : Failure
not_found = error "BookingNotFound" 404

abbrev pub invalid_transition : Failure
invalid_transition = error "BookingInvalidStateTransition" 409

-- `sub is not None and sub.status.is_operational()`
abbrev pub operates : Option OwnerSubscription → Bool
operates none = false
operates (some s) = is_operational s.status

-- `target is None or target.status is not BookingStatus.PENDING`
abbrev pub still_pending : Option Booking → Bool
still_pending none = false
still_pending (some b) = is_pending b.status

-- `comp.reject(...)`, whose result is not looked at: a failed call leaves `comp` as it was.
abbrev pub rejected_or_same : Booking → Result Booking → Booking
rejected_or_same comp (success c) = c
rejected_or_same comp (failed e) = comp

abbrev pub auto_rejected : ℕ → ℕ → Booking → Booking
auto_rejected actor_id now comp =
    rejected_or_same comp (reject comp actor_id (utc now) (some "auto_rejected_competing_request"))

-- The loop over the competitors.
unfoldable pub reject_all : ℕ → ℕ → List Booking → Action (Unit {0})
reject_all actor_id now [] = pure tt
reject_all actor_id now (comp ∷ rest) = do
  update_booking (auto_rejected actor_id now comp)
  reject_all actor_id now rest

-- The notifications to the customers of the competitors.
unfoldable pub notify_rejected : ℕ → List Booking → Action (Unit {0})
notify_rejected resource_id [] = pure tt
notify_rejected resource_id (comp ∷ rest) = do
  notify comp.customer_id booking_rejected (
      ("booking_id", ident comp.id)
      ∷ ("resource_id", ident resource_id)
      ∷ ("reason", words "auto_rejected_competing_request")
      ∷ [])
  notify_rejected resource_id rest

-- The part under the lock, and the dispatch of the notifications after it, as one step. The lock
-- keeps out the other approvals of the resource; what the handlers that take no lock might do between
-- the reads and the writes of this part is not modelled.
unfoldable pub approve_locked : ApproveBookingCommand → ℕ → Resource → Action Booking
approve_locked cmd now resource = do
  refetched ← ask (get_booking cmd.booking_id)
  ensure (still_pending refetched) invalid_transition
  target ← some_or invalid_transition refetched
  competitors ← ask (list_pending_overlapping target.resource_id target.slot_range target.id)
  approved ← success_or invalid_transition (approve target cmd.actor_id (utc now))
  update_booking approved
  reject_all cmd.actor_id now competitors
  notify approved.customer_id booking_approved
      (("booking_id", ident approved.id) ∷ ("resource_id", ident resource.id) ∷ [])
  notify_rejected resource.id competitors
  pure approved

-- The checks before the lock.
unfoldable pub approvable : ApproveBookingCommand → Action Resource
approvable cmd = do
  target ← some_or not_found (← ask (get_booking cmd.booking_id))
  resource ← some_or not_found (← ask (get_resource target.resource_id))
  ensure (not (is_deleted resource)) not_found
  ensure (resource.owner_id == cmd.actor_id) not_found
  sub ← ask (get_subscription resource.owner_id)
  ensure (operates sub) (error "OwnerSubscriptionInactive" 403)
  pure resource

-- `ApproveBookingHandler.handle`; `wait` is what other transactions do until the lock is acquired,
-- and `now` what the clock reads under it.
unfoldable pub approve_booking : (World → World) → ApproveBookingCommand → ℕ → Action Booking
approve_booking wait cmd now = do
  resource ← approvable cmd
  meanwhile wait
  approve_locked cmd now resource
