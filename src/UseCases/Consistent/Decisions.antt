-- ===== src/UseCases/Consistent/Decisions.antt =====
-- Requesting, approving, rejecting and cancelling keep the tables consistent, whatever other
-- transactions do while a handler waits.
use venue_backend.Common.{ℕ, ◌==◌, ◌≡◌, refl, none, some, List, [], ◌∷◌, inl, inr}
use venue_backend.Shared.Result.{Result, success, failed}
use venue_backend.Shared.Time.{ZoneData, utc}
use venue_backend.Bookings.{Booking, owner, approved, rejected, cancelled, reject}
use venue_backend.Bookings.Lifecycle.{IsRecorded, transition-IsRecorded, IsRecorded-create_pending}
use venue_backend.Resources.Entity.{Resource}
use venue_backend.Store.{World}
use venue_backend.Store.Keeps.{
  Keeps, Keeps-pure, Keeps-meanwhile, Keeps-bind, Keeps-ask, Keeps-any, Keeps-some_or, Keeps-lift,
  Keeps-success_or, Keeps-ensure,
}
use venue_backend.Store.Updates.{IsConsistent, update-Keeps, add-Keeps, notify-Keeps}
use venue_backend.UseCases.Request.{RequestBookingCommand, request_resource, request_booking}
use venue_backend.UseCases.Approve.{
  ApproveBookingCommand, reject_all, notify_rejected, approve_locked, approvable, approve_booking,
  rejected_or_same, auto_rejected,
}
use venue_backend.UseCases.Decide.{
  RejectBookingCommand, reject_booking, CancelBookingCommand, cancel_booking, role_of,
}
use venue_backend.UseCases.Consistent.Queries.{FoundRecorded, ListRecorded, found, listed}

rejected_or_same-IsRecorded :
    (comp : Booking) (r : Result Booking)
    → IsRecorded comp
    → ((b : Booking) → r ≡ success b → IsRecorded b)
    → IsRecorded (rejected_or_same comp r)
rejected_or_same-IsRecorded comp (success b) h k = k b refl
rejected_or_same-IsRecorded comp (failed e) h k = h

auto_rejected-IsRecorded :
    (actor_id now : ℕ) (comp : Booking)
    → IsRecorded comp
    → IsRecorded (auto_rejected actor_id now comp)
auto_rejected-IsRecorded actor_id now comp h =
    let reason = some "auto_rejected_competing_request" in
    rejected_or_same-IsRecorded comp (reject comp actor_id (utc now) reason) h
      λ b e. transition-IsRecorded comp rejected actor_id owner (utc now) reason h e

reject_all-Keeps :
    (actor_id now : ℕ) (l : List Booking)
    → ListRecorded l
    → Keeps IsConsistent (reject_all actor_id now l)
unfolding reject_all
reject_all-Keeps actor_id now [] h = Keeps-pure tt
reject_all-Keeps actor_id now (comp ∷ rest) h =
    Keeps-bind _ _ (update-Keeps _ (auto_rejected-IsRecorded actor_id now comp (h comp (inl refl))))
      λ _. reject_all-Keeps actor_id now rest (λ b m. h b (inr m))

notify_rejected-Keeps :
    (resource_id : ℕ) (l : List Booking) → Keeps IsConsistent (notify_rejected resource_id l)
unfolding notify_rejected
notify_rejected-Keeps resource_id [] = Keeps-pure tt
notify_rejected-Keeps resource_id (comp ∷ rest) =
    Keeps-bind _ _ (notify-Keeps _ _ _) λ _. notify_rejected-Keeps resource_id rest

approvable-Keeps : (cmd : ApproveBookingCommand) → Keeps IsConsistent (approvable cmd)
unfolding approvable
approvable-Keeps cmd = Keeps-any _ _ λ o. Keeps-some_or _ o _ λ target _.
    Keeps-any _ _ λ found_resource. Keeps-some_or _ found_resource _ λ resource _.
      Keeps-ensure _ _ _ λ _.
        Keeps-ensure _ _ _ λ _. Keeps-any _ _ λ sub. Keeps-ensure _ _ _ λ _. Keeps-pure resource

approve_locked-Keeps :
    (cmd : ApproveBookingCommand) (now : ℕ) (resource : Resource)
    → Keeps IsConsistent (approve_locked cmd now resource)
unfolding approve_locked
approve_locked-Keeps cmd now resource =
    Keeps-ask FoundRecorded _ _ (found cmd.booking_id) λ refetched known. Keeps-ensure _ _ _ λ _.
      Keeps-some_or _ refetched _ λ target is_target.
        Keeps-ask ListRecorded _ _ (listed _) λ competitors all_recorded.
          Keeps-success_or _ _ _ λ approved_target is_approved.
            Keeps-bind _ _
              (update-Keeps approved_target (
                transition-IsRecorded target approved cmd.actor_id owner (utc now) none
                  (known target is_target) is_approved))
              λ _. Keeps-bind _ _ (reject_all-Keeps cmd.actor_id now competitors all_recorded) λ _.
                Keeps-bind _ _ (notify-Keeps _ _ _) λ _.
                  Keeps-bind _ _ (notify_rejected-Keeps resource.id competitors)
                    λ _. Keeps-pure approved_target

module _ (wait : World → World) (kept : (w : World) → IsConsistent w → IsConsistent (wait w)) where
  pub approve_booking-Keeps :
      (cmd : ApproveBookingCommand) (now : ℕ) → Keeps IsConsistent (approve_booking wait cmd now)
  unfolding approve_booking
  approve_booking-Keeps cmd now = Keeps-bind _ _ (approvable-Keeps cmd) λ resource.
      Keeps-bind _ _ (Keeps-meanwhile wait kept) λ _. approve_locked-Keeps cmd now resource

  pub reject_booking-Keeps :
      (cmd : RejectBookingCommand) (now : ℕ) → Keeps IsConsistent (reject_booking wait cmd now)
  unfolding reject_booking
  reject_booking-Keeps cmd now = Keeps-ask FoundRecorded _ _ (found cmd.booking_id) λ o known.
      Keeps-some_or _ o _ λ booking is_booking. Keeps-any _ _ λ found_resource.
        Keeps-some_or _ found_resource _ λ resource _. Keeps-ensure _ _ _ λ _.
          Keeps-success_or _ _ _ λ rejected_booking is_rejected.
            Keeps-bind _ _ (Keeps-meanwhile wait kept) λ _.
              Keeps-bind _ _
                (update-Keeps rejected_booking (
                  transition-IsRecorded booking rejected cmd.actor_id owner (utc now) cmd.reason
                    (known booking is_booking) is_rejected))
                λ _. Keeps-bind _ _ (notify-Keeps _ _ _) λ _. Keeps-pure rejected_booking

  pub cancel_booking-Keeps :
      (cmd : CancelBookingCommand) (checked now : ℕ)
      → Keeps IsConsistent (cancel_booking wait cmd checked now)
  unfolding cancel_booking
  cancel_booking-Keeps cmd checked now =
      Keeps-ask FoundRecorded _ _ (found cmd.booking_id) λ o known.
        Keeps-some_or _ o _ λ booking is_booking. Keeps-any _ _ λ found_resource.
          Keeps-some_or _ found_resource _ λ resource _. Keeps-ensure _ _ _ λ _.
            Keeps-ensure _ _ _ λ _. Keeps-success_or _ _ _ λ cancelled_booking is_cancelled.
              Keeps-bind _ _ (Keeps-meanwhile wait kept) λ _.
                Keeps-bind _ _
                  (update-Keeps cancelled_booking (
                    transition-IsRecorded booking cancelled cmd.actor_id
                      (role_of (resource.owner_id == cmd.actor_id)) (utc now) cmd.reason
                      (known booking is_booking) is_cancelled))
                  λ _. Keeps-bind _ _ (notify-Keeps _ _ _) λ _. Keeps-pure cancelled_booking

pub request_booking-Keeps :
    (zones : ZoneData) (id : ℕ) (cmd : RequestBookingCommand) (checked now : ℕ)
    → Keeps IsConsistent (request_booking zones id cmd checked now)
unfolding request_booking request_resource
request_booking-Keeps zones id cmd checked now = Keeps-lift _ _ λ inputs _.
    Keeps-any _ _ λ found_resource. Keeps-some_or _ found_resource _ λ resource _.
      Keeps-ensure _ _ _ λ _. Keeps-ensure _ _ _ λ _. Keeps-any _ _ λ sub. Keeps-ensure _ _ _ λ _.
        Keeps-ensure _ _ _ λ _. Keeps-lift _ _ λ _ _. Keeps-any _ _ λ actives.
          Keeps-ensure _ _ _ λ _.
            Keeps-bind _ _
              (add-Keeps _ (
                IsRecorded-create_pending id resource.id cmd.actor_id inputs.0 _ inputs.1
                  (utc now)))
              λ _. Keeps-bind _ _ (notify-Keeps _ _ _) λ _. Keeps-pure _
