-- ===== src/UseCases/Distinct/Decisions.antt =====
-- Requesting, approving, rejecting and cancelling keep the active bookings of a customer apart.
use venue_backend.Common.{
  String, Bool, Bool-cases, select, ℕ, ◌==◌, ◌≡◌, refl, ap, ◌∙◌, true, false, none, some, Option,
  List, [], ◌∷◌, inl, inr, arith, All,
}
use venue_backend.Shared.Result.{success}
use venue_backend.Shared.Time.{DateTime, ZoneData, utc}
use venue_backend.Shared.Values.{DateTimeRange, ShortDescription}
use venue_backend.Bookings.{
  Booking, BookingStatus, Role, owner, approved, rejected, cancelled, is_active, is_pending,
  transition, create_pending,
}
use venue_backend.Bookings.Lifecycle.{transition-eq-success}
use venue_backend.Resources.Entity.{Resource}
use venue_backend.Store.{World}
use venue_backend.Store.Keeps.{
  Keeps, Left, Keeps-pure, Keeps-meanwhile, Keeps-bind, Keeps-any, Keeps-some_or, Keeps-lift,
  Keeps-success_or, Keeps-ensure, Left-ask, Left-ensure, Left-some_or, Left-lift, Left-success_or,
  Left-bind,
}
use venue_backend.Store.Rows.{IsRow-find}
use venue_backend.UseCases.Request.{RequestBookingCommand, request_resource, request_booking}
use venue_backend.UseCases.Request.Accepts.{no_active}
use venue_backend.UseCases.Approve.{
  ApproveBookingCommand, reject_all, notify_rejected, approve_locked, approvable, approve_booking,
  still_pending,
}
use venue_backend.UseCases.Approve.Settles.{auto_rejected_pending, competes-pending, rejection}
use venue_backend.UseCases.Decide.{
  RejectBookingCommand, reject_booking, CancelBookingCommand, cancel_booking, role_of,
}
use venue_backend.UseCases.Distinct.Rows.{
  AreDistinct, update_off-AreDistinct, update_same-AreDistinct, add_booking-AreDistinct,
  notify-AreDistinct,
}

-- A booking after a change to a status that is not active.
pub transition_off :
    (b : Booking) (to : BookingStatus) (actor_id : ℕ) (role : Role) (now : DateTime)
    (reason : Option String) {b' : Booking}
    → is_active to ≡ false
    → transition b to actor_id role now reason ≡ success b'
    → is_active b'.status ≡ false
transition_off b to actor_id role now reason off h =
    ap (λ x. is_active x.status) (transition-eq-success b to actor_id role now reason h).1 ∙ off

ArePending : List Booking → Type 0
ArePending l = All (λ b. is_pending b.status ≡ true) l

reject_all-AreDistinct :
    (actor_id now : ℕ) (l : List Booking)
    → ArePending l
    → Keeps AreDistinct (reject_all actor_id now l)
unfolding reject_all ArePending
reject_all-AreDistinct actor_id now [] h = Keeps-pure tt
reject_all-AreDistinct actor_id now (comp ∷ rest) h =
    rw (auto_rejected_pending actor_id now comp h.0) (
      Keeps-bind _ _ (update_off-AreDistinct (rejection actor_id now comp) refl)
        λ _. reject_all-AreDistinct actor_id now rest h.1)

notify_rejected-AreDistinct :
    (resource_id : ℕ) (l : List Booking) → Keeps AreDistinct (notify_rejected resource_id l)
unfolding notify_rejected
notify_rejected-AreDistinct resource_id [] = Keeps-pure tt
notify_rejected-AreDistinct resource_id (comp ∷ rest) =
    Keeps-bind _ _ (notify-AreDistinct _ _ _) λ _. notify_rejected-AreDistinct resource_id rest

approvable-AreDistinct : (cmd : ApproveBookingCommand) → Keeps AreDistinct (approvable cmd)
unfolding approvable
approvable-AreDistinct cmd = Keeps-any _ _ λ o. Keeps-some_or _ o _ λ target _.
    Keeps-any _ _ λ found_resource. Keeps-some_or _ found_resource _ λ resource _.
      Keeps-ensure _ _ _ λ _.
        Keeps-ensure _ _ _ λ _. Keeps-any _ _ λ sub. Keeps-ensure _ _ _ λ _. Keeps-pure resource

still_pending-active :
    (o : Option Booking) (t : Booking)
    → o ≡ some t
    → still_pending o ≡ true
    → is_active t.status ≡ true
still_pending-active none t e h = cc
still_pending-active (some b) t e h = ground arith

pending_rows :
    (p : Booking → Bool) (l : List Booking)
    → ((b : Booking) → p b ≡ true → is_pending b.status ≡ true)
    → ArePending (select p l)
unfolding ArePending
pending_rows p [] h = tt
pending_rows p (y ∷ l) h = elim (Bool-cases (p y)) [
  | inl kept ↦ rw kept (h y kept, pending_rows p l h)
  | inr dropped ↦ rw dropped (pending_rows p l h)
]

approve_locked-AreDistinct :
    (cmd : ApproveBookingCommand) (now : ℕ) (resource : Resource)
    → Keeps AreDistinct (approve_locked cmd now resource)
unfolding approve_locked
approve_locked-AreDistinct cmd now resource = record { at = λ w all. at_world w all }
  where
    at_world : (w : World) → AreDistinct w → Left AreDistinct (approve_locked cmd now resource w)
    at_world w all = Left-ask AreDistinct w all _ _ (
        Left-ensure AreDistinct w all _ _ _ λ pending_still.
          Left-some_or AreDistinct w all _ _ _ λ target found. Left-ask AreDistinct w all _ _ (
            Left-success_or AreDistinct w all _ _ _ λ approved_target made.
              let same =
                (transition-eq-success target approved cmd.actor_id owner (utc now) none made).1 in
              Left-bind AreDistinct _ _ w
                (update_same-AreDistinct approved_target target w all
                  (IsRow-find (λ b. b.id == cmd.booking_id) w.bookings target found).0
                  (still_pending-active _ target found pending_still) (ap (λ t. t.id) same)
                  (ap (λ t. t.customer_id) same) (ap (λ t. t.resource_id) same)
                  (ap (λ t. t.slot_range) same))
                λ _.
                  Keeps-bind _ _
                    (reject_all-AreDistinct cmd.actor_id now _ (
                      pending_rows _ w.bookings
                        (competes-pending target.resource_id target.slot_range target.id)))
                    λ _. Keeps-bind _ _ (notify-AreDistinct _ _ _) λ _.
                      Keeps-bind _ _ (notify_rejected-AreDistinct resource.id _)
                        λ _. Keeps-pure approved_target))

module _ (wait : World → World) (kept : (w : World) → AreDistinct w → AreDistinct (wait w)) where
  pub approve_booking-AreDistinct :
      (cmd : ApproveBookingCommand) (now : ℕ) → Keeps AreDistinct (approve_booking wait cmd now)
  unfolding approve_booking
  approve_booking-AreDistinct cmd now = Keeps-bind _ _ (approvable-AreDistinct cmd) λ resource.
      Keeps-bind _ _ (Keeps-meanwhile wait kept) λ _. approve_locked-AreDistinct cmd now resource

  pub reject_booking-AreDistinct :
      (cmd : RejectBookingCommand) (now : ℕ) → Keeps AreDistinct (reject_booking wait cmd now)
  unfolding reject_booking
  reject_booking-AreDistinct cmd now = Keeps-any _ _ λ o. Keeps-some_or _ o _ λ booking _.
      Keeps-any _ _ λ found_resource. Keeps-some_or _ found_resource _ λ resource _.
        Keeps-ensure _ _ _ λ _. Keeps-success_or _ _ _ λ rejected_booking made.
          Keeps-bind _ _ (Keeps-meanwhile wait kept) λ _.
            Keeps-bind _ _
              (update_off-AreDistinct rejected_booking
                (transition_off booking rejected cmd.actor_id owner (utc now) cmd.reason refl made))
              λ _. Keeps-bind _ _ (notify-AreDistinct _ _ _) λ _. Keeps-pure rejected_booking

  pub cancel_booking-AreDistinct :
      (cmd : CancelBookingCommand) (checked now : ℕ)
      → Keeps AreDistinct (cancel_booking wait cmd checked now)
  unfolding cancel_booking
  cancel_booking-AreDistinct cmd checked now = Keeps-any _ _ λ o. Keeps-some_or _ o _ λ booking _.
      Keeps-any _ _ λ found_resource. Keeps-some_or _ found_resource _ λ resource _.
        Keeps-ensure _ _ _ λ _. Keeps-ensure _ _ _ λ _.
          Keeps-success_or _ _ _ λ cancelled_booking made.
            Keeps-bind _ _ (Keeps-meanwhile wait kept) λ _.
              Keeps-bind _ _
                (update_off-AreDistinct cancelled_booking (
                  transition_off booking cancelled cmd.actor_id
                    (role_of (resource.owner_id == cmd.actor_id)) (utc now) cmd.reason refl made))
                λ _. Keeps-bind _ _ (notify-AreDistinct _ _ _) λ _. Keeps-pure cancelled_booking

request_resource-AreDistinct :
    (zones : ZoneData) (id : ℕ) (cmd : RequestBookingCommand) (checked now : ℕ)
    (range : DateTimeRange) (customer_note : Option ShortDescription) (resource : Resource)
    → Keeps AreDistinct (request_resource zones id cmd checked now range customer_note resource)
unfolding request_resource create_pending
request_resource-AreDistinct zones id cmd checked now range customer_note resource = record {
  at = λ w all. at_world w all;
}
  where
    at_world :
        (w : World)
        → AreDistinct w
        → Left AreDistinct
            (request_resource zones id cmd checked now range customer_note resource w)
    at_world w all = Left-ensure AreDistinct w all _ _ _ λ _.
        Left-ensure AreDistinct w all _ _ _ λ _. Left-ask AreDistinct w all _ _ (
          Left-ensure AreDistinct w all _ _ _ λ _. Left-ensure AreDistinct w all _ _ _ λ _.
            Left-lift AreDistinct w all _ _ λ _ _. Left-ask AreDistinct w all _ _ (
              Left-ensure AreDistinct w all _ _ _ λ free.
                Left-bind AreDistinct _ _ w
                  (add_booking-AreDistinct _ w all (no_active cmd w resource range free))
                  λ _. Keeps-bind _ _ (notify-AreDistinct _ _ _) λ _. Keeps-pure _))

pub request_booking-AreDistinct :
    (zones : ZoneData) (id : ℕ) (cmd : RequestBookingCommand) (checked now : ℕ)
    → Keeps AreDistinct (request_booking zones id cmd checked now)
unfolding request_booking
request_booking-AreDistinct zones id cmd checked now = Keeps-lift _ _ λ inputs _.
    Keeps-any _ _ λ found_resource.
      Keeps-some_or _ found_resource _ λ resource _.
        request_resource-AreDistinct zones id cmd checked now inputs.0 inputs.1 resource
