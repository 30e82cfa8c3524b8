-- ===== src/UseCases/Approve/Settles.antt =====
-- What an approval does under the lock, branch by branch.
use venue_backend.Common.{
  ℕ, ◌==◌, ◌≡◌, refl, ap, ◌∙◌, true, false, none, some, List, [], ◌∷◌, ◌++◌, arith, All,
}
use mathlib.Core.List.{append-nil, append_assoc}
use venue_backend.Shared.Time.{utc}
use venue_backend.Shared.Values.{DateTimeRange}
use venue_backend.Bookings.{
  Booking, owner, BookingStatus, approved, rejected, is_pending, is_valid_transition,
}
use venue_backend.Bookings.Lifecycle.{moved, transition_succeeds}
use venue_backend.Resources.Entity.{Resource}
use venue_backend.Store.{
  World, Notice, ident, words, booking_approved, booking_rejected, done, pure, ◌>>=◌, get_booking,
  notify, replace, violates, competes, list_pending_overlapping,
}
use venue_backend.Store.Rows.{row_found, IsRow-find}
use venue_backend.Store.Writes.{
  rewritten, CanDecide, CanDecide-replace, ArePriced, select-CanDecide,
}
use venue_backend.Store.Equations.{bind_done, update_passes}
use venue_backend.UseCases.Approve.{
  ApproveBookingCommand, auto_rejected, rejected_or_same, reject_all, notify_rejected,
  approve_locked,
}

-- The competitor as the approval leaves it: REJECTED, with the change in its history.
abbrev pub rejection : ℕ → ℕ → Booking → Booking
rejection actor_id now comp =
    moved comp rejected actor_id owner (utc now) (some "auto_rejected_competing_request")

-- The notifications after the loop over the competitors.
abbrev pub rejection_notices : ℕ → List Booking → List Notice
rejection_notices resource_id [] = []
rejection_notices resource_id (c ∷ l) =
    record {
      recipient_id = c.customer_id;
      kind = booking_rejected;
      payload =
          ("booking_id", ident c.id)
          ∷ ("resource_id", ident resource_id)
          ∷ ("reason", words "auto_rejected_competing_request")
          ∷ [];
    }
    ∷ rejection_notices resource_id l

pub leaves_pending :
    (s : BookingStatus)
    → is_pending s ≡ true
    → (is_valid_transition s rejected ≡ true) × (is_valid_transition s approved ≡ true)
unfolding is_valid_transition
leaves_pending s h = ground arith

pub auto_rejected_pending :
    (actor_id now : ℕ) (c : Booking)
    → is_pending c.status ≡ true
    → auto_rejected actor_id now c ≡ rejection actor_id now c
auto_rejected_pending actor_id now c h = ap (rejected_or_same c) (
    transition_succeeds c rejected actor_id owner now (some "auto_rejected_competing_request")
      (leaves_pending c.status h).0 refl)

reject_all_settles :
    (actor_id now : ℕ) (l : List Booking) (w : World)
    → All (CanDecide w.bookings) l
    → reject_all actor_id now l w
      ≡ done tt (record w { bookings = rewritten (rejection actor_id now) l w.bookings })
unfolding reject_all pure
reject_all_settles actor_id now [] w h = refl
reject_all_settles actor_id now (c ∷ l) w h = rw (auto_rejected_pending actor_id now c h.0.0) (
    bind_done _ _ w tt _ (update_passes (rejection actor_id now c) w h.0.2 h.0.1 refl)
    ∙ reject_all_settles actor_id now l _ (CanDecide-replace _ w.bookings l h.1))

notify_rejected_settles :
    (resource_id : ℕ) (l : List Booking) (w : World)
    → notify_rejected resource_id l w
      ≡ done tt (record w { notices = w.notices ++ rejection_notices resource_id l })
unfolding notify_rejected ◌>>=◌ notify
notify_rejected_settles resource_id [] w = rw append-nil
notify_rejected_settles resource_id (c ∷ l) w =
    notify_rejected_settles resource_id l _ ∙ rw append_assoc

abbrev pub approval : ApproveBookingCommand → ℕ → Booking → Booking
approval cmd now t = moved t approved cmd.actor_id owner (utc now) none

abbrev pub approval_notice : Resource → Booking → Notice
approval_notice resource t = record {
  recipient_id = t.customer_id;
  kind = booking_approved;
  payload = ("booking_id", ident t.id) ∷ ("resource_id", ident resource.id) ∷ [];
}

abbrev pub competitors_of : Booking → World → List Booking
competitors_of t v = list_pending_overlapping t.resource_id t.slot_range t.id v

-- The world that the approval of `t` leaves.
unfoldable pub settled : ApproveBookingCommand → ℕ → Resource → Booking → World → World
settled cmd now resource t v = record v {
  bookings =
      rewritten (rejection cmd.actor_id now) (competitors_of t v)
        (replace (approval cmd now t) v.bookings);
  notices =
      (v.notices ++ approval_notice resource t ∷ [])
      ++ rejection_notices resource.id (competitors_of t v);
}

pub competes-pending :
    (resource_id : ℕ) (range : DateTimeRange) (exclude : ℕ) (b : Booking)
    → competes resource_id range exclude b ≡ true
    → is_pending b.status ≡ true
competes-pending resource_id range exclude b h = ground arith

module _ (cmd : ApproveBookingCommand) (now : ℕ) (resource : Resource) (v : World) where
  pub approve_locked_settles :
      (t : Booking)
      → get_booking cmd.booking_id v ≡ some t
      → is_pending t.status ≡ true
      → violates (approval cmd now t) v.bookings ≡ false
      → ArePriced v.bookings
      → approve_locked cmd now resource v ≡ done (approval cmd now t) (settled cmd now resource t v)
  unfolding approve_locked ◌>>=◌ notify settled
  approve_locked_settles t e p free priced =
      let row = IsRow-find (λ b. b.id == cmd.booking_id) v.bookings t e in
      let comps = competitors_of t v in
      let can =
        select-CanDecide (competes t.resource_id t.slot_range t.id) v.bookings v.bookings
          (competes-pending t.resource_id t.slot_range t.id) priced (λ b m. m) in
      let updated : World = record v { bookings = replace (approval cmd now t) v.bookings } in
      let cleared : World = record updated {
        bookings = rewritten (rejection cmd.actor_id now) comps updated.bookings;
      } in
      let notified : World = record cleared {
        notices = v.notices ++ approval_notice resource t ∷ [];
      } in
      rw e (
        rw p (
          rw
            (transition_succeeds t approved cmd.actor_id owner now none
              (leaves_pending t.status p).1 refl)
            (rw
              (update_passes (approval cmd now t) v (row_found v.bookings t row.0) (priced t row.0)
                free)
              (rw
                (reject_all_settles cmd.actor_id now comps updated
                  (CanDecide-replace (approval cmd now t) v.bookings comps can))
                (rw (notify_rejected_settles resource.id comps notified))))))
