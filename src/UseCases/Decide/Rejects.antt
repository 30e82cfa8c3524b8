-- ===== src/UseCases/Decide/Rejects.antt =====
-- What a rejection and a cancellation do, with what other transactions do before their update.
use venue_backend.Common.{ℕ, ◌==◌, ==_iff, ◌≡◌, refl, true, false, some, [], ◌∷◌, ◌++◌, is_some}
use venue_backend.Shared.Time.{utc}
use venue_backend.Bookings.{Booking, owner, rejected, is_pending, reason_too_long}
use venue_backend.Bookings.Lifecycle.{moved, transition_succeeds}
use venue_backend.Resources.Entity.{Resource}
use venue_backend.Store.{
  World, Notice, ident, words, booking_rejected, done, ◌>>=◌, get_booking, get_resource, notify,
  replace,
}
use venue_backend.Store.Equations.{update_passes}
use venue_backend.UseCases.Approve.Settles.{leaves_pending}
use venue_backend.UseCases.Decide.{RejectBookingCommand, reject_booking, reason_or}

-- The booking that a rejection makes of the one that it has read.
abbrev pub refusal : RejectBookingCommand → ℕ → Booking → Booking
refusal cmd now b = moved b rejected cmd.actor_id owner (utc now) cmd.reason

abbrev pub refusal_notice : RejectBookingCommand → Resource → Booking → Notice
refusal_notice cmd resource b = record {
  recipient_id = b.customer_id;
  kind = booking_rejected;
  payload =
      ("booking_id", ident b.id)
      ∷ ("resource_id", ident resource.id)
      ∷ ("reason", words (reason_or cmd.reason))
      ∷ [];
}

-- A rejection by the owner of a booking that it has read as PENDING writes the row that it makes of
-- that reading, whatever the row has become in the meantime: an approval or a cancellation that was
-- committed between the reading and the update is overwritten, status and history. The other rows
-- stay as they were, and the customer is notified.
pub reject_overwrites :
    (wait : World → World) (cmd : RejectBookingCommand) (now : ℕ) (w : World) (resource : Resource)
    (b : Booking)
    → get_booking cmd.booking_id w ≡ some b
    → get_resource b.resource_id w ≡ some resource
    → resource.owner_id ≡ cmd.actor_id
    → is_pending b.status ≡ true
    → reason_too_long cmd.reason ≡ false
    → is_some b.total_price_cents ≡ true
    → is_some (get_booking b.id (wait w)) ≡ true
    → reject_booking wait cmd now w
      ≡ done (refusal cmd now b) (record (wait w) {
        bookings = replace (refusal cmd now b) (wait w).bookings;
        notices = (wait w).notices ++ refusal_notice cmd resource b ∷ [];
      })
unfolding reject_booking ◌>>=◌ notify
reject_overwrites wait cmd now w resource b e r o p fits priced row =
    let mine : (resource.owner_id == cmd.actor_id) ≡ true = (==_iff _ _).1 o in
    rw e (
      rw r (
        rw mine (
          rw
            (transition_succeeds b rejected cmd.actor_id owner now cmd.reason
              (leaves_pending b.status p).0 fits)
            (rw (update_passes (refusal cmd now b) (wait w) row priced refl)))))
