-- ===== src/UseCases/Calendar/Refined.antt =====
-- The booking handlers refine the calendar.
use venue_backend.Common.{
  ℕ, ◌==◌, ==_iff, ◌≡◌, refl, sym, ap, ◌∙◌, true, false, ◌&&◌, some, arith, AreKeyed,
}
use mathlib.Core.Path.{subst}
use venue_backend.Bookings.{Booking, BookingStatus, is_pending, is_approved, create_pending}
use venue_backend.Store.{World, done, get_booking, competes}
use venue_backend.Store.Rows.{IsRow-find, row_found}
use venue_backend.Store.Writes.{ArePriced}
use venue_backend.UseCases.Request.Accepts.{request_booking_accepts}
use venue_backend.UseCases.Approve.{ApproveBookingCommand, approve_booking}
use venue_backend.UseCases.Approve.Settles.{approval, rejection, competes-pending}
use venue_backend.UseCases.Approve.Outcome.{approve_booking_settles}
use venue_backend.UseCases.Decide.Rejects.{refusal}
use venue_backend.UseCases.Decide.Cancels.{cancel_booking_accepts}
use venue_backend.UseCases.Expire.Clears.{is_stale, expiry, expire_pending_bookings_clears}
use venue_backend.UseCases.SoftDelete.Withdrawn.{withdrawal}
use venue_backend.UseCases.SoftDelete.Clears.{soft_delete_resource_clears}
use venue_backend.UseCases.Calendar.{
  calendar_of, IsSame, IsReleased, IsReserved, BookingCall, requests, approves, rejects, cancels,
  expires, deletes, written_in, Returns, Effect,
}
use venue_backend.UseCases.Calendar.Rows.{
  replace-IsReleased, append-IsSame, map-IsSame, approve-IsReserved,
}
use venue_backend.UseCases.Calendar.Returns.{
  same_world, approve_returns, reject_returns, delete_returns,
}

pending_holds_nothing : (s : BookingStatus) → is_pending s ≡ true → is_approved s ≡ false
pending_holds_nothing s h = ground arith

has_id : (id : ℕ) (w : World) (b : Booking) → get_booking id w ≡ some b → b.id ≡ id
has_id id w b found = (==_iff _ _).0 (IsRow-find (λ y. y.id == id) w.bookings b found).1

approve_reserves :
    (wait : World → World) (cmd : ApproveBookingCommand) (now : ℕ) (w w' : World) (b : Booking)
    → ArePriced (wait w).bookings
    → AreKeyed (λ y. y.id) (wait w).bookings
    → approve_booking wait cmd now w ≡ done b w'
    → Effect
        (approves wait cmd now)
        (wait w)
        (calendar_of (wait w).bookings)
        (calendar_of w'.bookings)
approve_reserves wait cmd now w w' b priced keyed h =
    let (resource, t, can, found, pends, fine) = approve_returns wait cmd now w w' b h in
    let (u, run, settled, notices) =
      approve_booking_settles wait cmd now w resource t can found pends fine priced keyed in
    let same : w' ≡ u = same_world (sym h ∙ run) in
    let row = IsRow-find (λ y. y.id == cmd.booking_id) (wait w).bookings t found in
    let reserved =
      approve-IsReserved (approval cmd now t) (competes t.resource_id t.slot_range t.id)
        (rejection cmd.actor_id now) (wait w).bookings (row_found (wait w).bookings t row.0) refl
        fine
        (λ y hit.
          pending_holds_nothing y.status (competes-pending t.resource_id t.slot_range t.id y hit))
        (λ y. refl) in
    (
      t,
      found,
      subst
          (λ id.
            IsReserved id t.resource_id t.slot_range (calendar_of (wait w).bookings)
              (calendar_of w'.bookings))
          (has_id cmd.booking_id (wait w) t found)
          (subst
            (λ rows.
              IsReserved t.id t.resource_id t.slot_range (calendar_of (wait w).bookings)
                (calendar_of rows))
            (sym (ap (λ x. x.bookings) same ∙ settled.rows)) reserved),
    )

-- The booking handlers refine the calendar. Where every row has a price, as its column demands, and
-- the ids of the rows are distinct, in the tables in which it begins to write: a request, an expiry
-- of the pending bookings and a deletion of a resource that return leave the calendar as it is; a
-- rejection or a cancellation that returns takes from the booking that it names all that it holds,
-- and changes nothing else; and an approval that returns gives the booking that it names exactly its
-- range of its resource, no instant of which another booking held, and changes nothing else. The
-- effect is on the calendar that other transactions left until the lock was acquired, or until the
-- row was written.
pub handlers_refine_calendar :
    (call : BookingCall) (w w' : World)
    → ArePriced (written_in call w).bookings
    → AreKeyed (λ b. b.id) (written_in call w).bookings
    → Returns call w w'
    → Effect call
        (written_in call w)
        (calendar_of (written_in call w).bookings)
        (calendar_of w'.bookings)
unfolding create_pending
handlers_refine_calendar (requests zones id cmd checked now) w w' priced keyed (b, h) =
    let (resource, range, customer_note, accepted, is_note, made, rows, notices) =
      request_booking_accepts zones id cmd checked now w w' b h in
    subst (λ l. IsSame (calendar_of w.bookings) (calendar_of l)) (sym rows)
      (append-IsSame b w.bookings (ap (λ x. is_approved x.status) made))
handlers_refine_calendar (approves wait cmd now) w w' priced keyed (b, h) =
    approve_reserves wait cmd now w w' b priced keyed h
handlers_refine_calendar (rejects wait cmd now) w w' priced keyed (b, h) =
    let (read, found, rows) = reject_returns wait cmd now w w' b h in
    subst (λ id. IsReleased id (calendar_of (wait w).bookings) (calendar_of w'.bookings))
      (has_id cmd.booking_id w read found)
      (subst (λ l. IsReleased read.id (calendar_of (wait w).bookings) (calendar_of l)) (sym rows)
        (replace-IsReleased (refusal cmd now read) (wait w).bookings refl))
handlers_refine_calendar (cancels wait cmd checked now) w w' priced keyed (b, h) =
    let (resource, read, can, made, rows, notices) =
      cancel_booking_accepts wait cmd checked now w w' b h in
    subst (λ id. IsReleased id (calendar_of (wait w).bookings) (calendar_of w'.bookings))
      (ap (λ x. x.id) made ∙ has_id cmd.booking_id w read can.is_booking)
      (subst (λ l. IsReleased b.id (calendar_of (wait w).bookings) (calendar_of l)) (sym rows)
        (replace-IsReleased b (wait w).bookings (ap (λ x. is_approved x.status) made)))
handlers_refine_calendar (expires now) w w' priced keyed (count, h) =
    let (u, run, rows, left, notices) = expire_pending_bookings_clears now w priced keyed in
    let same : w' ≡ u = same_world (sym h ∙ run) in
    subst (λ l. IsSame (calendar_of w.bookings) (calendar_of l))
      (sym (ap (λ x. x.bookings) same ∙ rows))
      (map-IsSame (is_stale now) (expiry now) w.bookings
        (λ y hit. pending_holds_nothing y.status (ground arith)) (λ y. refl))
handlers_refine_calendar (deletes cmd now) w w' priced keyed h =
    let (res, can, free) = delete_returns cmd now w w' h in
    let (u, run, resources, rows, left, notices) =
      soft_delete_resource_clears cmd now w res can free priced keyed in
    let same : w' ≡ u = same_world (sym h ∙ run) in
    subst (λ l. IsSame (calendar_of w.bookings) (calendar_of l))
      (sym (ap (λ x. x.bookings) same ∙ rows))
      (map-IsSame (λ b. b.resource_id == res.id && is_pending b.status)
        (withdrawal cmd.actor_id now) w.bookings
        (λ y hit. pending_holds_nothing y.status (ground arith)) (λ y. refl))
