-- ===== src/UseCases/Approve/Conflict.antt =====
-- An approval that overlaps a booking that is approved already.
use venue_backend.Common.{
  ℕ, ◌==◌, ◌≡◌, ◌≢◌, refl, ap, ◌∙◌, Bool, true, none, some, arith, inl, inr, List, [], ◌∷◌, any,
  is_some,
}
use venue_backend.Shared.Values.{overlaps}
use venue_backend.Bookings.{Booking, owner, approved, is_pending, is_approved}
use venue_backend.Bookings.Lifecycle.{transition_succeeds}
use venue_backend.Resources.Entity.{Resource}
use venue_backend.Store.{World, raised, ◌>>=◌, get_booking, violates, excludes}
use venue_backend.Store.Equations.{bind_done, meanwhile_lem, update_refused}
use venue_backend.Store.Rows.{IsRow, IsRow-find, row_found}
use venue_backend.UseCases.Approve.{ApproveBookingCommand, approve_locked, approve_booking}
use venue_backend.UseCases.Approve.Settles.{approval, leaves_pending}
use venue_backend.UseCases.Approve.Outcome.{CanApprove, approvable_passes}

row-any :
    (p : Booking → Bool) (rows : List Booking) (x : Booking)
    → IsRow x rows
    → p x ≡ true
    → any p rows ≡ true
row-any p [] x m h = elim m [ ]
row-any p (y ∷ rows) x (inl e) h = let here : p y ≡ true = ap p e ∙ h in rw here
row-any p (y ∷ rows) x (inr m) h = ground (arith, row-any p rows x m h)

locked_raises :
    (cmd : ApproveBookingCommand) (now : ℕ) (resource : Resource) (v : World) (t : Booking)
    → get_booking cmd.booking_id v ≡ some t
    → is_pending t.status ≡ true
    → is_some (get_booking t.id v) ≡ true
    → violates (approval cmd now t) v.bookings ≡ true
    → approve_locked cmd now resource v ≡ raised
unfolding approve_locked ◌>>=◌
locked_raises cmd now resource v t e p row stop = rw e (
    rw p (
      rw
        (transition_succeeds t approved cmd.actor_id owner now none (leaves_pending t.status p).1
          refl)
        (rw (update_refused (approval cmd now t) v row stop))))

-- Where an approved booking of the same resource overlaps the pending one, the approval raises: the
-- handler looks for pending competitors only, and the constraint of the table stops its update. This
-- holds whatever other transactions did until the lock was acquired.
pub approve_conflict_raises :
    (wait : World → World) (cmd : ApproveBookingCommand) (now : ℕ) (w : World) (resource : Resource)
    (t taken : Booking)
    → CanApprove cmd w resource
    → get_booking cmd.booking_id (wait w) ≡ some t
    → is_pending t.status ≡ true
    → IsRow taken (wait w).bookings
    → taken.id ≢ t.id
    → taken.resource_id ≡ t.resource_id
    → is_approved taken.status ≡ true
    → overlaps t.slot_range taken.slot_range ≡ true
    → approve_booking wait cmd now w ≡ raised
unfolding approve_booking
approve_conflict_raises wait cmd now w resource t taken c e p m ne same_resource is_taken meets =
    let v = wait w in
    let row = IsRow-find (λ b. b.id == cmd.booking_id) v.bookings t e in
    let hit : excludes (approval cmd now t) taken ≡ true = ground arith in
    let stop : violates (approval cmd now t) v.bookings ≡ true =
      row-any (excludes (approval cmd now t)) v.bookings taken m hit in
    bind_done _ _ w resource w (approvable_passes cmd w resource c)
    ∙ bind_done _ _ w tt v (meanwhile_lem wait w)
    ∙ locked_raises cmd now resource v t e p (row_found v.bookings t row.0) stop
