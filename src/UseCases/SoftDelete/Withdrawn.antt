-- ===== src/UseCases/SoftDelete/Withdrawn.antt =====
-- The pending bookings of a resource as its deletion leaves them.
use mathlib.Core.List.{append-nil, append_assoc}
use venue_backend.Common.{ℕ, ◌≡◌, refl, ap, ◌∙◌, true, some, List, [], ◌∷◌, ◌++◌, arith, All, map}
use venue_backend.Shared.Time.{utc}
use venue_backend.Bookings.{
  Booking, owner, BookingStatus, cancelled, is_pending, is_valid_transition, cancel,
}
use venue_backend.Bookings.Lifecycle.{moved, transition_succeeds}
use venue_backend.Store.{
  World, Notice, ident, words, booking_cancelled, done, pure, ◌>>=◌, notify, replace,
}
use venue_backend.Store.Equations.{bind_done, update_passes}
use venue_backend.Store.Writes.{rewritten, CanDecide, CanDecide-replace}
use venue_backend.UseCases.SoftDelete.{
  cancelled_or_skipped, save_cancelled, cancel_all, notify_cancelled,
}

-- The booking as the deletion of its resource leaves it: CANCELLED, with the change in its history.
abbrev pub withdrawal : ℕ → ℕ → Booking → Booking
withdrawal actor_id now b = moved b cancelled actor_id owner (utc now) (some "resource_deleted")

abbrev pub withdrawal_notices : ℕ → List Booking → List Notice
withdrawal_notices resource_id [] = []
withdrawal_notices resource_id (b ∷ l) =
    record {
      recipient_id = b.customer_id;
      kind = booking_cancelled;
      payload =
          ("booking_id", ident b.id)
          ∷ ("resource_id", ident resource_id)
          ∷ ("cancelled_by", words "owner")
          ∷ ("reason", words "resource_deleted")
          ∷ [];
    }
    ∷ withdrawal_notices resource_id l

pub cancels_pending :
    (s : BookingStatus) → is_pending s ≡ true → is_valid_transition s cancelled ≡ true
unfolding is_valid_transition
cancels_pending s h = ground arith

module _ (actor_id now : ℕ) where
  cancel_pending :
      (b : Booking)
      → is_pending b.status ≡ true
      → cancelled_or_skipped save_cancelled
          (cancel b actor_id owner (utc now) (some "resource_deleted"))
        ≡ save_cancelled (withdrawal actor_id now b)
  cancel_pending b h = ap (cancelled_or_skipped save_cancelled) (
      transition_succeeds b cancelled actor_id owner now (some "resource_deleted")
        (cancels_pending b.status h) refl)

  save_cancelled_passes :
      (b : Booking) (w : World)
      → CanDecide w.bookings b
      → save_cancelled (withdrawal actor_id now b) w
        ≡ done
            (withdrawal actor_id now b ∷ [])
            (record w { bookings = replace (withdrawal actor_id now b) w.bookings })
  unfolding save_cancelled ◌>>=◌
  save_cancelled_passes b w h = rw (update_passes (withdrawal actor_id now b) w h.2 h.1 refl) refl

  pub cancel_all_settles :
      (l : List Booking) (w : World)
      → All (CanDecide w.bookings) l
      → cancel_all actor_id now l w
        ≡ done
            (map (withdrawal actor_id now) l)
            (record w { bookings = rewritten (withdrawal actor_id now) l w.bookings })
  unfolding cancel_all pure
  cancel_all_settles [] w h = refl
  cancel_all_settles (b ∷ l) w h = rw (cancel_pending b h.0.0) (
      bind_done _ _ w _ _ (save_cancelled_passes b w h.0)
      ∙ bind_done _ _ _ _ _ (cancel_all_settles l _ (CanDecide-replace _ w.bookings l h.1)))

pub notify_cancelled_settles :
    (resource_id : ℕ) (l : List Booking) (w : World)
    → notify_cancelled resource_id l w
      ≡ done tt (record w { notices = w.notices ++ withdrawal_notices resource_id l })
unfolding notify_cancelled ◌>>=◌ notify
notify_cancelled_settles resource_id [] w = rw append-nil
notify_cancelled_settles resource_id (b ∷ l) w =
    notify_cancelled_settles resource_id l _ ∙ rw append_assoc
