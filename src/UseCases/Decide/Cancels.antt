-- ===== src/UseCases/Decide/Cancels.antt =====
-- Who may cancel a booking, and until when.
use venue_backend.Common.{
  ◌∙◌, ℕ, ◌+◌, ◌*◌, ◌==◌, ◌≡◌, ◌≢◌, ◌<◌, ◌≤◌, ◌⊎◌, inl, inr, refl, true, false, not, ◌&&◌, ◌||◌,
  some, [], ◌∷◌, ◌++◌, arith, Bool-cases, if◌then◌else◌,
}
use venue_backend.Shared.Time.{utc, hour_us}
use venue_backend.Bookings.{Booking, cancelled, is_active, is_valid_transition, BookingStatus}
use venue_backend.Bookings.Lifecycle.{moved, transition-eq-success}
use venue_backend.Resources.Entity.{Resource}
use venue_backend.Store.{
  World, Notice, ident, words, booking_cancelled, done, fail, ◌>>=◌, get_booking, get_resource,
  replace, error,
}
use venue_backend.Store.Returns.{
  ensure_then, some_or_then, success_or_then, update_then, ask_then, notify_last, meanwhile_then,
}
use venue_backend.UseCases.Decide.{
  CancelBookingCommand, cancel_booking, role_of, role_words, past_cutoff,
}

-- What the checks of a cancellation have found.
pub record CanCancel (cmd : CancelBookingCommand) (checked : ℕ) (w : World) (resource : Resource)
    (b : Booking) : Type 0 where
  pub is_booking : get_booking cmd.booking_id w ≡ some b
  pub is_resource : get_resource b.resource_id w ≡ some resource
  -- The actor owns the resource, or is the customer and is in time.
  pub is_allowed :
      (resource.owner_id ≡ cmd.actor_id)
      ⊎ ((b.customer_id ≡ cmd.actor_id)
          × (checked + resource.customer_cancellation_cutoff_hours.hours * hour_us
              < b.slot_range.start_at))
  pub is_open : is_active b.status ≡ true

-- The booking that a cancellation makes of the one that it has read.
abbrev pub cancellation : CancelBookingCommand → ℕ → Resource → Booking → Booking
cancellation cmd now resource b =
    moved b cancelled cmd.actor_id (role_of (resource.owner_id == cmd.actor_id)) (utc now)
      cmd.reason

abbrev pub cancellation_notice : CancelBookingCommand → Resource → Booking → Notice
cancellation_notice cmd resource b = record {
  recipient_id = (if b.customer_id == cmd.actor_id then resource.owner_id else b.customer_id);
  kind = booking_cancelled;
  payload =
      ("booking_id", ident b.id)
      ∷ ("resource_id", ident resource.id)
      ∷ ("cancelled_by", words (role_words (resource.owner_id == cmd.actor_id)))
      ∷ [];
}

allowed :
    (resource : Resource) (b : Booking) (actor_id checked : ℕ)
    → ((b.customer_id == actor_id) || (resource.owner_id == actor_id)) ≡ true
    → not (
        (b.customer_id == actor_id)
        && (not (resource.owner_id == actor_id) && past_cutoff resource b checked))
      ≡ true
    → (resource.owner_id ≡ actor_id)
      ⊎ ((b.customer_id ≡ actor_id)
          × (checked + resource.customer_cancellation_cutoff_hours.hours * hour_us
              < b.slot_range.start_at))
allowed resource b actor_id checked either in_time =
    elim (Bool-cases (resource.owner_id == actor_id)) [
      | inl mine ↦ inl ((ground arith))
      | inr other ↦ inr (ground arith)
    ]

cancellable : (s : BookingStatus) → is_valid_transition s cancelled ≡ true → is_active s ≡ true
unfolding is_valid_transition
cancellable s h = ground arith

written :
    (cmd : CancelBookingCommand) (now : ℕ) (resource : Resource) (b x b' : Booking) (u w' : World)
    → x ≡ cancellation cmd now resource b
    → b' ≡ x
    → w' ≡ record u {
      bookings = replace x u.bookings;
      notices =
          u.notices
          ++ record (cancellation_notice cmd resource b) {
            payload =
                ("booking_id", ident x.id)
                ∷ ("resource_id", ident resource.id)
                ∷ ("cancelled_by", words (role_words (resource.owner_id == cmd.actor_id)))
                ∷ [];
          }
            ∷ [];
    }
    → (b' ≡ cancellation cmd now resource b)
      × (w'.bookings ≡ replace b' u.bookings)
      × (w'.notices ≡ u.notices ++ cancellation_notice cmd resource b ∷ [])
written cmd now resource b x b' u w' made same left =
    (same ∙ made, rw (left, same), rw (left, made))

-- A cancellation is accepted only from the owner of the resource, or from the customer while the start
-- of the booking is further away than the cutoff of the resource; and only if the booking was read as
-- pending or approved. It then writes the row that it makes of that reading, changes no other row, and
-- notifies the other side.
pub cancel_booking_accepts :
    (wait : World → World) (cmd : CancelBookingCommand) (checked now : ℕ) (w w' : World)
    (b' : Booking)
    → cancel_booking wait cmd checked now w ≡ done b' w'
    → (resource : Resource) × (b : Booking) × CanCancel cmd checked w resource b
      × (b' ≡ cancellation cmd now resource b)
      × (w'.bookings ≡ replace b' (wait w).bookings)
      × (w'.notices ≡ (wait w).notices ++ cancellation_notice cmd resource b ∷ [])
unfolding cancel_booking
cancel_booking_accepts wait cmd checked now w w' b' h =
    let (b, found, h1) = some_or_then w _ _ _ (ask_then w _ _ h) in
    let (resource, found_resource, h2) = some_or_then w _ _ _ (ask_then w _ _ h1) in
    let (either, h3) = ensure_then w _ _ _ h2 in
    let (in_time, h4) = ensure_then w _ _ _ h3 in
    let (after, ok, h5) = success_or_then w _ _ _ h4 in
    let (row, stored, h6) = update_then (wait w) _ _ (meanwhile_then w _ _ h5) in
    let (same, left) = notify_last _ _ _ _ _ h6 in
    let (valid, made) = transition-eq-success b cancelled cmd.actor_id _ (utc now) cmd.reason ok in
    let (new, rows, notices) = written cmd now resource b after b' (wait w) w' made same left in
    (
      resource,
      b,
      record {
        is_booking = found;
        is_resource = found_resource;
        is_allowed = allowed resource b cmd.actor_id checked either in_time;
        is_open = cancellable b.status valid;
      },
      new,
      rows,
      notices,
    )

-- A customer who does not own the resource, and asks when the start of the booking is no further away
-- than the cutoff, is refused with the status 403, and nothing is written.
pub cancel_past_cutoff :
    (wait : World → World) (cmd : CancelBookingCommand) (checked now : ℕ) (w : World)
    (resource : Resource) (b : Booking)
    → get_booking cmd.booking_id w ≡ some b
    → get_resource b.resource_id w ≡ some resource
    → b.customer_id ≡ cmd.actor_id
    → resource.owner_id ≢ cmd.actor_id
    → b.slot_range.start_at ≤ checked + resource.customer_cancellation_cutoff_hours.hours * hour_us
    → cancel_booking wait cmd checked now w ≡ fail (error "BookingCancellationPastCutoff" 403) w
unfolding cancel_booking ◌>>=◌
cancel_past_cutoff wait cmd checked now w resource b e r c o late =
    let mine : (b.customer_id == cmd.actor_id) ≡ true = ground arith in
    let other : (resource.owner_id == cmd.actor_id) ≡ false = ground arith in
    let passed : past_cutoff resource b checked ≡ true = ground arith in
    rw e (rw r (rw mine (rw other (rw passed refl))))
