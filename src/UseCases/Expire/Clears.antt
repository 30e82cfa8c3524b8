-- ===== src/UseCases/Expire/Clears.antt =====
-- What the expiry of the pending bookings leaves.
use mathlib.Core.List.{append-nil, append_assoc}
use native.Mathlib.Nat.{add-zero, zero-add}
use venue_backend.Common.{
  ℕ, suc, ◌+◌, ◌≡◌, refl, ap, ◌∙◌, Bool, true, false, ◌&&◌, some, List, [], ◌∷◌, ◌++◌, arith, ltb,
  length, All, select, inl, inr, map, if◌then◌else◌, AreKeyed,
}
use venue_backend.Shared.Time.{utc}
use venue_backend.Bookings.{
  Booking, customer, BookingStatus, expired, is_pending, is_valid_transition, expire,
}
use venue_backend.Bookings.Lifecycle.{moved, transition_succeeds}
use venue_backend.Store.{
  World, Notice, ident, words, booking_rejected, done, pure, ◌>>=◌, notify, replace,
  list_pending_with_start_before,
}
use venue_backend.Store.Equations.{bind_done, update_passes}
use venue_backend.Store.Rows.{IsRow}
use venue_backend.Store.Writes.{
  rewritten, rewritten-select, rewritten-map, CanDecide, CanDecide-replace, ArePriced,
  select-CanDecide,
}
use venue_backend.UseCases.Expire.{
  save_expired, expired_or_skipped, expire_all, expire_pending_bookings,
}

-- The booking as the expiry leaves it: EXPIRED, with the change in its history.
abbrev pub expiry : ℕ → Booking → Booking
expiry now b =
    moved b expired b.customer_id customer (utc now) (some "slot_start_passed_with_no_decision")

abbrev pub expiry_notices : List Booking → List Notice
expiry_notices [] = []
expiry_notices (b ∷ l) =
    record {
      recipient_id = b.customer_id;
      kind = booking_rejected;
      payload =
          ("booking_id", ident b.id)
          ∷ ("resource_id", ident b.resource_id)
          ∷ ("reason", words "slot_start_passed_with_no_decision")
          ∷ [];
    }
    ∷ expiry_notices l

-- A pending booking whose start has passed.
abbrev pub is_stale : ℕ → Booking → Bool
is_stale now b = is_pending b.status && ltb b.slot_range.start_at now

expires_pending : (s : BookingStatus) → is_pending s ≡ true → is_valid_transition s expired ≡ true
unfolding is_valid_transition
expires_pending s h = ground arith

expire_pending :
    (now : ℕ) (b : Booking)
    → is_pending b.status ≡ true
    → expired_or_skipped (expire b (utc now)) ≡ save_expired (expiry now b)
expire_pending now b h = ap expired_or_skipped (
    transition_succeeds b expired b.customer_id customer now
      (some "slot_start_passed_with_no_decision") (expires_pending b.status h) refl)

save_expired_passes :
    (now : ℕ) (b : Booking) (w : World)
    → CanDecide w.bookings b
    → save_expired (expiry now b) w
      ≡ done 1 (record w {
        bookings = replace (expiry now b) w.bookings;
        notices = w.notices ++ expiry_notices (b ∷ []);
      })
unfolding save_expired ◌>>=◌ notify
save_expired_passes now b w h = rw (update_passes (expiry now b) w h.2 h.1 refl) refl

one_more : (count n : ℕ) → count + 1 + n ≡ count + suc n
one_more count n = omega arith

expire_all_settles :
    (now count : ℕ) (l : List Booking) (w : World)
    → All (CanDecide w.bookings) l
    → expire_all now count l w
      ≡ done (count + length l) (record w {
        bookings = rewritten (expiry now) l w.bookings;
        notices = w.notices ++ expiry_notices l;
      })
unfolding expire_all pure
expire_all_settles now count [] w h = rw (append-nil, add-zero) refl
expire_all_settles now count (b ∷ l) w h = rw (expire_pending now b h.0.0) (
    bind_done _ _ w 1 _ (save_expired_passes now b w h.0)
    ∙ expire_all_settles now (count + 1) l _ (CanDecide-replace _ w.bookings l h.1)
    ∙ rw (append_assoc, one_more count (length l)) refl)

-- Where every row has a price, as its column demands, and the ids of the rows are distinct, the
-- expiry returns: it counts every pending booking whose start has passed; the table is the old one
-- with each of these rows, and no other, changed to EXPIRED with the change in its history; no
-- pending booking whose start has passed is left, and each of their customers is notified.
pub expire_pending_bookings_clears :
    (now : ℕ) (w : World)
    → ArePriced w.bookings
    → AreKeyed (λ b. b.id) w.bookings
    → let stale = list_pending_with_start_before now w in
      (w' : World) × (expire_pending_bookings now w ≡ done (length stale) w')
      × (w'.bookings ≡ map (λ b. if is_stale now b then expiry now b else b) w.bookings)
      × ((x : Booking) → IsRow x w'.bookings → is_stale now x ≡ false)
      × (w'.notices ≡ w.notices ++ expiry_notices stale)
unfolding expire_pending_bookings ◌>>=◌
expire_pending_bookings_clears now w priced keyed =
    let stale = list_pending_with_start_before now w in
    let can =
      select-CanDecide (is_stale now) w.bookings w.bookings (pending_of now) priced (λ b m. m) in
    let after : World = record w {
      bookings = rewritten (expiry now) stale w.bookings;
      notices = w.notices ++ expiry_notices stale;
    } in
    (
      after,
      expire_all_settles now 0 stale w can ∙ ap (λ n. done n after) (zero-add (length stale)),
      rewritten-map (expiry now) (λ c. refl) (is_stale now) w.bookings keyed,
      left now w.bookings,
      refl,
    )
  where
    pending_of : (now : ℕ) (b : Booking) → is_stale now b ≡ true → is_pending b.status ≡ true
    pending_of now b h = ground arith

    left :
        (now : ℕ) (rows : List Booking) (x : Booking)
        → IsRow x (rewritten (expiry now) (select (is_stale now) rows) rows)
        → is_stale now x ≡ false
    left now rows x m = elim (rewritten-select (expiry now) (λ c. refl) (is_stale now) rows x m) [
      | inl (c, at, hit, e) ↦ rw e refl
      | inr (old, miss) ↦ miss
    ]
