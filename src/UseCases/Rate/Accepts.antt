-- ===== src/UseCases/Rate/Accepts.antt =====
-- Who may rate a booking, and when.
use venue_backend.Common.{
  ℕ, ◌+◌, ◌*◌, ◌==◌, ◌≡◌, ◌<◌, ◌≤◌, refl, Bool, true, false, not, none, some, Option, [], ◌∷◌, ◌++◌,
  arith, is_some, any, if◌then◌else◌,
}
use venue_backend.Shared.Result.{Failure, Result, success}
use venue_backend.Shared.Time.{utc, day_us}
use venue_backend.Shared.Values.{Raw, RatingScore, create_score, ShortDescription}
use venue_backend.Bookings.{Booking, is_approved}
use venue_backend.Ratings.{Rating, create_rating_entity, update_text}
use venue_backend.Store.{
  World, done, fail, pure, ◌>>=◌, ◌>>◌, get_booking, get_rating, same_rating, replace_rating,
  add_rating, update_rating, follow,
}
use venue_backend.Store.Returns.{ensure_then, some_or_then, lift_then, ask_then}
use venue_backend.UseCases.Rate.{
  CreateRatingCommand, UpdateRatingCommand, validate_rating, create_rating, change_rating,
}

passed :
    (c : Bool) (e : Failure) (v u : World) (x : Rating) {r : Rating} {w' : World}
    → follow (if c then fail e v else done (tt {0}) u) (λ _. pure x) ≡ done r w'
    → (c ≡ false) × (r ≡ x) × (w' ≡ u)
unfolding pure
passed true e v u x h = cc
passed false e v u x h = ground arith

add_last :
    (x : Rating) (w : World) {r : Rating} {w' : World}
    → (add_rating x >> pure x) w ≡ done r w'
    → (any (same_rating x) w.ratings ≡ false)
      × (r ≡ x)
      × (w' ≡ record w { ratings = w.ratings ++ x ∷ [] })
unfolding ◌>>=◌ add_rating
add_last x w h = passed (any (same_rating x) w.ratings) _ w _ x h

update_last :
    (x : Rating) (w : World) {r : Rating} {w' : World}
    → (update_rating x >> pure x) w ≡ done r w'
    → (r ≡ x) × (w' ≡ record w { ratings = replace_rating x w.ratings })
unfolding ◌>>=◌ update_rating
update_last x w h =
    let (there, same, left) = passed (not (any (λ y. y.id == x.id) w.ratings)) _ w _ x h in
    (same, left)

scored :
    (r : Result RatingScore) (n : Result (Option ShortDescription)) {score : RatingScore}
    {comment : Option ShortDescription}
    → validate_rating r n ≡ success (score, comment)
    → r ≡ success score
unfolding validate_rating
scored r n h = ground arith

score_bounds :
    (raw : Raw) {score : RatingScore}
    → create_score raw ≡ success score
    → (1 ≤ score.score) × (score.score ≤ 5)
unfolding create_score
score_bounds raw h = ground arith

-- What the checks of a new rating have found.
pub record CanRate (cmd : CreateRatingCommand) (now : ℕ) (w : World) (b : Booking)
    (score : RatingScore) : Type 0 where
  pub is_booking : get_booking cmd.booking_id w ≡ some b
  pub is_customer : b.customer_id ≡ cmd.actor_id
  pub was_approved : is_approved b.status ≡ true
  pub has_ended : b.slot_range.end_at < now
  pub is_in_time : now ≤ b.slot_range.end_at + 90 * day_us
  pub is_first : get_rating cmd.booking_id w ≡ none
  pub is_score : (1 ≤ score.score) × (score.score ≤ 5)

none_of : (o : Option Rating) → not (is_some o) ≡ true → o ≡ none
none_of none h = refl
none_of (some r) h = cc

-- A rating is accepted only from the customer of a booking that is approved and has ended, no later than
-- 90 days after its end, with a score from 1 to 5, and only if the booking has no rating; it is then
-- appended to the table, and no other table is written.
pub create_rating_accepts :
    (id : ℕ) (cmd : CreateRatingCommand) (now : ℕ) (w w' : World) (r : Rating)
    → create_rating id cmd now w ≡ done r w'
    → (b : Booking) × (score : RatingScore) × (comment : Option ShortDescription) × CanRate cmd now
        w b score
      × (r ≡ create_rating_entity id b.id b.resource_id b.customer_id score comment (utc now))
      × (w' ≡ record w { ratings = w.ratings ++ r ∷ [] })
unfolding create_rating
create_rating_accepts id cmd now w w' r h =
    let (inputs, valid, h1) = lift_then w _ _ h in
    let (b, found, h2) = some_or_then w _ _ _ (ask_then w _ _ h1) in
    let (mine, h3) = ensure_then w _ _ _ h2 in
    let (ok, h4) = ensure_then w _ _ _ h3 in
    let (ended, h5) = ensure_then w _ _ _ h4 in
    let (in_time, h6) = ensure_then w _ _ _ h5 in
    let (first, h7) = ensure_then w _ _ _ (ask_then w _ _ h6) in
    let (unique, same, left) = add_last _ w h7 in
    (
      b,
      inputs.0,
      inputs.1,
      record {
        is_booking = found;
        is_customer = ground arith;
        was_approved = ok;
        has_ended = ground arith;
        is_in_time = ground arith;
        is_first = none_of (get_rating cmd.booking_id w) first;
        is_score = score_bounds cmd.score (scored _ _ valid);
      },
      same,
      appended w w' r _ same left,
    )
  where
    appended :
        (w w' : World) (r x : Rating)
        → r ≡ x
        → w' ≡ record w { ratings = w.ratings ++ x ∷ [] }
        → w' ≡ record w { ratings = w.ratings ++ r ∷ [] }
    appended w w' r x same left = rw (left, same) refl

-- A rating is changed only by the customer who gave it, no later than 7 days after it was given; the
-- score, the comment and the time of the update are new, all else is as it was.
pub change_rating_accepts :
    (cmd : UpdateRatingCommand) (now : ℕ) (w w' : World) (r : Rating)
    → change_rating cmd now w ≡ done r w'
    → (old : Rating) × (score : RatingScore) × (comment : Option ShortDescription) × (get_rating
          cmd.booking_id w
        ≡ some old)
      × (old.customer_id ≡ cmd.actor_id)
      × (now ≤ old.created_at.wall + 7 * day_us)
      × ((1 ≤ score.score) × (score.score ≤ 5))
      × (r ≡ record old { score = score; comment = comment; updated_at = utc now })
      × (w' ≡ record w { ratings = replace_rating r w.ratings })
unfolding change_rating update_text
change_rating_accepts cmd now w w' r h =
    let (inputs, valid, h1) = lift_then w _ _ h in
    let (old, found, h2) = some_or_then w _ _ _ (ask_then w _ _ h1) in
    let (mine, h3) = ensure_then w _ _ _ h2 in
    let (in_time, h4) = ensure_then w _ _ _ h3 in
    let (same, left) = update_last _ w h4 in
    (
      old,
      inputs.0,
      inputs.1,
      found,
      ground arith,
      ground arith,
      score_bounds cmd.score (scored _ _ valid),
      same,
      replaced w w' r _ same left,
    )
  where
    replaced :
        (w w' : World) (r x : Rating)
        → r ≡ x
        → w' ≡ record w { ratings = replace_rating x w.ratings }
        → w' ≡ record w { ratings = replace_rating r w.ratings }
    replaced w w' r x same left = rw (left, same) refl
