-- ===== src/Examples/Raters.antt =====
-- The theorems about ratings, on concrete tables.
use venue_backend.Common.{◌+◌, ◌*◌, ◌≡◌, ◌≤◌, refl, none, some, Option, [], ◌∷◌, ◌++◌}
use venue_backend.Shared.Time.{pos, utc, day_us}
use venue_backend.Shared.Values.{integer, RatingScore, ShortDescription, create_score}
use venue_backend.Bookings.{Booking}
use venue_backend.Ratings.{Rating, create_rating_entity, update_text}
use venue_backend.Store.{World, done, ◌>>=◌, get_rating, replace_rating, add_rating, update_rating}
use venue_backend.UseCases.Request.{create_note}
use venue_backend.UseCases.Rate.{
  CreateRatingCommand, UpdateRatingCommand, validate_rating, create_rating, change_rating,
}
use venue_backend.UseCases.Rate.Accepts.{CanRate, create_rating_accepts, change_rating_accepts}
use venue_backend.UseCases.Rate.Unique.{AreRatings, begin, rated, one_rating_each}
use venue_backend.Examples.{at_hour, one_taken}

abbrev five : CreateRatingCommand
five = record { actor_id = 8; booking_id = 2; score = integer (pos 5); comment = none }

abbrev stars : Rating
stars = record {
  id = 1;
  booking_id = 2;
  resource_id = 5;
  customer_id = 8;
  score = record { score = 5 };
  comment = none;
  created_at = utc (at_hour 20);
  updated_at = utc (at_hour 20);
}

abbrev after_rating : World
after_rating = record one_taken { ratings = stars ∷ [] }

rating_run : create_rating 1 five (at_hour 20) one_taken ≡ done stars after_rating
unfolding create_rating ◌>>=◌ validate_rating create_score create_note create_rating_entity
    add_rating
rating_run = refl

create_rating_accepts_example :
    (b : Booking) × (score : RatingScore) × (comment : Option ShortDescription) × CanRate five
      (at_hour 20)
      one_taken
      b
      score
    × (stars
        ≡ create_rating_entity 1 b.id b.resource_id b.customer_id score comment (utc (at_hour 20)))
    × (after_rating ≡ record one_taken { ratings = [] ++ stars ∷ [] })
create_rating_accepts_example =
    create_rating_accepts 1 five (at_hour 20) one_taken after_rating stars rating_run

abbrev three : UpdateRatingCommand
three = record { actor_id = 8; booking_id = 2; score = integer (pos 3); comment = none }

abbrev fewer_stars : Rating
fewer_stars = record stars { score = record { score = 3 }; updated_at = utc (at_hour 30) }

abbrev after_change : World
after_change = record one_taken { ratings = fewer_stars ∷ [] }

change_run : change_rating three (at_hour 30) after_rating ≡ done fewer_stars after_change
unfolding change_rating ◌>>=◌ validate_rating create_score create_note update_text update_rating
change_run = refl

change_rating_accepts_example :
    (old : Rating) × (score : RatingScore) × (comment : Option ShortDescription) × (get_rating 2
        after_rating
      ≡ some old)
    × (old.customer_id ≡ 8)
    × (at_hour 30 ≤ old.created_at.wall + 7 * day_us)
    × ((1 ≤ score.score) × (score.score ≤ 5))
    × (fewer_stars ≡ record old { score = score; comment = comment; updated_at = utc (at_hour 30) })
    × (after_change
        ≡ record after_rating { ratings = replace_rating fewer_stars after_rating.ratings })
change_rating_accepts_example =
    change_rating_accepts three (at_hour 30) after_rating after_change fewer_stars change_run

none-AreRatings : AreRatings one_taken
none-AreRatings = record { single = λ x y mx my. elim mx [ ]; scores = λ x m. elim m [ ] }

one_rating_each_example : AreRatings after_rating
one_rating_each_example =
    one_rating_each {w = one_taken} {w' = after_rating} none-AreRatings
      (rated 1 five (at_hour 20) stars begin rating_run)
