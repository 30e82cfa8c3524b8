-- ===== src/UseCases/Rate.antt =====
-- create_rating.py and update_rating.py
pub mod Accepts
pub mod Unique
use venue_backend.Common.{
  ℕ, ◌+◌, ◌*◌, ◌==◌, String, Bool, not, ◌&&◌, Option, none, some, ◌++◌, if◌then◌else◌, ltb, leb,
  is_some,
}
use venue_backend.Shared.Result.{failure_many, Result, success, failed, field_errors, plain}
use venue_backend.Shared.Time.{DateTime, utc, day_us}
use venue_backend.Shared.Values.{Raw, RatingScore, create_score, ShortDescription}
use venue_backend.Bookings.{Booking, is_approved}
use venue_backend.Ratings.{Rating, create_rating_entity, update_text}
use venue_backend.Store.{
  Action, get_booking, get_rating, pure, ◌>>=◌, ◌>>◌, ask, error, some_or, ensure, lift, add_rating,
  update_rating,
}
use venue_backend.UseCases.Request.{create_note}

pub record CreateRatingCommand : Type 0 where
  pub actor_id : ℕ
  pub booking_id : ℕ
  pub score : Raw
  pub comment : Option String

pub record UpdateRatingCommand : Type 0 where
  pub actor_id : ℕ
  pub booking_id : ℕ
  pub score : Raw
  pub comment : Option String

-- The errors of the score and of the comment, reported together; the comment is built as the note of a
-- booking is.
unfoldable pub validate_rating :
    Result RatingScore
    → Result (Option ShortDescription)
    → Result (RatingScore × Option ShortDescription)
validate_rating (success score) (success comment) = success (score, comment)
validate_rating score_r note_r = failed (
    failure_many (field_errors (plain "score") score_r ++ field_errors (plain "comment") note_r)
      (some 422))

-- `booking.slot_range.end_at >= now`
abbrev pub has_not_ended : Booking → ℕ → Bool
has_not_ended booking now = leb now booking.slot_range.end_at

-- `now > booking.slot_range.end_at + timedelta(days=_RATING_WINDOW_DAYS)`
abbrev pub past_window : Booking → ℕ → Bool
past_window booking now = ltb (booking.slot_range.end_at + 90 * day_us) now

-- `CreateRatingHandler.handle`; `id` is what `uuid4()` returns.
unfoldable pub create_rating : ℕ → CreateRatingCommand → ℕ → Action Rating
create_rating id cmd now = do
  inputs ← lift (validate_rating (create_score cmd.score) (create_note cmd.comment))
  booking ← some_or (error "BookingNotFound" 404) (← ask (get_booking cmd.booking_id))
  ensure (booking.customer_id == cmd.actor_id) (error "BookingNotEligibleForRating" 422)
  ensure (is_approved booking.status) (error "BookingNotEligibleForRating" 422)
  ensure (not (has_not_ended booking now)) (error "BookingNotEligibleForRating" 422)
  ensure (not (past_window booking now)) (error "BookingNotEligibleForRating" 422)
  existing ← ask (get_rating cmd.booking_id)
  ensure (not (is_some existing)) (error "RatingAlreadyExists" 409)
  let rating =
      create_rating_entity id booking.id booking.resource_id booking.customer_id inputs.0 inputs.1
        (utc now)
  add_rating rating
  pure rating

-- `now > rating.created_at + timedelta(days=_EDIT_WINDOW_DAYS)`; the rows hold instants in UTC.
abbrev pub past_edit_window : Rating → ℕ → Bool
past_edit_window rating now = ltb (rating.created_at.wall + 7 * day_us) now

-- `UpdateRatingHandler.handle`
unfoldable pub change_rating : UpdateRatingCommand → ℕ → Action Rating
change_rating cmd now = do
  inputs ← lift (validate_rating (create_score cmd.score) (create_note cmd.comment))
  rating ← some_or (error "RatingNotFound" 404) (← ask (get_rating cmd.booking_id))
  ensure (rating.customer_id == cmd.actor_id) (error "RatingNotFound" 404)
  ensure (not (past_edit_window rating now)) (error "RatingEditWindowExpired" 403)
  let updated = update_text rating inputs.0 inputs.1 (utc now)
  update_rating updated
  pure updated
