-- ===== src/Ratings.antt =====
-- rating.py of app/domain/ratings
use venue_backend.Common.{ℕ, Option}
use venue_backend.Shared.Time.{DateTime}
use venue_backend.Shared.Values.{RatingScore, ShortDescription}

pub record Rating : Type 0 where
  pub id : ℕ
  pub booking_id : ℕ
  pub resource_id : ℕ
  pub customer_id : ℕ
  pub score : RatingScore
  pub comment : Option ShortDescription
  pub created_at : DateTime
  pub updated_at : DateTime

-- `Rating.create`; `id` is what `uuid4()` returns.
unfoldable pub create_rating_entity :
    ℕ → ℕ → ℕ → ℕ → RatingScore → Option ShortDescription → DateTime → Rating
create_rating_entity id booking_id resource_id customer_id score comment now = record {
  id = id;
  booking_id = booking_id;
  resource_id = resource_id;
  customer_id = customer_id;
  score = score;
  comment = comment;
  created_at = now;
  updated_at = now;
}

-- `update_text`
unfoldable pub update_text : Rating → RatingScore → Option ShortDescription → DateTime → Rating
update_text r score comment now = record r { score = score; comment = comment; updated_at = now }
