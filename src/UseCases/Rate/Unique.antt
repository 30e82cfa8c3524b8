-- ===== src/UseCases/Rate/Unique.antt =====
-- However bookings are rated and ratings changed, a booking has at most one rating.
use venue_backend.Common.{
  ℕ, ◌==◌, ==_iff, ◌≡◌, ◌≢◌, ◌≤◌, sym, ap, ◌∙◌, true, false, [], ◌∷◌, ◌++◌, arith, ◌⊎◌, inl, inr,
  Member, Member-append, Member-map, Member-find, find-none,
}
use venue_backend.Ratings.{Rating, create_rating_entity}
use venue_backend.Store.{World, done}
use venue_backend.UseCases.Rate.{
  CreateRatingCommand, UpdateRatingCommand, create_rating, change_rating,
}
use venue_backend.UseCases.Rate.Accepts.{create_rating_accepts, change_rating_accepts}

-- A booking has at most one rating, and every score is from 1 to 5.
pub record AreRatings (w : World) : Type 0 where
  pub single :
      (x y : Rating)
      → Member x w.ratings
      → Member y w.ratings
      → x.id ≢ y.id
      → x.booking_id ≢ y.booking_id
  pub scores : (x : Rating) → Member x w.ratings → (1 ≤ x.score.score) × (x.score.score ≤ 5)

-- The runs that write ratings and return, of any commands at any times.
pub data Rates (w : World) : World → Type 0 where
  begin : Rates w w
  rated :
      {u v : World} (id : ℕ) (cmd : CreateRatingCommand) (now : ℕ) (r : Rating)
      → Rates w u
      → create_rating id cmd now u ≡ done r v
      → Rates w v
  changed :
      {u v : World} (cmd : UpdateRatingCommand) (now : ℕ) (r : Rating)
      → Rates w u
      → change_rating cmd now u ≡ done r v
      → Rates w v

-- Rows of which each is the row `r` or an old one, which `r` does not meet.
with_rating :
    (u v : World) (r : Rating) (Old : Rating → Type 0)
    → AreRatings u
    → ((x : Rating) → Member x v.ratings → (x ≡ r) ⊎ (Member x u.ratings × Old x))
    → ((y : Rating) → Member y u.ratings → Old y → r.booking_id ≢ y.booking_id)
    → (1 ≤ r.score.score) × (r.score.score ≤ 5)
    → AreRatings v
with_rating u v r Old all from apart score = record {
  single = λ x y mx my. pair x y (from x mx) (from y my);
  scores = λ x m. one x (from x m);
}
  where
    pair :
        (x y : Rating)
        → (x ≡ r) ⊎ (Member x u.ratings × Old x)
        → (y ≡ r) ⊎ (Member y u.ratings × Old y)
        → x.id ≢ y.id
        → x.booking_id ≢ y.booking_id
    pair x y (inl e) (inl f) d = absurd (d (ap (λ t. t.id) (e ∙ sym f)))
    pair x y (inl e) (inr old) d =
        λ same. apart y old.0 old.1 (ap (λ t. t.booking_id) (sym e) ∙ same)
    pair x y (inr old) (inl f) d =
        λ same. apart x old.0 old.1 (ap (λ t. t.booking_id) (sym f) ∙ sym same)
    pair x y (inr ox) (inr oy) d = all.single x y ox.0 oy.0 d

    one :
        (x : Rating)
        → (x ≡ r) ⊎ (Member x u.ratings × Old x)
        → (1 ≤ x.score.score) × (x.score.score ≤ 5)
    one x (inl e) = rw e score
    one x (inr old) = all.scores x old.0

create_rating-AreRatings :
    (id : ℕ) (cmd : CreateRatingCommand) (now : ℕ) (u v : World) (r : Rating)
    → AreRatings u
    → create_rating id cmd now u ≡ done r v
    → AreRatings v
unfolding create_rating_entity
create_rating-AreRatings id cmd now u v r all h =
    let (b, score, comment, can, made, left) = create_rating_accepts id cmd now u v r h in
    let rows : v.ratings ≡ u.ratings ++ r ∷ [] = ap (λ t. t.ratings) left in
    let named : (b.id == cmd.booking_id) ≡ true =
      (Member-find (λ t. t.id == cmd.booking_id) u.bookings b can.is_booking).1 in
    let of_booking : r.booking_id ≡ cmd.booking_id =
      ap (λ t. t.booking_id) made ∙ (==_iff _ _).0 named in
    with_rating u v r (λ _. Unit {0}) all (λ x m. new_or_old x (rw rows at m))
      (λ y m _ same.
        let miss = find-none (λ t. t.booking_id == cmd.booking_id) u.ratings y can.is_first m in
        ground arith)
      (rw made can.is_score)
  where
    new_or_old :
        (x : Rating) → Member x (u.ratings ++ r ∷ []) → (x ≡ r) ⊎ (Member x u.ratings × Unit {0})
    new_or_old x m = elim (Member-append u.ratings r x m) [
      | inl old ↦ inr (old, tt)
      | inr e ↦ inl e
    ]

change_rating-AreRatings :
    (cmd : UpdateRatingCommand) (now : ℕ) (u v : World) (r : Rating)
    → AreRatings u
    → change_rating cmd now u ≡ done r v
    → AreRatings v
change_rating-AreRatings cmd now u v r all h =
    let (old, score, comment, found, mine, in_time, bounds, made, left) =
      change_rating_accepts cmd now u v r h in
    let old_row = (Member-find (λ t. t.booking_id == cmd.booking_id) u.ratings old found).0 in
    let same_id : r.id ≡ old.id = ap (λ t. t.id) made in
    let same_booking : r.booking_id ≡ old.booking_id = ap (λ t. t.booking_id) made in
    with_rating u v r (λ y. (y.id == r.id) ≡ false) all
      (λ x m. Member-map (λ y. y.id == r.id) r u.ratings x (rw (ap (λ t. t.ratings) left) at m))
      (λ y m apart same. all.single old y old_row m (λ e. ground arith) (sym same_booking ∙ same))
      (rw made bounds)

-- Whatever ratings are given and changed, a booking has at most one rating and every score is from 1
-- to 5, if this held at the start.
pub one_rating_each : {w w' : World} → AreRatings w → Rates w w' → AreRatings w'
one_rating_each all begin = all
one_rating_each all (rated {u} {v} id cmd now r run h) =
    create_rating-AreRatings id cmd now u v r (one_rating_each all run) h
one_rating_each all (changed {u} {v} cmd now r run h) =
    change_rating-AreRatings cmd now u v r (one_rating_each all run) h
