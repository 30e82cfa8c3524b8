-- ===== src/Store/Returns.antt =====
-- What a run that returned has passed, one action at a time.
use venue_backend.Common.{
  ℕ, String, List, [], ◌∷◌, ◌++◌, arith, ◌≡◌, refl, Bool, true, false, not, ◌||◌, Option, none,
  some, [], ◌∷◌, ◌++◌, is_some, if◌then◌else◌,
}
use venue_backend.Shared.Result.{Failure, Result, success, failed}
use venue_backend.Bookings.{Booking}
use venue_backend.Store.Tables.{World, NotifKind, Datum, get_booking, violates, replace}
use venue_backend.Store.Runs.{
  done, fail, raised, Action, follow, some_or, ensure, lift, success_or, ◌>>=◌, ◌>>◌,
  update_booking, add_booking, ask, notify, pure, meanwhile,
}

passed_if :
    {B : Type 0} {b : B} {w' : World} (c : Bool) (u : World) (k : Action B)
    → follow (if c then raised else done (tt {0}) u) (λ _. k) ≡ done b w'
    → (c ≡ false) × (k u ≡ done b w')
passed_if true u k h = cc
passed_if false u k h = (refl, h)

written_if :
    {B : Type 0} {b : B} {w' : World} (c d : Bool) (e : Failure) (v u : World) (k : Action B)
    → follow (if c then fail e v else if d then raised else done (tt {0}) u) (λ _. k) ≡ done b w'
    → (c ≡ false) × (d ≡ false) × (k u ≡ done b w')
written_if true d e v u k h = cc
written_if false true e v u k h = cc
written_if false false e v u k h = (refl, refl, h)

module _ {B : Type 0} {b : B} (w : World) {w' : World} where
  pub ensure_then :
      (c : Bool) (e : Failure) (k : Action B)
      → (ensure c e >> k) w ≡ done b w'
      → (c ≡ true) × (k w ≡ done b w')
  unfolding ◌>>=◌
  ensure_then true e k h = (refl, h)
  ensure_then false e k h = cc

  pub some_or_then :
      {A : Type 0} (e : Failure) (o : Option A) (f : A → Action B)
      → (some_or e o >>= f) w ≡ done b w'
      → (a : A) × (o ≡ some a) × (f a w ≡ done b w')
  unfolding ◌>>=◌
  some_or_then e none f h = cc
  some_or_then e (some a) f h = (a, refl, h)

  pub lift_then :
      {A : Type 0} (r : Result A) (f : A → Action B)
      → (lift r >>= f) w ≡ done b w'
      → (a : A) × (r ≡ success a) × (f a w ≡ done b w')
  unfolding ◌>>=◌
  lift_then (success a) f h = (a, refl, h)
  lift_then (failed e) f h = cc

  pub success_or_then :
      {A : Type 0} (e : Failure) (r : Result A) (f : A → Action B)
      → (success_or e r >>= f) w ≡ done b w'
      → (a : A) × (r ≡ success a) × (f a w ≡ done b w')
  unfolding ◌>>=◌
  success_or_then e (success a) f h = (a, refl, h)
  success_or_then e (failed x) f h = cc

  pub add_then :
      (x : Booking) (k : Action B)
      → (add_booking x >> k) w ≡ done b w'
      → ((not (is_some x.total_price_cents)
            || is_some (get_booking x.id w)
            || violates x w.bookings)
          ≡ false)
        × (k (record w { bookings = w.bookings ++ x ∷ [] }) ≡ done b w')
  unfolding ◌>>=◌ add_booking
  add_then x k h = passed_if _ _ k h

  -- An update that was followed by the rest of its run has found its row and the constraint satisfied.
  pub update_then :
      (x : Booking) (k : Action B)
      → (update_booking x >> k) w ≡ done b w'
      → (not (is_some (get_booking x.id w)) ≡ false)
        × ((not (is_some x.total_price_cents) || violates x w.bookings) ≡ false)
        × (k (record w { bookings = replace x w.bookings }) ≡ done b w')
  unfolding ◌>>=◌ update_booking
  update_then x k h = written_if _ _ _ w _ k h

  -- What a query has found is what the rest of the run goes on with.
  pub ask_then :
      {A : Type 0} (q : World → A) (f : A → Action B)
      → (ask q >>= f) w ≡ done b w'
      → f (q w) w ≡ done b w'
  unfolding ◌>>=◌
  ask_then q f h = h

  -- A run that ends with a notification and its value.
  pub notify_last :
      (recipient_id : ℕ) (kind : NotifKind) (payload : List (String × Datum)) (x : B)
      → (notify recipient_id kind payload >> pure x) w ≡ done b w'
      → (b ≡ x)
        × (w' ≡ record w {
          notices =
              w.notices
              ++ record { recipient_id = recipient_id; kind = kind; payload = payload } ∷ [];
        })
  unfolding ◌>>=◌ notify
  notify_last recipient_id kind payload x h = ground arith

  pub meanwhile_then :
      (f : World → World) (k : Action B) → (meanwhile f >> k) w ≡ done b w' → k (f w) ≡ done b w'
  unfolding ◌>>=◌
  meanwhile_then f k h = h
