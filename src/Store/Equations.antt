-- ===== src/Store/Equations.antt =====
-- How a run goes on, and when an update passes.
use venue_backend.Common.{◌≡◌, refl, Bool, true, false, not, ◌||◌, is_some, if◌then◌else◌}
use venue_backend.Shared.Result.{Failure}
use venue_backend.Bookings.{Booking}
use venue_backend.Store.Tables.{World, get_booking, violates, replace}
use venue_backend.Store.Runs.{
  Outcome, done, fail, raised, Action, follow, meanwhile, ◌>>=◌, update_booking,
}

module _ {A B : Type 0} (m : Action A) (f : A → Action B) (w : World) where
  pub bind_done : (a : A) (u : World) → m w ≡ done a u → (m >>= f) w ≡ f a u
  unfolding ◌>>=◌
  bind_done a u h = rw h

  pub bind_fail : (e : Failure) (u : World) → m w ≡ fail e u → (m >>= f) w ≡ fail e u
  unfolding ◌>>=◌
  bind_fail e u h = rw h

  pub bind_raised : m w ≡ raised → (m >>= f) w ≡ raised
  unfolding ◌>>=◌
  bind_raised h = rw h

follow-eq-done :
    {A B : Type 0} (o : Outcome A) (f : A → Action B) {b : B} {w' : World}
    → follow o f ≡ done b w'
    → (a : A) × (u : World) × (o ≡ done a u) × (f a u ≡ done b w')
follow-eq-done (done a u) f h = (a, u, refl, h)
follow-eq-done (fail e u) f h = cc
follow-eq-done raised f h = cc

-- A run that returns has returned from its first part.
pub >>=-eq-done :
    {A B : Type 0} (m : Action A) (f : A → Action B) (w : World) {b : B} {w' : World}
    → (m >>= f) w ≡ done b w'
    → (a : A) × (u : World) × (m w ≡ done a u) × (f a u ≡ done b w')
unfolding ◌>>=◌
>>=-eq-done m f w h = follow-eq-done (m w) f h

pub update_passes :
    (b : Booking) (w : World)
    → is_some (get_booking b.id w) ≡ true
    → is_some b.total_price_cents ≡ true
    → violates b w.bookings ≡ false
    → update_booking b w ≡ done tt (record w { bookings = replace b w.bookings })
unfolding update_booking
update_passes b w h p v = rw (h, p, v)

pub update_refused :
    (b : Booking) (w : World)
    → is_some (get_booking b.id w) ≡ true
    → violates b w.bookings ≡ true
    → update_booking b w ≡ raised
unfolding update_booking
update_refused b w h v = rw (h, v) (either (not (is_some b.total_price_cents)))
  where
    either :
        (c : Bool)
        → (if c || true then raised else done tt (record w { bookings = replace b w.bookings }))
          ≡ raised
    either true = refl
    either false = refl

pub meanwhile_lem : (f : World → World) (w : World) → meanwhile f w ≡ done tt (f w)
unfolding meanwhile
meanwhile_lem f w = refl
