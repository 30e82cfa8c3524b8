-- ===== src/UseCases/Distinct/Sweeps.antt =====
-- Expiring bookings and deleting a resource keep the active bookings of a customer apart.
use venue_backend.Common.{ℕ, ◌+◌, ◌≡◌, refl, some, false, List, [], ◌∷◌}
use venue_backend.Shared.Result.{Result, success, failed}
use venue_backend.Shared.Time.{utc}
use venue_backend.Bookings.{Booking, owner, customer, cancelled, expired, cancel, expire, is_active}
use venue_backend.Store.Keeps.{
  Keeps, Keeps-pure, Keeps-bind, Keeps-any, Keeps-some_or, Keeps-lift, Keeps-try_or, Keeps-ensure,
}
use venue_backend.UseCases.Expire.{
  save_expired, expired_or_skipped, expire_all, expire_pending_bookings,
}
use venue_backend.UseCases.SoftDelete.{
  SoftDeleteResourceCommand, load_owned_resource, cancelled_or_skipped, save_cancelled, cancel_all,
  notify_cancelled, soft_delete_resource,
}
use venue_backend.UseCases.Distinct.Rows.{
  AreDistinct, update_off-AreDistinct, update_resource-AreDistinct, notify-AreDistinct,
}
use venue_backend.UseCases.Distinct.Decisions.{transition_off}

save_expired-AreDistinct :
    (b : Booking) → is_active b.status ≡ false → Keeps AreDistinct (save_expired b)
unfolding save_expired
save_expired-AreDistinct b off =
    Keeps-try_or _ _ _ (update_off-AreDistinct b off)
      λ _. Keeps-bind _ _ (notify-AreDistinct _ _ _) λ _. Keeps-pure 1

expired_or_skipped-AreDistinct :
    (r : Result Booking)
    → ((b : Booking) → r ≡ success b → is_active b.status ≡ false)
    → Keeps AreDistinct (expired_or_skipped r)
expired_or_skipped-AreDistinct (success b) off = save_expired-AreDistinct b (off b refl)
expired_or_skipped-AreDistinct (failed e) off = Keeps-pure 0

expire_all-AreDistinct :
    (now count : ℕ) (l : List Booking) → Keeps AreDistinct (expire_all now count l)
unfolding expire_all
expire_all-AreDistinct now count [] = Keeps-pure count
expire_all-AreDistinct now count (b ∷ rest) =
    Keeps-bind _ _
      (expired_or_skipped-AreDistinct (expire b (utc now))
        λ b' e. transition_off b expired b.customer_id customer (utc now) _ refl e)
      λ n. expire_all-AreDistinct now (count + n) rest

pub expire_pending_bookings-AreDistinct :
    (now : ℕ) → Keeps AreDistinct (expire_pending_bookings now)
unfolding expire_pending_bookings
expire_pending_bookings-AreDistinct now = Keeps-any _ _ λ stale. expire_all-AreDistinct now 0 stale

save_cancelled-AreDistinct :
    (b : Booking) → is_active b.status ≡ false → Keeps AreDistinct (save_cancelled b)
unfolding save_cancelled
save_cancelled-AreDistinct b off =
    Keeps-bind _ _ (update_off-AreDistinct b off) λ _. Keeps-pure (b ∷ [])

cancelled_or_skipped-AreDistinct :
    (r : Result Booking)
    → ((b : Booking) → r ≡ success b → is_active b.status ≡ false)
    → Keeps AreDistinct (cancelled_or_skipped save_cancelled r)
cancelled_or_skipped-AreDistinct (success b) off = save_cancelled-AreDistinct b (off b refl)
cancelled_or_skipped-AreDistinct (failed e) off = Keeps-pure []

cancel_all-AreDistinct :
    (actor_id now : ℕ) (l : List Booking) → Keeps AreDistinct (cancel_all actor_id now l)
unfolding cancel_all
cancel_all-AreDistinct actor_id now [] = Keeps-pure []
cancel_all-AreDistinct actor_id now (b ∷ rest) =
    Keeps-bind _ _
      (cancelled_or_skipped-AreDistinct
        (cancel b actor_id owner (utc now) (some "resource_deleted"))
        λ b' e. transition_off b cancelled actor_id owner (utc now) _ refl e)
      λ saved. Keeps-bind _ _ (cancel_all-AreDistinct actor_id now rest) λ others. Keeps-pure _

notify_cancelled-AreDistinct :
    (resource_id : ℕ) (l : List Booking) → Keeps AreDistinct (notify_cancelled resource_id l)
unfolding notify_cancelled
notify_cancelled-AreDistinct resource_id [] = Keeps-pure tt
notify_cancelled-AreDistinct resource_id (b ∷ rest) =
    Keeps-bind _ _ (notify-AreDistinct _ _ _) λ _. notify_cancelled-AreDistinct resource_id rest

load_owned_resource-AreDistinct :
    (resource_id actor_id : ℕ) → Keeps AreDistinct (load_owned_resource resource_id actor_id)
unfolding load_owned_resource
load_owned_resource-AreDistinct resource_id actor_id =
    Keeps-any _ _ λ o. Keeps-some_or _ o _ λ res _. Keeps-ensure _ _ _ λ _. Keeps-pure res

pub soft_delete_resource-AreDistinct :
    (cmd : SoftDeleteResourceCommand) (now : ℕ) → Keeps AreDistinct (soft_delete_resource cmd now)
unfolding soft_delete_resource
soft_delete_resource-AreDistinct cmd now =
    Keeps-bind _ _ (load_owned_resource-AreDistinct cmd.resource_id cmd.actor_id) λ res.
      Keeps-any _ _ λ approved_future. Keeps-ensure _ _ _ λ _. Keeps-any _ _ λ stale.
        Keeps-bind _ _ (cancel_all-AreDistinct cmd.actor_id now stale) λ targets.
          Keeps-lift _ _ λ deleted _.
            Keeps-bind _ _ (update_resource-AreDistinct deleted)
              λ _. notify_cancelled-AreDistinct res.id targets
