-- ===== src/UseCases/Consistent/Sweeps.antt =====
-- Expiring bookings and deleting a resource keep the tables consistent.
use venue_backend.Common.{ℕ, ◌+◌, ◌≡◌, refl, some, List, [], ◌∷◌, inl, inr}
use venue_backend.Shared.Result.{Result, success, failed}
use venue_backend.Shared.Time.{utc}
use venue_backend.Bookings.{Booking, owner, customer, cancelled, expired, cancel, expire}
use venue_backend.Bookings.Lifecycle.{IsRecorded, transition-IsRecorded}
use venue_backend.Store.Keeps.{
  Keeps, Keeps-pure, Keeps-bind, Keeps-ask, Keeps-any, Keeps-some_or, Keeps-lift, Keeps-try_or,
  Keeps-ensure,
}
use venue_backend.Store.Updates.{IsConsistent, update-Keeps, update_resource-Keeps, notify-Keeps}
use venue_backend.UseCases.Expire.{
  save_expired, expired_or_skipped, expire_all, expire_pending_bookings,
}
use venue_backend.UseCases.SoftDelete.{
  SoftDeleteResourceCommand, load_owned_resource, cancelled_or_skipped, save_cancelled, cancel_all,
  notify_cancelled, soft_delete_resource,
}
use venue_backend.UseCases.Consistent.Queries.{ListRecorded, listed}

save_expired-Keeps : (b : Booking) → IsRecorded b → Keeps IsConsistent (save_expired b)
unfolding save_expired
save_expired-Keeps b h =
    Keeps-try_or _ _ _ (update-Keeps b h) λ _. Keeps-bind _ _ (notify-Keeps _ _ _) λ _. Keeps-pure 1

expired_or_skipped-Keeps :
    (r : Result Booking)
    → ((b : Booking) → r ≡ success b → IsRecorded b)
    → Keeps IsConsistent (expired_or_skipped r)
expired_or_skipped-Keeps (success b) h = save_expired-Keeps b (h b refl)
expired_or_skipped-Keeps (failed e) h = Keeps-pure 0

expire_all-Keeps :
    (now count : ℕ) (l : List Booking)
    → ListRecorded l
    → Keeps IsConsistent (expire_all now count l)
unfolding expire_all
expire_all-Keeps now count [] h = Keeps-pure count
expire_all-Keeps now count (b ∷ rest) h =
    let reason = some "slot_start_passed_with_no_decision" in
    Keeps-bind _ _
      (expired_or_skipped-Keeps (expire b (utc now)) λ b' e.
        transition-IsRecorded b expired b.customer_id customer (utc now) reason (h b (inl refl)) e)
      λ n. expire_all-Keeps now (count + n) rest (λ x m. h x (inr m))

pub expire_pending_bookings-Keeps : (now : ℕ) → Keeps IsConsistent (expire_pending_bookings now)
unfolding expire_pending_bookings
expire_pending_bookings-Keeps now =
    Keeps-ask ListRecorded _ _ (listed _) λ stale h. expire_all-Keeps now 0 stale h

save_cancelled-Keeps : (b : Booking) → IsRecorded b → Keeps IsConsistent (save_cancelled b)
unfolding save_cancelled
save_cancelled-Keeps b h = Keeps-bind _ _ (update-Keeps b h) λ _. Keeps-pure (b ∷ [])

cancelled_or_skipped-Keeps :
    (r : Result Booking)
    → ((b : Booking) → r ≡ success b → IsRecorded b)
    → Keeps IsConsistent (cancelled_or_skipped save_cancelled r)
cancelled_or_skipped-Keeps (success b) h = save_cancelled-Keeps b (h b refl)
cancelled_or_skipped-Keeps (failed e) h = Keeps-pure []

cancel_all-Keeps :
    (actor_id now : ℕ) (l : List Booking)
    → ListRecorded l
    → Keeps IsConsistent (cancel_all actor_id now l)
unfolding cancel_all
cancel_all-Keeps actor_id now [] h = Keeps-pure []
cancel_all-Keeps actor_id now (b ∷ rest) h =
    let reason = some "resource_deleted" in
    Keeps-bind _ _
      (cancelled_or_skipped-Keeps (cancel b actor_id owner (utc now) reason) λ b' e.
        transition-IsRecorded b cancelled actor_id owner (utc now) reason (h b (inl refl)) e)
      λ saved.
        Keeps-bind _ _ (cancel_all-Keeps actor_id now rest (λ x m. h x (inr m)))
          λ others. Keeps-pure _

notify_cancelled-Keeps :
    (resource_id : ℕ) (l : List Booking) → Keeps IsConsistent (notify_cancelled resource_id l)
unfolding notify_cancelled
notify_cancelled-Keeps resource_id [] = Keeps-pure tt
notify_cancelled-Keeps resource_id (b ∷ rest) =
    Keeps-bind _ _ (notify-Keeps _ _ _) λ _. notify_cancelled-Keeps resource_id rest

load_owned_resource-Keeps :
    (resource_id actor_id : ℕ) → Keeps IsConsistent (load_owned_resource resource_id actor_id)
unfolding load_owned_resource
load_owned_resource-Keeps resource_id actor_id =
    Keeps-any _ _ λ o. Keeps-some_or _ o _ λ res _. Keeps-ensure _ _ _ λ _. Keeps-pure res

pub soft_delete_resource-Keeps :
    (cmd : SoftDeleteResourceCommand) (now : ℕ) → Keeps IsConsistent (soft_delete_resource cmd now)
unfolding soft_delete_resource
soft_delete_resource-Keeps cmd now =
    Keeps-bind _ _ (load_owned_resource-Keeps cmd.resource_id cmd.actor_id) λ res.
      Keeps-any _ _ λ approved_future. Keeps-ensure _ _ _ λ _.
        Keeps-ask ListRecorded _ _ (listed _) λ stale h.
          Keeps-bind _ _ (cancel_all-Keeps cmd.actor_id now stale h) λ targets.
            Keeps-lift _ _ λ deleted _.
              Keeps-bind _ _ (update_resource-Keeps deleted)
                λ _. notify_cancelled-Keeps res.id targets
