-- ===== src/UseCases/SoftDelete/Clears.antt =====
-- What the deletion of a resource leaves.
use venue_backend.Common.{
  ℕ, ◌==◌, ==_iff, ◌≡◌, refl, Bool, true, false, ◌&&◌, some, List, [], ◌∷◌, ◌++◌, arith, inl, inr,
  is_empty, is_some, map, find, leb, ◌||◌, if◌then◌else◌, AreKeyed,
}
use venue_backend.Shared.Result.{success}
use venue_backend.Shared.Time.{utc}
use venue_backend.Bookings.{Booking, is_pending, is_approved}
use venue_backend.Resources.Entity.{Resource, is_deleted, soft_delete}
use venue_backend.Store.{
  World, done, fail, error, ◌>>=◌, replace_resource, get_resource, list_pending_for_resource,
  list_approved_with_start_after, update_resource,
}
use venue_backend.Store.Rows.{IsRow}
use venue_backend.Store.Writes.{
  rewritten, rewritten-select, rewritten-map, ArePriced, select-CanDecide, select_empty,
}
use venue_backend.UseCases.SoftDelete.{
  SoftDeleteResourceCommand, load_owned_resource, soft_delete_resource,
}
use venue_backend.UseCases.SoftDelete.Withdrawn.{
  withdrawal, withdrawal_notices, cancel_all_settles, notify_cancelled_settles,
}

-- The resource as the deletion leaves it.
abbrev pub deletion : ℕ → Resource → Resource
deletion now res = record res { deleted_at = some (utc now); updated_at = utc now }

soft_delete_passes :
    (res : Resource) (now : ℕ)
    → is_deleted res ≡ false
    → soft_delete res (utc now) ≡ success (deletion now res)
unfolding soft_delete
soft_delete_passes res now h = rw h refl

find_holds :
    (id : ℕ) (rows : List Resource) (res : Resource)
    → find (λ r. r.id == id) rows ≡ some res
    → (res.id == id) ≡ true
find_holds id [] res h = cc
find_holds id (r ∷ rows) res h = ground (arith, find_holds id rows res)

-- What the checks of a deletion ask for: the resource is there, is the actor's and is not deleted.
pub record CanDelete (cmd : SoftDeleteResourceCommand) (w : World) (res : Resource) : Type 0 where
  pub is_resource : get_resource cmd.resource_id w ≡ some res
  pub is_owner : res.owner_id ≡ cmd.actor_id
  pub is_there : is_deleted res ≡ false

-- A booking of the resource that is still open: pending, or approved and not begun.
abbrev pub still_open : Resource → ℕ → Booking → Bool
still_open res now b =
    b.resource_id == res.id
    && (is_pending b.status || (is_approved b.status && leb now b.slot_range.start_at))

module _ (cmd : SoftDeleteResourceCommand) (now : ℕ) (w : World) (res : Resource)
    (c : CanDelete cmd w res) where
  load_passes : load_owned_resource cmd.resource_id cmd.actor_id w ≡ done res w
  unfolding load_owned_resource ◌>>=◌
  load_passes =
      let mine : (res.owner_id == cmd.actor_id) ≡ true = (==_iff _ _).1 c.is_owner in
      rw (c.is_resource, mine, c.is_there) refl

  found_again : is_some (get_resource res.id w) ≡ true
  found_again =
      let same : res.id ≡ cmd.resource_id =
        ground (arith, find_holds cmd.resource_id w.resources res c.is_resource) in
      rw same (rw c.is_resource refl)

  -- An actor who owns a resource with an approved booking that starts now or later cannot delete it,
  -- and nothing is written.
  pub soft_delete_resource_refused :
      is_empty (list_approved_with_start_after res.id now w) ≡ false
      → soft_delete_resource cmd now w ≡ fail (error "ResourceHasFutureApprovedBookings" 409) w
  unfolding soft_delete_resource ◌>>=◌
  soft_delete_resource_refused some_left = rw load_passes (rw some_left refl)

  abbrev pendings : List Booking
  pendings = list_pending_for_resource res.id w

  abbrev of_resource : Booking → Bool
  of_resource b = b.resource_id == res.id && is_pending b.status

  abbrev deleted_world : World
  deleted_world = record w {
    bookings = rewritten (withdrawal cmd.actor_id now) pendings w.bookings;
    resources = replace_resource (deletion now res) w.resources;
    notices = w.notices ++ withdrawal_notices res.id (map (withdrawal cmd.actor_id now) pendings);
  }

  update_resource_passes :
      (rows : List Booking)
      → update_resource (deletion now res) (record w { bookings = rows })
        ≡ done tt (record w {
          bookings = rows;
          resources = replace_resource (deletion now res) w.resources;
        })
  unfolding update_resource
  update_resource_passes rows = rw found_again refl

  soft_delete_resource_settles :
      is_empty (list_approved_with_start_after res.id now w) ≡ true
      → ArePriced w.bookings
      → soft_delete_resource cmd now w ≡ done tt deleted_world
  unfolding soft_delete_resource ◌>>=◌
  soft_delete_resource_settles free priced =
      let can = select-CanDecide of_resource w.bookings w.bookings pend priced (λ b m. m) in
      rw load_passes (
        rw free (
          rw (cancel_all_settles cmd.actor_id now pendings w can) (
            rw (soft_delete_passes res now c.is_there) (
              rw (update_resource_passes _)
                (notify_cancelled_settles res.id (map (withdrawal cmd.actor_id now) pendings) _)))))
    where
      pend : (b : Booking) → of_resource b ≡ true → is_pending b.status ≡ true
      pend b h = ground arith

  -- An actor who owns a resource with no approved booking that starts now or later deletes it, where
  -- every row has a price, as its column demands, and the ids of the rows are distinct: the table of
  -- bookings is the old one with each pending booking of the resource, and no other row, changed to
  -- CANCELLED with the change in its history; none of the resource's bookings is pending or approved
  -- for now or later, and the customers of the cancelled ones are notified.
  pub soft_delete_resource_clears :
      is_empty (list_approved_with_start_after res.id now w) ≡ true
      → ArePriced w.bookings
      → AreKeyed (λ b. b.id) w.bookings
      → (w' : World) × (soft_delete_resource cmd now w ≡ done tt w')
        × (w'.resources ≡ replace_resource (deletion now res) w.resources)
        × (w'.bookings
            ≡ map
                (λ b.
                  if b.resource_id == res.id && is_pending b.status
                  then withdrawal cmd.actor_id now b
                  else b)
                w.bookings)
        × ((x : Booking) → IsRow x w'.bookings → still_open res now x ≡ false)
        × (w'.notices
            ≡ w.notices
              ++ withdrawal_notices res.id
                  (map (withdrawal cmd.actor_id now) (list_pending_for_resource res.id w)))
  soft_delete_resource_clears free priced keyed = (
    deleted_world,
    soft_delete_resource_settles free priced,
    refl,
    rewritten-map (withdrawal cmd.actor_id now) (λ b. refl) of_resource w.bookings keyed,
    rows_left free,
    refl,
  )
    where
      rows_left :
          is_empty (list_approved_with_start_after res.id now w) ≡ true
          → (x : Booking) → IsRow x (rewritten (withdrawal cmd.actor_id now) pendings w.bookings)
          → still_open res now x ≡ false
      rows_left free x m =
          elim (rewritten-select (withdrawal cmd.actor_id now) (λ b. refl) of_resource w.bookings x
            m) [
              | inl (b, at, hit, e) ↦ rw e (ground arith)
              | inr (old, miss) ↦
                  let none_booked =
                    select_empty
                      (λ b.
                        b.resource_id == res.id
                        && (is_approved b.status && leb now b.slot_range.start_at))
                      w.bookings x free old in
                  ground arith
            ]
