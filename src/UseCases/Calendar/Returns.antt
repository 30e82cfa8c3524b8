-- ===== src/UseCases/Calendar/Returns.antt =====
-- What a call that returned has found: the inverses of the calls that are stated forwards.
use venue_backend.Common.{ℕ, ==_iff, ◌≡◌, sym, ap, ◌∙◌, true, false, some, none, is_empty, arith}
use venue_backend.Shared.Time.{utc}
use venue_backend.Bookings.{Booking, owner, approved, rejected, is_pending}
use venue_backend.Bookings.Lifecycle.{transition-eq-success}
use venue_backend.Resources.Entity.{Resource, is_deleted}
use venue_backend.Store.{
  World, Outcome, done, fail, raised, pure, get_booking, replace, violates,
  list_approved_with_start_after,
}
use venue_backend.Store.Equations.{>>=-eq-done}
use venue_backend.Store.Returns.{
  ensure_then, some_or_then, success_or_then, update_then, ask_then, notify_last, meanwhile_then,
}
use venue_backend.UseCases.Approve.{
  ApproveBookingCommand, approvable, approve_locked, approve_booking, still_pending,
}
use venue_backend.UseCases.Approve.Settles.{approval}
use venue_backend.UseCases.Approve.Outcome.{CanApprove}
use venue_backend.UseCases.Decide.{RejectBookingCommand, reject_booking}
use venue_backend.UseCases.Decide.Rejects.{refusal}
use venue_backend.UseCases.SoftDelete.{
  SoftDeleteResourceCommand, load_owned_resource, soft_delete_resource,
}
use venue_backend.UseCases.SoftDelete.Clears.{CanDelete}

-- The world that a run leaves, where it returns.
left_by : {A : Type 0} → Outcome A → World → World
left_by (done a u) w = u
left_by (fail e u) w = w
left_by raised w = w

pub same_world : {A : Type 0} {a b : A} {u v : World} → done a u ≡ done b v → u ≡ v
unfolding left_by
same_world {u = u} e = ap (λ o. left_by o u) e

pure_returns : {A : Type 0} (a b : A) (w u : World) → pure a w ≡ done b u → (a ≡ b) × (u ≡ w)
unfolding pure
pure_returns a b w u h = ground arith

approvable_returns :
    (cmd : ApproveBookingCommand) (w u : World) (resource : Resource)
    → approvable cmd w ≡ done resource u
    → CanApprove cmd w resource × (u ≡ w)
unfolding approvable
approvable_returns cmd w u resource h =
    let (seen, is_seen, h1) = some_or_then w _ _ _ (ask_then w _ _ h) in
    let (r, is_resource, h2) = some_or_then w _ _ _ (ask_then w _ _ h1) in
    let (there, h3) = ensure_then w _ _ _ h2 in
    let (mine, h4) = ensure_then w _ _ _ h3 in
    let (operational, h5) = ensure_then w _ _ _ (ask_then w _ _ h4) in
    let (same, left) = pure_returns r resource w u h5 in
    (
      record {
        seen = seen;
        is_seen = is_seen;
        is_resource = is_resource ∙ ap some same;
        is_there = ground (arith, there, same);
        is_owner = ap (λ x. x.owner_id) (sym same) ∙ (==_iff _ _).0 mine;
        is_operational = ground (arith, operational, same);
      },
      left,
    )

locked_returns :
    (cmd : ApproveBookingCommand) (now : ℕ) (resource : Resource) (v w' : World) (b : Booking)
    → approve_locked cmd now resource v ≡ done b w'
    → (t : Booking) × (get_booking cmd.booking_id v ≡ some t)
      × (is_pending t.status ≡ true)
      × (violates (approval cmd now t) v.bookings ≡ false)
unfolding approve_locked
locked_returns cmd now resource v w' b h =
    let (pends, h1) = ensure_then v _ _ _ (ask_then v _ _ h) in
    let (t, found, h2) = some_or_then v _ _ _ h1 in
    let (after, ok, h3) = success_or_then v _ _ _ (ask_then v _ _ h2) in
    let (row, fine, h4) = update_then v _ _ h3 in
    let (valid, made) = transition-eq-success t approved cmd.actor_id owner (utc now) none ok in
    let passed : violates after v.bookings ≡ false = ground arith in
    (
      t,
      found,
      sym (ap still_pending found) ∙ pends,
      ap (λ x. violates x v.bookings) (sym made) ∙ passed,
    )

-- An approval that returned has passed the checks before the lock, and has found under it a pending
-- booking that the constraint lets it approve.
pub approve_returns :
    (wait : World → World) (cmd : ApproveBookingCommand) (now : ℕ) (w w' : World) (b : Booking)
    → approve_booking wait cmd now w ≡ done b w'
    → (resource : Resource) × (t : Booking) × CanApprove cmd w resource
      × (get_booking cmd.booking_id (wait w) ≡ some t)
      × (is_pending t.status ≡ true)
      × (violates (approval cmd now t) (wait w).bookings ≡ false)
unfolding approve_booking
approve_returns wait cmd now w w' b h =
    let (resource, u, checked, h1) = >>=-eq-done _ _ w h in
    let (can, left) = approvable_returns cmd w u resource checked in
    let locked = meanwhile_then u _ _ h1 in
    let (t, found, pends, fine) =
      locked_returns cmd now resource (wait w) w' b
        (ap (λ x. approve_locked cmd now resource (wait x)) (sym left) ∙ locked) in
    (resource, t, can, found, pends, fine)

-- A rejection that returned has written the row that it makes of its reading.
pub reject_returns :
    (wait : World → World) (cmd : RejectBookingCommand) (now : ℕ) (w w' : World) (b : Booking)
    → reject_booking wait cmd now w ≡ done b w'
    → (read : Booking) × (get_booking cmd.booking_id w ≡ some read)
      × (w'.bookings ≡ replace (refusal cmd now read) (wait w).bookings)
unfolding reject_booking
reject_returns wait cmd now w w' b h =
    let (read, found, h1) = some_or_then w _ _ _ (ask_then w _ _ h) in
    let (resource, is_resource, h2) = some_or_then w _ _ _ (ask_then w _ _ h1) in
    let (mine, h3) = ensure_then w _ _ _ h2 in
    let (after, ok, h4) = success_or_then w _ _ _ h3 in
    let (row, stored, h5) = update_then (wait w) _ _ (meanwhile_then w _ _ h4) in
    let (same, left) = notify_last _ _ _ _ _ h5 in
    let (valid, made) =
      transition-eq-success read rejected cmd.actor_id owner (utc now) cmd.reason ok in
    (read, found, ap (λ x. x.bookings) left ∙ ap (λ x. replace x (wait w).bookings) made)

-- A deletion that returned has found the actor's resource, with no approved booking to come.
pub delete_returns :
    (cmd : SoftDeleteResourceCommand) (now : ℕ) (w w' : World)
    → soft_delete_resource cmd now w ≡ done tt w'
    → (res : Resource) × CanDelete cmd w res
      × (is_empty (list_approved_with_start_after res.id now w) ≡ true)
unfolding soft_delete_resource load_owned_resource
delete_returns cmd now w w' h =
    let (res, u, loaded, h1) = >>=-eq-done _ _ w h in
    let (r, found, h2) = some_or_then w _ _ _ (ask_then w _ _ loaded) in
    let (owned, h3) = ensure_then w _ _ _ h2 in
    let (same, left) = pure_returns r res w u h3 in
    let (free, h4) = ensure_then u _ _ _ (ask_then u _ _ h1) in
    (
      res,
      record {
        is_resource = found ∙ ap some same;
        is_owner = ap (λ x. x.owner_id) (sym same) ∙ ground arith;
        is_there = ap is_deleted (sym same) ∙ ground arith;
      },
      ap (λ x. is_empty (list_approved_with_start_after res.id now x)) (sym left) ∙ free,
    )
