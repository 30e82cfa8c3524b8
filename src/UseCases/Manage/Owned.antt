-- ===== src/UseCases/Manage/Owned.antt =====
-- A command of an owner changes one resource of that owner, by a mutator, or nothing.
use venue_backend.Common.{
  ℕ, ◌==◌, ◌≡◌, refl, ◌∙◌, true, false, not, ◌&&◌, Bool, some, none, Option, List, [], ◌∷◌, find,
  is_some, arith, Bool-cases, Option-cases, inl, inr,
}
use venue_backend.Shared.Result.{
  Failure, FieldError, Result, success, failed, with_status-eq-success,
}
use venue_backend.Shared.Time.{utc}
use venue_backend.Resources.Entity.{Resource, is_deleted}
use venue_backend.Resources.Entity.Identity.{mutation-same_owner}
use venue_backend.Resources.Entity.Invariant.{
  Mutation, new_price, new_cutoff, new_duration, new_metadata, new_customs, new_base, new_rules,
  new_hours, published, unpublished,
}
use venue_backend.Store.{
  World, Outcome, done, fail, raised, Action, ◌>>◌, ensure_or_raise, ◌>>=◌, lift, ask, some_or,
  get_resource, replace_resource, update_resource, error,
}
use venue_backend.Resources.Schedule.{WeeklySchedule}
use venue_backend.UseCases.Inputs.{days_built}
use venue_backend.UseCases.Inputs.Built.{days_built-IsWindow}
use venue_backend.UseCases.SoftDelete.{load_owned_resource}
use venue_backend.UseCases.Manage.{
  ManageCommand, base_price, cancellation_cutoff, slot_duration, publishing, unpublishing, metadata,
  custom_attributes, base_attributes, pricing_rules, operating_hours, hours_or_errors,
  handle_metadata, handle_custom_attributes, handle_base_attributes, handle_pricing_rules,
  handle_operating_hours, actor_of, target_of, overflows, manage, handle_base_price,
  handle_cancellation_cutoff, handle_slot_duration, handle_publish, handle_unpublish,
}

-- What a command of an actor about a resource may have done.
pub data Managed (id actor_id : ℕ) (raises : Bool) (w : World) : Outcome (Unit {0}) → Type 0 where
  refused : (e : Failure) → Managed id actor_id raises w (fail e w)
  crashed : raises ≡ true → Managed id actor_id raises w raised
  changed :
      (res res' : Resource)
      → get_resource id w ≡ some res
      → res.owner_id ≡ actor_id
      → is_deleted res ≡ false
      → Mutation res res'
      → Managed id actor_id raises w
          (done tt (record w { resources = replace_resource res' w.resources }))

pub find_id :
    (id : ℕ) (rows : List Resource) (res : Resource)
    → find (λ r. r.id == id) rows ≡ some res
    → res.id ≡ id
find_id id [] res h = cc
find_id id (r ∷ rows) res h = ground (arith, find_id id rows res)

module _ (id actor_id : ℕ) (raises : Bool) (w : World) where
  load_Managed :
      (k : Resource → Action (Unit {0}))
      → ((res : Resource)
          → get_resource id w ≡ some res
          → res.owner_id ≡ actor_id
          → is_deleted res ≡ false
          → Managed id actor_id raises w (k res w))
      → Managed id actor_id raises w ((load_owned_resource id actor_id >>= k) w)
  unfolding load_owned_resource ◌>>=◌
  load_Managed k rest = elim (Option-cases (get_resource id w)) [
    | inl gone ↦ rw gone (refused (error "ResourceNotFound" 404))
    | inr (res, found) ↦ elim (Bool-cases (res.owner_id == actor_id && not (is_deleted res))) [
      | inr denied ↦ rw (found, denied) (refused (error "ResourceNotFound" 404))
      | inl owned ↦ rw (found, owned) (rest res found (ground arith) (ground arith))
    ]
  ]

  lift-Managed :
      {A : Type 0} (r : Result A) (k : A → Action (Unit {0}))
      → ((a : A) → r ≡ success a → Managed id actor_id raises w (k a w))
      → Managed id actor_id raises w ((lift r >>= k) w)
  unfolding ◌>>=◌
  lift-Managed (success a) k rest = rest a refl
  lift-Managed (failed e) k rest = refused e

  some-Managed :
      {A : Type 0} (e : Failure) (o : Option A) (k : A → Action (Unit {0}))
      → ((a : A) → o ≡ some a → Managed id actor_id raises w (k a w))
      → Managed id actor_id raises w ((some_or e o >>= k) w)
  unfolding ◌>>=◌
  some-Managed e none k rest = refused e
  some-Managed e (some a) k rest = rest a refl

  ask-Managed :
      {A : Type 0} (q : World → A) (k : A → Action (Unit {0}))
      → Managed id actor_id raises w (k (q w) w)
      → Managed id actor_id raises w ((ask q >>= k) w)
  unfolding ◌>>=◌
  ask-Managed q k rest = rest

  update_Managed :
      (res res' : Resource)
      → get_resource id w ≡ some res
      → res.owner_id ≡ actor_id
      → is_deleted res ≡ false
      → Mutation res res'
      → Managed id actor_id raises w (update_resource res' w)
  unfolding update_resource
  update_Managed res res' found owned there m =
      let same : res'.id ≡ id = (mutation-same_owner m).0 ∙ find_id id w.resources res found in
      let row : is_some (get_resource res'.id w) ≡ true = rw same (rw found refl) in
      rw row (changed res res' found owned there m)

ensure-Managed :
    (id actor_id : ℕ) (raises : Bool) (w : World) (k : Action (Unit {0}))
    → Managed id actor_id raises w (k w)
    → Managed id actor_id raises w ((ensure_or_raise (not raises) >> k) w)
unfolding ensure_or_raise ◌>>=◌
ensure-Managed id actor_id true w k rest = crashed refl
ensure-Managed id actor_id false w k rest = rest

hours_accepted :
    (errors : List FieldError) (r : Result WeeklySchedule) {hours : WeeklySchedule}
    → hours_or_errors errors r ≡ success hours
    → r ≡ success hours
hours_accepted errors r h = ground arith

-- A command of an owner about a resource either is refused, and nothing is written, or finds the
-- resource, which is the actor's and is not deleted, and writes what one of the mutators of the
-- aggregate has made of it; no other table is written. Only a command with a time window whose numbers
-- are too large for `time` raises an exception.
pub manage-Managed :
    (cmd : ManageCommand) (now : ℕ) (w : World)
    → Managed (target_of cmd) (actor_of cmd) (overflows cmd) w (manage cmd now w)
unfolding handle_base_price handle_cancellation_cutoff handle_slot_duration handle_publish
    handle_unpublish handle_metadata handle_custom_attributes handle_base_attributes
    handle_pricing_rules handle_operating_hours
manage-Managed (base_price cmd) now w = load_Managed _ _ _ w _ λ res found owned there.
    lift-Managed _ _ _ w _ _
      λ money _. update_Managed _ _ _ w res _ found owned there (new_price money (utc now) refl)
manage-Managed (cancellation_cutoff cmd) now w = load_Managed _ _ _ w _ λ res found owned there.
    lift-Managed _ _ _ w _ _
      λ cutoff _. update_Managed _ _ _ w res _ found owned there (new_cutoff cutoff (utc now) refl)
manage-Managed (slot_duration cmd) now w = load_Managed _ _ _ w _ λ res found owned there.
    lift-Managed _ _ _ w _ _ λ slot _. lift-Managed _ _ _ w _ _ λ res' made.
      update_Managed _ _ _ w res res' found owned there
        (new_duration slot (utc now) (with_status-eq-success 400 _ made))
manage-Managed (publishing cmd) now w = load_Managed _ _ _ w _ λ res found owned there.
    update_Managed _ _ _ w res _ found owned there (published (utc now) refl)
manage-Managed (unpublishing cmd) now w = load_Managed _ _ _ w _ λ res found owned there.
    update_Managed _ _ _ w res _ found owned there (unpublished (utc now) refl)
manage-Managed (metadata cmd) now w = load_Managed _ _ _ w _ λ res found owned there.
    lift-Managed _ _ _ w _ _ λ res' made.
      update_Managed _ _ _ w res res' found owned there
        (new_metadata cmd.metadata (utc now) (with_status-eq-success 400 _ made))
manage-Managed (custom_attributes cmd) now w = load_Managed _ _ _ w _ λ res found owned there.
    lift-Managed _ _ _ w _ _ λ customs _. lift-Managed _ _ _ w _ _ λ res' made.
      update_Managed _ _ _ w res res' found owned there
        (new_customs customs (utc now) (with_status-eq-success 400 _ made))
manage-Managed (base_attributes cmd) now w = load_Managed _ _ _ w _ λ res found owned there.
    ask-Managed _ _ _ w _ _ (
      some-Managed _ _ _ w _ _ _ λ rt _. lift-Managed _ _ _ w _ _ λ _ _.
        lift-Managed _ _ _ w _ _ λ res' made.
          update_Managed _ _ _ w res res' found owned there
            (new_base cmd.base_attributes (utc now) (with_status-eq-success 400 _ made)))
manage-Managed (pricing_rules digit cmd) now w = load_Managed _ _ _ w _ λ res found owned there.
    ensure-Managed _ _ _ w _ (
      lift-Managed _ _ _ w _ _ λ rules _. lift-Managed _ _ _ w _ _ λ res' made.
        update_Managed _ _ _ w res res' found owned there
          (new_rules rules (utc now) (with_status-eq-success 400 _ made)))
manage-Managed (operating_hours digit cmd) now w = load_Managed _ _ _ w _ λ res found owned there.
    ensure-Managed _ _ _ w _ (
      lift-Managed _ _ _ w _ _ λ hours made. lift-Managed _ _ _ w _ _ λ res' replaced.
        update_Managed _ _ _ w res res' found owned there (
          new_hours (days_built digit cmd.operating_hours) hours (utc now)
            (days_built-IsWindow digit cmd.operating_hours)
            (hours_accepted _ _ (with_status-eq-success 400 _ made))
            (with_status-eq-success 400 _ replaced)))
