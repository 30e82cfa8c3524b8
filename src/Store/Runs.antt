-- ===== src/Store/Runs.antt =====
-- A handler's run: it reads and writes the tables, and returns its value, returns a failed `Result`,
-- or raises. What was written before a failure stays in the session, so the world comes back
-- beside it; a raised exception makes `get_session` roll back.
use text.Mathlib.Text.{◌==◌ as str_eq}
use venue_backend.Common.{
  any, ℕ, String, Bool, true, false, not, ◌||◌, Option, none, some, List, [], ◌∷◌, ◌++◌,
  if◌then◌else◌, is_some, find, ◌==◌, ◌&&◌, select,
}
use venue_backend.Shared.Result.{Failure, failure, Result, success, failed}
use venue_backend.Bookings.{Booking}
use venue_backend.Resources.Entity.{Resource}
use venue_backend.Ratings.{Rating}
use venue_backend.Catalog.Types.{ResourceType}
use venue_backend.Accounts.User.{User}
use venue_backend.Subscriptions.{OwnerSubscription}
use venue_backend.Store.Tables.{
  World, NotifKind, Datum, get_booking, get_resource, revise, same_rating, replace_rating, violates,
  replace, replace_resource, get_resource_type, same_type, revise_type, get_user, same_user,
  revise_user, same_resource,
}

pub data Outcome (A : Type 0) : Type 0 where
  done : A → World → Outcome A
  fail : Failure → World → Outcome A
  raised : Outcome A

abbrev pub Action : Type 0 → Type 0
Action A = World → Outcome A

unfoldable pub pure : {A : Type 0} → A → Action A
pure a w = done a w

abbrev pub follow : {A B : Type 0} → Outcome A → (A → Action B) → Outcome B
follow (done a w) f = f a w
follow (fail e w) f = fail e w
follow raised f = raised

-- A query.
unfoldable pub ask : {A : Type 0} → (World → A) → Action A
ask f w = done (f w) w

-- `Result.failure(code, status_code=...)`
abbrev pub error : String → ℕ → Failure
error code status = failure code (some status)

-- `if x is None: return ...`
unfoldable pub some_or : {A : Type 0} → Failure → Option A → Action A
some_or e none w = fail e w
some_or e (some a) w = done a w

-- `if not ...: return ...`
unfoldable pub ensure : Bool → Failure → Action (Unit {0})
ensure true e w = done tt w
ensure false e w = fail e w

-- An exception where a test fails.
unfoldable pub ensure_or_raise : Bool → Action (Unit {0})
ensure_or_raise true w = done tt w
ensure_or_raise false w = raised

-- `if r.is_failure: return Result.from_failure(r)`
unfoldable pub lift : {A : Type 0} → Result A → Action A
lift (success a) w = done a w
lift (failed e) w = fail e w

-- `if r.is_failure: return ...`, another failure.
unfoldable pub success_or : {A : Type 0} → Failure → Result A → Action A
success_or e (success a) w = done a w
success_or e (failed _) w = fail e w

abbrev pub try_outcome : {A B : Type 0} → Outcome A → B → (A → Action B) → Outcome B
try_outcome (done a w) b f = f a w
try_outcome (fail e w) b f = done b w
try_outcome raised b f = raised

-- A call whose failure does not end the handler: `if r.is_failure: continue`.
unfoldable pub try_or : {A B : Type 0} → Action A → B → (A → Action B) → Action B
try_or m b f w = try_outcome (m w) b f

-- What other transactions do while this one waits.
unfoldable pub meanwhile : (World → World) → Action (Unit {0})
meanwhile f w = done tt (f w)

-- Opening this opens the actions above too.
infixl 5 ◌>>=◌ ◌>>◌
unfoldable pub ◌>>=◌ : {A B : Type 0} → Action A → (A → Action B) → Action B
unfolding pure ask some_or ensure lift success_or try_or meanwhile
◌>>=◌ m f w = follow (m w) f

abbrev pub ◌>>◌ : {A B : Type 0} → Action A → Action B → Action B
m >> k = m >>= λ _. k

-- `SQLAlchemyBookingRepository.update`: no row is a failure; a booking with no price and a violated
-- constraint are exceptions.
unfoldable pub update_booking : Booking → Action (Unit {0})
update_booking b w =
    if not (is_some (get_booking b.id w))
    then fail (error "BookingNotFound" 404) w
    else if not (is_some b.total_price_cents) || violates b w.bookings
    then raised
    else done tt (record w { bookings = replace b w.bookings })

-- `SQLAlchemyBookingRepository.add`: a booking with no price, a taken id and a violated constraint
-- are exceptions.
unfoldable pub add_booking : Booking → Action (Unit {0})
add_booking b w =
    if not (is_some b.total_price_cents) || is_some (get_booking b.id w) || violates b w.bookings
    then raised
    else done tt (record w { bookings = w.bookings ++ b ∷ [] })

-- `SQLAlchemyResourceRepository.update`
unfoldable pub update_resource : Resource → Action (Unit {0})
update_resource r w =
    if not (is_some (get_resource r.id w))
    then fail (error "ResourceNotFound" 404) w
    else done tt (record w { resources = replace_resource r w.resources })

-- `SQLAlchemyOwnerSubscriptionRepository.update`
unfoldable pub update_subscription : OwnerSubscription → Action (Unit {0})
update_subscription s w =
    if not (is_some (find (λ y. y.id == s.id) w.subscriptions))
    then fail (error "SubscriptionNotFound" 404) w
    else done tt (record w { subscriptions = revise s w.subscriptions })

-- `SQLAlchemyRatingRepository.add`: a taken key is a failure, after a rollback of the session, in
-- which its handler has written nothing else.
unfoldable pub add_rating : Rating → Action (Unit {0})
add_rating r w =
    if any (same_rating r) w.ratings
    then fail (error "RatingAlreadyExists" 409) w
    else done tt (record w { ratings = w.ratings ++ r ∷ [] })

-- `SQLAlchemyRatingRepository.update`, of a rating with the booking of its row.
unfoldable pub update_rating : Rating → Action (Unit {0})
update_rating r w =
    if not (any (λ y. y.id == r.id) w.ratings)
    then fail (error "RatingNotFound" 404) w
    else done tt (record w { ratings = replace_rating r w.ratings })

-- `PersistentNotificationService.notify`, which never fails.
unfoldable pub notify : ℕ → NotifKind → List (String × Datum) → Action (Unit {0})
notify recipient_id kind payload w = done tt (record w {
  notices =
      w.notices ++ record { recipient_id = recipient_id; kind = kind; payload = payload } ∷ [];
})

-- `SQLAlchemyResourceTypeRepository.add`: a taken key is a failure, after a rollback of the session,
-- in which its handler has written nothing else.
unfoldable pub add_resource_type : ResourceType → Action (Unit {0})
add_resource_type t w =
    if any (same_type t) w.resource_types
    then fail (error "SlugAlreadyTaken" 409) w
    else done tt (record w { resource_types = w.resource_types ++ t ∷ [] })

-- `SQLAlchemyResourceTypeRepository.update`
unfoldable pub update_resource_type : ResourceType → Action (Unit {0})
update_resource_type t w =
    if not (is_some (get_resource_type t.id w))
    then fail (error "ResourceTypeNotFound" 404) w
    else if any (λ y. not (y.id == t.id) && str_eq y.slug t.slug) w.resource_types
    then fail (error "SlugAlreadyTaken" 409) w
    else done tt (record w { resource_types = revise_type t w.resource_types })

-- `SQLAlchemyResourceTypeRepository.delete`: the foreign key of the resources forbids the deletion of
-- a type that one of them has, by an exception.
unfoldable pub delete_resource_type : ℕ → Action (Unit {0})
delete_resource_type id w =
    if not (is_some (get_resource_type id w))
    then fail (error "ResourceTypeNotFound" 404) w
    else if any (λ r. r.resource_type_id == id) w.resources
    then raised
    else done tt (record w { resource_types = select (λ t. not (t.id == id)) w.resource_types })

-- `UserRepository.add`; a taken key is an exception at the flush that follows.
unfoldable pub add_user : User → Action (Unit {0})
add_user u w =
    if any (same_user u) w.users then raised else done tt (record w { users = w.users ++ u ∷ [] })

-- `UserRepository.update`: no row is a `LookupError`.
unfoldable pub update_user : User → Action (Unit {0})
update_user u w =
    if not (is_some (get_user u.id w))
    then raised
    else done tt (record w { users = revise_user u w.users })

-- `UserRepository.add` of an owner, and the `SQLAlchemyOwnerSubscriptionRepository.add` that flushes
-- both rows: a taken key of either is a failure, after a rollback of the session, in which nothing
-- else has been written.
unfoldable pub add_owner : User → OwnerSubscription → Action (Unit {0})
add_owner u s w =
    if any (same_user u) w.users
      || any (λ y. y.id == s.id || y.owner_id == s.owner_id) w.subscriptions
    then fail (error "OwnerAlreadyHasSubscription" 409) w
    else done tt (record w { users = w.users ++ u ∷ []; subscriptions = w.subscriptions ++ s ∷ [] })

-- `SQLAlchemyResourceRepository.add`: a taken key, an owner that is no user, or a type that does not
-- exist, is a failure, after a rollback of the session, in which its handler has written nothing.
unfoldable pub add_resource : Resource → Action (Unit {0})
add_resource r w =
    if any (same_resource r) w.resources
      || not (is_some (get_user r.owner_id w) && is_some (get_resource_type r.resource_type_id w))
    then fail (error "SlugAlreadyTaken" 409) w
    else done tt (record w { resources = w.resources ++ r ∷ [] })
