-- ===== src/Store/Tables.antt =====
-- The rows, as the entities that `_to_entity` makes of them, and the queries of the repositories of
-- app/infrastructure/repositories that the handlers use.
use text.Mathlib.Text.{◌==◌ as str_eq}
use venue_backend.Common.{
  ◌||◌, ℕ, String, Bool, not, ◌&&◌, Option, none, some, false, List, map, ltb, leb, ◌==◌,
  if◌then◌else◌, select, find, any,
}
use venue_backend.Shared.Values.{DateTimeRange, overlaps}
use venue_backend.Shared.Time.{DateTime}
use venue_backend.Shared.Text.{strip}
use venue_backend.Shared.Text.Case.{lower}
use venue_backend.Bookings.{Booking, is_pending, is_approved, is_active}
use venue_backend.Resources.Entity.{Resource}
use venue_backend.Ratings.{Rating}
use venue_backend.Catalog.Types.{ResourceType}
use venue_backend.Accounts.User.{User}
use venue_backend.Subscriptions.{OwnerSubscription, is_trialing}

-- service.py of app/domain/notifications
pub data NotifKind : Type 0 where
  subscription_changed booking_requested booking_approved booking_rejected booking_cancelled :
      NotifKind

-- A value of a payload: the text of a UUID, another text, or the ISO text of an instant.
pub data Datum : Type 0 where
  ident : ℕ → Datum
  words : String → Datum
  moment : ℕ → Datum

-- What `notify` is called with.
pub record Notice : Type 0 where
  pub recipient_id : ℕ
  pub kind : NotifKind
  pub payload : List (String × Datum)

pub record World : Type 0 where
  pub bookings : List Booking
  pub resources : List Resource
  pub subscriptions : List OwnerSubscription
  pub notices : List Notice
  pub ratings : List Rating
  pub resource_types : List ResourceType
  pub users : List User

-- `_overlaps_clause`
abbrev pub in_range : DateTimeRange → Booking → Bool
in_range r b = ltb b.slot_range.start_at r.end_at && ltb r.start_at b.slot_range.end_at

-- `get_by_id` of bookings, of resources, and `get_by_owner_id` of subscriptions.
abbrev pub get_booking : ℕ → World → Option Booking
get_booking id w = find (λ b. b.id == id) w.bookings

abbrev pub get_resource : ℕ → World → Option Resource
get_resource id w = find (λ r. r.id == id) w.resources

abbrev pub get_subscription : ℕ → World → Option OwnerSubscription
get_subscription owner_id w = find (λ s. s.owner_id == owner_id) w.subscriptions

abbrev pub list_active_by_customer_for_resource : ℕ → ℕ → DateTimeRange → World → List Booking
list_active_by_customer_for_resource customer_id resource_id range w =
    select
      (λ b.
        b.customer_id == customer_id
        && (b.resource_id == resource_id && (is_active b.status && in_range range b)))
      w.bookings

abbrev pub competes : ℕ → DateTimeRange → ℕ → Booking → Bool
competes resource_id range exclude b =
    b.resource_id == resource_id
    && (is_pending b.status && (in_range range b && not (b.id == exclude)))

abbrev pub list_pending_overlapping : ℕ → DateTimeRange → ℕ → World → List Booking
list_pending_overlapping resource_id range exclude w =
    select (competes resource_id range exclude) w.bookings

abbrev pub list_pending_with_start_before : ℕ → World → List Booking
list_pending_with_start_before cutoff w =
    select (λ b. is_pending b.status && ltb b.slot_range.start_at cutoff) w.bookings

abbrev pub list_pending_for_resource : ℕ → World → List Booking
list_pending_for_resource resource_id w =
    select (λ b. b.resource_id == resource_id && is_pending b.status) w.bookings

abbrev pub list_approved_with_start_after : ℕ → ℕ → World → List Booking
list_approved_with_start_after resource_id cutoff w =
    select
      (λ b.
        b.resource_id == resource_id && (is_approved b.status && leb cutoff b.slot_range.start_at))
      w.bookings

-- The constraint `bookings_no_approved_overlap` of the migration of the bookings table: whether
-- another approved row of the resource has an overlapping range.
abbrev pub excludes : Booking → Booking → Bool
excludes b y =
    not (y.id == b.id)
    && (y.resource_id == b.resource_id
        && (is_approved y.status && overlaps b.slot_range y.slot_range))

abbrev pub violates : Booking → List Booking → Bool
violates b rows = is_approved b.status && any (excludes b) rows

-- The row of `b` is set to the columns of `b`.
abbrev pub replace : Booking → List Booking → List Booking
replace b = map (λ y. if y.id == b.id then b else y)

abbrev pub replace_resource : Resource → List Resource → List Resource
replace_resource r = map (λ y. if y.id == r.id then r else y)

-- `get_by_booking_id` of ratings.
abbrev pub get_rating : ℕ → World → Option Rating
get_rating booking_id w = find (λ r. r.booking_id == booking_id) w.ratings

-- The primary key and `uq_ratings_booking` of the ratings table.
abbrev pub same_rating : Rating → Rating → Bool
same_rating r y = y.id == r.id || y.booking_id == r.booking_id

-- The row of `r` is set to the columns of `r`.
abbrev pub replace_rating : Rating → List Rating → List Rating
replace_rating r = map (λ y. if y.id == r.id then r else y)

-- `list_trialing_with_expiry_before`: the rows hold instants in UTC, or no end.
abbrev pub ends_before : ℕ → Option DateTime → Bool
ends_before threshold none = false
ends_before threshold (some t) = ltb t.wall threshold

abbrev pub is_expired_trial : ℕ → OwnerSubscription → Bool
is_expired_trial threshold s = is_trialing s.status && ends_before threshold s.trial_ends_at

abbrev pub list_trialing_with_expiry_before : ℕ → World → List OwnerSubscription
list_trialing_with_expiry_before threshold w = select (is_expired_trial threshold) w.subscriptions

-- The columns that the update of a subscription writes.
abbrev pub revise : OwnerSubscription → List OwnerSubscription → List OwnerSubscription
revise s = map (λ y.
    if y.id == s.id
    then record y {
      status = s.status;
      status_changed_at = s.status_changed_at;
      trial_ends_at = s.trial_ends_at;
      updated_at = s.updated_at;
    }
    else y)

-- `get_by_id` of the types of resources.
abbrev pub get_resource_type : ℕ → World → Option ResourceType
get_resource_type id w = find (λ t. t.id == id) w.resource_types

-- The primary key and the unique slug of the types of resources.
abbrev pub same_type : ResourceType → ResourceType → Bool
same_type t y = y.id == t.id || str_eq y.slug t.slug

-- The columns that the update of a type writes.
abbrev pub revise_type : ResourceType → List ResourceType → List ResourceType
revise_type t = map (λ y.
    if y.id == t.id
    then record y {
      slug = t.slug;
      name = t.name;
      description = t.description;
      is_active = t.is_active;
      attribute_schema = t.attribute_schema;
      updated_at = t.updated_at;
    }
    else y)

-- `get_by_id`, `get_by_email` and `get_by_public_slug` of the users.
abbrev pub get_user : ℕ → World → Option User
get_user id w = find (λ u. u.id == id) w.users

abbrev pub get_by_email : String → World → Option User
get_by_email email w = find (λ u. str_eq u.email (lower (strip email))) w.users

abbrev pub has_slug : String → Option String → Bool
has_slug slug none = false
has_slug slug (some s) = str_eq s slug

abbrev pub get_by_public_slug : String → World → Option User
get_by_public_slug slug w = find (λ u. has_slug slug u.public_slug) w.users

-- The primary key, the unique e-mail address and the unique slug of the users.
abbrev pub shares_slug : Option String → Option String → Bool
shares_slug none b = false
shares_slug (some slug) b = has_slug slug b

abbrev pub same_user : User → User → Bool
same_user u y = y.id == u.id || (str_eq y.email u.email || shares_slug u.public_slug y.public_slug)

-- The columns that the update of a user writes.
abbrev pub revise_user : User → List User → List User
revise_user u = map (λ y. if y.id == u.id then record u { created_at = y.created_at } else y)

-- The primary key of resources, and the unique pair of the owner and the slug.
abbrev pub same_resource : Resource → Resource → Bool
same_resource r y = y.id == r.id || (y.owner_id == r.owner_id && str_eq y.slug r.slug)
