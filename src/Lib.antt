-- ===== src/Lib.antt =====
-- A model of venue-backend, a service in which owners publish resources and customers book slots of
-- them, and proofs about it.
--
-- The parts, and the code that they model:
--   Shared: app/domain/shared. Result (result.py, field_error.py), Time (datetime as the code uses
--     it, and weekday.py), Text (str.strip, len and str.lower), Values (value_objects/money.py,
--     slot_duration.py, cancellation_cutoff.py, rating_score.py, short_description.py, time_window.py,
--     date_time_range.py: each `create` is `create_...`), Names (name.py, short_name.py,
--     attribute_key.py, slug.py, email.py, iana_timezone.py), Phone (brazilian_phone.py), Clock (the
--     texts of times of day in resource_repository.py and create_resource.py), Dicts, Optional.
--   Bookings: app/domain/bookings. Status (booking_status.py, status_change.py, and role.py of
--     accounts), Entity (booking.py); Lifecycle and Life are about what the calls of a booking can do.
--   Resources: app/domain/resources. Schedule (weekly_schedule.py), Rules (pricing_rule.py and
--     `_validate_pricing_rules`), Entity (the mutators of resource.py), Entity.Creation
--     (`Resource.create` and custom_attribute.py), Pricing (`compute_price`), Rows (the mapping of
--     app/infrastructure/repositories/resource_repository.py between a resource and its row).
--   Catalog: app/domain/catalog. Definition (attribute.py), Types (resource_type.py), Rows (the mapping
--     of resource_type_repository.py).
--   Accounts: User (app/domain/accounts/user.py), Slugify
--     (app/use_cases/accounts/commands/_slugify.py), Rows (the mapping of user_repository.py).
--   Ratings: app/domain/ratings (rating.py).
--   Subscriptions: app/domain/subscriptions (sub_status.py, owner_subscription.py).
--   Notifications: app/domain/notifications/notification.py, notification_repository.py, and the two
--     handlers of app/use_cases/notifications, on a table of their own.
--   Store: the tables and the repositories of app/infrastructure/repositories. Tables has the rows and
--     the queries, Runs the updates, the notifications and what a handler's run is; the other children
--     are about runs and rows.
--   UseCases: the handlers of app/use_cases. Request, Approve, Decide (reject and cancel) and Expire
--     are bookings/commands; SoftDelete, Manage, Create and Inputs (what the commands of a resource
--     parse) are resources/commands, with `load_owned_resource` of resources/_common.py; Trials and
--     SetStatus are subscriptions/commands; Agenda is bookings/queries/get_agenda.py; Accounts is
--     accounts/commands; Catalog is catalog/commands; Rate is ratings/commands (create_rating.py is
--     `create_rating`, update_rating.py `change_rating`). Steps, Consistent and Distinct are about any
--     runs of the booking handlers one after another, Calendar about each of their calls.
--   Common: shared names, tests and lists. Examples: the theorems at concrete values.
-- A handler calls the entities for its decision and the store for its effect: an entity's method
-- returns the new entity or its failure, and the handler's run passes the tables on.
--
-- State. An entity's mutation is a function to the new entity. A handler is an `Action`: from the
-- tables to its value with the tables, to a failed Result with the tables as they are then, or to a
-- raised exception, after which get_session (app/infrastructure/db/session.py) rolls back. Where
-- another transaction may run between two steps of a handler, a function `wait` on the tables says
-- what it does: before the lock of approve_booking, and before the update of a rejection and of a
-- cancellation. The part of approve_booking under the lock is one step: the lock keeps out the other
-- approvals of the resource, but not the handlers that take no lock (rejection, cancellation, expiry
-- and deletion), whose interleaving with that part is not modelled. A reading of the clock is an
-- argument, one for each reading.
--
-- Abstraction. UseCases.Calendar is a specification of the booking handlers: a calendar says which
-- booking holds a resource at an instant, and forgets requests, histories, prices and the order of
-- the rows; `Effect` says what each call does to it.
--
-- Numbers. An instant is a number of microseconds since 0001-01-01 in UTC, the resolution of
-- datetime; a time of day is one since midnight. Amounts, minutes and identifiers are natural numbers;
-- an argument that the code tests by isinstance is a `Raw` or a `Typed`. Dates stay below the year
-- 10000, where datetime would raise OverflowError.
--
-- Loops. The two walks over slots (`compute_price` and `_validate_alignment_and_hours`) recurse on
-- fuel, one more than the length of the range in microseconds; each step moves the cursor by at least
-- a microsecond, so the fuel is enough, which the theorems about them include. The walk of the agenda
-- has the same fuel, and `generate_slots_ends` of UseCases.Agenda.Slots for it. The reader of the
-- notification pages has fuel for its pages, and the theorem asks for one more than the
-- notifications. All others recurse on lists.
--
-- Texts. The regular expressions are scans over the characters. str.strip and str.lower are written
-- for the code points that matter: the spaces of Unicode, and the capitals whose small letter is in
-- ASCII; another capital stays as it is, and is refused by the formats that follow a lowering just
-- as its small letter is.
--
-- Parameters. The time-zone data are not part of the program: `ZoneData` is what the clock of a
-- zone reads at an instant, without any hypothesis; the agenda takes also what instant a reading of
-- the clock stands for; and the membership in available_timezones() is a function. The decimal
-- digits of Unicode are a table `digit`, of which a theorem may ask that it has the digits of
-- ASCII. The ASCII form of a name (unicodedata.normalize), the random part of a slug, the password
-- hasher and the token service are arguments.
--
-- Assumptions. A row of a table stands for the entity that the repository makes of it; the database is
-- PostgreSQL, with the exclusion constraint of the bookings table. Theorems that need a price on every
-- row say so: the column is not nullable; so do theorems that need the ids of a table to be distinct,
-- as its primary key makes them. The identifiers of new rows are arguments.
--
-- Not modelled: the listings, which only read; the adapters of the hasher and of the tokens, the
-- HTTP layer, the DTOs, the mapping of the rows of the other tables, the cache, the configuration
-- and the jobs that call the handlers.
pub mod Common
pub mod Shared
pub mod Bookings
pub mod Resources
pub mod Catalog
pub mod Subscriptions
pub mod Accounts
pub mod Ratings
pub mod Store
pub mod Notifications
pub mod UseCases
mod Examples
