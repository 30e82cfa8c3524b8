-- ===== src/UseCases/Create.antt =====
-- CreateResourceHandler of create_resource.py. The `ResourceDto` that it returns is the resource.
pub mod Accepts
use venue_backend.Common.{
  ℕ, suc, String, Bool, true, false, not, ◌&&◌, ◌||◌, Option, none, some, List, [], ◌∷◌, ◌++◌, any,
  is_empty, is_some, if◌then◌else◌, ◌==◌,
}
use venue_backend.Shared.Result.{
  plain, FieldError, failure_many, Result, success, failed, with_status, nested,
}
use venue_backend.Shared.Time.{ℤ, pos, negsuc, utc, Weekday, weekdays}
use venue_backend.Shared.Values.{Raw, integer, TimeWindow}
use venue_backend.Shared.Dicts.{Attributes}
use venue_backend.Catalog.Types.{ResourceType, validate_attributes}
use venue_backend.Accounts.User.{User, is_owner}
use venue_backend.Resources.Schedule.{WeeklySchedule, create_schedule}
use venue_backend.Resources.Rules.{PricingRule}
use venue_backend.Resources.Entity.{CustomAttribute, Resource}
use venue_backend.Resources.Entity.Creation.{CustomInput, ResourceInput, create_resource}
use venue_backend.Store.{
  Action, ensure_or_raise, pure, ◌>>=◌, ◌>>◌, ask, error, some_or, ensure, lift, get_user,
  get_resource_type, add_resource,
}
use venue_backend.UseCases.Inputs.{
  DaysInput, PricingRuleInput, customs_errors, customs_built, rules_built, days_errors, days_built,
  days_overflow, rules_overflow,
}

pub record CreateResourceCommand : Type 0 where
  pub actor_id : ℕ
  pub resource_type_id : ℕ
  pub slug : Raw
  pub name : Raw
  pub description : Raw
  pub city : Raw
  pub region : Raw
  pub timezone : Raw
  pub slot_duration_minutes : ℤ
  pub operating_hours : DaysInput
  pub base_price_cents : Raw
  pub customer_cancellation_cutoff_hours : Raw
  pub base_attributes : Attributes
  pub pricing_rules : List PricingRuleInput
  pub custom_attributes : List CustomInput

-- What a creation takes from outside the program: the id of `uuid4()`, a reading of the clock, the
-- table of the digits, and the membership in `available_timezones()`.
pub record Surroundings : Type 0 where
  pub id : ℕ
  pub now : ℕ
  pub digit : ℕ → Option ℕ
  pub available : String → Bool

-- `x % slot == 0` asks only for the size of `slot`.
abbrev pub modulus : ℤ → ℕ
modulus (pos n) = n
modulus (negsuc n) = suc n

-- The first remainder by a slot of 0 minutes is a `ZeroDivisionError`.
abbrev pub divides_by_zero : ℤ → (Weekday → List TimeWindow) → Bool
divides_by_zero slot days = modulus slot == 0 && any (λ wd. not (is_empty (days wd))) weekdays

-- The building of the parts raises: a window of the hours or of a rule has a number too large for
-- `time`, or a remainder is by 0.
abbrev pub building_raises : Surroundings → CreateResourceCommand → Bool
building_raises env cmd =
    days_overflow env.digit cmd.operating_hours
    || (divides_by_zero cmd.slot_duration_minutes (days_built env.digit cmd.operating_hours)
        || rules_overflow env.digit cmd.pricing_rules)

abbrev pub resource_input :
    CreateResourceCommand → WeeklySchedule → List PricingRule → List CustomAttribute → ResourceInput
resource_input cmd hours rules customs = record {
  owner_id = cmd.actor_id;
  resource_type_id = cmd.resource_type_id;
  slug = cmd.slug;
  name = cmd.name;
  description = cmd.description;
  city = cmd.city;
  region = cmd.region;
  timezone = cmd.timezone;
  slot_duration_minutes = integer cmd.slot_duration_minutes;
  operating_hours = hours;
  base_price_cents = cmd.base_price_cents;
  customer_cancellation_cutoff_hours = cmd.customer_cancellation_cutoff_hours;
  base_attributes = cmd.base_attributes;
  pricing_rules = rules;
  custom_attributes = customs;
  is_published = false;
}

-- `Resource.create`, where there is a schedule; `none` where it is not called.
abbrev pub created_with :
    Surroundings
    → CreateResourceCommand
    → List PricingRule
    → List CustomAttribute
    → Result WeeklySchedule
    → Option (Result Resource)
created_with env cmd rules customs (success hours) =
    some
      (create_resource env.available env.id (utc env.now) (resource_input cmd hours rules customs))
created_with env cmd rules customs (failed e) = none

-- `errors.extend(res_r.details)`
abbrev pub details_of : Option (Result Resource) → List FieldError
details_of (some (failed (failure_many details status))) = details
details_of _ = []

-- The resource where no error was found; a call that was not made, or failed, has left one.
abbrev pub bail_or : List FieldError → Option (Result Resource) → Result Resource
bail_or [] (some (success r)) = success r
bail_or errors _ = failed (failure_many errors none)

-- The building of the parts, all errors together.
unfoldable pub build_resource :
    Surroundings → CreateResourceCommand → ResourceType → Result Resource
build_resource env cmd rt =
    let days = days_built env.digit cmd.operating_hours in
    let schedule = create_schedule (modulus cmd.slot_duration_minutes) days in
    let rules = rules_built env.digit 0 cmd.pricing_rules in
    let created = created_with env cmd rules.1 (customs_built cmd.custom_attributes) schedule in
    bail_or
      (days_errors env.digit cmd.operating_hours
        ++ (nested (plain "operating_hours") schedule
            ++ (rules.0
                ++ (customs_errors 0 cmd.custom_attributes
                    ++ (nested (plain "base_attributes")
                          (validate_attributes rt cmd.base_attributes)
                        ++ details_of created)))))
      created

abbrev pub owns : Option User → Bool
owns none = false
owns (some u) = is_owner u.role

abbrev pub slug_of : Option User → Option String
slug_of none = none
slug_of (some u) = u.public_slug

-- `CreateResourceHandler.handle`. The end reads `user.public_slug.value`, an `AttributeError` where the
-- owner has no slug.
unfoldable pub handle_create : Surroundings → CreateResourceCommand → Action Resource
handle_create env cmd = do
  user ← ask (get_user cmd.actor_id)
  ensure (owns user) (error "UserIsNotOwner" 403)
  rt ← some_or (error "ResourceTypeNotFound" 404) (← ask (get_resource_type cmd.resource_type_id))
  ensure rt.is_active (error "ResourceTypeInactive" 422)
  ensure_or_raise (not (building_raises env cmd))
  res ← lift (with_status 400 (build_resource env cmd rt))
  add_resource res
  ensure_or_raise (is_some (slug_of user))
  pure res
