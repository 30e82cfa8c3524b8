-- ===== src/UseCases/Manage.antt =====
-- What an owner does to a resource: set_base_price.py, set_cancellation_cutoff.py,
-- set_slot_duration.py, publish_resource.py, update_resource_metadata.py,
-- replace_custom_attributes.py, replace_base_attributes.py, replace_pricing_rules.py and
-- replace_operating_hours.py of app/use_cases/resources/commands. `digit` is the table of the digits
-- that `int` reads. `now` is what
-- `_utcnow()` of resource.py reads.
pub mod Owned
pub mod Kept
use venue_backend.Common.{ℕ, Bool, false, not, Option, none, List, [], ◌∷◌, ◌++◌}
use venue_backend.Shared.Result.{
  plain, FieldError, failure_many, Result, success, failed, with_status, nested, unless_errors,
}
use venue_backend.Shared.Time.{utc}
use venue_backend.Shared.Values.{Raw, create_money, create_cutoff, create_duration}
use venue_backend.Shared.Dicts.{Attributes}
use venue_backend.Catalog.Types.{validate_attributes}
use venue_backend.Resources.Schedule.{WeeklySchedule, create_schedule}
use venue_backend.Resources.Entity.{
  MetadataInput, set_base_price, set_cancellation_cutoff, set_slot_duration, publish, unpublish,
  update_metadata, replace_custom_attributes, replace_base_attributes, replace_pricing_rules,
  replace_operating_hours,
}
use venue_backend.Resources.Entity.Creation.{CustomInput}
use venue_backend.Store.{
  Action, ◌>>=◌, ◌>>◌, ask, error, some_or, lift, ensure_or_raise, update_resource,
  get_resource_type,
}
use venue_backend.UseCases.Inputs.{
  DaysInput, PricingRuleInput, customs_errors, customs_built, rules_built, days_errors, days_built,
  days_overflow, rules_overflow,
}
use venue_backend.UseCases.SoftDelete.{load_owned_resource}

pub record SetBasePriceCommand : Type 0 where
  pub actor_id : ℕ
  pub resource_id : ℕ
  pub base_price_cents : Raw

pub record SetCancellationCutoffCommand : Type 0 where
  pub actor_id : ℕ
  pub resource_id : ℕ
  pub hours : Raw

pub record SetSlotDurationCommand : Type 0 where
  pub actor_id : ℕ
  pub resource_id : ℕ
  pub minutes : Raw

pub record PublishResourceCommand : Type 0 where
  pub actor_id : ℕ
  pub resource_id : ℕ

pub record UnpublishResourceCommand : Type 0 where
  pub actor_id : ℕ
  pub resource_id : ℕ

-- `SetBasePriceHandler.handle`
unfoldable pub handle_base_price : SetBasePriceCommand → ℕ → Action (Unit {0})
handle_base_price cmd now = do
  res ← load_owned_resource cmd.resource_id cmd.actor_id
  money ← lift (with_status 400 (create_money cmd.base_price_cents))
  update_resource (set_base_price res money (utc now))

-- `SetCancellationCutoffHandler.handle`
unfoldable pub handle_cancellation_cutoff : SetCancellationCutoffCommand → ℕ → Action (Unit {0})
handle_cancellation_cutoff cmd now = do
  res ← load_owned_resource cmd.resource_id cmd.actor_id
  cutoff ← lift (with_status 400 (create_cutoff cmd.hours))
  update_resource (set_cancellation_cutoff res cutoff (utc now))

-- `SetSlotDurationHandler.handle`
unfoldable pub handle_slot_duration : SetSlotDurationCommand → ℕ → Action (Unit {0})
handle_slot_duration cmd now = do
  res ← load_owned_resource cmd.resource_id cmd.actor_id
  slot ← lift (with_status 400 (create_duration cmd.minutes))
  updated ← lift (with_status 400 (set_slot_duration res slot (utc now)))
  update_resource updated

-- `PublishResourceHandler.handle`
unfoldable pub handle_publish : PublishResourceCommand → ℕ → Action (Unit {0})
handle_publish cmd now = do
  res ← load_owned_resource cmd.resource_id cmd.actor_id
  update_resource (publish res (utc now))

-- `UnpublishResourceHandler.handle`
unfoldable pub handle_unpublish : UnpublishResourceCommand → ℕ → Action (Unit {0})
handle_unpublish cmd now = do
  res ← load_owned_resource cmd.resource_id cmd.actor_id
  update_resource (unpublish res (utc now))

pub record UpdateResourceMetadataCommand : Type 0 where
  pub actor_id : ℕ
  pub resource_id : ℕ
  pub metadata : MetadataInput

pub record ReplaceCustomAttributesCommand : Type 0 where
  pub actor_id : ℕ
  pub resource_id : ℕ
  pub custom_attributes : List CustomInput

pub record ReplaceBaseAttributesCommand : Type 0 where
  pub actor_id : ℕ
  pub resource_id : ℕ
  pub base_attributes : Attributes

pub record ReplacePricingRulesCommand : Type 0 where
  pub actor_id : ℕ
  pub resource_id : ℕ
  pub pricing_rules : List PricingRuleInput

pub record ReplaceOperatingHoursCommand : Type 0 where
  pub actor_id : ℕ
  pub resource_id : ℕ
  pub operating_hours : DaysInput

-- `UpdateResourceMetadataHandler.handle`
unfoldable pub handle_metadata : UpdateResourceMetadataCommand → ℕ → Action (Unit {0})
handle_metadata cmd now = do
  res ← load_owned_resource cmd.resource_id cmd.actor_id
  updated ← lift (with_status 400 (update_metadata res cmd.metadata (utc now)))
  update_resource updated

-- `ReplaceCustomAttributesHandler.handle`
unfoldable pub handle_custom_attributes : ReplaceCustomAttributesCommand → ℕ → Action (Unit {0})
handle_custom_attributes cmd now = do
  res ← load_owned_resource cmd.resource_id cmd.actor_id
  customs ← lift (
      with_status 400 (
        unless_errors (customs_errors 0 cmd.custom_attributes)
          (customs_built cmd.custom_attributes)))
  updated ← lift (with_status 400 (replace_custom_attributes res customs (utc now)))
  update_resource updated

-- `ReplaceBaseAttributesHandler.handle`: the errors of the attributes come with their place.
unfoldable pub handle_base_attributes : ReplaceBaseAttributesCommand → ℕ → Action (Unit {0})
handle_base_attributes cmd now = do
  res ← load_owned_resource cmd.resource_id cmd.actor_id
  rt ← some_or (error "ResourceTypeNotFound" 404) (← ask (get_resource_type res.resource_type_id))
  lift (
      with_status 400 (
        unless_errors
          (nested (plain "base_attributes") (validate_attributes rt cmd.base_attributes)) (tt {0})))
  updated ← lift (with_status 400 (replace_base_attributes res cmd.base_attributes (utc now)))
  update_resource updated

-- `ReplacePricingRulesHandler.handle`
unfoldable pub handle_pricing_rules :
    (ℕ → Option ℕ) → ReplacePricingRulesCommand → ℕ → Action (Unit {0})
handle_pricing_rules digit cmd now = do
  res ← load_owned_resource cmd.resource_id cmd.actor_id
  ensure_or_raise (not (rules_overflow digit cmd.pricing_rules))
  let built = rules_built digit 0 cmd.pricing_rules
  rules ← lift (with_status 400 (unless_errors built.0 built.1))
  updated ← lift (with_status 400 (replace_pricing_rules res rules (utc now)))
  update_resource updated

-- The errors of the windows, then those of the schedule with their place; then the schedule.
abbrev pub hours_or_errors : List FieldError → Result WeeklySchedule → Result WeeklySchedule
hours_or_errors [] (success hours) = success hours
hours_or_errors errors hours =
    failed (failure_many (errors ++ nested (plain "operating_hours") hours) none)

-- `ReplaceOperatingHoursHandler.handle`
unfoldable pub handle_operating_hours :
    (ℕ → Option ℕ) → ReplaceOperatingHoursCommand → ℕ → Action (Unit {0})
handle_operating_hours digit cmd now = do
  res ← load_owned_resource cmd.resource_id cmd.actor_id
  ensure_or_raise (not (days_overflow digit cmd.operating_hours))
  hours ← lift (
      with_status 400 (
        hours_or_errors (days_errors digit cmd.operating_hours) (
          create_schedule res.slot_duration_minutes.minutes
            (days_built digit cmd.operating_hours))))
  updated ← lift (with_status 400 (replace_operating_hours res hours (utc now)))
  update_resource updated

-- Any of these commands.
pub data ManageCommand : Type 0 where
  base_price : SetBasePriceCommand → ManageCommand
  cancellation_cutoff : SetCancellationCutoffCommand → ManageCommand
  slot_duration : SetSlotDurationCommand → ManageCommand
  publishing : PublishResourceCommand → ManageCommand
  unpublishing : UnpublishResourceCommand → ManageCommand
  metadata : UpdateResourceMetadataCommand → ManageCommand
  custom_attributes : ReplaceCustomAttributesCommand → ManageCommand
  base_attributes : ReplaceBaseAttributesCommand → ManageCommand
  pricing_rules : (ℕ → Option ℕ) → ReplacePricingRulesCommand → ManageCommand
  operating_hours : (ℕ → Option ℕ) → ReplaceOperatingHoursCommand → ManageCommand

abbrev pub actor_of : ManageCommand → ℕ
actor_of (base_price cmd) = cmd.actor_id
actor_of (cancellation_cutoff cmd) = cmd.actor_id
actor_of (slot_duration cmd) = cmd.actor_id
actor_of (publishing cmd) = cmd.actor_id
actor_of (unpublishing cmd) = cmd.actor_id
actor_of (metadata cmd) = cmd.actor_id
actor_of (custom_attributes cmd) = cmd.actor_id
actor_of (base_attributes cmd) = cmd.actor_id
actor_of (pricing_rules digit cmd) = cmd.actor_id
actor_of (operating_hours digit cmd) = cmd.actor_id

abbrev pub target_of : ManageCommand → ℕ
target_of (base_price cmd) = cmd.resource_id
target_of (cancellation_cutoff cmd) = cmd.resource_id
target_of (slot_duration cmd) = cmd.resource_id
target_of (publishing cmd) = cmd.resource_id
target_of (unpublishing cmd) = cmd.resource_id
target_of (metadata cmd) = cmd.resource_id
target_of (custom_attributes cmd) = cmd.resource_id
target_of (base_attributes cmd) = cmd.resource_id
target_of (pricing_rules digit cmd) = cmd.resource_id
target_of (operating_hours digit cmd) = cmd.resource_id

-- Whether a command has a window with a number too large for `time`, which raises an exception.
abbrev pub overflows : ManageCommand → Bool
overflows (pricing_rules digit cmd) = rules_overflow digit cmd.pricing_rules
overflows (operating_hours digit cmd) = days_overflow digit cmd.operating_hours
overflows _ = false

abbrev pub manage : ManageCommand → ℕ → Action (Unit {0})
manage (base_price cmd) now = handle_base_price cmd now
manage (cancellation_cutoff cmd) now = handle_cancellation_cutoff cmd now
manage (slot_duration cmd) now = handle_slot_duration cmd now
manage (publishing cmd) now = handle_publish cmd now
manage (unpublishing cmd) now = handle_unpublish cmd now
manage (metadata cmd) now = handle_metadata cmd now
manage (custom_attributes cmd) now = handle_custom_attributes cmd now
manage (base_attributes cmd) now = handle_base_attributes cmd now
manage (pricing_rules digit cmd) now = handle_pricing_rules digit cmd now
manage (operating_hours digit cmd) now = handle_operating_hours digit cmd now
