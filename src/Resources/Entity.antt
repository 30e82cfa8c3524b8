-- ===== src/Resources/Entity.antt =====
-- resource.py: the aggregate and its mutators. A mutator returns the new aggregate, or its failure;
-- the aggregate is then as it was. `now` is what `_utcnow()` reads.
pub mod Invariant
pub mod Identity
pub mod Creation
use text.Mathlib.Text.{◌==◌ as str_eq}
use venue_backend.Common.{
  ℕ, ◌+◌, String, Bool, true, false, ◌||◌, Option, none, some, List, [], ◌∷◌, ◌++◌, map,
  if◌then◌else◌, any, is_empty, is_some,
}
use venue_backend.Shared.Result.{
  indexed, FieldError, failure_many, Result, success, failed, ◌>>=◌, unless_errors,
}
use venue_backend.Shared.Dicts.{Attributes, has_key, keys_of}
use venue_backend.Shared.Time.{DateTime, is_naive}
use venue_backend.Shared.Values.{
  Raw, fail_with, Money, SlotDuration, CancellationCutoff, ShortDescription, create_description,
}
use venue_backend.Shared.Optional.{errors_of, value_or}
use venue_backend.Shared.Names.{create_name}
use venue_backend.Resources.Schedule.{WeeklySchedule, for_weekday, create_schedule}
use venue_backend.Resources.Rules.{PricingRule, validate_pricing_rules}

-- custom_attribute.py: the values of its `AttributeKey`, `ShortName` and `ShortDescription`.
pub record CustomAttribute : Type 0 where
  pub key : String
  pub label : String
  pub content : String

pub record Resource : Type 0 where
  pub id : ℕ
  pub owner_id : ℕ
  pub resource_type_id : ℕ
  pub slug : String
  pub name : String
  pub description : ShortDescription
  pub city : String
  pub region : String
  pub timezone : String
  pub slot_duration_minutes : SlotDuration
  pub operating_hours : WeeklySchedule
  pub base_price_cents : Money
  pub customer_cancellation_cutoff_hours : CancellationCutoff
  pub base_attributes : Attributes
  pub is_published : Bool
  pub deleted_at : Option DateTime
  pub pricing_rules : List PricingRule
  pub custom_attributes : List CustomAttribute
  pub created_at : DateTime
  pub updated_at : DateTime

abbrev attribute_error : String → ℕ → List FieldError
attribute_error code idx = record { code = code; field = indexed "custom_attributes" idx } ∷ []

-- The loop of `_validate_custom_attributes`; `seen` grows by every key.
unfoldable pub attribute_errors :
    List String → ℕ → List String → List CustomAttribute → List FieldError
attribute_errors base idx seen [] = []
attribute_errors base idx seen (attr ∷ attrs) =
    (if has_key attr.key seen then attribute_error "DuplicateCustomAttributeKey" idx else [])
    ++ ((if has_key attr.key base
          then attribute_error "CustomAttributeKeyConflictsWithBase" idx
          else [])
        ++ attribute_errors base (idx + 1) (attr.key ∷ seen) attrs)

-- `_validate_custom_attributes`
abbrev pub validate_custom_attributes : Attributes → List CustomAttribute → List FieldError
validate_custom_attributes base customs = attribute_errors (keys_of base) 0 [] customs

-- The arguments of `update_metadata`.
pub record MetadataInput : Type 0 where
  pub name : Option Raw
  pub description : Option Raw
  pub city : Option Raw
  pub region : Option Raw

abbrev pub is_given : MetadataInput → Bool
is_given i = is_some i.name || is_some i.description || is_some i.city || is_some i.region

abbrev pub metadata_errors : MetadataInput → List FieldError
metadata_errors i =
    errors_of "name" create_name i.name
    ++ (errors_of "description" create_description i.description
        ++ (errors_of "city" create_name i.city ++ errors_of "region" create_name i.region))

abbrev pub with_metadata : Resource → MetadataInput → DateTime → Resource
with_metadata r i now = record r {
  name = value_or r.name create_name i.name;
  description = value_or r.description create_description i.description;
  city = value_or r.city create_name i.city;
  region = value_or r.region create_name i.region;
  updated_at = now;
}

unfoldable pub update_metadata : Resource → MetadataInput → DateTime → Result Resource
update_metadata r i now =
    if is_given i then unless_errors (metadata_errors i) (with_metadata r i now) else success r

unfoldable pub replace_operating_hours : Resource → WeeklySchedule → DateTime → Result Resource
replace_operating_hours r hours now =
    unless_errors (validate_pricing_rules r.slot_duration_minutes.minutes hours r.pricing_rules)
      (record r { operating_hours = hours; updated_at = now })

unfoldable pub replace_pricing_rules : Resource → List PricingRule → DateTime → Result Resource
replace_pricing_rules r rules now =
    unless_errors (validate_pricing_rules r.slot_duration_minutes.minutes r.operating_hours rules)
      (record r { pricing_rules = rules; updated_at = now })

unfoldable pub replace_base_attributes : Resource → Attributes → DateTime → Result Resource
replace_base_attributes r attrs now =
    unless_errors (validate_custom_attributes attrs r.custom_attributes)
      (record r { base_attributes = attrs; updated_at = now })

unfoldable pub replace_custom_attributes :
    Resource → List CustomAttribute → DateTime → Result Resource
replace_custom_attributes r attrs now =
    unless_errors (validate_custom_attributes r.base_attributes attrs)
      (record r { custom_attributes = attrs; updated_at = now })

unfoldable pub set_base_price : Resource → Money → DateTime → Resource
set_base_price r price now = record r { base_price_cents = price; updated_at = now }

unfoldable pub set_cancellation_cutoff : Resource → CancellationCutoff → DateTime → Resource
set_cancellation_cutoff r cutoff now = record r {
  customer_cancellation_cutoff_hours = cutoff;
  updated_at = now;
}

unfoldable pub set_slot_duration : Resource → SlotDuration → DateTime → Result Resource
set_slot_duration r duration now =
    create_schedule duration.minutes (for_weekday r.operating_hours) >>= λ rebuilt.
    unless_errors (validate_pricing_rules duration.minutes rebuilt r.pricing_rules)
      (record r { slot_duration_minutes = duration; operating_hours = rebuilt; updated_at = now })

unfoldable pub publish : Resource → DateTime → Resource
publish r now = record r { is_published = true; updated_at = now }

unfoldable pub unpublish : Resource → DateTime → Resource
unpublish r now = record r { is_published = false; updated_at = now }

abbrev pub is_deleted : Resource → Bool
is_deleted r = is_some r.deleted_at

unfoldable pub soft_delete : Resource → DateTime → Result Resource
soft_delete r now =
    if is_naive now.tzinfo
    then fail_with "ResourceDeletedAtNotTzAware"
    else if is_some r.deleted_at
    then fail_with "ResourceAlreadyDeleted"
    else success (record r { deleted_at = some now; updated_at = now })
