-- ===== src/Resources/Entity/Creation.antt =====
-- `CustomAttribute.create` of custom_attribute.py, and `create` and `update_metadata` of resource.py.
pub mod Promised
use venue_backend.Common.{
  ℕ, String, Bool, false, Option, none, some, List, [], ◌∷◌, ◌++◌, is_empty, if◌then◌else◌,
}
use venue_backend.Shared.Result.{
  plain, FieldError, failure_many, Result, success, failed, field_errors, ◌>>=◌,
}
use venue_backend.Shared.Dicts.{Attributes}
use venue_backend.Shared.Time.{DateTime}
use venue_backend.Shared.Values.{
  Raw, Money, SlotDuration, CancellationCutoff, ShortDescription, create_money, create_duration,
  create_cutoff, create_description,
}
use venue_backend.Shared.Names.{
  create_key, create_short_name, create_name, create_slug, create_timezone,
}
use venue_backend.Resources.Schedule.{WeeklySchedule}
use venue_backend.Resources.Rules.{PricingRule, validate_pricing_rules}
use venue_backend.Resources.Entity.{CustomAttribute, Resource, validate_custom_attributes}

-- The arguments of `CustomAttribute.create`.
pub record CustomInput : Type 0 where
  pub key : Raw
  pub label : Raw
  pub content : Raw

abbrev custom_errors : CustomInput → List FieldError
custom_errors i =
    field_errors (plain "key") (create_key i.key)
    ++ (field_errors (plain "label") (create_short_name i.label)
        ++ field_errors (plain "value") (create_description i.content))

-- The value where there is no error; the errors of a value that failed are never empty.
abbrev pub customize :
    List FieldError
    → Result String
    → Result String
    → Result ShortDescription
    → Result CustomAttribute
customize [] (success key) (success label) (success value) =
    success (record { key = key; label = label; content = value.content })
customize errors _ _ _ = failed (failure_many errors none)

-- `CustomAttribute.create`
unfoldable pub create_custom : CustomInput → Result CustomAttribute
create_custom i =
    customize (custom_errors i) (create_key i.key) (create_short_name i.label)
      (create_description i.content)

-- The arguments of `Resource.create`.
pub record ResourceInput : Type 0 where
  pub owner_id : ℕ
  pub resource_type_id : ℕ
  pub slug : Raw
  pub name : Raw
  pub description : Raw
  pub city : Raw
  pub region : Raw
  pub timezone : Raw
  pub slot_duration_minutes : Raw
  pub operating_hours : WeeklySchedule
  pub base_price_cents : Raw
  pub customer_cancellation_cutoff_hours : Raw
  pub base_attributes : Attributes
  pub pricing_rules : List PricingRule
  pub custom_attributes : List CustomAttribute
  pub is_published : Bool

-- The values of the scalar arguments.
pub record Scalars : Type 0 where
  pub slug : Result String
  pub name : Result String
  pub description : Result ShortDescription
  pub city : Result String
  pub region : Result String
  pub timezone : Result String
  pub slot_duration : Result SlotDuration
  pub base_price : Result Money
  pub cutoff : Result CancellationCutoff

abbrev pub scalars_of : (String → Bool) → ResourceInput → Scalars
scalars_of available i = record {
  slug = create_slug i.slug;
  name = create_name i.name;
  description = create_description i.description;
  city = create_name i.city;
  region = create_name i.region;
  timezone = create_timezone available i.timezone;
  slot_duration = create_duration i.slot_duration_minutes;
  base_price = create_money i.base_price_cents;
  cutoff = create_cutoff i.customer_cancellation_cutoff_hours;
}

abbrev pub scalar_errors : Scalars → List FieldError
scalar_errors s =
    field_errors (plain "slug") s.slug
    ++ (field_errors (plain "name") s.name
        ++ (field_errors (plain "description") s.description
            ++ (field_errors (plain "city") s.city
                ++ (field_errors (plain "region") s.region
                    ++ (field_errors (plain "timezone") s.timezone
                        ++ (field_errors (plain "slot_duration_minutes") s.slot_duration
                            ++ (field_errors (plain "base_price_cents") s.base_price
                                ++ field_errors (plain "customer_cancellation_cutoff_hours")
                                    s.cutoff)))))))

-- The cross-rule checks, which run only where the slot duration is accepted.
abbrev pub rules_errors : Result SlotDuration → ResourceInput → List FieldError
rules_errors (success slot) i =
    validate_pricing_rules slot.minutes i.operating_hours i.pricing_rules
rules_errors (failed e) i = []

abbrev pub cross_errors : Result SlotDuration → ResourceInput → List FieldError
cross_errors slot i =
    rules_errors slot i ++ validate_custom_attributes i.base_attributes i.custom_attributes

-- The aggregate of the values. Where there is no error none of them has failed: see `Promised`.
abbrev pub build : ℕ → DateTime → ResourceInput → Scalars → Result Resource
build id now i s = s.slug >>= λ slug. s.name >>= λ name. s.description >>= λ description.
    s.city >>= λ city. s.region >>= λ region. s.timezone >>= λ timezone.
    s.slot_duration >>= λ slot_duration. s.base_price >>= λ base_price. s.cutoff >>= λ cutoff.
    success (record {
      id = id;
      owner_id = i.owner_id;
      resource_type_id = i.resource_type_id;
      slug = slug;
      name = name;
      description = description;
      city = city;
      region = region;
      timezone = timezone;
      slot_duration_minutes = slot_duration;
      operating_hours = i.operating_hours;
      base_price_cents = base_price;
      customer_cancellation_cutoff_hours = cutoff;
      base_attributes = i.base_attributes;
      is_published = i.is_published;
      deleted_at = none;
      pricing_rules = i.pricing_rules;
      custom_attributes = i.custom_attributes;
      created_at = now;
      updated_at = now;
    })

abbrev pub build_unless : List FieldError → ℕ → DateTime → ResourceInput → Scalars → Result Resource
build_unless [] id now i s = build id now i s
build_unless errors id now i s = failed (failure_many errors none)

-- `Resource.create`; `id` and `now` are what `uuid4()` and the clock give, and `available` is the
-- membership in `available_timezones()`.
unfoldable pub create_resource : (String → Bool) → ℕ → DateTime → ResourceInput → Result Resource
create_resource available id now i =
    let s = scalars_of available i in
    build_unless (scalar_errors s ++ cross_errors s.slot_duration i) id now i s
