-- ===== src/Resources/Rows.antt =====
-- The row of a resource: `_to_model_kwargs` and `_to_entity` of resource_repository.py and the
-- functions for its JSON columns. `none` is an exception of the reading.
pub mod Again
use text.Mathlib.Text.{◌==◌ as str_eq}
use venue_backend.Common.{
  ℕ, String, Bool, true, false, Option, none, some, List, [], ◌∷◌, map, find, select, if◌then◌else◌,
}
use venue_backend.Shared.Dicts.{Attributes}
use venue_backend.Shared.Time.{
  DateTime, utc, is_naive, Weekday, monday, tuesday, wednesday, thursday, friday, saturday, sunday,
}
use venue_backend.Shared.Values.{TimeWindow}
use venue_backend.Shared.Clock.{time_to_str, str_to_time}
use venue_backend.Resources.Schedule.{WeeklySchedule, for_weekday}
use venue_backend.Resources.Rules.{PricingRule, covers_day}
use venue_backend.Resources.Entity.{CustomAttribute, Resource}

-- `{"start": ..., "end": ...}`
pub record WindowRow : Type 0 where
  pub start : String
  pub end : String

pub record RuleRow : Type 0 where
  pub weekdays : List String
  pub window : WindowRow
  pub price_cents : ℕ

pub record CustomRow : Type 0 where
  pub key : String
  pub label : String
  pub value : String

-- The values of `Weekday`, and `wd.value.lower()`.
abbrev pub value_of : Weekday → String
value_of monday = "MONDAY"
value_of tuesday = "TUESDAY"
value_of wednesday = "WEDNESDAY"
value_of thursday = "THURSDAY"
value_of friday = "FRIDAY"
value_of saturday = "SATURDAY"
value_of sunday = "SUNDAY"

abbrev pub key_of : Weekday → String
key_of monday = "monday"
key_of tuesday = "tuesday"
key_of wednesday = "wednesday"
key_of thursday = "thursday"
key_of friday = "friday"
key_of saturday = "saturday"
key_of sunday = "sunday"

-- The members of `Weekday` by the order of their values as texts.
abbrev pub by_value : List Weekday
by_value = friday ∷ monday ∷ saturday ∷ sunday ∷ thursday ∷ tuesday ∷ wednesday ∷ []

-- `Weekday(w)`
abbrev pub weekday_at : String → Option Weekday
weekday_at w = find (λ wd. str_eq (value_of wd) w) by_value

abbrev pub write_window : TimeWindow → WindowRow
write_window w = record { start = time_to_str w.start; end = time_to_str w.end }

-- `_serialize_schedule`
unfoldable pub serialize_schedule : WeeklySchedule → List (String × List WindowRow)
serialize_schedule ws =
    map (λ wd. (key_of wd, map write_window (for_weekday ws wd)))
      (monday ∷ tuesday ∷ wednesday ∷ thursday ∷ friday ∷ saturday ∷ sunday ∷ [])

-- `sorted(wd.value for wd in r.weekdays)`
abbrev pub write_weekdays : List Weekday → List String
write_weekdays wds = map value_of (select (λ wd. covers_day wd wds) by_value)

abbrev pub write_rule : PricingRule → RuleRow
write_rule r = record {
  weekdays = write_weekdays r.weekdays;
  window = write_window r.window;
  price_cents = r.price.cents;
}

-- `_serialize_pricing_rules`
abbrev pub serialize_pricing_rules : List PricingRule → List RuleRow
serialize_pricing_rules = map write_rule

-- `_serialize_custom_attrs`
abbrev pub write_custom : CustomAttribute → CustomRow
write_custom a = record { key = a.key; label = a.label; value = a.content }

abbrev pub serialize_custom_attrs : List CustomAttribute → List CustomRow
serialize_custom_attrs = map write_custom

-- A comprehension whose items may raise.
abbrev pub cons_option {ℓ} : {A : Type ℓ} → Option A → Option (List A) → Option (List A)
cons_option (some a) (some more) = some (a ∷ more)
cons_option _ _ = none

abbrev pub traverse {ℓ κ} : {A : Type ℓ} {B : Type κ} → (A → Option B) → List A → Option (List B)
traverse f [] = some []
traverse f (x ∷ xs) = cons_option (f x) (traverse f xs)

abbrev pub window_at : Option ℕ → Option ℕ → Option TimeWindow
window_at (some start) (some end) = some (record { start = start; end = end })
window_at _ _ = none

-- `payload.get(key, [])`
abbrev pub windows_of : String → List (String × List WindowRow) → List WindowRow
windows_of key [] = []
windows_of key ((k, rows) ∷ payload) = if str_eq k key then rows else windows_of key payload

abbrev pub week_of :
    Option (List TimeWindow)
    → Option (List TimeWindow)
    → Option (List TimeWindow)
    → Option (List TimeWindow)
    → Option (List TimeWindow)
    → Option (List TimeWindow)
    → Option (List TimeWindow)
    → Option WeeklySchedule
week_of (some mo) (some tu) (some we) (some th) (some fr) (some sa) (some su) = some (record {
  on_monday = mo;
  on_tuesday = tu;
  on_wednesday = we;
  on_thursday = th;
  on_friday = fr;
  on_saturday = sa;
  on_sunday = su;
})
week_of _ _ _ _ _ _ _ = none

abbrev pub rule_at : Option (List Weekday) → Option TimeWindow → ℕ → Option PricingRule
rule_at (some wds) (some w) cents =
    some (record { weekdays = wds; window = w; price = record { cents = cents } })
rule_at _ _ cents = none

-- `_deserialize_custom_attrs`
abbrev pub read_custom : CustomRow → CustomAttribute
read_custom r = record { key = r.key; label = r.label; content = r.value }

-- `_ensure_utc`
abbrev pub ensure_utc : DateTime → DateTime
ensure_utc t = if is_naive t.tzinfo then utc t.wall else t

abbrev pub ensure_utc_or_none : Option DateTime → Option DateTime
ensure_utc_or_none none = none
ensure_utc_or_none (some t) = some (ensure_utc t)

module _ (digit : ℕ → Option ℕ) where
  abbrev pub read_window : WindowRow → Option TimeWindow
  read_window r = window_at (str_to_time digit r.start) (str_to_time digit r.end)

  abbrev pub read_day : Weekday → List (String × List WindowRow) → Option (List TimeWindow)
  read_day wd payload = traverse read_window (windows_of (key_of wd) payload)

  -- `_deserialize_schedule`
  unfoldable pub deserialize_schedule : List (String × List WindowRow) → Option WeeklySchedule
  deserialize_schedule payload =
      week_of (read_day monday payload) (read_day tuesday payload) (read_day wednesday payload)
        (read_day thursday payload) (read_day friday payload) (read_day saturday payload)
        (read_day sunday payload)

  abbrev pub read_rule : RuleRow → Option PricingRule
  read_rule r = rule_at (traverse weekday_at r.weekdays) (read_window r.window) r.price_cents

  -- `_deserialize_pricing_rules`
  abbrev pub deserialize_pricing_rules : List RuleRow → Option (List PricingRule)
  deserialize_pricing_rules = traverse read_rule

-- The columns of the table `resources`.
pub record ResourceRow : Type 0 where
  pub id : ℕ
  pub owner_id : ℕ
  pub resource_type_id : ℕ
  pub slug : String
  pub name : String
  pub description : String
  pub city : String
  pub region : String
  pub timezone : String
  pub slot_duration_minutes : ℕ
  pub base_price_cents : ℕ
  pub customer_cancellation_cutoff_hours : ℕ
  pub operating_hours : List (String × List WindowRow)
  pub pricing_rules : List RuleRow
  pub custom_attributes : List CustomRow
  pub base_attributes : Attributes
  pub is_published : Bool
  pub deleted_at : Option DateTime
  pub created_at : DateTime
  pub updated_at : DateTime

-- `_to_model_kwargs`
unfoldable pub to_row : Resource → ResourceRow
to_row r = record {
  id = r.id;
  owner_id = r.owner_id;
  resource_type_id = r.resource_type_id;
  slug = r.slug;
  name = r.name;
  description = r.description.content;
  city = r.city;
  region = r.region;
  timezone = r.timezone;
  slot_duration_minutes = r.slot_duration_minutes.minutes;
  base_price_cents = r.base_price_cents.cents;
  customer_cancellation_cutoff_hours = r.customer_cancellation_cutoff_hours.hours;
  operating_hours = serialize_schedule r.operating_hours;
  pricing_rules = serialize_pricing_rules r.pricing_rules;
  custom_attributes = serialize_custom_attrs r.custom_attributes;
  base_attributes = r.base_attributes;
  is_published = r.is_published;
  deleted_at = r.deleted_at;
  created_at = r.created_at;
  updated_at = r.updated_at;
}

abbrev pub resource_at :
    ResourceRow → Option WeeklySchedule → Option (List PricingRule) → Option Resource
resource_at m (some hours) (some rules) = some (record {
  id = m.id;
  owner_id = m.owner_id;
  resource_type_id = m.resource_type_id;
  slug = m.slug;
  name = m.name;
  description = record { content = m.description };
  city = m.city;
  region = m.region;
  timezone = m.timezone;
  slot_duration_minutes = record { minutes = m.slot_duration_minutes };
  operating_hours = hours;
  base_price_cents = record { cents = m.base_price_cents };
  customer_cancellation_cutoff_hours = record { hours = m.customer_cancellation_cutoff_hours };
  base_attributes = m.base_attributes;
  is_published = m.is_published;
  deleted_at = ensure_utc_or_none m.deleted_at;
  pricing_rules = rules;
  custom_attributes = map read_custom m.custom_attributes;
  created_at = ensure_utc m.created_at;
  updated_at = ensure_utc m.updated_at;
})
resource_at m _ _ = none

-- `_to_entity`
unfoldable pub of_row : (ℕ → Option ℕ) → ResourceRow → Option Resource
of_row digit m =
    resource_at m (deserialize_schedule digit m.operating_hours)
      (deserialize_pricing_rules digit m.pricing_rules)
