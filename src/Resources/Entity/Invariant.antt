-- ===== src/Resources/Entity/Invariant.antt =====
-- Every mutator keeps the aggregate well formed.
use venue_backend.Common.{
  ◌⊎◌, Bool-cases, inl, inr, ℕ, ◌+◌, ◌≡◌, refl, String, false, none, some, List, [], ◌∷◌, All,
  arith,
}
use venue_backend.Shared.Result.{success, >>=-eq-success, unless_errors-eq-success}
use venue_backend.Shared.Dicts.{Attributes, has_key, keys_of}
use venue_backend.Shared.Time.{DateTime, Weekday}
use venue_backend.Shared.Values.{TimeWindow, Money, SlotDuration, CancellationCutoff}
use venue_backend.Resources.Schedule.{WeeklySchedule, for_weekday, create_schedule}
use venue_backend.Resources.Schedule.Exact.{IsWindow, IsDay, accepted_days}
use venue_backend.Resources.Rules.{PricingRule}
use venue_backend.Resources.Rules.Exact.{AreRules, validate_pricing_rules_exact}
use venue_backend.Resources.Entity.{
  CustomAttribute, Resource, MetadataInput, is_given, metadata_errors, with_metadata,
  update_metadata, attribute_errors, replace_operating_hours, replace_pricing_rules,
  replace_base_attributes, replace_custom_attributes, set_base_price, set_cancellation_cutoff,
  set_slot_duration, publish, unpublish, soft_delete,
}

-- The keys of the custom attributes are distinct, and none is a key of the base attributes.
abbrev pub AreKeys : List String → List String → List CustomAttribute → Type 0
AreKeys base seen [] = Unit
AreKeys base seen (a ∷ attrs) =
    (has_key a.key seen ≡ false) × (has_key a.key base ≡ false) × AreKeys base (a.key ∷ seen) attrs

pub attribute_errors-AreKeys :
    (base : List String) (idx : ℕ) (seen : List String) (attrs : List CustomAttribute)
    → attribute_errors base idx seen attrs ≡ []
    → AreKeys base seen attrs
unfolding attribute_errors
attribute_errors-AreKeys base idx seen [] h = tt
attribute_errors-AreKeys base idx seen (a ∷ attrs) h =
    ground (arith, attribute_errors-AreKeys base (idx + 1) (a.key ∷ seen) attrs)

pub AreKeys-attribute_errors :
    (base : List String) (idx : ℕ) (seen : List String) (attrs : List CustomAttribute)
    → AreKeys base seen attrs
    → attribute_errors base idx seen attrs ≡ []
unfolding attribute_errors
AreKeys-attribute_errors base idx seen [] h = refl
AreKeys-attribute_errors base idx seen (a ∷ attrs) h =
    ground (arith, AreKeys-attribute_errors base (idx + 1) (a.key ∷ seen) attrs)

-- What the aggregate promises: on every day of the operating hours the windows are on the slot grid,
-- ordered and disjoint; the pricing rules are placed within them and do not clash; the keys of the
-- custom attributes are distinct and differ from those of the base attributes.
pub record IsResource (r : Resource) : Type 0 where
  pub windows : (wd : Weekday) → All IsWindow (for_weekday r.operating_hours wd)
  pub days :
      (wd : Weekday) → IsDay r.slot_duration_minutes.minutes (for_weekday r.operating_hours wd)
  pub rules : AreRules r.slot_duration_minutes.minutes r.operating_hours r.pricing_rules
  pub keys : AreKeys (keys_of r.base_attributes) [] r.custom_attributes

-- The calls of the mutators that succeed. The new operating hours of `replace_operating_hours` come
-- from `WeeklySchedule.create` with the resource's own slot duration, over windows of
-- `TimeWindow.create`.
pub data Mutation (r r' : Resource) : Type 0 where
  new_hours :
      (days : Weekday → List TimeWindow) (hours : WeeklySchedule) (now : DateTime)
      → ((wd : Weekday) → All IsWindow (days wd))
      → create_schedule r.slot_duration_minutes.minutes days ≡ success hours
      → replace_operating_hours r hours now ≡ success r'
      → Mutation r r'
  new_rules :
      (rules : List PricingRule) (now : DateTime)
      → replace_pricing_rules r rules now ≡ success r'
      → Mutation r r'
  new_base :
      (attrs : Attributes) (now : DateTime)
      → replace_base_attributes r attrs now ≡ success r'
      → Mutation r r'
  new_customs :
      (attrs : List CustomAttribute) (now : DateTime)
      → replace_custom_attributes r attrs now ≡ success r'
      → Mutation r r'
  new_price : (price : Money) (now : DateTime) → r' ≡ set_base_price r price now → Mutation r r'
  new_cutoff :
      (cutoff : CancellationCutoff) (now : DateTime)
      → r' ≡ set_cancellation_cutoff r cutoff now
      → Mutation r r'
  new_duration :
      (duration : SlotDuration) (now : DateTime)
      → set_slot_duration r duration now ≡ success r'
      → Mutation r r'
  new_metadata :
      (i : MetadataInput) (now : DateTime) → update_metadata r i now ≡ success r' → Mutation r r'
  published : (now : DateTime) → r' ≡ publish r now → Mutation r r'
  unpublished : (now : DateTime) → r' ≡ unpublish r now → Mutation r r'
  deleted : (now : DateTime) → soft_delete r now ≡ success r' → Mutation r r'

-- What an accepted schedule is, apart from the resource.
pub accepted_hours :
    (slot : ℕ) (days : Weekday → List TimeWindow) {hours : WeeklySchedule}
    → ((wd : Weekday) → All IsWindow (days wd))
    → create_schedule slot days ≡ success hours
    → ((wd : Weekday) → All IsWindow (for_weekday hours wd))
      × ((wd : Weekday) → IsDay slot (for_weekday hours wd))
accepted_hours slot days ok h = (
  λ wd. rw (accepted_days slot days ok h wd).1 (ok wd),
  λ wd. (accepted_days slot days ok h wd).0,
)

hours-IsResource :
    (r : Resource) (hours : WeeklySchedule) (now : DateTime) {r' : Resource}
    → IsResource r
    → ((wd : Weekday) → All IsWindow (for_weekday hours wd))
    → ((wd : Weekday) → IsDay r.slot_duration_minutes.minutes (for_weekday hours wd))
    → replace_operating_hours r hours now ≡ success r'
    → IsResource r'
unfolding replace_operating_hours
hours-IsResource r hours now i w d h =
    let (e, same) = unless_errors-eq-success _ _ h in
    rw same (record {
      windows = w;
      days = d;
      rules = (validate_pricing_rules_exact _ hours r.pricing_rules).0 e;
      keys = i.keys;
    })

rules-IsResource :
    (r : Resource) (rules : List PricingRule) (now : DateTime) {r' : Resource}
    → IsResource r
    → replace_pricing_rules r rules now ≡ success r'
    → IsResource r'
unfolding replace_pricing_rules
rules-IsResource r rules now i h =
    let (e, same) = unless_errors-eq-success _ _ h in
    rw same (record {
      windows = i.windows;
      days = i.days;
      rules = (validate_pricing_rules_exact _ r.operating_hours rules).0 e;
      keys = i.keys;
    })

base-IsResource :
    (r : Resource) (attrs : Attributes) (now : DateTime) {r' : Resource}
    → IsResource r
    → replace_base_attributes r attrs now ≡ success r'
    → IsResource r'
unfolding replace_base_attributes
base-IsResource r attrs now i h =
    let (e, same) = unless_errors-eq-success _ _ h in
    rw same (record {
      windows = i.windows;
      days = i.days;
      rules = i.rules;
      keys = attribute_errors-AreKeys (keys_of attrs) 0 [] r.custom_attributes e;
    })

customs-IsResource :
    (r : Resource) (attrs : List CustomAttribute) (now : DateTime) {r' : Resource}
    → IsResource r
    → replace_custom_attributes r attrs now ≡ success r'
    → IsResource r'
unfolding replace_custom_attributes
customs-IsResource r attrs now i h =
    let (e, same) = unless_errors-eq-success _ _ h in
    rw same (record {
      windows = i.windows;
      days = i.days;
      rules = i.rules;
      keys = attribute_errors-AreKeys (keys_of r.base_attributes) 0 [] attrs e;
    })

duration-IsResource :
    (r : Resource) (duration : SlotDuration) (now : DateTime) {r' : Resource}
    → IsResource r
    → set_slot_duration r duration now ≡ success r'
    → IsResource r'
unfolding set_slot_duration
duration-IsResource r duration now i h =
    let (hours, made, then_rules) =
      >>=-eq-success (create_schedule duration.minutes (for_weekday r.operating_hours)) _ h in
    let (e, same) = unless_errors-eq-success _ _ then_rules in
    let (w, d) = accepted_hours duration.minutes (for_weekday r.operating_hours) i.windows made in
    rw same (record {
      windows = w;
      days = d;
      rules = (validate_pricing_rules_exact _ hours r.pricing_rules).0 e;
      keys = i.keys;
    })

pub soft_delete-eq-success :
    (r : Resource) (now : DateTime) {r' : Resource}
    → soft_delete r now ≡ success r'
    → (r.deleted_at ≡ none) × (r' ≡ record r { deleted_at = some now; updated_at = now })
unfolding soft_delete
soft_delete-eq-success r now h = ground arith

-- The fields that the promise reads.
same-IsResource :
    (r r' : Resource)
    → IsResource r
    → r'.slot_duration_minutes ≡ r.slot_duration_minutes
    → r'.operating_hours ≡ r.operating_hours
    → r'.pricing_rules ≡ r.pricing_rules
    → r'.base_attributes ≡ r.base_attributes
    → r'.custom_attributes ≡ r.custom_attributes
    → IsResource r'
same-IsResource r r' i s o p b c = record {
  windows = rw o i.windows;
  days = rw (s, o) i.days;
  rules = rw (s, o, p) i.rules;
  keys = rw (b, c) i.keys;
}

-- An accepted `update_metadata` leaves the aggregate as it is, or sets texts of it.
pub update_metadata-cases :
    (r : Resource) (m : MetadataInput) (now : DateTime) {r' : Resource}
    → update_metadata r m now ≡ success r'
    → (r' ≡ r) ⊎ (r' ≡ with_metadata r m now)
unfolding update_metadata
update_metadata-cases r m now h = elim (Bool-cases (is_given m)) [
  | inl given ↦ inr (unless_errors-eq-success (metadata_errors m) _ (rw given at h)).1
  | inr nothing ↦ inl (cc (rw nothing at h))
]

metadata-IsResource :
    (r : Resource) (m : MetadataInput) (now : DateTime) {r' : Resource}
    → IsResource r
    → update_metadata r m now ≡ success r'
    → IsResource r'
metadata-IsResource r m now i h = elim (update_metadata-cases r m now h) [
  | inl e ↦ rw e i
  | inr e ↦ rw e (same-IsResource r _ i refl refl refl refl refl)
]

-- Every mutator keeps the promise of the aggregate, whatever it is given.
pub mutation-IsResource : {r r' : Resource} → IsResource r → Mutation r r' → IsResource r'
unfolding set_base_price set_cancellation_cutoff publish unpublish
mutation-IsResource {r} i (new_hours days hours now ok made h) =
    let (w, d) = accepted_hours r.slot_duration_minutes.minutes days ok made in
    hours-IsResource r hours now i w d h
mutation-IsResource {r} i (new_rules rules now h) = rules-IsResource r rules now i h
mutation-IsResource {r} i (new_base attrs now h) = base-IsResource r attrs now i h
mutation-IsResource {r} i (new_customs attrs now h) = customs-IsResource r attrs now i h
mutation-IsResource {r} i (new_price price now e) =
    rw e (same-IsResource r _ i refl refl refl refl refl)
mutation-IsResource {r} i (new_cutoff cutoff now e) =
    rw e (same-IsResource r _ i refl refl refl refl refl)
mutation-IsResource {r} i (new_duration duration now h) = duration-IsResource r duration now i h
mutation-IsResource {r} i (new_metadata m now h) = metadata-IsResource r m now i h
mutation-IsResource {r} i (published now e) = rw e (same-IsResource r _ i refl refl refl refl refl)
mutation-IsResource {r} i (unpublished now e) =
    rw e (same-IsResource r _ i refl refl refl refl refl)
mutation-IsResource {r} i (deleted now h) =
    rw (soft_delete-eq-success r now h).1 (same-IsResource r _ i refl refl refl refl refl)
