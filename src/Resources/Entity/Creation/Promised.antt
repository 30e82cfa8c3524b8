-- ===== src/Resources/Entity/Creation/Promised.antt =====
-- A resource that is created keeps the promise of the aggregate, and which arguments are accepted.
use venue_backend.Common.{
  ℕ, String, ◌≡◌, ◌↔◌, refl, is_some, true, Bool, List, [], ◌∷◌, ◌++◌, All, arith, append-eq-nil,
}
use venue_backend.Shared.Result.{FieldError, Result, success, failed, value}
use venue_backend.Shared.Time.{pos, DateTime, Weekday}
use venue_backend.Shared.Values.{
  integer, TimeWindow, SlotDuration, create_duration, create_money, create_cutoff,
  create_description,
}
use venue_backend.Shared.Dicts.{keys_of}
use venue_backend.Shared.Names.{create_name, create_slug, create_timezone}
use venue_backend.Resources.Schedule.{create_schedule}
use venue_backend.Resources.Schedule.Exact.{IsWindow}
use venue_backend.Resources.Rules.{validate_pricing_rules}
use venue_backend.Resources.Rules.Exact.{AreRules, validate_pricing_rules_exact}
use venue_backend.Resources.Entity.{Resource}
use venue_backend.Resources.Entity.Invariant.{
  IsResource, accepted_hours, attribute_errors-AreKeys, AreKeys, AreKeys-attribute_errors,
}
use venue_backend.Resources.Entity.Creation.{
  ResourceInput, Scalars, scalars_of, scalar_errors, cross_errors, build, build_unless,
  create_resource,
}

-- What an accepted check has made.
abbrev pub Value : {A : Type 0} → Result A → Type 0
Value {A = A} r = (a : A) × (r ≡ success a)

success-Value : {A : Type 0} (r : Result A) → is_some (value r) ≡ true → Value r
success-Value (success a) h = (a, refl)
success-Value (failed e) h = cc

-- What is asked of the arguments of `Resource.create`: every scalar passes its check, the pricing
-- rules are placed within the operating hours and do not clash, and the keys of the custom
-- attributes are distinct and differ from those of the base attributes.
pub record IsAccepted (available : String → Bool) (i : ResourceInput) : Type 0 where
  pub slug : Value (create_slug i.slug)
  pub name : Value (create_name i.name)
  pub description : Value (create_description i.description)
  pub city : Value (create_name i.city)
  pub region : Value (create_name i.region)
  pub timezone : Value (create_timezone available i.timezone)
  pub slot_duration : Value (create_duration i.slot_duration_minutes)
  pub base_price : Value (create_money i.base_price_cents)
  pub cutoff : Value (create_cutoff i.customer_cancellation_cutoff_hours)
  pub rules : AreRules slot_duration.0.minutes i.operating_hours i.pricing_rules
  pub keys : AreKeys (keys_of i.base_attributes) [] i.custom_attributes

minutes_same :
    (slot : ℕ) {d : SlotDuration}
    → create_duration (integer (pos slot)) ≡ success d
    → d.minutes ≡ slot
unfolding create_duration
minutes_same slot h = ground arith

unless-eq-success :
    (errors : List FieldError) (id : ℕ) (now : DateTime) (i : ResourceInput) (s : Scalars)
    → {r : Resource} → build_unless errors id now i s ≡ success r
    → (errors ≡ []) × (build id now i s ≡ success r)
unless-eq-success [] id now i s h = (refl, h)
unless-eq-success (e ∷ errors) id now i s h = cc

built :
    (id : ℕ) (now : DateTime) (i : ResourceInput) (s : Scalars) {r : Resource}
    → build id now i s ≡ success r
    → Value s.slug
      × Value s.name
      × Value s.description
      × Value s.city
      × Value s.region
      × Value s.timezone
      × (s.slot_duration ≡ success r.slot_duration_minutes)
      × Value s.base_price
      × Value s.cutoff
      × (r.operating_hours ≡ i.operating_hours)
      × (r.pricing_rules ≡ i.pricing_rules)
      × (r.base_attributes ≡ i.base_attributes)
      × (r.custom_attributes ≡ i.custom_attributes)
built id now i s h = ground arith

-- The checks across the arguments, with an accepted slot duration.
crossed :
    (i : ResourceInput) (slot : SlotDuration)
    → cross_errors (success slot) i ≡ []
    → AreRules slot.minutes i.operating_hours i.pricing_rules
      × AreKeys (keys_of i.base_attributes) [] i.custom_attributes
crossed i slot h =
    let (rules, keys) =
      append-eq-nil (validate_pricing_rules slot.minutes i.operating_hours i.pricing_rules) _ h in
    (
      (validate_pricing_rules_exact slot.minutes i.operating_hours i.pricing_rules).0 rules,
      attribute_errors-AreKeys (keys_of i.base_attributes) 0 [] i.custom_attributes keys,
    )

uncrossed :
    (i : ResourceInput) (slot : SlotDuration)
    → AreRules slot.minutes i.operating_hours i.pricing_rules
    → AreKeys (keys_of i.base_attributes) [] i.custom_attributes
    → cross_errors (success slot) i ≡ []
uncrossed i slot rules keys =
    rw
      (
        (validate_pricing_rules_exact slot.minutes i.operating_hours i.pricing_rules).1 rules,
        AreKeys-attribute_errors (keys_of i.base_attributes) 0 [] i.custom_attributes keys,
      )
      refl

-- What an accepted creation is made of.
pub created_resource :
    (available : String → Bool) (id : ℕ) (now : DateTime) (i : ResourceInput) {r : Resource}
    → create_resource available id now i ≡ success r
    → IsAccepted available i
      × (create_duration i.slot_duration_minutes ≡ success r.slot_duration_minutes)
      × AreRules r.slot_duration_minutes.minutes i.operating_hours i.pricing_rules
      × (r.operating_hours ≡ i.operating_hours)
      × (r.pricing_rules ≡ i.pricing_rules)
      × (r.base_attributes ≡ i.base_attributes)
      × (r.custom_attributes ≡ i.custom_attributes)
unfolding create_resource
created_resource available id now i h =
    let s = scalars_of available i in
    let (none_found, made) =
      unless-eq-success (scalar_errors s ++ cross_errors s.slot_duration i) id now i s h in
    let (sl, na, de, ci, re, ti, du, pr, cu, hours, rules, base, customs) = built id now i s made in
    let (_, cross) = append-eq-nil (scalar_errors s) (cross_errors s.slot_duration i) none_found in
    let (placed, keys) = crossed i _ (rw du at cross) in
    (
      record {
        slug = sl;
        name = na;
        description = de;
        city = ci;
        region = re;
        timezone = ti;
        slot_duration = (_, du);
        base_price = pr;
        cutoff = cu;
        rules = placed;
        keys = keys;
      },
      du,
      placed,
      hours,
      rules,
      base,
      customs,
    )

build_identity :
    (id : ℕ) (now : DateTime) (i : ResourceInput) (s : Scalars) {r : Resource}
    → build id now i s ≡ success r
    → (r.owner_id ≡ i.owner_id)
      × (r.id ≡ id)
      × (r.resource_type_id ≡ i.resource_type_id)
      × (r.is_published ≡ i.is_published)
build_identity id now i s h = ground arith

-- Whose a created resource is.
pub created_identity :
    (available : String → Bool) (id : ℕ) (now : DateTime) (i : ResourceInput) {r : Resource}
    → create_resource available id now i ≡ success r
    → (r.owner_id ≡ i.owner_id)
      × (r.id ≡ id)
      × (r.resource_type_id ≡ i.resource_type_id)
      × (r.is_published ≡ i.is_published)
unfolding create_resource
created_identity available id now i h =
    let s = scalars_of available i in
    build_identity id now i s
      (unless-eq-success (scalar_errors s ++ cross_errors s.slot_duration i) id now i s h).1

-- `Resource.create` returns a resource exactly where every scalar argument passes its own check, the
-- pricing rules lie on the slot grid and within the operating hours without clash, and the keys of
-- the custom attributes are distinct and differ from those of the base attributes.
pub create_resource_exact :
    (available : String → Bool) (id : ℕ) (now : DateTime) (i : ResourceInput)
    → Value (create_resource available id now i) ↔ IsAccepted available i
unfolding create_resource
create_resource_exact available id now i = (
  λ (r, h). (created_resource available id now i h).0,
  λ a. success-Value (create_resource available id now i) (
      rw
        (
          a.slug.1,
          a.name.1,
          a.description.1,
          a.city.1,
          a.region.1,
          a.timezone.1,
          a.slot_duration.1,
          a.base_price.1,
          a.cutoff.1,
          uncrossed i a.slot_duration.0 a.rules a.keys,
        )
        refl),
)

-- A resource that is created, with operating hours that `WeeklySchedule.create` has made for the same
-- slot duration of windows that start before they end, keeps the promise of the aggregate.
pub create_resource-IsResource :
    (available : String → Bool) (id : ℕ) (now : DateTime) (i : ResourceInput) (r : Resource)
    → (slot : ℕ) (days : Weekday → List TimeWindow) → i.slot_duration_minutes ≡ integer (pos slot)
    → ((wd : Weekday) → All IsWindow (days wd))
    → create_schedule slot days ≡ success i.operating_hours
    → create_resource available id now i ≡ success r
    → IsResource r
create_resource-IsResource available id now i r slot days given ok made h =
    let (a, du, placed, hours, rules, base, customs) = created_resource available id now i h in
    let (w, d) = accepted_hours slot days ok made in
    let same : r.slot_duration_minutes.minutes ≡ slot = minutes_same slot (rw given at du) in
    record {
      windows = rw hours w;
      days = rw (same, hours) d;
      rules = rw (rules, hours) placed;
      keys = rw (base, customs) a.keys;
    }
