-- ===== src/UseCases/Create/Accepts.antt =====
-- What the creation of a resource has found, and what it leaves.
use venue_backend.Common.{
  ◌≡◌, refl, Bool, true, false, Option, none, some, List, [], ◌∷◌, ◌++◌, any, is_some, arith,
  append-eq-nil,
}
use venue_backend.Shared.Result.{
  plain, FieldError, Result, success, failed, with_status-eq-success, nested, unless_errors,
}
use venue_backend.Shared.Time.{ℤ, pos, negsuc, utc}
use venue_backend.Shared.Values.{integer, SlotDuration, create_duration}
use venue_backend.Shared.Dicts.{Attributes}
use venue_backend.Catalog.Types.{ResourceType, validate_attributes}
use venue_backend.Accounts.User.{User, is_owner}
use venue_backend.Resources.Schedule.{WeeklySchedule, create_schedule}
use venue_backend.Resources.Rules.{PricingRule}
use venue_backend.Resources.Entity.{CustomAttribute, Resource}
use venue_backend.Resources.Entity.Invariant.{IsResource}
use venue_backend.Resources.Entity.Creation.{create_resource}
use venue_backend.Resources.Entity.Creation.Promised.{
  create_resource-IsResource, created_resource, created_identity,
}
use venue_backend.Store.{
  World, done, Action, pure, ◌>>=◌, ◌>>◌, get_user, get_resource_type, same_resource, add_resource,
  ensure_or_raise,
}
use venue_backend.Store.Returns.{ensure_then, some_or_then, lift_then, ask_then}
use venue_backend.UseCases.Inputs.{
  customs_errors, customs_built, rules_built, days_errors, days_built,
}
use venue_backend.UseCases.Inputs.Built.{days_built-IsWindow}
use venue_backend.UseCases.Create.{
  CreateResourceCommand, Surroundings, modulus, resource_input, created_with, bail_or,
  build_resource, owns, handle_create,
}

no_bail :
    (errors : List FieldError) (o : Option (Result Resource)) {r : Resource}
    → bail_or errors o ≡ success r
    → (errors ≡ []) × (o ≡ some (success r))
no_bail errors o h = ground arith

with_schedule :
    (env : Surroundings) (cmd : CreateResourceCommand) (rules : List PricingRule)
    (customs : List CustomAttribute) (s : Result WeeklySchedule) {r : Resource}
    → created_with env cmd rules customs s ≡ some (success r)
    → (hours : WeeklySchedule) × (s ≡ success hours)
      × (create_resource env.available env.id (utc env.now) (resource_input cmd hours rules customs)
          ≡ success r)
with_schedule env cmd rules customs (success hours) h = (hours, refl, ground arith)
with_schedule env cmd rules customs (failed e) h = cc

-- A slot duration that is accepted is no negative number.
duration_natural :
    (z : ℤ) {d : SlotDuration}
    → create_duration (integer z) ≡ success d
    → integer z ≡ integer (pos (modulus z))
unfolding create_duration
duration_natural (pos n) h = refl
duration_natural (negsuc n) h = cc

valid_if_nested :
    (errors : List FieldError)
    → nested (plain "base_attributes") (unless_errors errors (tt {0})) ≡ []
    → unless_errors errors (tt {0}) ≡ success tt
valid_if_nested [] h = refl
valid_if_nested (e ∷ errors) h = cc

attributes_fit :
    (rt : ResourceType) (items : Attributes)
    → nested (plain "base_attributes") (validate_attributes rt items) ≡ []
    → validate_attributes rt items ≡ success tt
unfolding validate_attributes
attributes_fit rt items h = valid_if_nested _ h

-- What the building of a resource has checked.
built_resource :
    (env : Surroundings) (cmd : CreateResourceCommand) (rt : ResourceType) {r : Resource}
    → build_resource env cmd rt ≡ success r
    → IsResource r
      × (validate_attributes rt cmd.base_attributes ≡ success tt)
      × (r.owner_id ≡ cmd.actor_id)
      × (r.id ≡ env.id)
      × (r.resource_type_id ≡ cmd.resource_type_id)
      × (r.is_published ≡ false)
unfolding build_resource
built_resource env cmd rt {r} h =
    let days = days_built env.digit cmd.operating_hours in
    let schedule = create_schedule (modulus cmd.slot_duration_minutes) days in
    let rules = rules_built env.digit 0 cmd.pricing_rules in
    let customs = customs_built cmd.custom_attributes in
    let (clean, call) = no_bail _ (created_with env cmd rules.1 customs schedule) h in
    let (hours, made, created) = with_schedule env cmd rules.1 customs schedule call in
    let i = resource_input cmd hours rules.1 customs in
    let (_, e1) = append-eq-nil (days_errors env.digit cmd.operating_hours) _ clean in
    let (_, e2) = append-eq-nil (nested (plain "operating_hours") schedule) _ e1 in
    let (_, e3) = append-eq-nil rules.0 _ e2 in
    let (_, e4) = append-eq-nil (customs_errors 0 cmd.custom_attributes) _ e3 in
    let (fit, _) =
      append-eq-nil (nested (plain "base_attributes") (validate_attributes rt cmd.base_attributes))
        _ e4 in
    let (_, du, _, _, _, _, _) = created_resource env.available env.id (utc env.now) i created in
    let (owned, named, typed, hidden) =
      created_identity env.available env.id (utc env.now) i created in
    (
      create_resource-IsResource env.available env.id (utc env.now) i r
          (modulus cmd.slot_duration_minutes) days (duration_natural cmd.slot_duration_minutes du)
          (days_built-IsWindow env.digit cmd.operating_hours) made created,
      attributes_fit rt cmd.base_attributes fit,
      owned,
      named,
      typed,
      hidden,
    )

owned : (o : Option User) → owns o ≡ true → (u : User) × (o ≡ some u) × (is_owner u.role ≡ true)
owned none h = cc
owned (some u) h = (u, refl, h)

-- What the checks of a creation have found.
pub record CanCreate (env : Surroundings) (cmd : CreateResourceCommand) (w : World) (user : User)
    (rt : ResourceType) (r : Resource) : Type 0 where
  pub is_user : get_user cmd.actor_id w ≡ some user
  pub owning : is_owner user.role ≡ true
  pub has_slug : is_some user.public_slug ≡ true
  pub is_type : get_resource_type cmd.resource_type_id w ≡ some rt
  pub is_open : rt.is_active ≡ true
  pub fit : validate_attributes rt cmd.base_attributes ≡ success tt
  pub whole : IsResource r
  pub same_owner : r.owner_id ≡ cmd.actor_id
  pub same_type : r.resource_type_id ≡ cmd.resource_type_id
  pub hidden : r.is_published ≡ false
  pub single : any (same_resource r) w.resources ≡ false

raise_then :
    {B : Type 0} (w : World) (c : Bool) (k : Action B) {b : B} {w' : World}
    → (ensure_or_raise c >> k) w ≡ done b w'
    → (c ≡ true) × (k w ≡ done b w')
unfolding ensure_or_raise ◌>>=◌ pure
raise_then w true k h = (refl, h)
raise_then w false k h = cc

add_resource_last :
    (x : Resource) (c : Bool) (w : World) {r : Resource} {w' : World}
    → (add_resource x >> (ensure_or_raise c >> pure x)) w ≡ done r w'
    → (any (same_resource x) w.resources ≡ false)
      × (c ≡ true)
      × (r ≡ x)
      × (w' ≡ record w { resources = w.resources ++ x ∷ [] })
unfolding add_resource ensure_or_raise ◌>>=◌ pure
add_resource_last x c w h = ground arith

-- A creation is accepted only of an owner, who has a public slug, of an active type of resources whose
-- schema the base attributes fit; the new resource keeps the promise of the aggregate, is the actor's and
-- is not published, has a slug that is new among those of the owner, and is appended to the table;
-- nothing else is written.
pub handle_create_accepts :
    (env : Surroundings) (cmd : CreateResourceCommand) (w w' : World) (r : Resource)
    → handle_create env cmd w ≡ done r w'
    → (user : User) × (rt : ResourceType) × CanCreate env cmd w user rt r
      × (w' ≡ record w { resources = w.resources ++ r ∷ [] })
unfolding handle_create
handle_create_accepts env cmd w w' r h =
    let (owning, h1) = ensure_then w _ _ _ (ask_then w _ _ h) in
    let (rt, found, h2) = some_or_then w _ _ _ (ask_then w _ _ h1) in
    let (active, h3) = ensure_then w _ _ _ h2 in
    let (_, h4) = raise_then w _ _ h3 in
    let (x, built, h5) = lift_then w _ _ h4 in
    let (single, slug, same, left) = add_resource_last x _ w h5 in
    let (whole, fit, owner, id, type, hidden) =
      built_resource env cmd rt (with_status-eq-success 400 _ built) in
    let (user, is_user, is_owner) = owned (get_user cmd.actor_id w) owning in
    (
      user,
      rt,
      rw same (record {
        is_user = is_user;
        owning = is_owner;
        has_slug = rw is_user at slug;
        is_type = found;
        is_open = active;
        fit = fit;
        whole = whole;
        same_owner = owner;
        same_type = type;
        hidden = hidden;
        single = single;
      }),
      rw same left,
    )
