-- ===== src/Resources/Entity/Identity.antt =====
-- The identity of a resource and its owner, which no mutator changes.
use venue_backend.Common.{◌≡◌, refl, inl, inr}
use venue_backend.Shared.Result.{unless_errors-eq-success, >>=-eq-success}
use venue_backend.Resources.Schedule.{for_weekday, create_schedule}
use venue_backend.Resources.Entity.{
  Resource, replace_operating_hours, replace_pricing_rules, replace_base_attributes,
  replace_custom_attributes, set_base_price, set_cancellation_cutoff, set_slot_duration, publish,
  unpublish, soft_delete,
}
use venue_backend.Resources.Entity.Invariant.{
  Mutation, new_hours, new_rules, new_base, new_customs, new_price, new_cutoff, new_duration,
  new_metadata, published, unpublished, deleted, update_metadata-cases, soft_delete-eq-success,
}

-- No mutator changes the identity of a resource or its owner.
pub mutation-same_owner :
    {r r' : Resource} → Mutation r r' → (r'.id ≡ r.id) × (r'.owner_id ≡ r.owner_id)
unfolding replace_operating_hours replace_pricing_rules replace_base_attributes
    replace_custom_attributes set_base_price set_cancellation_cutoff set_slot_duration publish
    unpublish soft_delete
mutation-same_owner (new_hours days hours now ok made h) =
    rw (unless_errors-eq-success _ _ h).1 (refl, refl)
mutation-same_owner (new_rules rules now h) = rw (unless_errors-eq-success _ _ h).1 (refl, refl)
mutation-same_owner (new_base attrs now h) = rw (unless_errors-eq-success _ _ h).1 (refl, refl)
mutation-same_owner (new_customs attrs now h) = rw (unless_errors-eq-success _ _ h).1 (refl, refl)
mutation-same_owner (new_price price now e) = rw e (refl, refl)
mutation-same_owner (new_cutoff cutoff now e) = rw e (refl, refl)
mutation-same_owner {r} (new_duration duration now h) =
    let (hours, made, then_rules) =
      >>=-eq-success (create_schedule duration.minutes (for_weekday r.operating_hours)) _ h in
    rw (unless_errors-eq-success _ _ then_rules).1 (refl, refl)
mutation-same_owner {r} (new_metadata m now h) = elim (update_metadata-cases r m now h) [
  | inl e ↦ rw e (refl, refl)
  | inr e ↦ rw e (refl, refl)
]
mutation-same_owner (published now e) = rw e (refl, refl)
mutation-same_owner (unpublished now e) = rw e (refl, refl)
mutation-same_owner {r} (deleted now h) = rw (soft_delete-eq-success r now h).1 (refl, refl)
