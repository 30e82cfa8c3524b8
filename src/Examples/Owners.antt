-- ===== src/Examples/Owners.antt =====
-- The theorems about the commands of owners, on concrete tables.
use venue_backend.Common.{◌≡◌, refl, [], ◌∷◌, inl, inr, some, arith, false}
use venue_backend.Shared.Time.{pos, utc}
use venue_backend.Shared.Values.{integer, create_money}
use venue_backend.Resources.Entity.{Resource, set_base_price}
use venue_backend.Store.{World, done, ◌>>=◌, get_resource, update_resource}
use venue_backend.UseCases.SoftDelete.{load_owned_resource}
use venue_backend.UseCases.Manage.{ManageCommand, base_price, manage, handle_base_price}
use venue_backend.UseCases.Manage.Owned.{Managed, manage-Managed}
use venue_backend.UseCases.Manage.Kept.{
  AreResources, begin, then_by, manage_keeps_resources, manage_others,
}
use venue_backend.Examples.{hall, world_of}
use venue_backend.Examples.Domain.{hall-IsResource}

-- Another owner's resource beside the hall.
abbrev studio : Resource
studio = record hall { id = 6; owner_id = 10; slug = "studio" }

abbrev two_resources : World
two_resources = record (world_of []) { resources = hall ∷ studio ∷ [] }

abbrev new_price : ManageCommand
new_price =
    base_price (record { actor_id = 9; resource_id = 5; base_price_cents = integer (pos 1200) })

abbrev dearer_hall : Resource
dearer_hall = set_base_price hall (record { cents = 1200 }) (utc 7)

abbrev after_price : World
after_price = record two_resources { resources = dearer_hall ∷ studio ∷ [] }

price_run : manage new_price 7 two_resources ≡ done tt after_price
unfolding handle_base_price load_owned_resource ◌>>=◌ create_money update_resource set_base_price
price_run = refl

manage-Managed_example : Managed 5 9 false two_resources (manage new_price 7 two_resources)
manage-Managed_example = manage-Managed new_price 7 two_resources

manage_others_example : get_resource 6 after_price ≡ some studio
unfolding set_base_price
manage_others_example =
    manage_others new_price 7 two_resources after_price 6 studio price_run refl
      (λ e. omega (arith, e))

one-AreResources : AreResources (world_of [])
one-AreResources r (inl e) = rw⁻¹ e hall-IsResource
one-AreResources r (inr m) = elim m [ ]

abbrev after_one_price : World
after_one_price = record (world_of []) { resources = dearer_hall ∷ [] }

one_price_run : manage new_price 7 (world_of []) ≡ done tt after_one_price
unfolding handle_base_price load_owned_resource ◌>>=◌ create_money update_resource set_base_price
one_price_run = refl

manage_keeps_resources_example : AreResources after_one_price
manage_keeps_resources_example =
    manage_keeps_resources {w = world_of []} {w' = after_one_price} one-AreResources
      (then_by new_price 7 begin one_price_run)
