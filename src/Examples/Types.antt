-- ===== src/Examples/Types.antt =====
-- The theorems about the catalogue, on a concrete table.
use venue_backend.Common.{◌≡◌, ◌↔◌, refl, true, none, [], ◌∷◌, All}
use venue_backend.Shared.Result.{success}
use venue_backend.Shared.Time.{utc, pos}
use venue_backend.Shared.Text.{strip}
use venue_backend.Shared.Text.Case.{lower}
use venue_backend.Shared.Values.{text, integer, create_description}
use venue_backend.Shared.Names.{
  create_name, create_slug, create_key, create_short_name, has_double_dash,
}
use venue_backend.Shared.Dicts.{Attributes, keys_of}
use venue_backend.Catalog.Definition.{create_definition, int_type}
use venue_backend.Catalog.Types.{ResourceType, create_resource_type, validate_attributes}
use venue_backend.Catalog.Types.Exact.{IsGiven, Fits, validate_attributes_exact}
use venue_backend.Store.{World, done, ◌>>=◌, pure, lift, add_resource_type}
use venue_backend.UseCases.Catalog.{
  CreateResourceTypeCommand, schema_errors, schema_of, create_type,
}
use venue_backend.UseCases.Catalog.Kept.{AreTypes, begin, created, catalog_keeps_types}
use venue_backend.Examples.{world_of}

abbrev court : CreateResourceTypeCommand
court = record {
  slug = text "court";
  name = text "Court";
  description = text "A court";
  attribute_schema =
      record {
        key = text "seats";
        label = text "Seats";
        data_type = "int";
        required = true;
        enum_values = none;
      }
      ∷ [];
  is_active = true;
}

abbrev court_type : ResourceType
court_type = record {
  id = 1;
  slug = "court";
  name = "Court";
  description = record { content = "A court" };
  is_active = true;
  attribute_schema =
      record {
        key = "seats";
        label = "Seats";
        data_type = int_type;
        required = true;
        enum_values = none;
      }
      ∷ [];
  created_at = utc 5;
  updated_at = utc 5;
}

abbrev with_court : World
with_court = record (world_of []) { resource_types = court_type ∷ [] }

court_run : create_type 1 5 court (world_of []) ≡ done court_type with_court
unfolding create_type ◌>>=◌ pure lift add_resource_type create_resource_type create_definition
    schema_errors schema_of create_name create_slug create_key create_short_name create_description
    has_double_dash strip lower
court_run = refl

catalog_keeps_types_example : AreTypes with_court
catalog_keeps_types_example =
    catalog_keeps_types {w = world_of []} (λ t m. elim m [ ])
      (created 1 5 court court_type begin court_run)

abbrev ten_seats : Attributes
ten_seats = ("seats", integer (pos 10)) ∷ []

validate_attributes_exact_example : (validate_attributes court_type ten_seats ≡ success tt) ↔ (
    All (IsGiven (keys_of ten_seats)) court_type.attribute_schema
    × All (Fits court_type.attribute_schema) ten_seats)
validate_attributes_exact_example = validate_attributes_exact court_type ten_seats
