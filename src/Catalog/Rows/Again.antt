-- ===== src/Catalog/Rows/Again.antt =====
-- A type of resources is read again from the row that was written.
use venue_backend.Common.{◌≡◌, refl, String, Option, some, List, [], ◌∷◌, map, All}
use venue_backend.Catalog.Definition.{
  AttrType, string_type, int_type, bool_type, enum_type, AttributeDefinition, attr_type_of,
}
use venue_backend.Catalog.Definition.Valued.{HasValues, listed, no_strings, no_ints, no_bools}
use venue_backend.Catalog.Types.{ResourceType}
use venue_backend.Catalog.Types.Invariant.{IsDefinition, IsResourceType}
use venue_backend.Catalog.Rows.{
  data_type_value, given_values, attribute_to_dict, schema_from, to_type_row, of_type_row,
}

attr_type_of-data_type_value : (k : AttrType) → attr_type_of (data_type_value k) ≡ some k
attr_type_of-data_type_value string_type = refl
attr_type_of-data_type_value int_type = refl
attr_type_of-data_type_value bool_type = refl
attr_type_of-data_type_value enum_type = refl

given_again :
    {k : AttrType} {values : Option (List String)}
    → HasValues k values
    → given_values values ≡ values
given_again (listed v vs) = refl
given_again no_strings = refl
given_again no_ints = refl
given_again no_bools = refl

schema_again :
    (schema : List AttributeDefinition)
    → All IsDefinition schema
    → schema_from (map attribute_to_dict schema) ≡ some schema
schema_again [] all = refl
schema_again (d ∷ schema) (valued, all) =
    rw (schema_again schema all, attr_type_of-data_type_value d.data_type, given_again valued) refl

-- A type of resources that keeps the promise of the aggregate is the same when it is read from its
-- row.
pub of_type_row-to_type_row :
    (t : ResourceType) → IsResourceType t → of_type_row (to_type_row t) ≡ some t
unfolding of_type_row to_type_row
of_type_row-to_type_row t i = rw (schema_again t.attribute_schema i.definitions) refl
