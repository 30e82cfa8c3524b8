-- ===== src/Catalog/Rows.antt =====
-- The rows of the types of resources: the mapping of resource_type_repository.py.
pub mod Again
use venue_backend.Common.{ℕ, String, Bool, Option, none, some, List, [], ◌∷◌, map}
use venue_backend.Shared.Time.{DateTime}
use venue_backend.Catalog.Definition.{
  AttrType, string_type, int_type, bool_type, enum_type, AttributeDefinition, attr_type_of,
}
use venue_backend.Catalog.Types.{ResourceType}

pub record AttributeRow : Type 0 where
  pub key : String
  pub label : String
  pub data_type : String
  pub required : Bool
  pub enum_values : Option (List String)

pub record TypeRow : Type 0 where
  pub id : ℕ
  pub slug : String
  pub name : String
  pub description : String
  pub is_active : Bool
  pub attribute_schema : List AttributeRow
  pub created_at : DateTime
  pub updated_at : DateTime

-- The `.value` of a data type.
abbrev pub data_type_value : AttrType → String
data_type_value string_type = "string"
data_type_value int_type = "int"
data_type_value bool_type = "bool"
data_type_value enum_type = "enum"

-- `... if a.enum_values else None`: no value is None too.
abbrev pub given_values : Option (List String) → Option (List String)
given_values none = none
given_values (some []) = none
given_values (some (v ∷ vs)) = some (v ∷ vs)

-- `_attribute_to_dict`
abbrev pub attribute_to_dict : AttributeDefinition → AttributeRow
attribute_to_dict a = record {
  key = a.key;
  label = a.label;
  data_type = data_type_value a.data_type;
  required = a.required;
  enum_values = given_values a.enum_values;
}

abbrev pub attribute_at : AttributeRow → Option AttrType → Option AttributeDefinition
attribute_at d none = none
attribute_at d (some k) = some (record {
  key = d.key;
  label = d.label;
  data_type = k;
  required = d.required;
  enum_values = d.enum_values;
})

-- `_attribute_from_dict`; `none` is the exception of a data type that is none.
abbrev pub attribute_from_dict : AttributeRow → Option AttributeDefinition
attribute_from_dict d = attribute_at d (attr_type_of d.data_type)

abbrev cons_attribute :
    Option AttributeDefinition
    → Option (List AttributeDefinition)
    → Option (List AttributeDefinition)
cons_attribute (some a) (some more) = some (a ∷ more)
cons_attribute _ _ = none

abbrev pub schema_from : List AttributeRow → Option (List AttributeDefinition)
schema_from [] = some []
schema_from (d ∷ ds) = cons_attribute (attribute_from_dict d) (schema_from ds)

-- `_to_model_dict`
unfoldable pub to_type_row : ResourceType → TypeRow
to_type_row t = record {
  id = t.id;
  slug = t.slug;
  name = t.name;
  description = t.description.content;
  is_active = t.is_active;
  attribute_schema = map attribute_to_dict t.attribute_schema;
  created_at = t.created_at;
  updated_at = t.updated_at;
}

abbrev pub type_at : TypeRow → Option (List AttributeDefinition) → Option ResourceType
type_at row none = none
type_at row (some schema) = some (record {
  id = row.id;
  slug = row.slug;
  name = row.name;
  description = record { content = row.description };
  is_active = row.is_active;
  attribute_schema = schema;
  created_at = row.created_at;
  updated_at = row.updated_at;
})

-- `_to_entity`
unfoldable pub of_type_row : TypeRow → Option ResourceType
of_type_row row = type_at row (schema_from row.attribute_schema)
