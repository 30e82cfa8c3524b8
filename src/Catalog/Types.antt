-- ===== src/Catalog/Types.antt =====
-- resource_type.py. A mutator returns the new aggregate, or its failure; the aggregate is then as it
-- was. `now` is what `_utcnow()` reads.
pub mod Exact
pub mod Invariant
use package.text.Mathlib.Text.{◌==◌ as str_eq}
use venue_backend.Common.{
  ℕ, String, Bool, true, false, not, ◌&&◌, Option, none, some, List, [], ◌∷◌, ◌++◌, map, any,
  if◌then◌else◌,
}
use venue_backend.Shared.Result.{
  plain, FieldError, failure_many, Result, success, failed, field_errors, unless_errors,
}
use venue_backend.Shared.Dicts.{Attributes, has_key, keys_of}
use venue_backend.Shared.Time.{DateTime}
use venue_backend.Shared.Values.{Raw, boolean, integer, text, ShortDescription, create_description}
use venue_backend.Shared.Names.{create_name, create_slug}
use venue_backend.Shared.Optional.{errors_of, value_or}
use venue_backend.Catalog.Definition.{
  AttrType, string_type, int_type, bool_type, enum_type, AttributeDefinition,
}

pub record ResourceType : Type 0 where
  pub id : ℕ
  pub slug : String
  pub name : String
  pub description : ShortDescription
  pub is_active : Bool
  pub attribute_schema : List AttributeDefinition
  pub created_at : DateTime
  pub updated_at : DateTime

-- `len(keys) != len(set(keys))`: some key comes again.
abbrev pub has_duplicates : List String → Bool
has_duplicates [] = false
has_duplicates (key ∷ keys) = if has_key key keys then true else has_duplicates keys

abbrev pub schema_keys : List AttributeDefinition → List String
schema_keys = map (λ d. d.key)

-- `_has_duplicate_keys`
abbrev pub has_duplicate_keys : List AttributeDefinition → Bool
has_duplicate_keys schema = has_duplicates (schema_keys schema)

abbrev pub duplicate_errors : List AttributeDefinition → List FieldError
duplicate_errors schema =
    if has_duplicate_keys schema
    then record { code = "DuplicateAttributeKey"; field = plain "attribute_schema" } ∷ []
    else []

-- The arguments of `ResourceType.create`.
pub record TypeInput : Type 0 where
  pub slug : Raw
  pub name : Raw
  pub description : Raw
  pub attribute_schema : List AttributeDefinition
  pub is_active : Bool

abbrev pub input_errors : TypeInput → List FieldError
input_errors i =
    field_errors (plain "slug") (create_slug i.slug)
    ++ (field_errors (plain "name") (create_name i.name)
        ++ (field_errors (plain "description") (create_description i.description)
            ++ duplicate_errors i.attribute_schema))

-- The aggregate where there is no error; the errors of a value that failed are never empty.
abbrev pub assemble :
    ℕ
    → DateTime
    → TypeInput
    → List FieldError
    → Result String
    → Result String
    → Result ShortDescription
    → Result ResourceType
assemble id now i [] (success slug) (success name) (success description) = success (record {
  id = id;
  slug = slug;
  name = name;
  description = description;
  is_active = i.is_active;
  attribute_schema = i.attribute_schema;
  created_at = now;
  updated_at = now;
})
assemble id now i errors _ _ _ = failed (failure_many errors none)

-- `ResourceType.create`; `id` and `now` are what `uuid4()` and the clock give.
unfoldable pub create_resource_type : ℕ → DateTime → TypeInput → Result ResourceType
create_resource_type id now i =
    assemble id now i (input_errors i) (create_slug i.slug) (create_name i.name)
      (create_description i.description)

-- `ResourceType.update_metadata`
unfoldable pub update_type_metadata :
    ResourceType → Option Raw → Option Raw → DateTime → Result ResourceType
update_type_metadata t none none now = success t
update_type_metadata t name description now =
    unless_errors
      (errors_of "name" create_name name ++ errors_of "description" create_description description)
      (record t {
        name = value_or t.name create_name name;
        description = value_or t.description create_description description;
        updated_at = now;
      })

unfoldable pub replace_attribute_schema :
    ResourceType → List AttributeDefinition → DateTime → Result ResourceType
replace_attribute_schema t schema now =
    unless_errors (duplicate_errors schema)
      (record t { attribute_schema = schema; updated_at = now })

unfoldable pub activate : ResourceType → DateTime → ResourceType
activate t now = record t { is_active = true; updated_at = now }

unfoldable pub deactivate : ResourceType → DateTime → ResourceType
deactivate t now = record t { is_active = false; updated_at = now }

abbrev pub or_else : {A : Type 0} → Option A → Option A → Option A
or_else none b = b
or_else (some a) b = some a

-- `defs_by_key.get(key)`: of two definitions with one key, the later stays in the dict.
abbrev pub definition_of : String → List AttributeDefinition → Option AttributeDefinition
definition_of key [] = none
definition_of key (d ∷ schema) =
    or_else (definition_of key schema) (if str_eq d.key key then some d else none)

-- `allowed = {v.value for v in (d.enum_values or ())}`
abbrev pub is_allowed : String → Option (List String) → Bool
is_allowed s none = false
is_allowed s (some allowed) = has_key s allowed

abbrev pub attribute_error : String → String → List FieldError
attribute_error code key = record { code = code; field = plain key } ∷ []

-- The check of a value against a type. A `bool` is no `int` here.
abbrev pub type_errors : String → AttrType → Option (List String) → Raw → List FieldError
type_errors key string_type allowed (text s) = []
type_errors key string_type allowed _ = attribute_error "AttributeTypeMismatch" key
type_errors key int_type allowed (integer n) = []
type_errors key int_type allowed _ = attribute_error "AttributeTypeMismatch" key
type_errors key bool_type allowed (boolean b) = []
type_errors key bool_type allowed _ = attribute_error "AttributeTypeMismatch" key
type_errors key enum_type allowed (text s) =
    if is_allowed s allowed then [] else attribute_error "AttributeEnumValueNotAllowed" key
type_errors key enum_type allowed _ = attribute_error "AttributeEnumValueNotAllowed" key

abbrev pub item_error : String → Raw → Option AttributeDefinition → List FieldError
item_error key value none = attribute_error "UnknownAttributeKey" key
item_error key value (some d) = type_errors key d.data_type d.enum_values value

-- The loop over the items of the dict.
unfoldable pub item_errors : List AttributeDefinition → Attributes → List FieldError
item_errors schema [] = []
item_errors schema ((key, value) ∷ items) =
    item_error key value (definition_of key schema) ++ item_errors schema items

-- The loop over the definitions that ask for a value.
unfoldable pub required_errors : List String → List AttributeDefinition → List FieldError
required_errors keys [] = []
required_errors keys (d ∷ schema) =
    (if d.required && not (has_key d.key keys)
      then attribute_error "RequiredAttributeMissing" d.key
      else [])
    ++ required_errors keys schema

-- `ResourceType.validate_attributes`
unfoldable pub validate_attributes : ResourceType → Attributes → Result (Unit {0})
validate_attributes t items =
    unless_errors
      (required_errors (keys_of items) t.attribute_schema ++ item_errors t.attribute_schema items)
      tt
