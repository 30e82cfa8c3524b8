-- ===== src/UseCases/Catalog.antt =====
-- The handlers of app/use_cases/catalog/commands. The `ResourceTypeDto` that they return is the type.
pub mod Kept
use text.Mathlib.Text.{◌==◌ as str_eq}
use venue_backend.Common.{
  ℕ, ◌+◌, String, Bool, true, false, ◌||◌, Option, none, some, List, [], ◌∷◌, ◌++◌, map, is_some,
  if◌then◌else◌,
}
use venue_backend.Shared.Result.{
  Field, plain, indexed, within, FieldError, failure, failure_many, Result, success, failed,
  with_status, nested, unless_errors,
}
use venue_backend.Shared.Time.{utc}
use venue_backend.Shared.Values.{Raw}
use venue_backend.Catalog.Definition.{
  attr_type_of, AttrType, string_type, int_type, bool_type, enum_type, AttributeDefinition,
  DefinitionInput, create_definition, accepted,
}
use venue_backend.Catalog.Types.{
  ResourceType, TypeInput, create_resource_type, update_type_metadata, replace_attribute_schema,
  activate, deactivate,
}
use venue_backend.Store.{
  Action, pure, ◌>>=◌, ◌>>◌, ask, error, some_or, lift, get_resource_type, add_resource_type,
  update_resource_type, delete_resource_type,
}

-- One dict of `cmd.attribute_schema`.
pub record RawDefinition : Type 0 where
  pub key : Raw
  pub label : Raw
  pub data_type : String
  pub required : Bool
  pub enum_values : Option (List Raw)

abbrev pub input_of : RawDefinition → AttrType → DefinitionInput
input_of raw k = record {
  key = raw.key;
  label = raw.label;
  data_type = k;
  required = raw.required;
  enum_values = raw.enum_values;
}

-- The errors of a definition, with the place of the definition before their fields.
abbrev pub flattened : Field → Result AttributeDefinition → List FieldError
flattened place (failed (failure code status)) = record { code = code; field = place } ∷ []
flattened place r = nested place r

abbrev pub raw_errors : ℕ → RawDefinition → Option AttrType → List FieldError
raw_errors idx raw none =
    record {
      code = "InvalidDataType";
      field = within (indexed "attribute_schema" idx) (plain "data_type");
    }
    ∷ []
raw_errors idx raw (some k) =
    flattened (indexed "attribute_schema" idx) (create_definition (input_of raw k))

abbrev pub raw_definition : RawDefinition → Option AttrType → List AttributeDefinition
raw_definition raw none = []
raw_definition raw (some k) = accepted (create_definition (input_of raw k)) []

-- The loop over `enumerate(cmd.attribute_schema)`: the errors, and the definitions.
unfoldable pub schema_errors : ℕ → List RawDefinition → List FieldError
schema_errors idx [] = []
schema_errors idx (raw ∷ raws) =
    raw_errors idx raw (attr_type_of raw.data_type) ++ schema_errors (idx + 1) raws

unfoldable pub schema_of : List RawDefinition → List AttributeDefinition
schema_of [] = []
schema_of (raw ∷ raws) = raw_definition raw (attr_type_of raw.data_type) ++ schema_of raws

pub record CreateResourceTypeCommand : Type 0 where
  pub slug : Raw
  pub name : Raw
  pub description : Raw
  pub attribute_schema : List RawDefinition
  pub is_active : Bool

abbrev pub type_input : CreateResourceTypeCommand → List AttributeDefinition → TypeInput
type_input cmd schema = record {
  slug = cmd.slug;
  name = cmd.name;
  description = cmd.description;
  attribute_schema = schema;
  is_active = cmd.is_active;
}

-- `CreateResourceTypeHandler.handle`; `id` and `now` are what `uuid4()` and the clock give.
unfoldable pub create_type : ℕ → ℕ → CreateResourceTypeCommand → Action ResourceType
create_type id now cmd = do
  schema ← lift (
      with_status 400
        (unless_errors (schema_errors 0 cmd.attribute_schema) (schema_of cmd.attribute_schema)))
  t ← lift (with_status 400 (create_resource_type id (utc now) (type_input cmd schema)))
  add_resource_type t
  pure t

pub record UpdateResourceTypeCommand : Type 0 where
  pub id : ℕ
  pub name : Option Raw
  pub description : Option Raw
  pub attribute_schema : Option (List RawDefinition)
  pub is_active : Option Bool

-- `if cmd.name is not None or cmd.description is not None`
abbrev pub renamed_type : UpdateResourceTypeCommand → ℕ → ResourceType → Result ResourceType
renamed_type cmd now t =
    if is_some cmd.name || is_some cmd.description
    then with_status 400 (update_type_metadata t cmd.name cmd.description (utc now))
    else success t

-- `if cmd.attribute_schema is not None`
abbrev pub with_schema : ℕ → ResourceType → Result (List AttributeDefinition) → Result ResourceType
with_schema now t (success schema) = with_status 400 (replace_attribute_schema t schema (utc now))
with_schema now t (failed e) = failed e

abbrev pub reschemed : Option (List RawDefinition) → ℕ → ResourceType → Result ResourceType
reschemed none now t = success t
reschemed (some raws) now t =
    with_schema now t (with_status 400 (unless_errors (schema_errors 0 raws) (schema_of raws)))

-- `if cmd.is_active is not None`
abbrev pub toggled : Option Bool → ℕ → ResourceType → ResourceType
toggled none now t = t
toggled (some true) now t = activate t (utc now)
toggled (some false) now t = deactivate t (utc now)

-- `UpdateResourceTypeHandler.handle`; the three times are the readings of the clock by the mutators.
unfoldable pub update_type : ℕ → ℕ → ℕ → UpdateResourceTypeCommand → Action ResourceType
update_type renamed_at replaced_at toggled_at cmd = do
  t ← some_or (error "ResourceTypeNotFound" 404) (← ask (get_resource_type cmd.id))
  renamed ← lift (renamed_type cmd renamed_at t)
  replaced ← lift (reschemed cmd.attribute_schema replaced_at renamed)
  let changed = toggled cmd.is_active toggled_at replaced
  update_resource_type changed
  pure changed

-- `DeleteResourceTypeHandler.handle`
unfoldable pub delete_type : ℕ → Action (Unit {0})
delete_type id = delete_resource_type id
