-- ===== src/Catalog/Definition.antt =====
-- attribute.py: one attribute of a type of resources.
pub mod Valued
use text.Mathlib.Text.{◌==◌ as str_eq}
use venue_backend.Common.{
  ℕ, ◌+◌, if◌then◌else◌, String, Bool, Option, none, some, List, [], ◌∷◌, ◌++◌,
}
use venue_backend.Shared.Result.{
  plain, indexed, FieldError, failure_many, Result, success, failed, field_errors,
}
use venue_backend.Shared.Values.{Raw}
use venue_backend.Shared.Names.{create_key, create_short_name}

pub data AttrType : Type 0 where
  string_type int_type bool_type enum_type : AttrType

-- `AttrType(...)` of a text.
abbrev pub attr_type_of : String → Option AttrType
attr_type_of s =
    if str_eq s "string"
    then some string_type
    else if str_eq s "int"
    then some int_type
    else if str_eq s "bool"
    then some bool_type
    else if str_eq s "enum"
    then some enum_type
    else none

pub record AttributeDefinition : Type 0 where
  pub key : String
  pub label : String
  pub data_type : AttrType
  pub required : Bool
  pub enum_values : Option (List String)

-- The arguments of `AttributeDefinition.create`.
pub record DefinitionInput : Type 0 where
  pub key : Raw
  pub label : Raw
  pub data_type : AttrType
  pub required : Bool
  pub enum_values : Option (List Raw)

-- The loop over `enumerate(enum_values)`: the errors, and the values where there are none.
unfoldable pub value_errors : ℕ → List Raw → List FieldError
value_errors idx [] = []
value_errors idx (raw ∷ raws) =
    field_errors (indexed "enum_values" idx) (create_short_name raw) ++ value_errors (idx + 1) raws

abbrev pub accepted : {A : Type 0} → Result A → List A → List A
accepted (success a) vos = a ∷ vos
accepted (failed e) vos = vos

unfoldable pub values_of : List Raw → List String
values_of [] = []
values_of (raw ∷ raws) = accepted (create_short_name raw) (values_of raws)

abbrev pub enum_error : String → List FieldError
enum_error code = record { code = code; field = plain "enum_values" } ∷ []

-- The errors of `enum_values`, which an `ENUM` needs and no other type may have.
abbrev pub enum_errors : AttrType → Option (List Raw) → List FieldError
enum_errors enum_type (some (raw ∷ raws)) = value_errors 0 (raw ∷ raws)
enum_errors enum_type _ = enum_error "EnumTypeRequiresValues"
enum_errors _ (some (raw ∷ raws)) = enum_error "NonEnumTypeCannotHaveValues"
enum_errors _ _ = []

-- `enum_vos`
abbrev pub enum_vos : AttrType → Option (List Raw) → Option (List String)
enum_vos enum_type (some raws) = some (values_of raws)
enum_vos _ _ = none

abbrev pub definition_errors : DefinitionInput → List FieldError
definition_errors i =
    field_errors (plain "key") (create_key i.key)
    ++ (field_errors (plain "label") (create_short_name i.label)
        ++ enum_errors i.data_type i.enum_values)

-- The value where there is no error; the errors of a value that failed are never empty.
abbrev pub define :
    DefinitionInput → List FieldError → Result String → Result String → Result AttributeDefinition
define i [] (success key) (success label) = success (record {
  key = key;
  label = label;
  data_type = i.data_type;
  required = i.required;
  enum_values = enum_vos i.data_type i.enum_values;
})
define i errors _ _ = failed (failure_many errors none)

-- `AttributeDefinition.create`
unfoldable pub create_definition : DefinitionInput → Result AttributeDefinition
create_definition i = define i (definition_errors i) (create_key i.key) (create_short_name i.label)
