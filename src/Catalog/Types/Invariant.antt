-- ===== src/Catalog/Types/Invariant.antt =====
-- What a type of resources promises, and that it is created and changed with that promise.
use venue_backend.Common.{
  ℕ, String, ◌≡◌, refl, false, Option, none, some, List, [], All, Bool-cases, inl, inr, arith,
  append-eq-nil,
}
use venue_backend.Shared.Result.{
  FieldError, Result, success, unless_errors-eq-success, plain, field_errors,
}
use venue_backend.Shared.Time.{DateTime}
use venue_backend.Shared.Values.{Raw, ShortDescription, create_description}
use venue_backend.Shared.Names.{create_name, create_slug}
use venue_backend.Shared.Optional.{IsMade, made, value_or, value_or-IsMade}
use venue_backend.Catalog.Definition.{AttributeDefinition}
use venue_backend.Catalog.Definition.Valued.{HasValues}
use venue_backend.Catalog.Types.{
  ResourceType, TypeInput, has_duplicate_keys, duplicate_errors, assemble, input_errors,
  create_resource_type, update_type_metadata, replace_attribute_schema, activate, deactivate,
}

abbrev pub IsDefinition : AttributeDefinition → Type 0
IsDefinition d = HasValues d.data_type d.enum_values

-- What the aggregate promises: its texts are accepted texts, no two definitions have one key, and a
-- definition lists values exactly where it is an enumeration.
pub record IsResourceType (t : ResourceType) : Type 0 where
  pub slug : IsMade create_slug t.slug
  pub name : IsMade create_name t.name
  pub description : IsMade create_description t.description
  pub keys : has_duplicate_keys t.attribute_schema ≡ false
  pub definitions : All IsDefinition t.attribute_schema

inverted :
    (id : ℕ) (now : DateTime) (i : TypeInput) (errors : List FieldError)
    → (slug name : Result String) (description : Result ShortDescription) {t : ResourceType}
    → assemble id now i errors slug name description ≡ success t
    → (errors ≡ [])
      × (slug ≡ success t.slug)
      × (name ≡ success t.name)
      × (description ≡ success t.description)
      × (t.attribute_schema ≡ i.attribute_schema)
inverted id now i errors slug name description h = ground arith

no_duplicates :
    (schema : List AttributeDefinition)
    → duplicate_errors schema ≡ []
    → has_duplicate_keys schema ≡ false
no_duplicates schema h = elim (Bool-cases (has_duplicate_keys schema)) [
  | inl twice ↦ cc (rw twice at h)
  | inr once ↦ once
]

pub create_resource_type-IsResourceType :
    (id : ℕ) (now : DateTime) (i : TypeInput) {t : ResourceType}
    → All IsDefinition i.attribute_schema
    → create_resource_type id now i ≡ success t
    → IsResourceType t
unfolding create_resource_type
create_resource_type-IsResourceType id now i ok h =
    let (e, slug, name, description, same) =
      inverted id now i (input_errors i) (create_slug i.slug) (create_name i.name)
        (create_description i.description) h in
    let (_, e1) = append-eq-nil (field_errors (plain "slug") (create_slug i.slug)) _ e in
    let (_, e2) = append-eq-nil (field_errors (plain "name") (create_name i.name)) _ e1 in
    let (_, e3) =
      append-eq-nil (field_errors (plain "description") (create_description i.description)) _ e2 in
    record {
      slug = made i.slug slug;
      name = made i.name name;
      description = made i.description description;
      keys = rw same (no_duplicates i.attribute_schema e3);
      definitions = rw same ok;
    }

-- The calls of the mutators that succeed, with definitions that were created.
pub data TypeMutation (t t' : ResourceType) : Type 0 where
  renamed :
      (name description : Option Raw) (now : DateTime)
      → update_type_metadata t name description now ≡ success t'
      → TypeMutation t t'
  new_schema :
      (schema : List AttributeDefinition) (now : DateTime)
      → All IsDefinition schema
      → replace_attribute_schema t schema now ≡ success t'
      → TypeMutation t t'
  activated : (now : DateTime) → t' ≡ activate t now → TypeMutation t t'
  deactivated : (now : DateTime) → t' ≡ deactivate t now → TypeMutation t t'

metadata_made :
    (t : ResourceType) (name description : Option Raw) (now : DateTime) {t' : ResourceType}
    → update_type_metadata t name description now ≡ success t'
    → (t'.slug ≡ t.slug)
      × (t'.name ≡ value_or t.name create_name name)
      × (t'.description ≡ value_or t.description create_description description)
      × (t'.attribute_schema ≡ t.attribute_schema)
unfolding update_type_metadata
metadata_made t none none now h = ground arith
metadata_made t none (some d) now h =
    let (_, e) = unless_errors-eq-success _ _ h in rw e (refl, refl, refl, refl)
metadata_made t (some n) none now h =
    let (_, e) = unless_errors-eq-success _ _ h in rw e (refl, refl, refl, refl)
metadata_made t (some n) (some d) now h =
    let (_, e) = unless_errors-eq-success _ _ h in rw e (refl, refl, refl, refl)

-- Every mutator of a type of resources keeps the promise of the aggregate, whatever it is given.
pub type_mutation-IsResourceType :
    {t t' : ResourceType} → IsResourceType t → TypeMutation t t' → IsResourceType t'
unfolding replace_attribute_schema activate deactivate
type_mutation-IsResourceType {t} i (renamed name description now h) =
    let (slug, n, d, schema) = metadata_made t name description now h in
    record {
      slug = rw slug i.slug;
      name = rw n (value_or-IsMade create_name name t.name i.name);
      description =
          rw d (value_or-IsMade create_description description t.description i.description);
      keys = rw schema i.keys;
      definitions = rw schema i.definitions;
    }
type_mutation-IsResourceType {t} i (new_schema schema now ok h) =
    let (e, same) = unless_errors-eq-success _ _ h in
    rw same (record {
      slug = i.slug;
      name = i.name;
      description = i.description;
      keys = no_duplicates schema e;
      definitions = ok;
    })
type_mutation-IsResourceType {t} i (activated now e) = rw e (record {
  slug = i.slug;
  name = i.name;
  description = i.description;
  keys = i.keys;
  definitions = i.definitions;
})
type_mutation-IsResourceType {t} i (deactivated now e) = rw e (record {
  slug = i.slug;
  name = i.name;
  description = i.description;
  keys = i.keys;
  definitions = i.definitions;
})
