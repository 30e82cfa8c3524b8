-- ===== src/Catalog/Types/Exact.antt =====
-- The validation of attributes accepts exactly the dicts that fit the schema of the type.
use mathlib.Core.List.{cons≢nil}
use venue_backend.Common.{
  String, ◌≡◌, refl, ◌⊎◌, inl, inr, ◌↔◌, Bool, true, false, not, ◌&&◌, Option, some, List, [], ◌∷◌,
  All, Bool-cases, Option-cases, if◌then◌else◌, append-eq-nil,
}
use venue_backend.Shared.Result.{success, unless_errors-eq-success}
use venue_backend.Shared.Dicts.{Attributes, has_key, keys_of}
use venue_backend.Shared.Time.{ℤ}
use venue_backend.Shared.Values.{Raw, boolean, integer, text}
use venue_backend.Catalog.Definition.{
  AttrType, string_type, int_type, bool_type, enum_type, AttributeDefinition,
}
use venue_backend.Catalog.Types.{
  ResourceType, definition_of, is_allowed, attribute_error, type_errors, item_error, item_errors,
  required_errors, validate_attributes,
}

-- The values of a data type: texts, integers, Booleans, or the texts that are listed.
pub data HasType : AttrType → Option (List String) → Raw → Type 0 where
  a_string : (allowed : Option (List String)) (s : String) → HasType string_type allowed (text s)
  an_int : (allowed : Option (List String)) (n : ℤ) → HasType int_type allowed (integer n)
  a_bool : (allowed : Option (List String)) (b : Bool) → HasType bool_type allowed (boolean b)
  a_choice :
      (allowed : Option (List String)) (s : String)
      → is_allowed s allowed ≡ true
      → HasType enum_type allowed (text s)

-- An item of the dict: its key is defined, and its value has the type of the definition.
abbrev pub Fits : List AttributeDefinition → String × Raw → Type 0
Fits schema item =
    (d : AttributeDefinition) × (definition_of item.0 schema ≡ some d)
    × HasType d.data_type d.enum_values item.1

-- A definition that asks for a value, and finds one.
abbrev pub IsGiven : List String → AttributeDefinition → Type 0
IsGiven keys d = (d.required ≡ false) ⊎ (has_key d.key keys ≡ true)

type_errors-HasType :
    (key : String) (k : AttrType) (allowed : Option (List String)) (value : Raw)
    → type_errors key k allowed value ≡ []
    → HasType k allowed value
type_errors-HasType key string_type allowed (text s) h = a_string allowed s
type_errors-HasType key int_type allowed (integer n) h = an_int allowed n
type_errors-HasType key bool_type allowed (boolean b) h = a_bool allowed b
type_errors-HasType key enum_type allowed (text s) h = elim (Bool-cases (is_allowed s allowed)) [
  | inl listed ↦ a_choice allowed s listed
  | inr missing ↦ absurd (cons≢nil (rw missing at h))
]
type_errors-HasType key _ allowed _ h = absurd (cons≢nil h)

HasType-type_errors :
    (key : String) {k : AttrType} {allowed : Option (List String)} {value : Raw}
    → HasType k allowed value
    → type_errors key k allowed value ≡ []
HasType-type_errors key (a_string allowed s) = refl
HasType-type_errors key (an_int allowed n) = refl
HasType-type_errors key (a_bool allowed b) = refl
HasType-type_errors key (a_choice allowed s listed) = rw listed refl

item_error_exact :
    (schema : List AttributeDefinition) (key : String) (value : Raw)
    → (item_error key value (definition_of key schema) ≡ []) ↔ Fits schema (key, value)
item_error_exact schema key value = elim (Option-cases (definition_of key schema)) [
  | inl unknown ↦ (λ h. absurd (cons≢nil (rw unknown at h)), λ f. let (d, found, _) = f in cc)
  | inr (d, found) ↦ (
    λ h. (d, found, type_errors-HasType key d.data_type d.enum_values value (rw found at h)),
    λ (e, same, fits). rw same (HasType-type_errors key fits),
  )
]

item_errors_exact :
    (schema : List AttributeDefinition) (items : Attributes)
    → (item_errors schema items ≡ []) ↔ All (Fits schema) items
unfolding item_errors
item_errors_exact schema [] = (λ h. tt, λ a. refl)
item_errors_exact schema ((key, value) ∷ items) =
    let rest = item_errors_exact schema items in
    let this = item_error_exact schema key value in
    (
      λ h. let (e, es) = append-eq-nil _ _ h in (this.0 e, rest.0 es),
      λ (f, fs). rw (this.1 f) (rest.1 fs),
    )

required_error_exact :
    (key : String) (required given : Bool)
    → ((if required && not given then attribute_error "RequiredAttributeMissing" key else []) ≡ [])
      ↔ ((required ≡ false) ⊎ (given ≡ true))
required_error_exact key false given = (λ h. inl refl, λ g. refl)
required_error_exact key true true = (λ h. inr refl, λ g. refl)
required_error_exact key true false =
    (λ h. absurd (cons≢nil h), λ g. elim g [ inl e ↦ cc | inr e ↦ cc ])

required_errors_exact :
    (keys : List String) (schema : List AttributeDefinition)
    → (required_errors keys schema ≡ []) ↔ All (IsGiven keys) schema
unfolding required_errors
required_errors_exact keys [] = (λ h. tt, λ a. refl)
required_errors_exact keys (d ∷ schema) =
    let rest = required_errors_exact keys schema in
    let this = required_error_exact d.key d.required (has_key d.key keys) in
    (
      λ h. let (e, es) = append-eq-nil _ _ h in (this.0 e, rest.0 es),
      λ (g, gs). rw (this.1 g) (rest.1 gs),
    )

-- The validation of attributes against a type accepts a dict exactly where every attribute that the
-- type requires has a key in it, and the key of every item is defined by the type, with a value of
-- the data type that its definition (the last one with that key) asks for.
pub validate_attributes_exact :
    (t : ResourceType) (items : Attributes)
    → (validate_attributes t items ≡ success tt)
      ↔ (All (IsGiven (keys_of items)) t.attribute_schema × All (Fits t.attribute_schema) items)
unfolding validate_attributes
validate_attributes_exact t items = (
  λ h.
      let (e, es) = append-eq-nil _ _ (unless_errors-eq-success _ _ h).0 in
      (
        (required_errors_exact (keys_of items) t.attribute_schema).0 e,
        (item_errors_exact t.attribute_schema items).0 es,
      ),
  λ (given, fit).
      rw
        (
          (required_errors_exact (keys_of items) t.attribute_schema).1 given,
          (item_errors_exact t.attribute_schema items).1 fit,
        )
        refl,
)
