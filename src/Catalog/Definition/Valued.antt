-- ===== src/Catalog/Definition/Valued.antt =====
-- A definition that was created lists values exactly where its type is an enumeration.
use venue_backend.Common.{
  ◌≡◌, refl, ◌⊎◌, inl, inr, String, Option, none, some, List, [], ◌∷◌, arith, append-eq-nil,
}
use venue_backend.Shared.Result.{FieldError, Result, success}
use venue_backend.Shared.Text.{strip}
use venue_backend.Shared.Values.{Raw, text, null, boolean, integer, other, fail_with}
use venue_backend.Shared.Names.{unless_error, short_name_error, create_key, create_short_name}
use venue_backend.Catalog.Definition.{
  AttrType, string_type, int_type, bool_type, enum_type, AttributeDefinition, DefinitionInput,
  value_errors, values_of, enum_errors, enum_vos, definition_errors, define, create_definition,
}

-- The values that a data type may have: some for an enumeration, and none for another type.
pub data HasValues : AttrType → Option (List String) → Type 0 where
  listed : (v : String) (vs : List String) → HasValues enum_type (some (v ∷ vs))
  no_strings : HasValues string_type none
  no_ints : HasValues int_type none
  no_bools : HasValues bool_type none

-- What a check does: it accepts, or it gives one code.
accepts_or_codes :
    (e : Option String) (s : String)
    → ((v : String) × (unless_error e s ≡ success v))
      ⊎ ((code : String) × (unless_error e s ≡ fail_with code))
accepts_or_codes none s = inl (s, refl)
accepts_or_codes (some code) s = inr (code, refl)

create_short_name-cases :
    (raw : Raw)
    → ((v : String) × (create_short_name raw ≡ success v))
      ⊎ ((code : String) × (create_short_name raw ≡ fail_with code))
unfolding create_short_name
create_short_name-cases (text s) = accepts_or_codes (short_name_error (strip s)) (strip s)
create_short_name-cases null = inr ("ShortNameCannotBeEmpty", refl)
create_short_name-cases (boolean b) = inr ("ShortNameCannotBeEmpty", refl)
create_short_name-cases (integer n) = inr ("ShortNameCannotBeEmpty", refl)
create_short_name-cases other = inr ("ShortNameCannotBeEmpty", refl)

values-HasValues :
    (raw : Raw) (raws : List Raw)
    → value_errors 0 (raw ∷ raws) ≡ []
    → HasValues enum_type (some (values_of (raw ∷ raws)))
unfolding value_errors values_of
values-HasValues raw raws h = elim (create_short_name-cases raw) [
  | inl (v, fine) ↦ rw fine (listed v (values_of raws))
  | inr (code, bad) ↦ cc (rw bad at h)
]

vos-HasValues :
    (k : AttrType) (raws : Option (List Raw))
    → enum_errors k raws ≡ []
    → HasValues k (enum_vos k raws)
vos-HasValues enum_type (some (raw ∷ raws)) h = values-HasValues raw raws h
vos-HasValues enum_type (some []) h = cc
vos-HasValues enum_type none h = cc
vos-HasValues string_type (some (raw ∷ raws)) h = cc
vos-HasValues string_type (some []) h = no_strings
vos-HasValues string_type none h = no_strings
vos-HasValues int_type (some (raw ∷ raws)) h = cc
vos-HasValues int_type (some []) h = no_ints
vos-HasValues int_type none h = no_ints
vos-HasValues bool_type (some (raw ∷ raws)) h = cc
vos-HasValues bool_type (some []) h = no_bools
vos-HasValues bool_type none h = no_bools

defined :
    (i : DefinitionInput) (errors : List FieldError) (key label : Result String)
    → {d : AttributeDefinition} → define i errors key label ≡ success d
    → (errors ≡ [])
      × (key ≡ success d.key)
      × (label ≡ success d.label)
      × (d.data_type ≡ i.data_type)
      × (d.enum_values ≡ enum_vos i.data_type i.enum_values)
defined i errors key label h = ground arith

-- What a created definition is: its key and its label are those of their checks, and it lists values
-- exactly where its type is an enumeration.
pub created_definition :
    (i : DefinitionInput) {d : AttributeDefinition}
    → create_definition i ≡ success d
    → (create_key i.key ≡ success d.key)
      × (create_short_name i.label ≡ success d.label)
      × HasValues d.data_type d.enum_values
unfolding create_definition
created_definition i h =
    let (e, key, label, k, vos) =
      defined i (definition_errors i) (create_key i.key) (create_short_name i.label) h in
    let (_, e1) = append-eq-nil _ _ e in
    let (_, e2) = append-eq-nil _ _ e1 in
    (key, label, rw (k, vos) (vos-HasValues i.data_type i.enum_values e2))
