-- ===== src/UseCases/Catalog/Kept.antt =====
-- What the handlers of the catalogue keep: every type of the table keeps the promise of the aggregate.
use mathlib.Core.Path.{subst}
use venue_backend.Common.{
  ℕ, ◌==◌, ◌≡◌, refl, inl, inr, Bool, true, false, not, ◌||◌, Option, none, some, List, [], ◌∷◌,
  ◌++◌, is_some, All, Bool-cases, arith, Member, Member-append, Member-find, select,
}
use venue_backend.Shared.Result.{
  Result, success, failed, with_status, with_status-eq-success, unless_errors,
  unless_errors-eq-success,
}
use venue_backend.Shared.Time.{utc}
use venue_backend.Catalog.Definition.{AttrType, AttributeDefinition, create_definition, accepted}
use venue_backend.Catalog.Definition.Valued.{created_definition}
use venue_backend.Catalog.Types.{ResourceType, replace_attribute_schema}
use venue_backend.Catalog.Types.Invariant.{
  IsDefinition, IsResourceType, renamed, new_schema, activated, deactivated,
  create_resource_type-IsResourceType, type_mutation-IsResourceType,
}
use venue_backend.Store.{
  World, done, pure, ◌>>=◌, ◌>>◌, revise_type, add_resource_type, update_resource_type,
  delete_resource_type,
}
use venue_backend.Store.Returns.{some_or_then, ask_then, lift_then}
use venue_backend.UseCases.Catalog.{
  RawDefinition, input_of, attr_type_of, raw_definition, schema_errors, schema_of,
  CreateResourceTypeCommand, type_input, create_type, UpdateResourceTypeCommand, renamed_type,
  with_schema, reschemed, toggled, update_type, delete_type,
}

-- The definitions that the loop has made.
accepted-IsDefinition :
    (raw : RawDefinition) (k : AttrType) (r : Result AttributeDefinition)
    (rest : List AttributeDefinition)
    → create_definition (input_of raw k) ≡ r
    → All IsDefinition rest
    → All IsDefinition (accepted r [] ++ rest)
accepted-IsDefinition raw k (success d) rest e all =
    let (_, _, valued) = created_definition (input_of raw k) e in (valued, all)
accepted-IsDefinition raw k (failed e) rest h all = all

defined_first :
    (raw : RawDefinition) (k : Option AttrType) (rest : List AttributeDefinition)
    → All IsDefinition rest
    → All IsDefinition (raw_definition raw k ++ rest)
defined_first raw none rest all = all
defined_first raw (some k) rest all =
    accepted-IsDefinition raw k (create_definition (input_of raw k)) rest refl all

schema_of-IsDefinition : (raws : List RawDefinition) → All IsDefinition (schema_of raws)
unfolding schema_of
schema_of-IsDefinition [] = tt
schema_of-IsDefinition (raw ∷ raws) =
    defined_first raw (attr_type_of raw.data_type) (schema_of raws) (schema_of-IsDefinition raws)

abbrev pub AreTypes : World → Type 0
AreTypes w = (t : ResourceType) → Member t w.resource_types → IsResourceType t

add_last :
    (x : ResourceType) (w : World) {t : ResourceType} {w' : World}
    → (add_resource_type x >> pure x) w ≡ done t w'
    → (t ≡ x) × (w' ≡ record w { resource_types = w.resource_types ++ x ∷ [] })
unfolding ◌>>=◌ add_resource_type pure
add_last x w h = ground arith

update_last :
    (x : ResourceType) (w : World) {t : ResourceType} {w' : World}
    → (update_resource_type x >> pure x) w ≡ done t w'
    → (t ≡ x) × (w' ≡ record w { resource_types = revise_type x w.resource_types })
unfolding ◌>>=◌ update_resource_type pure
update_last x w h = ground arith

delete_last :
    (id : ℕ) (w : World) {w' : World}
    → delete_type id w ≡ done tt w'
    → w' ≡ record w { resource_types = select (λ t. not (t.id == id)) w.resource_types }
unfolding delete_type delete_resource_type
delete_last id w h = ground arith

-- Creating a type writes a new row that keeps the promise.
create_type-AreTypes :
    (id now : ℕ) (cmd : CreateResourceTypeCommand) (w w' : World) (t : ResourceType)
    → AreTypes w
    → create_type id now cmd w ≡ done t w'
    → AreTypes w'
unfolding create_type
create_type-AreTypes id now cmd w w' t all h =
    let (schema, made, h1) = lift_then w _ _ h in
    let (x, created, h2) = lift_then w _ _ h1 in
    let (_, left) = add_last x w h2 in
    let (_, same) =
      unless_errors-eq-success (schema_errors 0 cmd.attribute_schema)
        (schema_of cmd.attribute_schema) (with_status-eq-success 400 _ made) in
    let new : IsResourceType x =
      create_resource_type-IsResourceType id (utc now) (type_input cmd schema)
        (rw same (schema_of-IsDefinition cmd.attribute_schema))
        (with_status-eq-success 400 _ created) in
    rw left
      λ y m. elim (Member-append w.resource_types x y m) [ inl old ↦ all y old | inr e ↦ rw e new ]

renamed-IsResourceType :
    (cmd : UpdateResourceTypeCommand) (now : ℕ) (t : ResourceType) {x : ResourceType}
    → IsResourceType t
    → renamed_type cmd now t ≡ success x
    → IsResourceType x
renamed-IsResourceType cmd now t {x} i h =
    elim (Bool-cases (is_some cmd.name || is_some cmd.description)) [
      | inl given ↦ type_mutation-IsResourceType i (
          renamed cmd.name cmd.description (utc now) (with_status-eq-success 400 _ (rw given at h)))
      | inr nothing ↦ let e : t ≡ x = cc (rw nothing at h) in rw⁻¹ e i
    ]

schemed-IsResourceType :
    (now : ℕ) (t : ResourceType) (raws : List RawDefinition) {x : ResourceType}
    → IsResourceType t
    → reschemed (some raws) now t ≡ success x
    → IsResourceType x
schemed-IsResourceType now t raws i h =
    let (schema, made, replaced) =
      opened (with_status 400 (unless_errors (schema_errors 0 raws) (schema_of raws))) h in
    let (_, same) =
      unless_errors-eq-success (schema_errors 0 raws) (schema_of raws)
        (with_status-eq-success 400 _ made) in
    type_mutation-IsResourceType i (
      new_schema schema (utc now) (rw same (schema_of-IsDefinition raws))
        (with_status-eq-success 400 _ replaced))
  where
    opened :
        (r : Result (List AttributeDefinition)) {y : ResourceType}
        → with_schema now t r ≡ success y
        → (schema : List AttributeDefinition) × (r ≡ success schema)
          × (with_status 400 (replace_attribute_schema t schema (utc now)) ≡ success y)
    opened (success schema) k = (schema, refl, k)
    opened (failed e) k = cc

reschemed-IsResourceType :
    (now : ℕ) (t : ResourceType) (given : Option (List RawDefinition)) {x : ResourceType}
    → IsResourceType t
    → reschemed given now t ≡ success x
    → IsResourceType x
reschemed-IsResourceType now t none {x} i h = let e : t ≡ x = cc in rw⁻¹ e i
reschemed-IsResourceType now t (some raws) i h = schemed-IsResourceType now t raws i h

toggled-IsResourceType :
    (now : ℕ) (t : ResourceType) (given : Option Bool)
    → IsResourceType t
    → IsResourceType (toggled given now t)
toggled-IsResourceType now t none i = i
toggled-IsResourceType now t (some true) i =
    type_mutation-IsResourceType i (activated (utc now) refl)
toggled-IsResourceType now t (some false) i =
    type_mutation-IsResourceType i (deactivated (utc now) refl)

revised-IsResourceType :
    (x : ResourceType) (rows : List ResourceType)
    → IsResourceType x
    → ((t : ResourceType) → Member t rows → IsResourceType t)
    → (t : ResourceType) → Member t (revise_type x rows)
    → IsResourceType t
revised-IsResourceType x [] i all t m = elim m [ ]
revised-IsResourceType x (y ∷ rows) i all t (inl e) = elim (Bool-cases (y.id == x.id)) [
  | inl hit ↦ subst IsResourceType (rw hit at e) (record {
    slug = i.slug;
    name = i.name;
    description = i.description;
    keys = i.keys;
    definitions = i.definitions;
  })
  | inr miss ↦ subst IsResourceType (rw miss at e) (all y (inl refl))
]
revised-IsResourceType x (y ∷ rows) i all t (inr m) =
    revised-IsResourceType x rows i (λ v n. all v (inr n)) t m

update_type-AreTypes :
    (renamed_at replaced_at toggled_at : ℕ) (cmd : UpdateResourceTypeCommand) (w w' : World)
    (t : ResourceType)
    → AreTypes w
    → update_type renamed_at replaced_at toggled_at cmd w ≡ done t w'
    → AreTypes w'
unfolding update_type
update_type-AreTypes renamed_at replaced_at toggled_at cmd w w' t all h =
    let (old, found, h1) = some_or_then w _ _ _ (ask_then w _ _ h) in
    let (named, is_named, h2) = lift_then w _ _ h1 in
    let (schemed, is_schemed, h3) = lift_then w _ _ h2 in
    let (_, left) = update_last (toggled cmd.is_active toggled_at schemed) w h3 in
    let i =
      renamed-IsResourceType cmd renamed_at old
        (all old ((Member-find (λ y. y.id == cmd.id) w.resource_types old found).0)) is_named in
    let j = reschemed-IsResourceType replaced_at named cmd.attribute_schema i is_schemed in
    rw left (
      revised-IsResourceType _ w.resource_types
        (toggled-IsResourceType toggled_at schemed cmd.is_active j) all)

Member-select :
    (p : ResourceType → Bool) (rows : List ResourceType) (t : ResourceType)
    → Member t (select p rows)
    → Member t rows
Member-select p [] t m = elim m [ ]
Member-select p (y ∷ rows) t m = elim (Bool-cases (p y)) [
  | inl hit ↦ elim (rw hit at m) [ inl e ↦ inl e | inr n ↦ inr (Member-select p rows t n) ]
  | inr miss ↦ inr (Member-select p rows t (rw miss at m))
]

-- The calls of the handlers that return, in any order.
pub data Cataloguing (w : World) : World → Type 0 where
  begin : Cataloguing w w
  created :
      {u v : World} (id now : ℕ) (cmd : CreateResourceTypeCommand) (t : ResourceType)
      → Cataloguing w u
      → create_type id now cmd u ≡ done t v
      → Cataloguing w v
  updated :
      {u v : World} (renamed_at replaced_at toggled_at : ℕ) (cmd : UpdateResourceTypeCommand)
      (t : ResourceType)
      → Cataloguing w u
      → update_type renamed_at replaced_at toggled_at cmd u ≡ done t v
      → Cataloguing w v
  dropped :
      {u v : World} (id : ℕ) → Cataloguing w u → delete_type id u ≡ done tt v → Cataloguing w v

-- Whatever types are created, updated and deleted, every type of the table has texts that their checks
-- accepted, no two attributes with one key, and listed values exactly for its enumerations.
pub catalog_keeps_types : {w w' : World} → AreTypes w → Cataloguing w w' → AreTypes w'
catalog_keeps_types all begin = all
catalog_keeps_types all (created {u} {v} id now cmd t run h) =
    create_type-AreTypes id now cmd u v t (catalog_keeps_types all run) h
catalog_keeps_types all (updated {u} {v} r p g cmd t run h) =
    update_type-AreTypes r p g cmd u v t (catalog_keeps_types all run) h
catalog_keeps_types all (dropped {u} {v} id run h) = rw (delete_last id u h) λ t m.
    catalog_keeps_types all run t (Member-select (λ y. not (y.id == id)) u.resource_types t m)
