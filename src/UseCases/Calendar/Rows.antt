-- ===== src/UseCases/Calendar/Rows.antt =====
-- What a written row does to the calendar.
use venue_backend.Common.{
  ℕ, Bool, map, ◌==◌, ==_iff, ◌≡◌, refl, ap, ◌∙◌, true, false, ◌&&◌, ◌||◌, List, [], ◌∷◌, ◌++◌, any,
  find, is_some, arith, Bool-cases, inl, inr, if◌then◌else◌,
}
use venue_backend.Bookings.{Booking, is_approved}
use venue_backend.Store.{excludes, violates, replace}
use venue_backend.UseCases.Calendar.{is_within, holds, calendar_of, IsSame, IsReleased, IsReserved}

any-replace_other :
    (b : Booking) (rows : List Booking) (room t id : ℕ)
    → (id == b.id) ≡ false
    → any (holds room t id) (replace b rows) ≡ any (holds room t id) rows
any-replace_other b [] room t id ne = refl
any-replace_other b (y ∷ rows) room t id ne = ground (arith, any-replace_other b rows room t id ne)

any-replace_same :
    (b : Booking) (rows : List Booking) (room t : ℕ)
    → any (holds room t b.id) (replace b rows)
      ≡ is_some (find (λ y. y.id == b.id) rows) && holds room t b.id b
any-replace_same b [] room t = refl
any-replace_same b (y ∷ rows) room t = ground (arith, any-replace_same b rows room t)

-- What holds of the rows of an update.
updated :
    (b : Booking) (rows : List Booking)
    → is_some (find (λ y. y.id == b.id) rows) ≡ true
    → (r t id : ℕ)
    → calendar_of (replace b rows) r t id
      ≡ (if id == b.id then holds r t b.id b else calendar_of rows r t id)
updated b rows there r t id = elim (Bool-cases (id == b.id)) [
  | inl mine ↦ rw mine (
      ap (calendar_of (replace b rows) r t) ((==_iff _ _).0 mine)
      ∙ any-replace_same b rows r t
      ∙ rw there refl)
  | inr other ↦ rw other (any-replace_other b rows r t id other)
]

-- A row that is not approved, written over the rows of its id, releases them.
pub replace-IsReleased :
    (b : Booking) (rows : List Booking)
    → is_approved b.status ≡ false
    → IsReleased b.id (calendar_of rows) (calendar_of (replace b rows))
replace-IsReleased b rows free r t id = elim (Bool-cases (id == b.id)) [
  | inl mine ↦ rw mine (
      ap (calendar_of (replace b rows) r t) ((==_iff _ _).0 mine)
      ∙ any-replace_same b rows r t
      ∙ nothing (is_some (find (λ y. y.id == b.id) rows)) (holds r t b.id b) (rw free refl))
  | inr other ↦ rw other (any-replace_other b rows r t id other)
]
  where
    nothing : (x y : Bool) → y ≡ false → x && y ≡ false
    nothing x y h = ground arith

-- A new row that is not approved holds nothing.
pub append-IsSame :
    (b : Booking) (rows : List Booking)
    → is_approved b.status ≡ false
    → IsSame (calendar_of rows) (calendar_of (rows ++ b ∷ []))
append-IsSame b [] free r t id = rw free refl
append-IsSame b (y ∷ rows) free r t id =
    ap (λ x. holds r t id y || x) (append-IsSame b rows free r t id)

-- Rows that are changed where they were not approved, and are not approved after.
pub map-IsSame :
    (p : Booking → Bool) (f : Booking → Booking) (rows : List Booking)
    → ((y : Booking) → p y ≡ true → is_approved y.status ≡ false)
    → ((y : Booking) → is_approved (f y).status ≡ false)
    → IsSame (calendar_of rows) (calendar_of (map (λ y. if p y then f y else y) rows))
map-IsSame p f [] before after r t id = refl
map-IsSame p f (y ∷ rows) before after r t id = elim (Bool-cases (p y)) [
  | inl hit ↦ rw (hit, after y, before y hit) (map-IsSame p f rows before after r t id)
  | inr miss ↦ rw miss (ap (λ x. holds r t id y || x) (map-IsSame p f rows before after r t id))
]

-- The constraint leaves the range of an approved booking to it alone.
free_range :
    (b : Booking) (rows : List Booking)
    → any (excludes b) rows ≡ false
    → (t id : ℕ) → is_within b.slot_range t ≡ true
    → (id == b.id) ≡ false
    → calendar_of rows b.resource_id t id ≡ false
free_range b [] h t id within other = refl
free_range b (y ∷ rows) h t id within other =
    ground (arith, free_range b rows (ground arith) t id within other)

within_is :
    (b : Booking) (r t : ℕ)
    → is_approved b.status ≡ true
    → holds r t b.id b ≡ (r == b.resource_id) && is_within b.slot_range t
within_is b r t held = ground arith

-- An approved row, let through by the constraint, where the rows of other ids change by `f` only
-- where they were not approved and are not approved after.
pub approve-IsReserved :
    (b : Booking) (p : Booking → Bool) (f : Booking → Booking) (rows : List Booking)
    → is_some (find (λ y. y.id == b.id) rows) ≡ true
    → is_approved b.status ≡ true
    → violates b rows ≡ false
    → ((y : Booking) → p y ≡ true → is_approved y.status ≡ false)
    → ((y : Booking) → is_approved (f y).status ≡ false)
    → IsReserved b.id b.resource_id b.slot_range
        (calendar_of rows)
        (calendar_of (map (λ y. if y.id == b.id then b else if p y then f y else y) rows))
approve-IsReserved b p f rows there held fine before after = record {
  free = free_range b rows (rw held at fine);
  taken = λ r t id.
      as_replaced rows r t id
      ∙ updated b rows there r t id
      ∙ ap (λ x. if id == b.id then x else calendar_of rows r t id) (within_is b r t held);
}
  where
    as_replaced :
        (l : List Booking) (r t id : ℕ)
        → calendar_of (map (λ y. if y.id == b.id then b else if p y then f y else y) l) r t id
          ≡ calendar_of (replace b l) r t id
    as_replaced [] r t id = refl
    as_replaced (y ∷ l) r t id = elim (Bool-cases (y.id == b.id)) [
      | inl mine ↦ rw mine (ap (λ x. holds r t id b || x) (as_replaced l r t id))
      | inr other ↦ elim (Bool-cases (p y)) [
        | inl hit ↦ rw (other, hit, after y, before y hit) (as_replaced l r t id)
        | inr miss ↦ rw (other, miss) (ap (λ x. holds r t id y || x) (as_replaced l r t id))
      ]
    ]
