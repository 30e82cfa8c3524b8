-- ===== src/UseCases/Distinct/Rows.antt =====
-- The invariant, and the updates and insertions that keep it.
use venue_backend.Common.{
  String, ℕ, ◌≡◌, ◌≢◌, refl, sym, ap, ◌∙◌, true, false, not, ◌||◌, ◌⊎◌, inl, inr, List, arith,
  is_some, Bool-cases,
}
use venue_backend.Shared.Values.{DateTimeRange, overlaps}
use venue_backend.Bookings.{Booking, is_active}
use venue_backend.Resources.Entity.{Resource}
use venue_backend.Store.{
  World, NotifKind, Datum, get_booking, get_resource, violates, in_range, update_booking,
  add_booking, update_resource, notify,
}
use venue_backend.Store.Keeps.{Keeps, Left}
use venue_backend.Store.Rows.{IsRow}
use venue_backend.Store.Updates.{new_or_old, added_or_old}

abbrev pub Distinct : Booking → Booking → Type 0
Distinct x y =
    x.id ≢ y.id
    → x.customer_id ≡ y.customer_id
    → x.resource_id ≡ y.resource_id
    → is_active x.status ≡ true
    → is_active y.status ≡ true
    → overlaps x.slot_range y.slot_range ≡ false

-- No customer holds two active bookings of one resource that overlap.
pub record AreDistinct (w : World) : Type 0 where
  pub pair : (x y : Booking) → IsRow x w.bookings → IsRow y w.bookings → Distinct x y

overlaps_comm : (a b : DateTimeRange) → overlaps a b ≡ overlaps b a
overlaps_comm a b = ground arith

Distinct-sym : (x y : Booking) → Distinct x y → Distinct y x
Distinct-sym x y h d c r ay ax =
    overlaps_comm y.slot_range x.slot_range ∙ h (λ e. d (sym e)) (sym c) (sym r) ax ay

-- Rows of which each is `b` or an old one.
with_row-AreDistinct :
    (b : Booking) (w w' : World)
    → AreDistinct w
    → ((y : Booking) → IsRow y w.bookings → Distinct b y)
    → ((x : Booking) → IsRow x w'.bookings → (x ≡ b) ⊎ IsRow x w.bookings)
    → AreDistinct w'
with_row-AreDistinct b w w' all new from = record {
  pair = λ x y mx my. either x y (from x mx) (from y my);
}
  where
    either :
        (x y : Booking) → (x ≡ b) ⊎ IsRow x w.bookings → (y ≡ b) ⊎ IsRow y w.bookings → Distinct x y
    either x y (inl e) (inl f) = λ d. absurd (d (ap (λ t. t.id) (e ∙ sym f)))
    either x y (inl e) (inr my) = rw e (new y my)
    either x y (inr mx) (inl f) = rw f (Distinct-sym b x (new x mx))
    either x y (inr mx) (inr my) = all.pair x y mx my

update_booking-AreDistinct :
    (b : Booking) (w : World)
    → AreDistinct w
    → ((y : Booking) → IsRow y w.bookings → Distinct b y)
    → Left AreDistinct (update_booking b w)
unfolding update_booking
update_booking-AreDistinct b w all new = elim (Bool-cases (is_some (get_booking b.id w))) [
  | inr gone ↦ rw gone all
  | inl there ↦ elim (Bool-cases (not (is_some b.total_price_cents) || violates b w.bookings)) [
    | inl refused ↦ rw (there, refused) tt
    | inr passed ↦ rw (there, passed) (with_row-AreDistinct b w _ all new (new_or_old b w.bookings))
  ]
]

-- A booking that is not active meets nothing.
pub update_off-AreDistinct :
    (b : Booking) → is_active b.status ≡ false → Keeps AreDistinct (update_booking b)
update_off-AreDistinct b off = record {
  at = λ w all. update_booking-AreDistinct b w all (λ y m d c r on. absurd (both on off));
}
  where
    both : is_active b.status ≡ true → is_active b.status ≡ false → ⊥
    both h k = cc

-- The row of an active booking is given the same request.
pub update_same-AreDistinct :
    (b t : Booking) (w : World)
    → AreDistinct w
    → IsRow t w.bookings
    → is_active t.status ≡ true
    → b.id ≡ t.id
    → b.customer_id ≡ t.customer_id
    → b.resource_id ≡ t.resource_id
    → b.slot_range ≡ t.slot_range
    → Left AreDistinct (update_booking b w)
update_same-AreDistinct b t w all row on same_id same_customer same_resource same_range =
    update_booking-AreDistinct b w all λ y m d c r _ ay.
      ap (λ s. overlaps s y.slot_range) same_range
      ∙ all.pair t y row m (λ e. d (same_id ∙ e)) (sym same_customer ∙ c) (sym same_resource ∙ r) on
          ay

pub add_booking-AreDistinct :
    (b : Booking) (w : World)
    → AreDistinct w
    → ((y : Booking)
        → IsRow y w.bookings
        → y.customer_id ≡ b.customer_id
        → y.resource_id ≡ b.resource_id
        → is_active y.status ≡ true
        → in_range b.slot_range y ≡ false)
    → Left AreDistinct (add_booking b w)
unfolding add_booking
add_booking-AreDistinct b w all free =
    elim (Bool-cases (
      not (is_some b.total_price_cents) || is_some (get_booking b.id w) || violates b w.bookings)) [
        | inl refused ↦ rw refused tt
        | inr passed ↦ rw passed (
            with_row-AreDistinct b w _ all (λ y m d c r _ ay. meets y (free y m (sym c) (sym r) ay))
              (added_or_old b w.bookings))
      ]
  where
    meets :
        (y : Booking) → in_range b.slot_range y ≡ false → overlaps b.slot_range y.slot_range ≡ false
    meets y h = ground arith

same_bookings : (w w' : World) → w'.bookings ≡ w.bookings → AreDistinct w → AreDistinct w'
same_bookings w w' e all = record { pair = rw e all.pair }

pub update_resource-AreDistinct : (r : Resource) → Keeps AreDistinct (update_resource r)
unfolding update_resource
update_resource-AreDistinct r = record { at = λ w all. left w all }
  where
    left : (w : World) → AreDistinct w → Left AreDistinct (update_resource r w)
    left w all = elim (Bool-cases (is_some (get_resource r.id w))) [
      | inr gone ↦ rw gone all
      | inl there ↦ rw there (same_bookings w _ refl all)
    ]

pub notify-AreDistinct :
    (recipient_id : ℕ) (kind : NotifKind) (payload : List (String × Datum))
    → Keeps AreDistinct (notify recipient_id kind payload)
unfolding notify
notify-AreDistinct recipient_id kind payload = record { at = λ w all. same_bookings w _ refl all }
