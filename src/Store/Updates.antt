-- ===== src/Store/Updates.antt =====
-- What an update and an insertion do to the rows, and the invariants of the bookings that they keep.
use venue_backend.Common.{
  ℕ, String, ◌≡◌, ◌≢◌, refl, sym, ap, ◌∙◌, true, false, not, ◌||◌, List, [], ◌∷◌, ◌++◌, arith, any,
  is_some, Bool-cases, inl, inr, ◌⊎◌,
}
use venue_backend.Shared.Values.{overlaps, DateTimeRange}
use venue_backend.Bookings.{Booking, is_approved}
use venue_backend.Bookings.Lifecycle.{IsRecorded}
use venue_backend.Store.Tables.{
  World, NotifKind, Datum, get_booking, get_resource, excludes, violates, replace,
}
use venue_backend.Resources.Entity.{Resource}
use venue_backend.Store.Runs.{update_booking, add_booking, update_resource, notify}
use venue_backend.Store.Rows.{IsRow, IsRow-replace, IsRow-append, any-row}
use venue_backend.Store.Keeps.{Keeps, Left}

-- No two approved bookings of one resource overlap.
abbrev pub Apart : Booking → Booking → Type 0
Apart x y =
    x.id ≢ y.id
    → is_approved x.status ≡ true
    → is_approved y.status ≡ true
    → x.resource_id ≡ y.resource_id
    → overlaps x.slot_range y.slot_range ≡ false

-- What the table of bookings keeps: no double booking, and every history leads to its status.
pub record IsConsistent (w : World) : Type 0 where
  pub apart : (x y : Booking) → IsRow x w.bookings → IsRow y w.bookings → Apart x y
  pub recorded : (x : Booking) → IsRow x w.bookings → IsRecorded x

overlaps_comm : (a b : DateTimeRange) → overlaps a b ≡ overlaps b a
overlaps_comm a b = ground arith

violates-Apart :
    (b : Booking) (rows : List Booking) (y : Booking)
    → violates b rows ≡ false
    → IsRow y rows
    → Apart b y
violates-Apart b rows y v m d ab ay r =
    let none_excluded : any (excludes b) rows ≡ false = ground arith in
    ground (arith, any-row (excludes b) rows y none_excluded m)

Apart-sym : (x y : Booking) → Apart x y → Apart y x
Apart-sym x y h d ay ax r =
    overlaps_comm y.slot_range x.slot_range ∙ h (λ e. d (sym e)) ax ay (sym r)

-- Two rows after the update of `b`.
replace-Apart :
    (b : Booking) (rows : List Booking)
    → violates b rows ≡ false
    → ((x y : Booking) → IsRow x rows → IsRow y rows → Apart x y)
    → (x y : Booking) → (x ≡ b) ⊎ IsRow x rows
    → (y ≡ b) ⊎ IsRow y rows
    → Apart x y
replace-Apart b rows v all x y (inl e) (inl f) = λ d. absurd (d (ap (λ t. t.id) (e ∙ sym f)))
replace-Apart b rows v all x y (inl e) (inr my) = rw e (violates-Apart b rows y v my)
replace-Apart b rows v all x y (inr mx) (inl f) =
    rw f (Apart-sym b x (violates-Apart b rows x v mx))
replace-Apart b rows v all x y (inr mx) (inr my) = all x y mx my

pub new_or_old :
    (b : Booking) (rows : List Booking) (x : Booking)
    → IsRow x (replace b rows)
    → (x ≡ b) ⊎ IsRow x rows
new_or_old b rows x m = elim (IsRow-replace b rows x m) [ inl e ↦ inl e | inr old ↦ inr old.0 ]

pub added_or_old :
    (b : Booking) (rows : List Booking) (x : Booking)
    → IsRow x (rows ++ b ∷ [])
    → (x ≡ b) ⊎ IsRow x rows
added_or_old b rows x m = elim (IsRow-append rows b x m) [ inl old ↦ inr old | inr e ↦ inl e ]

IsRecorded-either :
    (b : Booking) (rows : List Booking)
    → IsRecorded b
    → ((x : Booking) → IsRow x rows → IsRecorded x)
    → (x : Booking) → (x ≡ b) ⊎ IsRow x rows
    → IsRecorded x
IsRecorded-either b rows r all x (inl e) = rw e r
IsRecorded-either b rows r all x (inr m) = all x m

-- A world whose rows are those of a consistent one, and `b`.
with_row :
    (b : Booking) (w w' : World)
    → IsRecorded b
    → violates b w.bookings ≡ false
    → ((x : Booking) → IsRow x w'.bookings → (x ≡ b) ⊎ IsRow x w.bookings)
    → IsConsistent w
    → IsConsistent w'
with_row b w w' r v from i = record {
  apart = λ x y mx my. replace-Apart b w.bookings v i.apart x y (from x mx) (from y my);
  recorded = λ x m. IsRecorded-either b w.bookings r i.recorded x (from x m);
}

-- What the constraint and the other guards let through.
update-Left :
    (b : Booking) (w : World)
    → IsRecorded b
    → IsConsistent w
    → Left IsConsistent (update_booking b w)
unfolding update_booking
update-Left b w r i = elim (Bool-cases (is_some (get_booking b.id w))) [
  | inr gone ↦ rw gone i
  | inl here ↦ elim (Bool-cases (not (is_some b.total_price_cents) || violates b w.bookings)) [
    | inl refused ↦ rw (here, refused) tt
    | inr passed ↦
        let v : violates b w.bookings ≡ false = ground arith in
        rw (here, passed) (with_row b w _ r v (new_or_old b w.bookings) i)
  ]
]

pub update-Keeps : (b : Booking) → IsRecorded b → Keeps IsConsistent (update_booking b)
update-Keeps b r = record { at = λ w i. update-Left b w r i }

add-Left :
    (b : Booking) (w : World) → IsRecorded b → IsConsistent w → Left IsConsistent (add_booking b w)
unfolding add_booking
add-Left b w r i =
    elim (Bool-cases (
      not (is_some b.total_price_cents) || is_some (get_booking b.id w) || violates b w.bookings)) [
        | inl refused ↦ rw refused tt
        | inr passed ↦
            let v : violates b w.bookings ≡ false = ground arith in
            rw passed (with_row b w _ r v (added_or_old b w.bookings) i)
      ]

pub add-Keeps : (b : Booking) → IsRecorded b → Keeps IsConsistent (add_booking b)
add-Keeps b r = record { at = λ w i. add-Left b w r i }

same_rows : (w w' : World) → w'.bookings ≡ w.bookings → IsConsistent w → IsConsistent w'
same_rows w w' e i = record { apart = rw e i.apart; recorded = rw e i.recorded }

update_resource-Left :
    (r : Resource) (w : World) → IsConsistent w → Left IsConsistent (update_resource r w)
unfolding update_resource
update_resource-Left r w i = elim (Bool-cases (is_some (get_resource r.id w))) [
  | inr gone ↦ rw gone i
  | inl here ↦ rw here (same_rows w _ refl i)
]

pub update_resource-Keeps : (r : Resource) → Keeps IsConsistent (update_resource r)
update_resource-Keeps r = record { at = λ w i. update_resource-Left r w i }

pub notify-Keeps :
    (recipient_id : ℕ) (kind : NotifKind) (payload : List (String × Datum))
    → Keeps IsConsistent (notify recipient_id kind payload)
unfolding notify
notify-Keeps recipient_id kind payload = record { at = λ w i. same_rows w _ refl i }
