-- ===== src/UseCases/Agenda/Matches.antt =====
-- What a slot of the agenda says of the bookings.
use venue_backend.Common.{
  ℕ, ◌<◌, ◌≡◌, refl, sym, ap, ◌∙◌, Bool, true, false, inl, inr, Option, none, some, List, [], ◌∷◌,
  find, select, arith, Bool-cases, Member, Member-find, find-none,
}
use venue_backend.Shared.Result.{value}
use venue_backend.Shared.Time.{utc}
use venue_backend.Shared.Values.{typed, DateTimeRange, create_range, overlaps}
use venue_backend.Bookings.{Booking, is_approved, is_pending}
use venue_backend.UseCases.Agenda.{
  slot_available, slot_pending, slot_approved, AgendaSlot, shown, slot_of,
}

-- Some booking with a test overlaps the range, or none does.
abbrev pub Meets : (Booking → Bool) → List Booking → DateTimeRange → Booking → Type 0
Meets p rows range b = Member b rows × (p b ≡ true) × (overlaps b.slot_range range ≡ true)

abbrev pub NoneMeets : (Booking → Bool) → List Booking → DateTimeRange → Type 0
NoneMeets p rows range =
    (b : Booking) → Member b rows → p b ≡ true → overlaps b.slot_range range ≡ false

-- What a slot says of the bookings in `rows`; who has booked is told only where `detail` is true.
pub data IsTold (detail : Bool) (rows : List Booking) (s : AgendaSlot) : Type 0 where
  approved_by :
      (b : Booking)
      → Meets
          (λ x. is_approved x.status)
          rows
          (record { start_at = s.slot_start_at; end_at = s.slot_end_at })
          b
      → s.status ≡ slot_approved
      → s.booking_id ≡ shown detail b.id
      → s.customer_id ≡ shown detail b.customer_id
      → IsTold detail rows s
  requested_by :
      (b : Booking)
      → NoneMeets
          (λ x. is_approved x.status)
          rows
          (record { start_at = s.slot_start_at; end_at = s.slot_end_at })
      → Meets
          (λ x. is_pending x.status)
          rows
          (record { start_at = s.slot_start_at; end_at = s.slot_end_at })
          b
      → s.status ≡ slot_pending
      → s.booking_id ≡ shown detail b.id
      → s.customer_id ≡ shown detail b.customer_id
      → IsTold detail rows s
  free :
      NoneMeets
        (λ x. is_approved x.status)
        rows
        (record { start_at = s.slot_start_at; end_at = s.slot_end_at })
      → NoneMeets
          (λ x. is_pending x.status)
          rows
          (record { start_at = s.slot_start_at; end_at = s.slot_end_at })
      → s.status ≡ slot_available
      → s.booking_id ≡ none
      → s.customer_id ≡ none
      → IsTold detail rows s

Member-select :
    (p : Booking → Bool) (rows : List Booking) (b : Booking)
    → Member b (select p rows)
    → Member b rows × (p b ≡ true)
Member-select p [] b m = elim m [ ]
Member-select p (y ∷ rows) b m = elim (Bool-cases (p y)) [
  | inl hit ↦ elim (rw hit at m) [
    | inl e ↦ (inl e, ap p (sym e) ∙ hit)
    | inr n ↦ let (here, ok) = Member-select p rows b n in (inr here, ok)
  ]
  | inr miss ↦ let (here, ok) = Member-select p rows b (rw miss at m) in (inr here, ok)
]

select-Member :
    (p : Booking → Bool) (rows : List Booking) (b : Booking)
    → p b ≡ true
    → Member b rows
    → Member b (select p rows)
select-Member p [] b ok m = elim m [ ]
select-Member p (y ∷ rows) b ok (inl e) = rw (ap p e ∙ ok) (inl e)
select-Member p (y ∷ rows) b ok (inr m) = elim (Bool-cases (p y)) [
  | inl hit ↦ rw hit (inr (select-Member p rows b ok m))
  | inr miss ↦ rw miss (select-Member p rows b ok m)
]

found_match :
    (p : Booking → Bool) (rows : List Booking) (range : DateTimeRange) (b : Booking)
    → find (λ y. overlaps y.slot_range range) (select p rows) ≡ some b
    → Meets p rows range b
found_match p rows range b h =
    let (m, over) = Member-find (λ y. overlaps y.slot_range range) (select p rows) b h in
    let (here, ok) = Member-select p rows b m in (here, ok, over)

no_match :
    (p : Booking → Bool) (rows : List Booking) (range : DateTimeRange)
    → find (λ y. overlaps y.slot_range range) (select p rows) ≡ none
    → NoneMeets p rows range
no_match p rows range h b m ok =
    find-none (λ y. overlaps y.slot_range range) (select p rows) b h (select-Member p rows b ok m)

pub slot_of-IsTold :
    (detail : Bool) (rows : List Booking) (range : DateTimeRange) (price : ℕ) (a p : Option Booking)
    → find (λ y. overlaps y.slot_range range) (select (λ b. is_approved b.status) rows) ≡ a
    → find (λ y. overlaps y.slot_range range) (select (λ b. is_pending b.status) rows) ≡ p
    → IsTold detail rows (slot_of detail range price a p)
slot_of-IsTold detail rows range price (some b) p found other =
    approved_by b (found_match (λ x. is_approved x.status) rows range b found) refl refl refl
slot_of-IsTold detail rows range price none (some b) gone found =
    requested_by b (no_match (λ x. is_approved x.status) rows range gone)
      (found_match (λ x. is_pending x.status) rows range b found) refl refl refl
slot_of-IsTold detail rows range price none none gone other =
    free (no_match (λ x. is_approved x.status) rows range gone)
      (no_match (λ x. is_pending x.status) rows range other) refl refl refl

-- What `DateTimeRange.create` makes of two instants starts before it ends.
pub forward_range :
    (a b : ℕ) (r : DateTimeRange)
    → value (create_range (typed (utc a)) (typed (utc b))) ≡ some r
    → r.start_at < r.end_at
unfolding create_range
forward_range a b r h = ground arith
