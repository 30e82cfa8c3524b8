-- ===== src/UseCases/Agenda/Told.antt =====
-- What the agenda tells.
use venue_backend.Common.{
  ℕ, ◌<◌, ◌≡◌, ◌↔◌, String, Bool, true, not, inl, inr, some, List, [], ◌∷◌, All, select, leb, arith,
  Bool-cases, Member,
}
use venue_backend.Shared.Time.{ZoneData}
use venue_backend.Shared.Values.{Money}
use venue_backend.Bookings.{Booking}
use venue_backend.Resources.Entity.{Resource, is_deleted}
use venue_backend.Resources.Pricing.{compute_price}
use venue_backend.Store.{World, done, pure}
use venue_backend.Store.Returns.{ensure_then, some_or_then, ask_then}
use venue_backend.UseCases.Agenda.{
  AgendaSlot, GetAgendaQuery, insert_by_start, sort_by_start, is_in_range,
  list_in_range_for_resource, resource_by, is_owner_view, Walk, out_of_fuel, exception, slots,
  generate_slots, slots_or_raise, get_agenda,
}
use venue_backend.UseCases.Agenda.Matches.{IsTold, approved_by, requested_by, free}
use venue_backend.UseCases.Agenda.Slots.{IsSlot, generate_slots-IsGood}

Member-insert :
    (b x : Booking) (rows : List Booking)
    → Member x (insert_by_start b rows) ↔ (Member x (b ∷ rows))
Member-insert b x [] = (λ m. m, λ m. m)
Member-insert b x (y ∷ rows) = elim (Bool-cases (leb b.slot_range.start_at y.slot_range.start_at)) [
  | inl first ↦ rw first (λ m. m, λ m. m)
  | inr later ↦
      let rest = Member-insert b x rows in
      rw later (
        λ m. elim m [
          | inl e ↦ inr (inl e)
          | inr n ↦ elim (rest.0 n) [ inl e ↦ inl e | inr k ↦ inr (inr k) ]
        ],
        λ m. elim m [
          | inl e ↦ inr (rest.1 (inl e))
          | inr n ↦ elim n [ inl e ↦ inl e | inr k ↦ inr (rest.1 (inr k)) ]
        ],
      )
]

Member-sort : (x : Booking) (rows : List Booking) → Member x (sort_by_start rows) ↔ Member x rows
Member-sort x [] = (λ m. m, λ m. m)
Member-sort x (b ∷ rows) =
    let here = Member-insert b x (sort_by_start rows) in
    let rest = Member-sort x rows in
    (
      λ m. elim (here.0 m) [ inl e ↦ inl e | inr n ↦ inr (rest.0 n) ],
      λ m. elim m [ inl e ↦ here.1 (inl e) | inr n ↦ here.1 (inr (rest.1 n)) ],
    )

-- The order of the rows does not matter.
reordered-IsTold :
    (detail : Bool) (rows rows' : List Booking) (s : AgendaSlot)
    → ((b : Booking) → Member b rows ↔ Member b rows')
    → IsTold detail rows s
    → IsTold detail rows' s
reordered-IsTold detail rows rows' s same (approved_by b m status id customer) =
    approved_by b ((same b).0 m.0, m.1, m.2) status id customer
reordered-IsTold detail rows rows' s same (requested_by b unmet m status id customer) =
    requested_by b (λ x n. unmet x ((same x).1 n)) ((same b).0 m.0, m.1, m.2) status id customer
reordered-IsTold detail rows rows' s same (free unmet none_asked status id customer) =
    free (λ x n. unmet x ((same x).1 n)) (λ x n. none_asked x ((same x).1 n)) status id customer

-- A slot of the agenda of a resource, of the bookings of the resource in the range that was asked for.
pub record IsShown (zones : ZoneData) (query : GetAgendaQuery) (w : World) (resource : Resource)
    (s : AgendaSlot) : Type 0 where
  pub forward : s.slot_start_at < s.slot_end_at
  pub price :
      (m : Money) × (compute_price zones resource
          (record { start_at = s.slot_start_at; end_at = s.slot_end_at })
        ≡ some m)
      × (s.price_cents ≡ m.cents)
  pub told :
      IsTold
        (is_owner_view query.actor_id resource)
        (select
          (is_in_range resource.id
            (record { start_at = query.range_start; end_at = query.range_end }))
          w.bookings)
        s

All-IsShown :
    (zones : ZoneData) (instant_of : String → ℕ → ℕ) (query : GetAgendaQuery) (w : World)
    (resource : Resource) (l : List AgendaSlot)
    → All
        (IsSlot zones instant_of resource
          (list_in_range_for_resource resource.id
            (record { start_at = query.range_start; end_at = query.range_end })
            w)
          (is_owner_view query.actor_id resource))
        l
    → All (IsShown zones query w resource) l
unfolding list_in_range_for_resource
All-IsShown zones instant_of query w resource [] a = tt
All-IsShown zones instant_of query w resource (s ∷ l) (i, rest) = (
  record {
    forward = i.forward;
    price = i.price;
    told = reordered-IsTold _ _ _ s (λ b. Member-sort b _) i.told;
  },
  All-IsShown zones instant_of query w resource l rest,
)

returned_slots :
    (walk_result : Walk) (w : World) {l : List AgendaSlot} {w' : World}
    → slots_or_raise walk_result w ≡ done l w'
    → (walk_result ≡ slots l) × (w' ≡ w)
unfolding slots_or_raise pure
returned_slots (slots k) w h = ground arith
returned_slots out_of_fuel w h = cc
returned_slots exception w h = cc

-- Where the agenda is returned, the resource is the one that was asked for and is not deleted, and
-- nothing is written. Of the bookings of the resource in the range: a slot is APPROVED where an
-- approved one overlaps it, else PENDING where a pending one does, else AVAILABLE; the slot has the
-- price that a request for it gets; and who has booked it is told to the owner alone.
pub get_agenda_tells :
    (zones : ZoneData) (instant_of : String → ℕ → ℕ) (query : GetAgendaQuery) (w w' : World)
    (l : List AgendaSlot)
    → get_agenda zones instant_of query w ≡ done l w'
    → (w' ≡ w)
      × (resource : Resource) × (resource_by query.resource_id query.owner_slug query.resource_slug
            w
          ≡ some resource)
      × (not (is_deleted resource) ≡ true)
      × All (IsShown zones query w resource) l
unfolding get_agenda
get_agenda_tells zones instant_of query w w' l h =
    let (_, h1) = ensure_then w _ _ _ h in
    let (resource, found, h2) = some_or_then w _ _ _ (ask_then w _ _ h1) in
    let (there, h3) = ensure_then w _ _ _ h2 in
    let rows =
      list_in_range_for_resource resource.id
        (record { start_at = query.range_start; end_at = query.range_end }) w in
    let view = is_owner_view query.actor_id resource in
    let (made, left) =
      returned_slots
        (generate_slots zones instant_of resource rows view query.range_start query.range_end) w
        (ask_then w _ _ h3) in
    let good =
      generate_slots-IsGood zones instant_of resource rows view query.range_start query.range_end in
    (
      left,
      resource,
      found,
      there,
      All-IsShown zones instant_of query w resource l (rw made at good),
    )
