-- ===== src/UseCases/Agenda/Slots.antt =====
-- The slots that the loop of the agenda makes, and its end.
use venue_backend.Common.{
  ℕ, zero, suc, ◌+◌, ◌-◌, ◌<◌, ◌≡◌, refl, String, Bool, true, false, inl, inr, Option, none, some,
  List, All, ltb, arith, Bool-cases,
}
use venue_backend.Shared.Time.{ZoneData}
use venue_backend.Shared.Values.{DateTimeRange, Money, TimeWindow}
use venue_backend.Bookings.{Booking, is_approved, is_pending}
use venue_backend.Resources.Entity.{Resource}
use venue_backend.Resources.Pricing.{slot_us, compute_price}
use venue_backend.UseCases.Agenda.{
  AgendaSlot, slot_of, Look, skipped, raising, listed, Walk, out_of_fuel, exception, slots,
  followed, match_of, priced, ranged, window_at, is_cut, look, walk, generate_slots,
}
use venue_backend.UseCases.Agenda.Matches.{IsTold, slot_of-IsTold, forward_range}

abbrev pub is_out_of_fuel : Walk → Bool
is_out_of_fuel out_of_fuel = true
is_out_of_fuel _ = false

module _ (zones : ZoneData) (instant_of : String → ℕ → ℕ) (resource : Resource)
    (rows : List Booking) (detail : Bool) where
  -- A slot of the agenda: it starts before it ends, has the price of its range, and tells.
  pub record IsSlot (s : AgendaSlot) : Type 0 where
    pub forward : s.slot_start_at < s.slot_end_at
    pub price :
        (m : Money) × (compute_price zones resource
            (record { start_at = s.slot_start_at; end_at = s.slot_end_at })
          ≡ some m)
        × (s.price_cents ≡ m.cents)
    pub told : IsTold detail rows s

  abbrev LooksGood : Look → Type 0
  LooksGood (listed s) = IsSlot s
  LooksGood _ = Unit

  slot_of_range :
      (range : DateTimeRange) (price : ℕ) (a p : Option Booking)
      → ((slot_of detail range price a p).slot_start_at ≡ range.start_at)
        × ((slot_of detail range price a p).slot_end_at ≡ range.end_at)
        × ((slot_of detail range price a p).price_cents ≡ price)
  slot_of_range range price (some b) p = (refl, refl, refl)
  slot_of_range range price none (some b) = (refl, refl, refl)
  slot_of_range range price none none = (refl, refl, refl)

  priced-LooksGood :
      (range : DateTimeRange) (m : Option Money)
      → range.start_at < range.end_at
      → compute_price zones resource range ≡ m
      → LooksGood (priced zones instant_of resource rows detail range m)
  priced-LooksGood range none forward e = tt
  priced-LooksGood range (some price) forward e =
      let a = match_of zones instant_of resource rows detail (λ b. is_approved b.status) range in
      let p = match_of zones instant_of resource rows detail (λ b. is_pending b.status) range in
      let (first, last, cost) = slot_of_range range price.cents a p in
      record {
        forward = rw (first, last) forward;
        price = (price, rw (first, last) e, cost);
        told = slot_of-IsTold detail rows range price.cents a p refl refl;
      }

  ranged-LooksGood :
      (range : Option DateTimeRange)
      → ((r : DateTimeRange) → range ≡ some r → r.start_at < r.end_at)
      → LooksGood (ranged zones instant_of resource rows detail range)
  ranged-LooksGood none forward = tt
  ranged-LooksGood (some range) forward =
      priced-LooksGood range (compute_price zones resource range) (forward range refl) refl

  look-LooksGood :
      (window : Option TimeWindow) (cursor start_at : ℕ)
      → LooksGood (look zones instant_of resource rows detail window cursor start_at)
  look-LooksGood none cursor start_at = tt
  look-LooksGood (some window) cursor start_at =
      elim (Bool-cases
        (is_cut zones instant_of resource rows detail window cursor (cursor + slot_us resource))) [
          | inl cut ↦ rw cut tt
          | inr whole ↦ rw whole (
              ranged-LooksGood _
                (forward_range start_at (instant_of resource.timezone (cursor + slot_us resource))))
        ]

  -- A loop whose slots, if it comes to its end with slots, are good.
  abbrev pub IsGood : Walk → Type 0
  IsGood (slots l) = All IsSlot l
  IsGood _ = Unit

  followed-IsGood : (l : Look) (rest : Walk) → LooksGood l → IsGood rest → IsGood (followed l rest)
  followed-IsGood skipped rest g e = e
  followed-IsGood raising rest g e = tt
  followed-IsGood (listed s) out_of_fuel g e = tt
  followed-IsGood (listed s) exception g e = tt
  followed-IsGood (listed s) (slots l) g e = (g, e)

  walk-IsGood :
      (fuel cursor start_at local_end : ℕ)
      → IsGood (walk zones instant_of resource rows detail fuel cursor start_at local_end)
  unfolding walk
  walk-IsGood zero cursor start_at local_end = tt
  walk-IsGood (suc fuel) cursor start_at local_end = elim (Bool-cases (ltb cursor local_end)) [
    | inr over ↦ rw over tt
    | inl more ↦ rw more (
        followed-IsGood _ _ (look-LooksGood _ cursor start_at) (
          walk-IsGood fuel (cursor + slot_us resource)
            (instant_of resource.timezone (cursor + slot_us resource)) local_end))
  ]

  pub generate_slots-IsGood :
      (range_start range_end : ℕ)
      → IsGood (generate_slots zones instant_of resource rows detail range_start range_end)
  unfolding generate_slots
  generate_slots-IsGood range_start range_end =
      let local_start = zones.local resource.timezone range_start in
      let local_end = zones.local resource.timezone range_end in
      walk-IsGood (suc (local_end - local_start)) local_start range_start local_end

  followed_ends :
      (l : Look) (rest : Walk)
      → is_out_of_fuel rest ≡ false
      → is_out_of_fuel (followed l rest) ≡ false
  followed_ends skipped rest h = h
  followed_ends raising rest h = refl
  followed_ends (listed s) out_of_fuel h = cc
  followed_ends (listed s) exception h = refl
  followed_ends (listed s) (slots l) h = refl

  walk_ends :
      (fuel cursor start_at local_end : ℕ)
      → 0 < slot_us resource
      → local_end - cursor < fuel
      → is_out_of_fuel (walk zones instant_of resource rows detail fuel cursor start_at local_end)
        ≡ false
  unfolding walk
  walk_ends zero cursor start_at local_end moves enough = elim enough [ ]
  walk_ends (suc fuel) cursor start_at local_end moves enough =
      elim (Bool-cases (ltb cursor local_end)) [
        | inr over ↦ rw over refl
        | inl more ↦
            let lt : cursor < local_end = ground arith in
            rw more (
              followed_ends
                (look zones instant_of resource rows detail
                  (window_at zones instant_of resource rows detail cursor) cursor start_at)
                _
                (walk_ends fuel (cursor + slot_us resource)
                  (instant_of resource.timezone (cursor + slot_us resource)) local_end moves
                  (omega arith)))
      ]

  -- Where the slots of the resource have a length, the fuel of the loop is enough.
  pub generate_slots_ends :
      (range_start range_end : ℕ)
      → 0 < slot_us resource
      → is_out_of_fuel (generate_slots zones instant_of resource rows detail range_start range_end)
        ≡ false
  unfolding generate_slots
  generate_slots_ends range_start range_end moves =
      let local_start = zones.local resource.timezone range_start in
      let local_end = zones.local resource.timezone range_end in
      walk_ends (suc (local_end - local_start)) local_start range_start local_end moves
        (omega arith)
