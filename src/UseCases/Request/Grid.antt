-- ===== src/UseCases/Request/Grid.antt =====
-- The walk over the slots of a request in local time.
use venue_backend.Common.{
  Bool, ◌≤◌, ◌-◌, ◌%◌, ◌==◌, ◌&&◌, ℕ, zero, suc, ◌+◌, ◌<◌, ◌≡◌, true, some, arith, ◌↔◌, ◌*◌, ◌/◌,
  ap, sym, ◌∙◌, ==_iff,
}
use native.Mathlib.Nat.{div-add-mod', mul-mod_left}
use venue_backend.Shared.Time.{ZoneData}
use venue_backend.Shared.Result.{success}
use venue_backend.Shared.Time.{minutes_of_day, time_of, minute_us}
use venue_backend.Shared.Values.{DateTimeRange, duration_minutes}
use venue_backend.Resources.Entity.{Resource}
use venue_backend.Resources.Pricing.{slot_us}
use venue_backend.Resources.Pricing.Sum.{Slots, Slots-of}
use venue_backend.UseCases.Request.{is_open, all_open, validate_alignment_and_hours}

-- Less than one minute past a multiple of `slot` minutes, both counted from 0.
abbrev pub IsNearGrid : ℕ → ℕ → Type 0
IsNearGrid slot t = (k : ℕ) × (k * slot * minute_us ≤ t) × (t < (k * slot + 1) * minute_us)

whole_minutes : (slot t : ℕ) → ((t / minute_us % slot == 0) ≡ true) ↔ IsNearGrid slot t
whole_minutes slot t = (near, tested)
  where
    near : (t / minute_us % slot == 0) ≡ true → IsNearGrid slot t
    near h =
        let parts = div-add-mod' (t / minute_us) slot in
        let zero_left = (==_iff _ _).0 h in
        (t / minute_us / slot, omega (arith, parts, zero_left), omega (arith, parts, zero_left))

    tested : IsNearGrid slot t → (t / minute_us % slot == 0) ≡ true
    tested (k, low, high) =
        let quotient : t / minute_us ≡ k * slot = omega arith in
        (==_iff _ _).1 (ap (λ m. m % slot) quotient ∙ mul-mod_left k slot)

minutes_lem : (t : ℕ) → minutes_of_day t ≡ t / minute_us
minutes_lem t = omega arith

both : (x y : Bool) → (x && y) ≡ true → (x ≡ true) × (y ≡ true)
both x y h = ground arith

both_true : (x y : Bool) → x ≡ true → y ≡ true → (x && y) ≡ true
both_true x y h k = ground arith

module _ (zones : ZoneData) (r : Resource) where
  -- The local readings at which `n` slots start all lie in an operating window of their weekday.
  abbrev pub AreOpen : ℕ → ℕ → Type 0
  AreOpen zero cursor = Unit
  AreOpen (suc n) cursor = (is_open zones r cursor ≡ true) × AreOpen n (cursor + slot_us r)

  -- The walk, of a number of slots and with fuel for them.
  walk_exact :
      (n fuel cursor local_end : ℕ)
      → n < fuel
      → Slots zones r n cursor local_end
      → (all_open zones r fuel cursor local_end ≡ some true) ↔ AreOpen n cursor
  unfolding all_open
  walk_exact n zero cursor local_end h s = elim h [ ]
  walk_exact zero (suc fuel) cursor local_end h s = ground arith
  walk_exact (suc n) (suc fuel) cursor local_end h s =
      ground (arith, walk_exact n fuel (cursor + slot_us r) local_end (omega arith) s.1)

  -- The local time of day at which the range starts, and its duration, both near the slot grid.
  abbrev pub IsNear : DateTimeRange → Type 0
  IsNear range =
      IsNearGrid r.slot_duration_minutes.minutes (time_of (zones.local r.timezone range.start_at))
      × IsNearGrid r.slot_duration_minutes.minutes (range.end_at - range.start_at)

  -- The tests of whole minutes, as the code makes them.
  abbrev on_grid : DateTimeRange → Bool
  on_grid range =
      let slot = r.slot_duration_minutes.minutes in
      minutes_of_day (time_of (zones.local r.timezone range.start_at)) % slot == 0
      && duration_minutes range % slot == 0

  on_grid-IsNear : (range : DateTimeRange) → (on_grid range ≡ true) ↔ IsNear range
  on_grid-IsNear range =
      let slot = r.slot_duration_minutes.minutes in
      let start = time_of (zones.local r.timezone range.start_at) in
      let duration = range.end_at - range.start_at in
      let at_start = whole_minutes slot start in
      let at_end = whole_minutes slot duration in
      let day : minutes_of_day start ≡ start / minute_us = minutes_lem start in
      (
        (λ h.
            let (x, y) = both _ _ h in
            (at_start.0 (ap (λ m. m % slot == 0) (sym day) ∙ x), at_end.0 y)),
        (λ h. both_true _ _ (ap (λ m. m % slot == 0) day ∙ at_start.1 h.0) (at_end.1 h.1)),
      )

  -- `_validate_alignment_and_hours` ends on every range. It accepts the range exactly when the local
  -- time of day at which it starts and its duration are each less than one minute past a multiple of
  -- the slot duration, seconds being left aside, and every slot that starts before the local end,
  -- one slot duration after another from the local start, starts in an operating window of its
  -- weekday.
  pub validate_alignment_and_hours_exact :
      (range : DateTimeRange)
      → 0 < r.slot_duration_minutes.minutes
      → let local_start = zones.local r.timezone range.start_at in
        let local_end = zones.local r.timezone range.end_at in
        (n : ℕ) × Slots zones r n local_start local_end
        × ((validate_alignment_and_hours zones r range ≡ success tt)
            ↔ (IsNear range × AreOpen n local_start))
  unfolding validate_alignment_and_hours
  validate_alignment_and_hours_exact range p =
      let local_start = zones.local r.timezone range.start_at in
      let local_end = zones.local r.timezone range.end_at in
      let (n, small, s) =
        Slots-of zones r (suc (local_end - local_start)) local_start local_end (omega arith)
          (omega arith) in
      let tested : (validate_alignment_and_hours zones r range ≡ success tt)
          ↔ ((on_grid range ≡ true) × AreOpen n local_start) =
        ground (arith, walk_exact n _ local_start local_end small s) in
      let near = on_grid-IsNear range in
      (n, s, ((λ h. let (g, o) = tested.0 h in (near.0 g, o)), (λ h. tested.1 (near.1 h.0, h.1))))
