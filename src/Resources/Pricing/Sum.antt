-- ===== src/Resources/Pricing/Sum.antt =====
-- What `compute_price` adds up, that it ends, and when it has no amount of money to return.
use mathlib.Core.Path.{subst}
use mathlib.Core.Bool.{true≢false}
use native.Mathlib.Nat.{zero-add}
use venue_backend.Common.{
  ℕ, zero, suc, ◌+◌, ◌-◌, ◌*◌, ◌≤◌, ◌<◌, ◌≡◌, refl, true, none, some, [], ltb, if◌then◌else◌, find,
  arith, Bool-cases, Option-cases, Member, Member-find, find-none, any, sym, ◌∙◌, inl, inr,
}
use venue_backend.Shared.Result.{value}
use venue_backend.Shared.Time.{pos, time_of, weekday_of, same_day, ZoneData}
use venue_backend.Shared.Values.{integer, create_money, max_cents, DateTimeRange}
use venue_backend.Resources.Rules.{PricingRule, matches}
use venue_backend.Resources.Rules.Exact.{find_matching}
use venue_backend.Resources.Entity.{Resource}
use venue_backend.Resources.Entity.Invariant.{IsResource}
use venue_backend.Resources.Pricing.{slot_us, slot_price, sum_slots, compute_price}

-- The weekday of a reading is among the weekdays of the rule, and its time of day in the window.
abbrev pub Covers : ℕ → PricingRule → Type 0
Covers wall rule =
    (any (same_day (weekday_of wall)) rule.weekdays ≡ true)
    × (rule.window.start ≤ time_of wall)
    × (time_of wall < rule.window.end)

matches-Covers :
    (wall : ℕ) (rule : PricingRule)
    → matches (weekday_of wall) (time_of wall) rule ≡ true
    → Covers wall rule
matches-Covers wall rule h = (ground arith, ground arith, ground arith)

Covers-matches :
    (wall : ℕ) (rule : PricingRule)
    → Covers wall rule
    → matches (weekday_of wall) (time_of wall) rule ≡ true
Covers-matches wall rule c = ground (arith, c.0, c.1, c.2)

some_injective : {a b : PricingRule} → some a ≡ some b → a ≡ b
some_injective h = cc

regroup : (n c d : ℕ) → c + d + n * d ≡ c + suc n * d
regroup n c d = omega arith

module _ (zones : ZoneData) (r : Resource) where
  -- The prices of `n` slots from `cursor` on.
  pub price_sum : ℕ → ℕ → ℕ
  price_sum zero cursor = 0
  price_sum (suc n) cursor = slot_price zones r cursor + price_sum n (cursor + slot_us r)

  -- `n` slots start before the end, and the next one would not.
  abbrev pub Slots : ℕ → ℕ → ℕ → Type 0
  Slots zero cursor end_at = end_at ≤ cursor
  Slots (suc n) cursor end_at = (cursor < end_at) × Slots n (cursor + slot_us r) end_at

  sum_slots-price_sum :
      (n fuel cursor end_at total : ℕ)
      → n < fuel
      → Slots n cursor end_at
      → sum_slots zones r fuel cursor end_at total ≡ some (total + price_sum n cursor)
  unfolding sum_slots price_sum
  sum_slots-price_sum n zero cursor end_at total h s = elim h [ ]
  sum_slots-price_sum zero (suc fuel) cursor end_at total h s = ground arith
  sum_slots-price_sum (suc n) (suc fuel) cursor end_at total h s = ground (
    arith,
    sum_slots-price_sum n fuel (cursor + slot_us r) end_at (total + slot_price zones r cursor)
        (omega arith) s.1,
  )

  -- A range that begins at `cursor` and is shorter than the fuel has some number of slots.
  pub Slots-of :
      (fuel cursor end_at : ℕ)
      → 0 < slot_us r
      → end_at - cursor < fuel
      → (n : ℕ) × (n < fuel) × Slots n cursor end_at
  Slots-of zero cursor end_at p h = elim h [ ]
  Slots-of (suc fuel) cursor end_at p h = elim (Bool-cases (ltb cursor end_at)) [
    | inl more ↦
        let lt : cursor < end_at = ground arith in
        let (n, small, s) = Slots-of fuel (cursor + slot_us r) end_at p (omega arith) in
        (suc n, omega arith, (lt, s))
    | inr done ↦ (0, omega arith, ground arith)
  ]

  -- `compute_price` ends on every range, and returns the sum of the prices of the slots that start
  -- in the range, one slot duration after another from its start; it returns no amount exactly when
  -- that sum is above the largest amount of money.
  pub compute_price_exact :
      (range : DateTimeRange)
      → 0 < r.slot_duration_minutes.minutes
      → (n : ℕ) × Slots n range.start_at range.end_at
        × (compute_price zones r range ≡ (
            if ltb max_cents (price_sum n range.start_at)
            then none
            else some (record { cents = price_sum n range.start_at })))
  unfolding compute_price create_money
  compute_price_exact range p =
      let (n, small, s) =
        Slots-of (suc (range.end_at - range.start_at)) range.start_at range.end_at (omega arith)
          (omega arith) in
      let e = sum_slots-price_sum n _ range.start_at range.end_at 0 small s in
      (n, s, rw (e, zero-add) (money (price_sum n range.start_at)))
    where
      money :
          (c : ℕ)
          → value (create_money (integer (pos c)))
            ≡ (if ltb max_cents c then none else some (record { cents = c }))
      money c = ground arith

  -- In a well-formed resource a slot has the price of the rule that matches its local weekday and
  -- time of day, wherever that rule stands among the pricing rules.
  slot_price_of_rule :
      (cursor : ℕ) (rule : PricingRule)
      → IsResource r
      → Member rule r.pricing_rules
      → let wall = zones.local r.timezone cursor in
        matches (weekday_of wall) (time_of wall) rule ≡ true
        → slot_price zones r cursor ≡ rule.price.cents
  unfolding slot_price
  slot_price_of_rule cursor rule i m h =
      let wall = zones.local r.timezone cursor in
      rw (find_matching [] r.pricing_rules rule (weekday_of wall) (time_of wall) i.rules.1 m h)

  -- The price of a slot whose start reads `wall` on the local clock: that of the only rule that
  -- covers the reading, or the base price where no rule does.
  pub data HasPrice (wall price : ℕ) : Type 0 where
    ruled :
        (rule : PricingRule)
        → Member rule r.pricing_rules
        → Covers wall rule
        → ((other : PricingRule) → Member other r.pricing_rules → Covers wall other → rule ≡ other)
        → price ≡ rule.price.cents
        → HasPrice wall price
    base :
        ((rule : PricingRule) → Member rule r.pricing_rules → ¬ Covers wall rule)
        → price ≡ r.base_price_cents.cents
        → HasPrice wall price

  -- In a well-formed resource the price of every slot is that of the rule, and only one rule can be
  -- it, that has the local weekday of the slot's start among its weekdays and the local time of day
  -- in its window, the end excluded, wherever the rule stands; where there is none, the base price.
  pub slot_price_exact :
      (cursor : ℕ)
      → IsResource r
      → HasPrice (zones.local r.timezone cursor) (slot_price zones r cursor)
  unfolding slot_price
  slot_price_exact cursor i =
      let wall = zones.local r.timezone cursor in
      let test = matches (weekday_of wall) (time_of wall) in
      elim (Option-cases (find test r.pricing_rules)) [
        | inl nothing ↦
            base
              (λ rule m c.
                true≢false (
                  sym (Covers-matches wall rule c) ∙ find-none test r.pricing_rules rule nothing m))
              (rw nothing refl)
        | inr (rule, found) ↦
            let (m, hit) = Member-find test r.pricing_rules rule found in
            ruled rule m (matches-Covers wall rule hit)
              (λ other at c. some_injective (
                sym found
                ∙ find_matching [] r.pricing_rules other (weekday_of wall) (time_of wall) i.rules.1
                    at (Covers-matches wall other c)))
              (rw found refl)
      ]

  -- The slots of a range are as many as its length holds, if its length is a multiple of theirs.
  Slots-aligned : (n cursor : ℕ) → 0 < slot_us r → Slots n cursor (cursor + n * slot_us r)
  Slots-aligned zero cursor p = omega arith
  Slots-aligned (suc n) cursor p = (
    grind arith,
    subst (Slots n (cursor + slot_us r)) (regroup n cursor (slot_us r))
        (Slots-aligned n (cursor + slot_us r) p),
  )
