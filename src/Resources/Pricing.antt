-- ===== src/Resources/Pricing.antt =====
-- `Resource.compute_price` of resource.py.
pub mod Sum
use venue_backend.Common.{
  ℕ, zero, suc, ◌+◌, ◌-◌, ◌*◌, String, Bool, Option, none, some, List, ltb, if◌then◌else◌, find,
}
use venue_backend.Shared.Result.{value}
use venue_backend.Shared.Time.{pos, minute_us, time_of, weekday_of, ZoneData}
use venue_backend.Shared.Values.{integer, Money, create_money, DateTimeRange}
use venue_backend.Resources.Rules.{PricingRule, matches}
use venue_backend.Resources.Entity.{Resource}

-- `timedelta(minutes=slot_minutes)`
abbrev pub slot_us : Resource → ℕ
slot_us r = r.slot_duration_minutes.minutes * minute_us

-- `matched.price.cents if matched else self.base_price_cents.cents`
abbrev pub price_or : ℕ → Option PricingRule → ℕ
price_or base none = base
price_or base (some rule) = rule.price.cents

module _ (zones : ZoneData) (r : Resource) where
  -- The price of the slot that starts at `cursor`: the first rule that matches in local time.
  unfoldable pub slot_price : ℕ → ℕ
  slot_price cursor =
      let wall = zones.local r.timezone cursor in
      price_or r.base_price_cents.cents
        (find (matches (weekday_of wall) (time_of wall)) r.pricing_rules)

  -- The `while` loop; `none` means that the fuel ran out.
  unfoldable pub sum_slots : ℕ → ℕ → ℕ → ℕ → Option ℕ
  sum_slots zero cursor end_at total = none
  sum_slots (suc fuel) cursor end_at total =
      let rest = sum_slots fuel (cursor + slot_us r) end_at (total + slot_price cursor) in
      if ltb cursor end_at then rest else some total

  -- `Money.create(total).value`: `none` where the sum is above the largest amount of money.
  abbrev pub money_of : Option ℕ → Option Money
  money_of none = none
  money_of (some total) = value (create_money (integer (pos total)))

  -- The cursor moves by at least a microsecond, so this fuel is enough: see `Sum`.
  unfoldable pub compute_price : DateTimeRange → Option Money
  unfolding sum_slots
  compute_price range =
      money_of (sum_slots (suc (range.end_at - range.start_at)) range.start_at range.end_at 0)
