-- ===== src/UseCases/Inputs.antt =====
-- The inputs of create_resource.py and of the handlers that replace parts of a resource, and the value
-- objects that the handlers build of them, with the place of each error. `digit` is the table of the
-- digits that `int` reads.
pub mod Built
use venue_backend.Common.{
  ℕ, suc, ◌+◌, String, Option, none, some, List, [], ◌∷◌, ◌++◌, if◌then◌else◌, Bool, true, false,
  ◌&&◌, ◌||◌, any, is_some,
}
use venue_backend.Shared.Result.{
  Field, plain, indexed, within, FieldError, Result, success, failed, field_errors, nested,
}
use venue_backend.Shared.Time.{
  ℤ, Weekday, monday, tuesday, wednesday, thursday, friday, saturday, sunday, same_day,
}
use venue_backend.Shared.Values.{
  Raw, Typed, typed, mistyped, TimeWindow, create_window, Money, create_money, fail_with,
}
use venue_backend.Shared.Clock.{split_colon, parts_overflow, str_to_time}
use venue_backend.Resources.Rules.{PricingRule, create_rule}
use venue_backend.Resources.Entity.{CustomAttribute}
use venue_backend.Resources.Entity.Creation.{CustomInput, create_custom}

pub record TimeWindowInput : Type 0 where
  pub start : String
  pub end : String

-- `OperatingHoursInput.days`: the items of the dict in their order.
abbrev pub DaysInput : Type 0
DaysInput = List (Weekday × List TimeWindowInput)

pub record PricingRuleInput : Type 0 where
  pub weekdays : List Weekday
  pub window : TimeWindowInput
  pub price_cents : Raw

-- `f"operating_hours.days.{wd.value.lower()}"`
abbrev pub hours_field : Weekday → String
hours_field monday = "operating_hours.days.monday"
hours_field tuesday = "operating_hours.days.tuesday"
hours_field wednesday = "operating_hours.days.wednesday"
hours_field thursday = "operating_hours.days.thursday"
hours_field friday = "operating_hours.days.friday"
hours_field saturday = "operating_hours.days.saturday"
hours_field sunday = "operating_hours.days.sunday"

abbrev pub window_of : Option ℕ → Option ℕ → Result TimeWindow
window_of (some start) (some end) = create_window (typed start) (typed end)
window_of _ _ = fail_with "TimeWindowInvalidType"

-- A value that is kept where it was made.
abbrev pub kept : {A : Type 0} → Result A → List A → List A
kept (success a) rest = a ∷ rest
kept (failed e) rest = rest

-- `a, b = parts`
abbrev is_pair : List String → Bool
is_pair (a ∷ b ∷ []) = true
is_pair _ = false

module _ (digit : ℕ → Option ℕ) where
  -- Whether `_parse_time_window` raises an `OverflowError`, which it does not catch: both texts split
  -- in two, and a number of the start is too large for `time`, or the start is a time and a number of
  -- the end is too large.
  unfoldable pub window_overflows : TimeWindowInput → Bool
  window_overflows tw =
      (is_pair (split_colon tw.start) && is_pair (split_colon tw.end))
      && (parts_overflow digit (split_colon tw.start)
          || (is_some (str_to_time digit tw.start) && parts_overflow digit (split_colon tw.end)))

  -- The same of a loop over the days, and of one over the pricing rules.
  abbrev pub days_overflow : DaysInput → Bool
  days_overflow days = any (λ day. any window_overflows day.1) days

  abbrev pub rules_overflow : List PricingRuleInput → Bool
  rules_overflow rules = any (λ i. window_overflows i.window) rules

  -- `_parse_time_window`, where it raises nothing.
  unfoldable pub parse_window : TimeWindowInput → Result TimeWindow
  parse_window tw = window_of (str_to_time digit tw.start) (str_to_time digit tw.end)

  -- The loop over the windows of a day.
  unfoldable pub window_errors_from : String → ℕ → List TimeWindowInput → List FieldError
  window_errors_from field idx [] = []
  window_errors_from field idx (tw ∷ tws) =
      field_errors (indexed field idx) (parse_window tw) ++ window_errors_from field (idx + 1) tws

  unfoldable pub windows_built : List TimeWindowInput → List TimeWindow
  windows_built [] = []
  windows_built (tw ∷ tws) = kept (parse_window tw) (windows_built tws)

  -- The loop over the days.
  unfoldable pub days_errors : DaysInput → List FieldError
  days_errors [] = []
  days_errors ((wd, tws) ∷ days) = window_errors_from (hours_field wd) 0 tws ++ days_errors days

  -- `days_built.get(wd, [])`
  unfoldable pub days_built : DaysInput → Weekday → List TimeWindow
  days_built [] wd = []
  days_built ((day, tws) ∷ days) wd =
      let rest = days_built days wd in if same_day day wd then windows_built tws else rest

  -- One pricing rule: the errors of its window, of its price and of its weekdays, the first of them.
  abbrev pub rule_result :
      ℕ → PricingRuleInput → Result TimeWindow → Result Money → List FieldError × List PricingRule
  rule_result idx i (failed e) money =
      let place = within (indexed "pricing_rules" idx) (plain "window") in
      (field_errors {A = TimeWindow} place (failed e), [])
  rule_result idx i (success w) (failed e) =
      let place = within (indexed "pricing_rules" idx) (plain "price_cents") in
      (field_errors {A = Money} place (failed e), [])
  rule_result idx i (success w) (success money) = (
    field_errors (indexed "pricing_rules" idx) (create_rule i.weekdays w money),
    kept (create_rule i.weekdays w money) [],
  )

  -- The loop over the pricing rules.
  unfoldable pub rules_built : ℕ → List PricingRuleInput → List FieldError × List PricingRule
  rules_built idx [] = ([], [])
  rules_built idx (i ∷ is) =
      let this = rule_result idx i (parse_window i.window) (create_money i.price_cents) in
      let rest = rules_built (idx + 1) is in (this.0 ++ rest.0, this.1 ++ rest.1)

-- The loop over the custom attributes.
unfoldable pub customs_errors : ℕ → List CustomInput → List FieldError
customs_errors idx [] = []
customs_errors idx (i ∷ is) =
    nested (indexed "custom_attributes" idx) (create_custom i) ++ customs_errors (idx + 1) is

unfoldable pub customs_built : List CustomInput → List CustomAttribute
customs_built [] = []
customs_built (i ∷ is) = kept (create_custom i) (customs_built is)
